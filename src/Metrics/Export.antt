-- ===== src/Metrics/Export.antt =====
-- The lines that `export_prometheus_metrics` of src/metrics.py writes.
use mx2_sandbox.Base.{
  ℕ, ◌≡◌, refl, Str, str, false, List, [], ◌∷◌, ◌++◌, All, All-append, nat_eq, list_eq,
}
use mx2_sandbox.Base.Decimal.{decimal, decimal-IsDigits}
use mx2_sandbox.Base.Text.{splitlines, is_line_end, join}
use mx2_sandbox.Base.Text.Lines.{
  IsLine, has_line_end, has_line_end-IsLine, append-IsLine, digits-IsLine, splitlines-join,
}
use mx2_sandbox.Metrics.{Metrics, metric, export_prometheus_metrics}

spaced-IsLine : (s t : Str) → has_line_end s ≡ false → IsLine t → IsLine (s ++ (str " " ++ t))
unfolding is_line_end nat_eq
spaced-IsLine s t h k = append-IsLine s (32 ∷ t) (has_line_end-IsLine s h) (refl, k)

metric-lines :
    (name help kind : Str) (value : ℕ)
    → has_line_end name ≡ false
    → has_line_end help ≡ false
    → has_line_end kind ≡ false
    → All IsLine (metric name help kind value)
unfolding is_line_end nat_eq
metric-lines name help kind value h k i =
    let help_line =
      append-IsLine (str "# HELP ") (name ++ (str " " ++ help))
        (has_line_end-IsLine (str "# HELP ") refl)
        (spaced-IsLine name help h (has_line_end-IsLine help k)) in
    let type_line =
      append-IsLine (str "# TYPE ") (name ++ (str " " ++ kind))
        (has_line_end-IsLine (str "# TYPE ") refl)
        (spaced-IsLine name kind h (has_line_end-IsLine kind i)) in
    let value_line =
      spaced-IsLine name (decimal value) h
        (digits-IsLine (decimal value) (decimal-IsDigits value)) in
    (help_line, (type_line, (value_line, tt)))

metric_then :
    (name help kind : Str) (value : ℕ) (rest : List Str)
    → has_line_end name ≡ false
    → has_line_end help ≡ false
    → has_line_end kind ≡ false
    → All IsLine rest
    → All IsLine (metric name help kind value ++ ([] ∷ rest))
metric_then name help kind value rest h k i r =
    All-append IsLine (metric name help kind value) ([] ∷ rest)
      (metric-lines name help kind value h k i) (tt, r)

-- the lines of the export, from each metric on
abbrev pub from_quarantine : Metrics → ℕ → List Str
from_quarantine m held =
    metric (str "mx2_quarantine_count") (str "Current number of emails held in quarantine.")
      (str "gauge") held
    ++ []

abbrev pub from_decrypted : Metrics → ℕ → List Str
from_decrypted m held =
    metric (str "mx2_decrypted_messages_total") (str "Total HPKE payloads successfully decrypted.")
      (str "counter") m.decrypted_messages_total
    ++ ([] ∷ from_quarantine m held)

abbrev pub from_pow_verified : Metrics → ℕ → List Str
from_pow_verified m held =
    metric (str "mx2_pow_verified_total") (str "Total Proof-of-Work challenges verified.")
      (str "counter") m.pow_verified_total
    ++ ([] ∷ from_decrypted m held)

abbrev pub from_translations : Metrics → ℕ → List Str
from_translations m held =
    metric (str "mx2_e2ee_translations_total")
      (str "Total legacy emails translated to MX2 envelopes.") (str "counter")
      m.e2ee_translations_total
    ++ ([] ∷ from_pow_verified m held)

abbrev pub from_api_requests : Metrics → ℕ → List Str
from_api_requests m held =
    metric (str "mx2_api_requests_total") (str "Total HTTP API calls resolved.") (str "counter")
      m.api_requests_total
    ++ ([] ∷ from_translations m held)

abbrev pub exported : Metrics → ℕ → List Str
exported m held = from_api_requests m held

from_quarantine-lines : (m : Metrics) (held : ℕ) → All IsLine (from_quarantine m held)
unfolding is_line_end nat_eq
from_quarantine-lines m held =
    All-append IsLine
      (metric (str "mx2_quarantine_count") (str "Current number of emails held in quarantine.")
        (str "gauge") held)
      []
      (metric-lines (str "mx2_quarantine_count")
        (str "Current number of emails held in quarantine.") (str "gauge") held refl refl refl)
      tt

from_decrypted-lines : (m : Metrics) (held : ℕ) → All IsLine (from_decrypted m held)
unfolding is_line_end nat_eq
from_decrypted-lines m held =
    metric_then (str "mx2_decrypted_messages_total")
      (str "Total HPKE payloads successfully decrypted.") (str "counter") m.decrypted_messages_total
      (from_quarantine m held) refl refl refl (from_quarantine-lines m held)

from_pow_verified-lines : (m : Metrics) (held : ℕ) → All IsLine (from_pow_verified m held)
unfolding is_line_end nat_eq
from_pow_verified-lines m held =
    metric_then (str "mx2_pow_verified_total") (str "Total Proof-of-Work challenges verified.")
      (str "counter") m.pow_verified_total (from_decrypted m held) refl refl refl
      (from_decrypted-lines m held)

from_translations-lines : (m : Metrics) (held : ℕ) → All IsLine (from_translations m held)
unfolding is_line_end nat_eq
from_translations-lines m held =
    metric_then (str "mx2_e2ee_translations_total")
      (str "Total legacy emails translated to MX2 envelopes.") (str "counter")
      m.e2ee_translations_total (from_pow_verified m held) refl refl refl
      (from_pow_verified-lines m held)

from_api_requests-lines : (m : Metrics) (held : ℕ) → All IsLine (from_api_requests m held)
unfolding is_line_end nat_eq
from_api_requests-lines m held =
    metric_then (str "mx2_api_requests_total") (str "Total HTTP API calls resolved.")
      (str "counter") m.api_requests_total (from_translations m held) refl refl refl
      (from_translations-lines m held)

export_lem :
    (m : Metrics) (held : ℕ) → export_prometheus_metrics m held ≡ join (10 ∷ []) (exported m held)
unfolding export_prometheus_metrics
export_lem m held = refl

pub splitlines-export :
    (m : Metrics) (held : ℕ) → splitlines (export_prometheus_metrics m held) ≡ exported m held
splitlines-export m held =
    rw (export_lem m held)
      (splitlines-join (exported m held) (from_api_requests-lines m held) (λ e. cc))

-- ===== src/Ctl/Stats/Counters.antt =====
-- `cmd_stats` of mx2ctl.py on the text of `export_prometheus_metrics` of src/metrics.py.
use mx2_sandbox.Base.{
  ℕ, ◌≡◌, ◌≢◌, ◌∙◌, refl, ap, Str, str, true, false, List, [], ◌∷◌, ◌++◌, length, arith, nat_eq,
  list_eq,
}
use mx2_sandbox.Base.Decimal.{decimal, decimal-ne-nil, decimal-IsDigits, digits-IsSolid}
use mx2_sandbox.Base.Text.{words, starts_with, is_line_end, is_space}
use mx2_sandbox.Base.Text.Lines.{has_line_end, has_space, has_space-IsSolid, words_pair}
use mx2_sandbox.Metrics.{Metrics, metric, export_prometheus_metrics}
use mx2_sandbox.Metrics.Export.{
  exported, from_translations, from_pow_verified, from_decrypted, from_quarantine,
  splitlines-export,
}
use mx2_sandbox.Runtime.{Runtime, IsLawful}
use mx2_sandbox.Server.{Daemon, Call}
use mx2_sandbox.Server.Routes.{serve, counted, get_reply, url_path, cut_parameters}
use mx2_sandbox.Server.Handlers.Queue.{handle_metrics}
use mx2_sandbox.AntiSpam.Queue.{holding_queue}
use mx2_sandbox.Ctl.Terminal.{yellow, white, pad_right, banner, closing}
use mx2_sandbox.Ctl.Stats.{parts_line, stat_lines, stats_report, read_stats, cmd_stats}

-- the line that shows a counter
abbrev pub counter_line : Str → ℕ → Str
counter_line name value = yellow (pad_right 32 name) ++ (str " : " ++ white (decimal value))

-- the lines that show all of them
abbrev pub counter_lines : Metrics → ℕ → List Str
counter_lines m held =
    counter_line (str "mx2_api_requests_total") m.api_requests_total
    ∷ counter_line (str "mx2_e2ee_translations_total") m.e2ee_translations_total
    ∷ counter_line (str "mx2_pow_verified_total") m.pow_verified_total
    ∷ counter_line (str "mx2_decrypted_messages_total") m.decrypted_messages_total
    ∷ counter_line (str "mx2_quarantine_count") held
    ∷ []

-- the name of a metric: not empty, no comment, one word on one line
abbrev IsName : Str → Type 0
IsName [] = ⊥
IsName (c ∷ s) = (c ≢ b'#') × (has_space (c ∷ s) ≡ false) × (has_line_end (c ∷ s) ≡ false)

stat_lines-comment : (s : Str) (rest : List Str) → stat_lines ((b'#' ∷ s) ∷ rest) ≡ stat_lines rest
unfolding stat_lines starts_with list_eq nat_eq
stat_lines-comment s rest = refl

stat_lines-words :
    (c : ℕ) (s : Str) (rest : List Str)
    → c ≢ b'#'
    → stat_lines ((c ∷ s) ∷ rest) ≡ parts_line (words (c ∷ s)) ++ stat_lines rest
unfolding stat_lines starts_with
stat_lines-words c s rest h = ground arith

stat_lines-value :
    (name : Str) (value : ℕ) (rest : List Str)
    → IsName name
    → stat_lines ((name ++ (str " " ++ decimal value)) ∷ rest)
      ≡ counter_line name value ∷ stat_lines rest
unfolding parts_line
stat_lines-value [] value rest h = absurd h
stat_lines-value (c ∷ name) value rest (a, h, k) =
    rw
      (
        stat_lines-words c (name ++ (str " " ++ decimal value)) rest a,
        words_pair (c ∷ name) (decimal value) (has_space-IsSolid (c ∷ name) h)
            (digits-IsSolid (decimal value) (decimal-IsDigits value)) (λ e. cc)
            (decimal-ne-nil value),
      )
      refl

stat_lines-metric :
    (name help kind : Str) (value : ℕ) (rest : List Str)
    → IsName name
    → stat_lines (metric name help kind value ++ rest) ≡ counter_line name value ∷ stat_lines rest
stat_lines-metric name help kind value rest h =
    stat_lines-comment _ _ ∙ stat_lines-comment _ _ ∙ stat_lines-value name value rest h

stat_lines-blank :
    (name help kind : Str) (value : ℕ) (rest shown : List Str)
    → IsName name
    → stat_lines rest ≡ shown
    → stat_lines (metric name help kind value ++ ([] ∷ rest)) ≡ counter_line name value ∷ shown
unfolding stat_lines list_eq
stat_lines-blank name help kind value rest shown h e =
    stat_lines-metric name help kind value ([] ∷ rest) h ∙ ap (λ x. counter_line name value ∷ x) e

stat_lines-exported : (m : Metrics) (held : ℕ) → stat_lines (exported m held) ≡ counter_lines m held
unfolding stat_lines is_space is_line_end nat_eq
stat_lines-exported m held =
    stat_lines-blank (str "mx2_api_requests_total") (str "Total HTTP API calls resolved.")
      (str "counter") m.api_requests_total (from_translations m held) _ (omega arith, refl, refl)
      (stat_lines-blank (str "mx2_e2ee_translations_total")
        (str "Total legacy emails translated to MX2 envelopes.") (str "counter")
        m.e2ee_translations_total (from_pow_verified m held) _ (omega arith, refl, refl)
        (stat_lines-blank (str "mx2_pow_verified_total")
          (str "Total Proof-of-Work challenges verified.") (str "counter") m.pow_verified_total
          (from_decrypted m held) _ (omega arith, refl, refl)
          (stat_lines-blank (str "mx2_decrypted_messages_total")
            (str "Total HPKE payloads successfully decrypted.") (str "counter")
            m.decrypted_messages_total (from_quarantine m held) _ (omega arith, refl, refl)
            (stat_lines-metric (str "mx2_quarantine_count")
              (str "Current number of emails held in quarantine.") (str "gauge") held []
              (omega arith, refl, refl)))))

metrics_reply :
    (R : Runtime) (call : Call) (d : Daemon)
    → get_reply R call (url_path (str "/metrics")) d ≡ handle_metrics R call d
unfolding get_reply url_path cut_parameters list_eq nat_eq
metrics_reply R call d = refl

-- `mx2ctl stats`, over a lawful runtime and a daemon that can be reached, ends with exit code 0 and
-- prints between its banner and its last rule the five counters of the daemon, each with its value:
-- those behind this request, which is counted too, and the number of messages in the holding queue.
pub cmd_stats_shows :
    (R : Runtime)
    → IsLawful R
    → (call : Call) (d : Daemon)
    → cmd_stats R call true d ≡ record {
      printed =
          banner (str " MX2 DAEMON LIVE TELEMETRY STATS ")
          ++ (counter_lines (counted d).metrics (length (holding_queue R d.anti_spam))
              ++ closing ∷ []);
      exit_code = 0;
      daemon = counted d;
    }
unfolding cmd_stats serve handle_metrics read_stats stats_report banner
cmd_stats_shows R L call d =
    let m = (counted d).metrics in
    let held = length (holding_queue R d.anti_spam) in
    rw
      (
        metrics_reply R call (counted d),
        handle_metrics,
        L.decode-encode (export_prometheus_metrics m held),
        stats_report,
        splitlines-export m held,
        stat_lines-exported m held,
      )
      refl

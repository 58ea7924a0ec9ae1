-- ===== src/Metrics.antt =====
-- src/metrics.py: the counters and the Prometheus text. The lock makes each method one step.
pub mod Export
use mx2_sandbox.Base.{ℕ, ◌+◌, Str, str, List, [], ◌∷◌, ◌++◌}
use mx2_sandbox.Base.Text.{join}
use mx2_sandbox.Base.Decimal.{decimal}

pub record Metrics : Type 0 where
  pub api_requests_total : ℕ
  pub e2ee_translations_total : ℕ
  pub pow_verified_total : ℕ
  pub decrypted_messages_total : ℕ

abbrev pub new_metrics : Metrics
new_metrics = record {
  api_requests_total = 0;
  e2ee_translations_total = 0;
  pow_verified_total = 0;
  decrypted_messages_total = 0;
}

unfoldable pub inc_api_requests : Metrics → Metrics
inc_api_requests m = record m { api_requests_total = m.api_requests_total + 1 }

unfoldable pub inc_translations : Metrics → Metrics
inc_translations m = record m { e2ee_translations_total = m.e2ee_translations_total + 1 }

unfoldable pub inc_pow_verified : Metrics → Metrics
inc_pow_verified m = record m { pow_verified_total = m.pow_verified_total + 1 }

unfoldable pub inc_decrypted : Metrics → Metrics
inc_decrypted m = record m { decrypted_messages_total = m.decrypted_messages_total + 1 }

-- the three lines of a metric
abbrev pub metric : Str → Str → Str → ℕ → List Str
metric name help kind value =
    (str "# HELP " ++ (name ++ (str " " ++ help)))
    ∷ (str "# TYPE " ++ (name ++ (str " " ++ kind)))
    ∷ (name ++ (str " " ++ decimal value))
    ∷ []

-- `export_prometheus_metrics`
unfoldable pub export_prometheus_metrics : Metrics → ℕ → Str
unfolding join
export_prometheus_metrics m quarantine_count = join (10 ∷ []) (
    metric (str "mx2_api_requests_total") (str "Total HTTP API calls resolved.") (str "counter")
      m.api_requests_total
    ++ ([]
          ∷ metric (str "mx2_e2ee_translations_total")
              (str "Total legacy emails translated to MX2 envelopes.") (str "counter")
              m.e2ee_translations_total
        ++ ([]
              ∷ metric (str "mx2_pow_verified_total")
                  (str "Total Proof-of-Work challenges verified.") (str "counter")
                  m.pow_verified_total
            ++ ([]
                  ∷ metric (str "mx2_decrypted_messages_total")
                      (str "Total HPKE payloads successfully decrypted.") (str "counter")
                      m.decrypted_messages_total
                ++ ([]
                    ∷ metric (str "mx2_quarantine_count")
                        (str "Current number of emails held in quarantine.") (str "gauge")
                        quarantine_count)))))

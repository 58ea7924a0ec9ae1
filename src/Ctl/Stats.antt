-- ===== src/Ctl/Stats.antt =====
-- `cmd_stats` of mx2ctl.py.
pub mod Counters
use mx2_sandbox.Base.{
  Str, str, Bool, Option, none, some, List, [], ◌∷◌, ◌++◌, ◌||◌, leb, ◌==◌, nat_eq, list_eq,
  if◌then◌else◌,
}
use mx2_sandbox.Base.Text.{words, splitlines, starts_with}
use mx2_sandbox.Runtime.{Runtime}
use mx2_sandbox.Server.{Daemon, Call, Response}
use mx2_sandbox.Server.Routes.{get, serve}
use mx2_sandbox.Ctl.Terminal.{Ran, red, yellow, white, pad_right, banner, closing}
use mx2_sandbox.Ctl.Request.{body_text}

-- a line with two parts is printed, any other is not
unfoldable pub parts_line : List Str → List Str
parts_line (a ∷ b ∷ []) = (yellow (pad_right 32 a) ++ (str " : " ++ white b)) ∷ []
parts_line _ = []

-- the loop over the lines
unfoldable pub stat_lines : List Str → List Str
unfolding parts_line words starts_with
stat_lines [] = []
stat_lines (line ∷ lines) =
    (if line == [] || starts_with line (str "#") then [] else parts_line (words line))
    ++ stat_lines lines

unfoldable pub stats_report : Str → List Str
unfolding stat_lines splitlines banner
stats_report text =
    banner (str " MX2 DAEMON LIVE TELEMETRY STATS ")
    ++ (stat_lines (splitlines text) ++ closing ∷ [])

module _ (R : Runtime) (call : Call) where
  -- an exception of the request or of the decoding is printed
  unfoldable pub stats_failed : Daemon → Ran
  stats_failed d = record {
    printed = red (str "[-] Error fetching stats: " ++ call.error_text) ∷ [];
    exit_code = 1;
    daemon = d;
  }

  unfoldable pub read_stats : Response → Daemon → Ran
  unfolding stats_failed
  read_stats response d =
      if leb 400 response.status then stats_failed d else elim (body_text R response.body) [
        | none ↦ stats_failed d
        | some text ↦ record { printed = stats_report text; exit_code = 0; daemon = d }
      ]

  -- `cmd_stats`
  unfoldable pub cmd_stats : Bool → Daemon → Ran
  cmd_stats reachable d =
      let (response, d') = serve R call (get (str "/metrics")) d in
      if reachable then read_stats response d' else stats_failed d

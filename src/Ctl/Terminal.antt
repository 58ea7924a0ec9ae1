-- ===== src/Ctl/Terminal.antt =====
-- What mx2ctl.py writes: colours, rules, and padded cells.
use mx2_sandbox.Base.{
  ℕ, zero, suc, ◌+◌, ◌-◌, ◌*◌, ◌/◌, ◌%◌, Str, str, Option, none, some, List, [], ◌∷◌, ◌++◌, length,
}
use mx2_sandbox.Server.{Daemon}

-- The lines printed so far, the exit code, and the daemon. The exit code of an uncaught exception is
-- 1; its traceback goes to the other stream.
pub record Ran : Type 0 where
  pub printed : List Str
  pub exit_code : ℕ
  pub daemon : Daemon

-- `arg or default` of an option
abbrev pub arg_or : Str → Option Str → Str
arg_or default none = default
arg_or default (some []) = default
arg_or default (some (c ∷ s)) = c ∷ s

-- `\033[` and the rest of a control sequence
abbrev pub esc : Str → Str
esc s = 27 ∷ b'[' ∷ s

abbrev pub reset : Str
reset = esc (str "0m")

abbrev pub red : Str → Str
red s = esc (str "91m") ++ (s ++ reset)

abbrev pub green : Str → Str
green s = esc (str "92m") ++ (s ++ reset)

abbrev pub yellow : Str → Str
yellow s = esc (str "93m") ++ (s ++ reset)

abbrev pub cyan : Str → Str
cyan s = esc (str "96m") ++ (s ++ reset)

abbrev pub white : Str → Str
white s = esc (str "97m") ++ (s ++ reset)

abbrev pub grey : Str → Str
grey s = esc (str "90m") ++ (s ++ reset)

-- `s * n`
unfoldable pub times : Str → ℕ → Str
times s zero = []
times s (suc n) = s ++ times s n

-- `f"{s:<width}"`
unfoldable pub pad_right : ℕ → Str → Str
unfolding times
pad_right width s = s ++ times (str " ") (width - length s)

-- `s.center(width, fill)`
unfoldable pub center : ℕ → Str → Str → Str
unfolding times
center width fill s =
    let room = width - length s in
    let left = room / 2 + room % 2 * (width % 2) in
    times fill left ++ (s ++ times fill (room - left))

-- `print("-" * n)`
abbrev pub rule : ℕ → Str
rule n = times (str "-") n

-- the three lines above a report; the first repeats its control sequence
unfoldable pub banner : Str → List Str
banner title =
    times (esc (str "96m") ++ str "=") 50
    ∷ center 50 (str "=") title
    ∷ (times (str "=") 50 ++ reset)
    ∷ []

abbrev pub closing : Str
closing = times (esc (str "96m") ++ str "=") 50 ++ reset

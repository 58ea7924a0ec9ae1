-- ===== src/Logger/Lines.antt =====
-- What is read back from the file of src/logger.py.
use mx2_sandbox.Base.{
  ◌≡◌, ◌≢◌, ◌∙◌, ap, refl, sym, Str, Bool, true, false, some, List, [], ◌∷◌, ◌++◌, map, All, arith,
  select, nat_eq, list_eq, Bool-cases, inl, inr, if◌then◌else◌,
}
use mathlib.Core.List.{append_assoc, append-nil}
use mx2_sandbox.Base.Dict.{lookup-insert}
use mx2_sandbox.Base.Text.{splitlines}
use mx2_sandbox.Base.Text.Lines.{IsLine, closed, splitlines-closed}
use mx2_sandbox.Json.{Json}
use mx2_sandbox.Runtime.{Runtime, IsLawful}
use mx2_sandbox.Logger.{Log, Event, log_line, content, append_line, write_line, log_event, log_all}

-- the events whose line reaches the file
abbrev pub written : List Event → List Event
written events = select (λ e. e.writable) events

content-append_line :
    (path line : Str) (files : List (Str × Str))
    → content path (append_line path line files) ≡ content path files ++ (line ++ 10 ∷ [])
content-append_line path line files =
    unfold content append_line in
    ground (arith, lookup-insert path path (content path files ++ (line ++ 10 ∷ [])) files)

module _ (R : Runtime) where
  abbrev lines_of : List Event → List Str
  lines_of events = map (λ e. R.dumps (log_line e)) events

  content-write_line :
      (path line : Str) (writable : Bool) (files : List (Str × Str))
      → path ≢ []
      → content path (write_line (some path) writable line files)
        ≡ content path files ++ (if writable then line ++ 10 ∷ [] else [])
  content-write_line [] line writable files k = absurd (k refl)
  content-write_line (c ∷ path) line true files k = content-append_line (c ∷ path) line files
  content-write_line (c ∷ path) line false files k = sym (append-nil (content (c ∷ path) files))

  closed_step :
      (event : Event) (events : List Event)
      → (if event.writable then R.dumps (log_line event) ++ 10 ∷ [] else [])
          ++ closed (lines_of (written events))
        ≡ closed (lines_of (written (event ∷ events)))
  closed_step event events = elim (Bool-cases event.writable) [
    | inl e ↦ rw (e, append_assoc) refl
    | inr e ↦ rw e refl
  ]

  content-log_all :
      (path : Str) (events : List Event) (log : Log)
      → log.log_file_path ≡ some path
      → path ≢ []
      → content path (log_all R events log).files
        ≡ content path log.files ++ closed (lines_of (written events))
  unfolding log_all log_event
  content-log_all path [] log h k = sym (append-nil (content path log.files))
  content-log_all path (event ∷ events) log h k =
      content-log_all path events (log_event R event log) h k
      ∙ rw
          (
            h,
            content-write_line path (R.dumps (log_line event)) event.writable log.files k,
            append_assoc,
          )
          (ap (λ x. content path log.files ++ x) (closed_step event events))

  lines_of-IsLine :
      (events : List Event) → ((v : Json) → IsLine (R.dumps v)) → All IsLine (lines_of events)
  lines_of-IsLine [] h = tt
  lines_of-IsLine (event ∷ events) h = (h (log_line event), lines_of-IsLine events h)

  loads-lines_of :
      (events : List Event)
      → IsLawful R
      → map R.loads (lines_of events) ≡ map (λ e. some (log_line e)) events
  loads-lines_of [] L = refl
  loads-lines_of (event ∷ events) L =
      rw (L.loads-dumps (log_line event), loads-lines_of events L) refl

  -- Over a lawful runtime whose JSON texts hold no end of a line: from a log whose file is set and
  -- empty or missing, after any sequence of events the lines of the file, each read as JSON, are
  -- exactly the records of the events for which the file could be opened, in their order.
  pub log_reads_back :
      IsLawful R
      → ((v : Json) → IsLine (R.dumps v))
      → (path : Str) (events : List Event) (log : Log) → log.log_file_path ≡ some path
      → path ≢ []
      → content path log.files ≡ []
      → map R.loads (splitlines (content path (log_all R events log).files))
        ≡ map (λ e. some (log_line e)) (written events)
  log_reads_back L one_line path events log set named empty =
      rw
        (
          content-log_all path events log set named,
          empty,
          splitlines-closed (lines_of (written events)) (lines_of-IsLine (written events) one_line),
        )
        (loads-lines_of (written events) L)

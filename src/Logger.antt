-- ===== src/Logger.antt =====
-- src/logger.py. The disk is a dict from paths to the texts of files; whether a file can be opened is
-- given with each event.
pub mod Lines
use mx2_sandbox.Base.{
  Str, str, Bool, true, false, Option, none, some, List, [], ◌∷◌, ◌++◌, nat_eq, list_eq,
  if◌then◌else◌,
}
use mx2_sandbox.Base.Dict.{Dict, lookup, insert}
use mx2_sandbox.Base.Text.{upper, strip}
use mx2_sandbox.Json.{Json, text, obj, Fields, field, end, truthy}
use mx2_sandbox.Runtime.{Runtime}

-- the module's variable, what was printed, and the disk
pub record Log : Type 0 where
  pub log_file_path : Option Str
  pub printed : List Str
  pub files : Dict Str Str

-- The arguments of a call, the time that it reads, and whether the file can be opened.
pub record Event : Type 0 where
  pub level : Str
  pub component : Str
  pub message : Str
  pub details : Option Fields
  pub timestamp : Str
  pub writable : Bool

-- `setup_logger`; the directory is made on the disk
unfoldable pub setup_logger : Str → Log → Log
setup_logger log_file log = record log { log_file_path = some log_file }

abbrev pub details_of : Option Fields → Fields
details_of none = end
details_of (some details) =
    if truthy (obj details) then field (str "details") (obj details) end else end

unfoldable pub log_line : Event → Json
unfolding upper strip truthy
log_line event = obj (
    field (str "timestamp") (text (event.timestamp ++ str "Z")) (
      field (str "level") (text (strip (upper event.level))) (
        field (str "component") (text (strip event.component))
          (field (str "message") (text (strip event.message)) (details_of event.details)))))

-- the text of a file, which a write makes
unfoldable pub content : Str → Dict Str Str → Str
unfolding lookup list_eq nat_eq
content path files = elim (lookup path files) [ none ↦ [] | some s ↦ s ]

unfoldable pub append_line : Str → Str → Dict Str Str → Dict Str Str
unfolding content insert
append_line path line files = insert path (content path files ++ (line ++ 10 ∷ [])) files

abbrev pub write_line : Option Str → Bool → Str → Dict Str Str → Dict Str Str
write_line (some (c ∷ path)) true line files = append_line (c ∷ path) line files
write_line _ _ line files = files

module _ (R : Runtime) where
  -- `log_event`
  unfoldable pub log_event : Event → Log → Log
  unfolding log_line append_line
  log_event event log =
      let serialized_line = R.dumps (log_line event) in
      record log {
        printed = log.printed ++ serialized_line ∷ [];
        files = write_line log.log_file_path event.writable serialized_line log.files;
      }

  -- a sequence of calls
  unfoldable pub log_all : List Event → Log → Log
  unfolding log_event
  log_all [] log = log
  log_all (event ∷ events) log = log_all events (log_event event log)

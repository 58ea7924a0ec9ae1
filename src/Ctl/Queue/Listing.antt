-- ===== src/Ctl/Queue/Listing.antt =====
-- `mx2ctl queue list` together with the holding queue of src/anti_spam.py, with either backend.
use mx2_sandbox.Base.{
  ◌≡◌, refl, Str, str, true, Option, none, some, List, [], ◌∷◌, ◌++◌, map, arith, nat_eq, list_eq,
  Option-cases, inl, inr,
}
use mx2_sandbox.Json.{Json, bool, arr, nil, items, fields, get_or, get_field, truthy}
use mx2_sandbox.Runtime.{Runtime, IsLawful}
use mx2_sandbox.Sql.{order_desc}
use mx2_sandbox.Storage.{QueueRow, row_message, get_holding_queue}
use mx2_sandbox.AntiSpam.{Engine, Held}
use mx2_sandbox.AntiSpam.Queue.{held_json, holding_queue}
use mx2_sandbox.Server.{Daemon, Call}
use mx2_sandbox.Server.Handlers.Queue.{handle_queue_list}
use mx2_sandbox.Server.Routes.{call_endpoint, serve, counted}
use mx2_sandbox.Ctl.Terminal.{green, pad_right}
use mx2_sandbox.Ctl.Request.{request_api}
use mx2_sandbox.Ctl.Request.Laws.{read_response-json}
use mx2_sandbox.Ctl.Queue.{
  list, cell, queue_row, queue_rows, rows_of, print_queue, after_list, table_head, cmd_queue,
}
use mx2_sandbox.Server.Routes.Paths.{list_route}

-- the row of an id, a sender and a subject
abbrev pub message_row : Str → Str → Str → Str
message_row id sender subject =
    pad_right 15 id ++ (str " | " ++ (pad_right 30 sender ++ (str " | " ++ pad_right 30 subject)))

abbrev pub held_rows : Engine → List Str
held_rows e = elim e.storage_engine [
  | none ↦ map (λ m. message_row m.message_id m.sender m.subject) e.holding
  | some db ↦
      map (λ r. message_row r.msg_id r.sender r.subject)
        (order_desc (λ r. r.timestamp) db.quarantine_queue)
]

queue_row-held_json :
    (m : Held) → queue_row (held_json m) ≡ some (message_row m.message_id m.sender m.subject)
unfolding queue_row held_json get_field list_eq nat_eq cell
queue_row-held_json m = refl

queue_row-row_message :
    (R : Runtime) (r : QueueRow)
    → queue_row (row_message R r) ≡ some (message_row r.msg_id r.sender r.subject)
unfolding queue_row row_message get_field list_eq nat_eq cell
queue_row-row_message R r = refl

-- the lines for the rows of a queue
abbrev pub shown_queue : List Str → List Str
shown_queue [] = green (str "[+] Inbox Holding Queue is empty. No quarantined items.") ∷ []
shown_queue (row ∷ rows) = table_head ++ row ∷ rows

module _ {A : Type 0} (json : A → Json) (row : A → Str)
    (h : (a : A) → queue_row (json a) ≡ some (row a)) where
  -- a list whose items all have a row is printed whole
  queue_rows-map : (xs : List A) → queue_rows (items (map json xs)) ≡ (map row xs, true)
  unfolding queue_rows
  queue_rows-map [] = refl
  queue_rows-map (x ∷ xs) = rw (queue_rows, h x, queue_rows-map xs) refl

  print_queue-map :
      (xs : List A) (d : Daemon)
      → print_queue (arr (items (map json xs))) d
        ≡ record { printed = shown_queue (map row xs); exit_code = 0; daemon = d }
  unfolding print_queue truthy rows_of
  print_queue-map [] d = refl
  print_queue-map (x ∷ xs) d = rw (rows_of, queue_rows-map (x ∷ xs)) refl

print_queue-holding_queue :
    (R : Runtime) (e : Engine) (d : Daemon)
    → print_queue (arr (items (holding_queue R e))) d
      ≡ record { printed = shown_queue (held_rows e); exit_code = 0; daemon = d }
unfolding holding_queue get_holding_queue
print_queue-holding_queue R e d = elim (Option-cases e.storage_engine) [
  | inl memory ↦ rw memory (print_queue-map held_json _ queue_row-held_json e.holding d)
  | inr (db, stored) ↦ rw stored (print_queue-map (row_message R) _ (queue_row-row_message R) _ d)
]

-- the queue in an answer
get_queue :
    (queue : Json)
    → get_or
        (fields ((str "success", bool true) ∷ (str "queue", queue) ∷ []))
        (str "queue")
        (arr nil)
      ≡ queue
unfolding get_or get_field list_eq nat_eq
get_queue queue = refl

-- `mx2ctl queue list`, over a lawful runtime and a daemon that can be reached, ends with exit code 0
-- and prints a table with one row for each message of the holding queue: the messages in memory in
-- the order of their arrival, or the rows of the database, the latest first. For no message it
-- prints one line. The daemon only counts the request.
pub cmd_queue_lists :
    (R : Runtime)
    → IsLawful R
    → (call : Call) (mx2_url : Str) (msg_id : Option Str) (d : Daemon)
    → cmd_queue R call mx2_url true list msg_id d
      ≡ record { printed = shown_queue (held_rows d.anti_spam); exit_code = 0; daemon = counted d }
unfolding cmd_queue request_api serve call_endpoint handle_queue_list after_list
cmd_queue_lists R L call mx2_url msg_id d =
    rw
      (
        list_route,
        call_endpoint,
        handle_queue_list,
        read_response-json R L call _ 200 (omega arith),
        after_list,
        get_queue (arr (items (holding_queue R d.anti_spam))),
      )
      (print_queue-holding_queue R d.anti_spam (counted d))

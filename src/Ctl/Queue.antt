-- ===== src/Ctl/Queue.antt =====
-- `cmd_queue` of mx2ctl.py.
pub mod Answer
pub mod Listing
use mx2_sandbox.Base.{
  ℕ, Str, str, Bool, true, false, Option, none, some, List, [], ◌∷◌, ◌++◌, if◌then◌else◌,
}
use mx2_sandbox.Base.Decimal.{decimal}
use mx2_sandbox.Json.{
  Json, bool, num, text, arr, obj, Items, nil, cons, Fields, fields, get_or, truthy,
}
use mx2_sandbox.Runtime.{Runtime}
use mx2_sandbox.Server.{Daemon, Call, ◌>>=◌}
use mx2_sandbox.Ctl.Terminal.{Ran, red, green, pad_right, rule}
use mx2_sandbox.Ctl.Request.{Reply, answered, stopped, member, request_api}

pub data QueueAction : Type 0 where
  list approve reject : QueueAction

-- `f"{v:<width}"`, with `none` for a value that has no such format
unfoldable pub cell : ℕ → Json → Option Str
cell width (text s) = some (pad_right width s)
cell width (num n) = some (pad_right width (decimal n))
cell width (bool b) = some (pad_right width (if b then str "1" else str "0"))
cell width _ = none

-- the row of a message, with `none` for the exception of a missing key
unfoldable pub queue_row : Json → Option Str
unfolding cell
queue_row item = member (str "messageId") item >>= cell 15 >>= λ id.
    member (str "sender") item >>= cell 30 >>= λ sender.
    member (str "subject") item >>= cell 30 >>= λ subject.
    some (id ++ (str " | " ++ (sender ++ (str " | " ++ subject))))

-- the rows that are printed, and whether no exception ends the loop
unfoldable pub queue_rows : Items → List Str × Bool
unfolding queue_row
queue_rows nil = ([], true)
queue_rows (cons item items) =
    let (rows, good) = queue_rows items in
    elim (queue_row item) [ none ↦ ([], false) | some row ↦ (row ∷ rows, good) ]

-- A value that is no list is not iterated, or has items without the keys.
unfoldable pub rows_of : Json → List Str × Bool
unfolding queue_rows
rows_of (arr items) = queue_rows items
rows_of _ = ([], false)

abbrev pub table_head : List Str
table_head =
    (pad_right 15 (str "Message ID")
      ++ (str " | "
          ++ (pad_right 30 (str "Sender") ++ (str " | " ++ pad_right 30 (str "Subject")))))
    ∷ rule 80
    ∷ []

unfoldable pub print_queue : Json → Daemon → Ran
unfolding rows_of
print_queue queue d =
    let (rows, good) = rows_of queue in
    if truthy queue
    then record { printed = table_head ++ rows; exit_code = if good then 0 else 1; daemon = d }
    else record {
      printed = green (str "[+] Inbox Holding Queue is empty. No quarantined items.") ∷ [];
      exit_code = 0;
      daemon = d;
    }

unfoldable pub after_list : Reply × Daemon → Ran
unfolding print_queue
after_list (stopped lines, d) = record { printed = lines; exit_code = 1; daemon = d }
after_list (answered (obj res), d) = print_queue (get_or res (str "queue") (arr nil)) d
after_list (answered v, d) = record { printed = []; exit_code = 1; daemon = d }

-- the line behind a request whose answer is not read
unfoldable pub after_action : Str → Reply × Daemon → Ran
after_action line (stopped lines, d) = record { printed = lines; exit_code = 1; daemon = d }
after_action line (answered v, d) = record { printed = line ∷ []; exit_code = 0; daemon = d }

abbrev pub id_payload : Str → Fields
id_payload id = fields ((str "messageId", text id) ∷ [])

unfoldable pub approved_line : Str → Str
approved_line id = green (
    str "[+] Success: Quarantined sender for message '"
    ++ (id ++ str "' whitelisted and released."))

unfoldable pub rejected_line : Str → Str
rejected_line id = green (str "[+] Success: Quarantined message " ++ (id ++ str " discarded."))

unfoldable pub needs_id : Str → Daemon → Ran
needs_id line d = record { printed = red line ∷ []; exit_code = 1; daemon = d }

module _ (R : Runtime) (call : Call) (mx2_url : Str) (reachable : Bool) where
  -- `cmd_queue`, whose argument is not given or a text
  unfoldable pub cmd_queue : QueueAction → Option Str → Daemon → Ran
  unfolding needs_id after_action after_list approved_line rejected_line
  cmd_queue list msg_id d =
      after_list (request_api R call mx2_url reachable (str "/api/queue/list") (fields []) d)
  cmd_queue approve (some (c ∷ id)) d =
      after_action (approved_line (c ∷ id))
        (request_api R call mx2_url reachable (str "/api/queue/approve") (id_payload (c ∷ id)) d)
  cmd_queue approve _ d = needs_id (str "[-] Error: Approve subcommand requires a message ID.") d
  cmd_queue reject (some (c ∷ id)) d =
      after_action (rejected_line (c ∷ id))
        (request_api R call mx2_url reachable (str "/api/queue/reject") (id_payload (c ∷ id)) d)
  cmd_queue reject _ d = needs_id (str "[-] Error: Reject subcommand requires a message ID.") d

-- ===== src/Gateway/Body/Growth.antt =====
-- The content store before and after the body of a message is read, src/gateway.py.
use mx2_sandbox.Base.{ℕ, ◌≡◌, Str, some, List, [], ◌∷◌, arith}
use mx2_sandbox.Runtime.{Runtime, Bytes}
use mx2_sandbox.Mail.{Part, Message}
use mx2_sandbox.Cas.{Store, read, write}
use mx2_sandbox.Cas.Laws.{read-write}
use mx2_sandbox.Gateway.Body.{
  Parts, bytes_of, process_text_part, process_attachment, process_part, process_parts,
  process_single, process_message,
}

-- What was read before is read after.
abbrev pub Keeps : Store → Store → Type 0
Keeps a b = (hash : Str) (c : Bytes) → read hash a ≡ some c → read hash b ≡ some c

pub write-Keeps :
    (R : Runtime) (content : Bytes) (store : Store) → Keeps store (write R content store).1
write-Keeps R content store hash c found = ground (arith, read-write R content store hash)

module _ (R : Runtime) (uuid : ℕ → Str) where
  process_attachment-Keeps :
      (part : Part) (s : Parts) → Keeps s.store (process_attachment R uuid part s).store
  unfolding process_attachment
  process_attachment-Keeps part s = write-Keeps R (bytes_of part.payload) s.store

  store-process_text_part :
      (part : Part) (s : Parts) → (process_text_part R uuid part s).store ≡ s.store
  unfolding process_text_part
  store-process_text_part part s = ground arith

  process_part-Keeps : (part : Part) (s : Parts) → Keeps s.store (process_part R uuid part s).store
  unfolding process_part
  process_part-Keeps part s hash c found =
      ground (arith, process_attachment-Keeps part s hash c found, store-process_text_part part s)

  process_parts-Keeps :
      (parts : List Part) (s : Parts) → Keeps s.store (process_parts R uuid parts s).store
  unfolding process_parts
  process_parts-Keeps [] s hash c found = found
  process_parts-Keeps (part ∷ parts) s hash c found =
      process_parts-Keeps parts _ hash c (process_part-Keeps part s hash c found)

  process_single-Keeps :
      (part : Part) (s : Parts) → Keeps s.store (process_single R uuid part s).store
  unfolding process_single
  process_single-Keeps part s hash c found =
      ground (arith, process_attachment-Keeps part s hash c found, store-process_text_part part s)

  pub process_message-Keeps :
      (msg : Message) (store : Store) → Keeps store (process_message R uuid msg store).store
  unfolding process_message
  process_message-Keeps msg store hash c found =
      let start : Parts = record { blocks = []; attachments = []; store = store; drawn = 0 } in
      ground (
        arith,
        process_parts-Keeps msg.walk start hash c found,
        process_single-Keeps msg.root start hash c found,
      )

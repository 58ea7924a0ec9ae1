-- ===== src/Gateway/Body/Laws.antt =====
-- The attachments of a message, src/gateway.py, and the content store.
use mx2_sandbox.Base.{
  ℕ, ◌≡◌, refl, ap, Str, some, List, [], ◌∷◌, ◌++◌, length, take, str, All, All-append, arith,
  nat_eq, list_eq, Bool-cases, inl, inr,
}
use mx2_sandbox.Json.{Json}
use mx2_sandbox.Mail.{Part, Message}
use mx2_sandbox.Runtime.{Runtime, Bytes}
use mx2_sandbox.Cas.{Store, read, write, content_hash, cas_uri}
use mx2_sandbox.Cas.Laws.{IsSound, write-IsSound, read_written, written-write}
use mx2_sandbox.Gateway.Body.{
  Parts, bytes_of, attachment, attachment_name, process_text_part, process_attachment, process_part,
  process_parts, process_single, process_message,
}

-- An entry of the attachments: its size and its hash are those of a payload, and the store has a
-- content of that hash under it.
pub record IsStored (R : Runtime) (uuid : ℕ → Str) (store : Store) (entry : Json) : Type 0 where
  pub id : Str
  pub filename : Str
  pub content_type : Str
  pub payload : Bytes
  pub found : Bytes
  pub entry_of :
      entry
      ≡ attachment R uuid id filename content_type
          (length payload)
          (content_hash R payload, cas_uri (content_hash R payload))
  pub found_in : read (content_hash R payload) store ≡ some found
  pub same_hash : content_hash R found ≡ content_hash R payload

module _ (R : Runtime) (uuid : ℕ → Str) where
  pub record IsValid (s : Parts) : Type 0 where
    pub sound : IsSound R s.store
    pub stored : All (IsStored R uuid s.store) s.attachments

  -- the store only grows
  abbrev Keeps : Store → Store → Type 0
  Keeps a b = (hash : Str) (c : Bytes) → read hash a ≡ some c → read hash b ≡ some c

  IsStored-Keeps :
      (a b : Store) → Keeps a b → (j : Json) → IsStored R uuid a j → IsStored R uuid b j
  IsStored-Keeps a b keep j h = record {
    id = h.id;
    filename = h.filename;
    content_type = h.content_type;
    payload = h.payload;
    found = h.found;
    entry_of = h.entry_of;
    found_in = keep _ _ h.found_in;
    same_hash = h.same_hash;
  }

  All-Keeps :
      (a b : Store)
      → Keeps a b
      → (js : List Json) → All (IsStored R uuid a) js
      → All (IsStored R uuid b) js
  All-Keeps a b keep [] h = tt
  All-Keeps a b keep (j ∷ js) (k, h) = (IsStored-Keeps a b keep j k, All-Keeps a b keep js h)

  process_attachment-IsValid :
      (part : Part) (s : Parts) → IsValid s → IsValid (process_attachment R uuid part s)
  unfolding process_attachment
  process_attachment-IsValid part s v =
      let payload = bytes_of part.payload in
      let (found, has) = read_written R payload s.store in
      let (sound, keep) = write-IsSound R payload s.store v.sound in
      let named = attachment_name R uuid part.filename s.drawn in
      record {
        sound = sound;
        stored =
            All-append (IsStored R uuid (write R payload s.store).1) s.attachments _
              (All-Keeps s.store (write R payload s.store).1 keep s.attachments v.stored)
              (
                record {
                  id = str "att_" ++ take 8 (uuid named.1);
                  filename = named.0;
                  content_type = part.content_type;
                  payload = payload;
                  found = found;
                  entry_of = ap (attachment R uuid _ _ _ _) (written-write R payload s.store);
                  found_in = has;
                  same_hash = sound _ _ has;
                },
                tt,
              );
      }

  IsValid-of_eq :
      (s t : Parts) → t.store ≡ s.store → t.attachments ≡ s.attachments → IsValid s → IsValid t
  IsValid-of_eq s t p q v = record { sound = rw p v.sound; stored = rw (p, q) v.stored }

  process_text_part-IsValid :
      (part : Part) (s : Parts) → IsValid s → IsValid (process_text_part R uuid part s)
  process_text_part-IsValid part s v =
      IsValid-of_eq s (process_text_part R uuid part s) (unfold process_text_part in ground arith)
        (unfold process_text_part in ground arith) v

  process_part-IsValid :
      (part : Part) (s : Parts) → IsValid s → IsValid (process_part R uuid part s)
  unfolding process_part
  process_part-IsValid part s v =
      ground (arith, process_attachment-IsValid part s v, process_text_part-IsValid part s v)

  process_parts-IsValid :
      (parts : List Part) (s : Parts) → IsValid s → IsValid (process_parts R uuid parts s)
  unfolding process_parts
  process_parts-IsValid [] s v = v
  process_parts-IsValid (part ∷ parts) s v =
      process_parts-IsValid parts _ (process_part-IsValid part s v)

  process_single-IsValid :
      (part : Part) (s : Parts) → IsValid s → IsValid (process_single R uuid part s)
  unfolding process_single
  process_single-IsValid part s v =
      ground (arith, process_attachment-IsValid part s v, process_text_part-IsValid part s v)

  -- From a store in which every file has its own hash as its name, the body of every message
  -- leaves such a store, in which a content of the hash of each attachment is found under that
  -- hash.
  pub process_message-IsValid :
      (msg : Message) (store : Store) → IsSound R store → IsValid (process_message R uuid msg store)
  unfolding process_message
  process_message-IsValid msg store sound =
      let start : Parts = record { blocks = []; attachments = []; store = store; drawn = 0 } in
      let valid : IsValid start = record { sound = sound; stored = tt } in
      elim (Bool-cases msg.is_multipart) [
        | inl several ↦ rw several (
            IsValid-of_eq (process_parts R uuid msg.walk start) _ refl refl
              (process_parts-IsValid msg.walk start valid))
        | inr single ↦ rw single (
            IsValid-of_eq (process_single R uuid msg.root start) _ refl refl
              (process_single-IsValid msg.root start valid))
      ]

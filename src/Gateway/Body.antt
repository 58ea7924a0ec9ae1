-- ===== src/Gateway/Body.antt =====
-- `_process_text_part`, `_process_attachment` and the loops over the parts of a message in
-- `translate_smtp_to_mx2` of src/gateway.py.
pub mod Laws
pub mod Growth
pub mod Stores
use mx2_sandbox.Base.{
  ℕ, suc, ◌+◌, Str, str, Bool, true, false, ◌||◌, Option, none, some, List, [], ◌∷◌, ◌++◌, length,
  take, ◌==◌, nat_eq, list_eq, if◌then◌else◌,
}
use mx2_sandbox.Json.{Json, text, num, dict}
use mx2_sandbox.Mail.{Part, Message}
use mx2_sandbox.Runtime.{Runtime, Bytes}
use mx2_sandbox.Cas.{Store, write}

-- the local variables of the loop: the two accumulators, the store of the attachments, and how
-- many identifiers `uuid.uuid4` has given so far
pub record Parts : Type 0 where
  pub blocks : List Json
  pub attachments : List Json
  pub store : Store
  pub drawn : ℕ

abbrev pub block : Str → Str → Json
block content_type body = dict ((str "type", text content_type) ∷ (str "body", text body) ∷ [])

-- what `payload_bytes` and `payload or b""` are
abbrev pub bytes_of : Option Bytes → Bytes
bytes_of none = []
bytes_of (some b) = b

module _ (R : Runtime) (uuid : ℕ → Str) where
  -- `_process_text_part`
  unfoldable pub process_text_part : Part → Parts → Parts
  process_text_part part s =
      let payload = bytes_of part.payload in
      if (part.content_type == str "text/plain" || part.content_type == str "text/markdown")
      then if payload == [] then s else record s {
        blocks = s.blocks ++ block part.content_type (R.decode_ignore payload) ∷ [];
      }
      else s

  -- `part.get_filename() or f"attachment_{uuid.uuid4().hex[:8]}"`, with the identifiers drawn
  unfoldable pub attachment_name : Option Str → ℕ → Str × ℕ
  attachment_name none drawn = (str "attachment_" ++ take 8 (uuid drawn), suc drawn)
  attachment_name (some []) drawn = (str "attachment_" ++ take 8 (uuid drawn), suc drawn)
  attachment_name (some (c ∷ name)) drawn = (c ∷ name, drawn)

  abbrev pub attachment : Str → Str → Str → ℕ → Str × Str → Json
  attachment id filename content_type size (hash, uri) = dict (
      (str "id", text id)
      ∷ (str "filename", text filename)
      ∷ (str "contentType", text content_type)
      ∷ (str "size", num size)
      ∷ (str "sha256", text hash)
      ∷ (str "retrievalUrl", text uri)
      ∷ [])

  -- `_process_attachment`
  unfoldable pub process_attachment : Part → Parts → Parts
  process_attachment part s =
      let (filename, drawn) = attachment_name part.filename s.drawn in
      let payload = bytes_of part.payload in
      let (written, store) = write R payload s.store in
      record s {
        attachments =
            s.attachments
            ++ attachment (str "att_" ++ take 8 (uuid drawn)) filename part.content_type
                (length payload) written
              ∷ [];
        store = store;
        drawn = suc drawn;
      }

  abbrev pub is_attachment : Part → Bool
  is_attachment part = elim part.disposition [ none ↦ false | some d ↦ d == str "attachment" ]

  -- `not disposition`
  abbrev pub has_no_disposition : Part → Bool
  has_no_disposition part = elim part.disposition [ none ↦ true | some d ↦ d == [] ]

  -- one round of the loop over `msg.walk()`
  unfoldable pub process_part : Part → Parts → Parts
  process_part part s =
      if is_attachment part
      then process_attachment part s
      else if has_no_disposition part
      then process_text_part part s
      else s

  unfoldable pub process_parts : List Part → Parts → Parts
  process_parts [] s = s
  process_parts (part ∷ parts) s = process_parts parts (process_part part s)

  -- a message of one part
  unfoldable pub process_single : Part → Parts → Parts
  process_single part s =
      if is_attachment part then process_attachment part s else process_text_part part s

  -- the blocks of the HTML parts
  unfoldable pub html_blocks : List Part → List Json
  html_blocks [] = []
  html_blocks (part ∷ parts) =
      let rest = html_blocks parts in
      let payload = bytes_of part.payload in
      if part.content_type == str "text/html"
      then if payload == []
        then rest
        else block (str "text/plain")
            (str "[Legacy HTML Content Stripped] " ++ take 500 (R.decode_ignore payload))
          ∷ rest
      else rest

  abbrev pub with_fallback : List Json → List Json → List Json
  with_fallback [] html = html
  with_fallback (b ∷ blocks) html = b ∷ blocks

  -- The body of a message, into a store.
  unfoldable pub process_message : Message → Store → Parts
  process_message msg store =
      let start : Parts = record { blocks = []; attachments = []; store = store; drawn = 0 } in
      let walk = if msg.is_multipart then msg.walk else msg.root ∷ [] in
      let s =
        if msg.is_multipart then process_parts msg.walk start else process_single msg.root start in
      record s { blocks = with_fallback s.blocks (html_blocks walk) }

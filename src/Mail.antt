-- ===== src/Mail.antt =====
-- What `email.message_from_string` gives for a MIME text, as far as src/gateway.py reads it.
use mx2_sandbox.Base.{ℕ, Str, Bool, Option, List}

-- A part of the message; `payload` is `get_payload(decode=True)`.
pub record Part : Type 0 where
  pub content_type : Str
  pub disposition : Option Str
  pub filename : Option Str
  pub payload : Option (List ℕ)

-- A header that is missing is the empty text, as in `msg.get(name, "")`. `walk` begins with `root`.
pub record Message : Type 0 where
  pub to_header : Str
  pub cc_header : Str
  pub bcc_header : Str
  pub from_header : Str
  pub subject_header : Str
  pub is_multipart : Bool
  pub root : Part
  pub walk : List Part

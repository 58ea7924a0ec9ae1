-- ===== src/Tests/Machine.antt =====
-- A runtime that can be run: the codecs are exact, a digest is the first 32 bytes of its text, the
-- exchange of two keys adds them byte by byte, and the cipher changes nothing.
use mx2_sandbox.Base.{
  ℕ, zero, suc, ◌+◌, ◌*◌, ◌%◌, ◌^◌, ◌<◌, ◌≡◌, ap, refl, Str, str, false, Option, none, some, [],
  ◌∷◌, ◌++◌, All, length, arith, ◌==◌, nat_eq, list_eq,
}
use mx2_sandbox.Base.Decimal.{int_of}
use mx2_sandbox.Json.{Json, num, text}
use mx2_sandbox.Mail.{Part, Message}
use mx2_sandbox.Runtime.{Runtime, IsLawful, Is32, Bytes}
use mx2_sandbox.Tests.Codec.{dump, load, load-dump}

-- `n` bytes
unfoldable pub pad : ℕ → Bytes → Bytes
pad zero b = []
pad (suc n) [] = 0 ∷ pad n []
pad (suc n) (x ∷ b) = x % 256 ∷ pad n b

length-pad : (n : ℕ) (b : Bytes) → length (pad n b) ≡ n
unfolding pad
length-pad zero b = refl
length-pad (suc n) [] = ap suc (length-pad n [])
length-pad (suc n) (x ∷ b) = ap suc (length-pad n b)

pad-bytes : (n : ℕ) (b : Bytes) → All (λ x. x < 256) (pad n b)
unfolding pad
pad-bytes zero b = tt
pad-bytes (suc n) [] = (omega arith, pad-bytes n [])
pad-bytes (suc n) (x ∷ b) = (omega arith, pad-bytes n b)

pub pad-Is32 : (b : Bytes) → Is32 (pad 32 b)
pad-Is32 b = (length-pad 32 b, pad-bytes 32 b)

unfoldable pub add_bytes : Bytes → Bytes → Bytes
add_bytes [] b = []
add_bytes (x ∷ a) [] = []
add_bytes (x ∷ a) (y ∷ b) = (x + y) ∷ add_bytes a b

add_bytes_comm : (a b : Bytes) → add_bytes a b ≡ add_bytes b a
unfolding add_bytes
add_bytes_comm [] [] = refl
add_bytes_comm [] (y ∷ b) = refl
add_bytes_comm (x ∷ a) [] = refl
add_bytes_comm (x ∷ a) (y ∷ b) = rw (add_bytes_comm a b) (ap (λ n. n ∷ add_bytes b a) (omega arith))

abbrev pub text_part : Bytes → Part
text_part b = record {
  content_type = str "text/plain";
  disposition = none;
  filename = none;
  payload = some b;
}

-- Any text is read as a message of one plain part, from alice to bob.
abbrev pub plain_message : Str → Message
plain_message raw = record {
  to_header = str "bob@example.com";
  cc_header = [];
  bcc_header = [];
  from_header = str "alice@example.com";
  subject_header = str "hello";
  is_multipart = false;
  root = text_part raw;
  walk = text_part raw ∷ [];
}

abbrev pub number_of : Json → Option ℕ
number_of (num n) = some (n * 10 ^ 6)
number_of (text s) = elim (int_of s) [ none ↦ none | some n ↦ some (n * 10 ^ 6) ]
number_of _ = none

abbrev pub machine : Runtime
machine = record {
  dumps = dump;
  dumps_indent = dump;
  dumps_sorted = dump;
  loads = load;
  message_from_string = plain_message;
  repr = λ v. str "value";
  to_float = number_of;
  encode = λ s. s;
  decode = λ b. some b;
  decode_ignore = λ b. b;
  b64encode = λ b. b;
  b64decode = λ s. some s;
  sha256 = λ b. pad 32 b;
  x25519_public = λ k. pad 32 k;
  x25519_exchange = λ k p. some (add_bytes (pad 32 k) p);
  ed25519_public = λ k. k;
  ed25519_sign = λ k m. k ++ m;
  ed25519_verify = λ k sig m. sig == (k ++ m);
  der_x25519 = λ b. none;
  der_ed25519 = λ b. none;
  hkdf = λ info secret. info ++ secret;
  aes_encrypt = λ key nonce plain. plain;
  aes_decrypt = λ key nonce cipher. some cipher;
}

pub machine-IsLawful : IsLawful machine
machine-IsLawful = record {
  loads-dumps = load-dump;
  loads-dumps_indent = load-dump;
  decode-encode = λ s. refl;
  decode_ignore-encode = λ s. refl;
  b64decode-b64encode = λ b. refl;
  sha256-Is32 = pad-Is32;
  public-Is32 = pad-Is32;
  exchange_shared = λ a b.
      (add_bytes (pad 32 a) (pad 32 b), refl, ap some (add_bytes_comm (pad 32 b) (pad 32 a)));
  decrypt-encrypt = λ key nonce plain. refl;
}

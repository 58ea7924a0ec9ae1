-- ===== src/Gateway/Receipt.antt =====
-- `generate_delivery_receipt` of src/gateway.py.
use mx2_sandbox.Base.{
  Str, str, Bool, true, false, ◌||◌, Option, none, some, [], ◌∷◌, ◌++◌, take, ◌==◌, nat_eq, list_eq,
}
use mx2_sandbox.Base.Hex.{to_hex}
use mx2_sandbox.Json.{Json, text, arr, obj, Items, nil, cons, get_field, dict}
use mx2_sandbox.Runtime.{Runtime}
use mx2_sandbox.Gateway.Keys.{parse_ed25519_private_key}
use mx2_sandbox.Gateway.Header.{occurs}

unfoldable pub item_in : Str → Items → Bool
item_in key nil = false
item_in key (cons (text s) rest) = s == key || item_in key rest
item_in key (cons v rest) = item_in key rest

-- `key in v`, with `none` for a `TypeError`
unfoldable pub is_in : Str → Json → Option Bool
unfolding item_in
is_in key (obj fs) = some (elim (get_field key fs) [ none ↦ false | some v ↦ true ])
is_in key (arr vs) = some (item_in key vs)
is_in key (text s) = some (occurs key s)
is_in key _ = none

module _ (R : Runtime) where
  abbrev pub envelope_hash : Json → Str
  envelope_hash envelope = to_hex (R.sha256 (R.encode (R.dumps_sorted envelope)))

  abbrev pub receipt_id : Bool → Str → Str
  receipt_id true hash = str "receipt_" ++ take 12 hash
  receipt_id false hash = str "msg_unknown"

  -- The receipt, with the time as text, or `none` for an exception.
  unfoldable pub generate_delivery_receipt : Json → Str → Str → Option Json
  generate_delivery_receipt envelope recipient_private_key timestamp =
      let hash = envelope_hash envelope in
      let key = parse_ed25519_private_key R recipient_private_key in
      elim (is_in (str "encryptedPayload") envelope) [
        | none ↦ none
        | some sealed ↦ some (
            dict (
              (str "messageId", text (receipt_id sealed hash))
              ∷ (str "sha256Digest", text hash)
              ∷ (str "timestamp", text timestamp)
              ∷ (str "signature", text (R.b64encode (R.ed25519_sign key (R.encode hash))))
              ∷ []))
      ]

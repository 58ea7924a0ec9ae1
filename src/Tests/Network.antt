-- ===== src/Tests/Network.antt =====
-- The resolvers and the proxies on small inputs.
use mx2_sandbox.Base.{
  ◌≡◌, ◌++◌, refl, Str, str, true, false, All, Option, none, some, List, [], ◌∷◌, nat_eq, list_eq,
  arith,
}
use mx2_sandbox.Base.Dict.{lookup}
use mx2_sandbox.Base.Text.{strip, upper, starts_with, join, split}
use mx2_sandbox.Json.{Json, null, text, dict, Fields, end, truthy}
use mx2_sandbox.Resolver.Did.{resolve_did_web, DidCache, resolve, document_of}
use mx2_sandbox.Resolver.Did.Cache.{IsStatic, resolve_transparent, Lookup, resolve_all}
use mx2_sandbox.Resolver.Dns.{resolve_domain_key}
use mx2_sandbox.Resolver.Dns.Records.{Item, IsItem, record_text, resolve-record_text}
use mx2_sandbox.Server.{or_else}
use mx2_sandbox.Gateway.Translate.{
  addresses, did_or, features_or_default, inner_payload, outer_envelope, recipient_address,
  recipients_list, sender_address, Fresh, translate_smtp_to_mx2,
}
use mx2_sandbox.Proxy.Smtp.{
  connected, data_reply, accepted_reply, api_payload, load_dict, handle_client,
}
use mx2_sandbox.Proxy.Smtp.Transfer.{IsBody, texts, mail_transfer}
use mx2_sandbox.Proxy.Imap.{ImapSession, handle_imap_client}
use mx2_sandbox.Proxy.Imap.Replies.{answers, written-handle_imap_client}
use mx2_sandbox.AntiSpam.Queue.Laws.{is_held}
use mx2_sandbox.Proxy.Smtp.Delivery.{post_all}
use mx2_sandbox.Proxy.Smtp.Clients.{Round, listening, run_rounds, client_lines}
use mx2_sandbox.Proxy.Smtp.Clients.Isolation.{own_part, clients_isolated}
use mx2_sandbox.Proxy.Smtp.Clients.Quarantine.{is_held-run_rounds}
use mx2_sandbox.Tests.Machine.{machine-IsLawful, pad, machine}
use mx2_sandbox.Tests.Data.{fresh, call_at, daemon}
use mx2_sandbox.Base.Hex.{to_hex}
use mx2_sandbox.Gateway.Body.{process_message, process_single, process_text_part}
use mx2_sandbox.Gateway.Header.{occurs}
use mx2_sandbox.Gateway.Hpke.{encrypt_payload}
use mx2_sandbox.Tests.Codec.{dump, load}

abbrev no_web : Str → Option Json
no_web url = none

abbrev some_web : Str → Option Json
some_web url = some (dict ((str "id", text url) ∷ []))

abbrev empty_cache : DidCache
empty_cache = record { ttl = 300; entries = [] }

ab-IsStatic : IsStatic (strip (str " did:mx2:ab"))
unfolding strip split nat_eq
ab-IsStatic e = cc

ab_did : starts_with (strip (str " did:mx2:ab")) (str "did:") ≡ true
unfolding starts_with strip
ab_did = refl

abbrev lookups : List Lookup
lookups = (some_web, str "did:web:a.nl", 2) ∷ (no_web, str "did:mx2:ab", 3) ∷ []

resolve_transparent_example :
    (resolve no_web (str " did:mx2:ab") 5 (resolve_all lookups empty_cache)).0
    ≡ document_of no_web (strip (str " did:mx2:ab"))
resolve_transparent_example =
    resolve_transparent lookups no_web (str " did:mx2:ab") 5 empty_cache refl ab-IsStatic ab_did

not_cached : lookup (strip (str "did:web:a.nl")) empty_cache.entries ≡ none
unfolding lookup
not_cached = refl

is_did : starts_with (strip (str "did:web:a.nl")) (str "did:") ≡ true
unfolding starts_with strip
is_did = refl

has_document : truthy (document_of some_web (strip (str "did:web:a.nl"))) ≡ true
unfolding truthy document_of list_eq split strip resolve_did_web
has_document = refl

abbrev published_items : List Item
published_items =
    (str "v", str "MX2")
    ∷ (str " pubkey", str "unread")
    ∷ (str "pubkey", str " abc=")
    ∷ (str "alg", str "X25519")
    ∷ []

abbrev published : Str → Option (List (Option Str))
published name = some (some (record_text published_items) ∷ none ∷ [])

published_items-IsItem : All IsItem published_items
published_items-IsItem = ground arith

resolve-record_text_example :
    resolve_domain_key published (str "A.nl")
    ≡ some (record {
      public_key = strip (str " abc=");
      algorithm = strip (or_else (some (str "X25519")) (str "Ed25519"));
    })
unfolding starts_with nat_eq list_eq
resolve-record_text_example =
    resolve-record_text published (str "A.nl") (str " abc=") published_items (none ∷ [])
      published_items-IsItem refl refl refl

abbrev body : List (Fresh × Str)
body = (fresh, str "Subject: hi") ∷ []

body-IsBody : IsBody body
unfolding strip
body-IsBody = ((λ e. cc), tt)

is_data : strip (upper (str "data ")) ≡ str "DATA"
unfolding strip upper
is_data = refl

is_dot : strip (str ". ") ≡ str "."
unfolding strip
is_dot = refl

abbrev fields_or_end : Option Fields → Fields
fields_or_end none = end
fields_or_end (some fs) = fs

abbrev envelope_fields : Fields
envelope_fields = fields_or_end (
    load_dict machine
      (translate_smtp_to_mx2 machine fresh (join [] (texts body)) [] null null []).0)

envelope_made :
    load_dict machine (translate_smtp_to_mx2 machine fresh (join [] (texts body)) [] null null []).0
    ≡ some envelope_fields
unfolding translate_smtp_to_mx2 encrypt_payload load dump outer_envelope truthy to_hex pad
    inner_payload recipients_list addresses split list_eq strip process_message process_single
    process_text_part join sender_address did_or occurs features_or_default recipient_address
envelope_made = refl

mail_transfer_example :
    handle_client machine ((fresh, str "data ") ∷ (body ++ (fresh, str ". ") ∷ [])) (connected [])
    ≡ record (connected []) {
      in_data_mode = false;
      data_buffer = [];
      written = ((connected []).written ++ data_reply ∷ []) ++ accepted_reply ∷ [];
      posted = (connected []).posted ++ api_payload (join [] (texts body)) envelope_fields ∷ [];
      cas = (translate_smtp_to_mx2 machine fresh (join [] (texts body)) [] null null []).1;
    }
mail_transfer_example =
    mail_transfer machine fresh fresh (str "data ") (str ". ") body (connected []) envelope_fields
      refl refl refl is_data body-IsBody is_dot envelope_made

abbrev imap_start : ImapSession
imap_start = record { written = []; is_open = true }

written-handle_imap_client_example :
    (handle_imap_client
      (str "a1 CAPABILITY" ∷ str "" ∷ str "a2 logout" ∷ str "a3 NOOP" ∷ [])
      imap_start).written
    ≡ imap_start.written
      ++ answers (str "a1 CAPABILITY" ∷ str "" ∷ str "a2 logout" ∷ str "a3 NOOP" ∷ [])
written-handle_imap_client_example =
    written-handle_imap_client (str "a1 CAPABILITY" ∷ str "" ∷ str "a2 logout" ∷ str "a3 NOOP" ∷ [])
      imap_start refl

-- two clients whose lines alternate
abbrev alternating : List Round
alternating =
    (0, (fresh, str "data"))
    ∷ (1, (fresh, str "data"))
    ∷ (0, (fresh, str "Subject: a"))
    ∷ (1, (fresh, str "Subject: b"))
    ∷ (1, (fresh, str "."))
    ∷ (0, (fresh, str "."))
    ∷ []

is_held-run_rounds_example :
    is_held
      (str "m")
      (post_all machine
        ((call_at 1, true) ∷ (call_at 2, true) ∷ [])
        (run_rounds machine alternating (listening [])).sent
        daemon).anti_spam
    ≡ is_held (str "m") daemon.anti_spam
is_held-run_rounds_example =
    is_held-run_rounds machine machine-IsLawful ((call_at 1, true) ∷ (call_at 2, true) ∷ [])
      alternating [] (str "m") daemon

clients_isolated_example :
    own_part ((run_rounds machine alternating (listening [])).client 1)
    ≡ own_part (handle_client machine (client_lines 1 alternating) (connected []))
clients_isolated_example = clients_isolated machine alternating 1 (listening [])

-- ===== src/Resolver/Dns/Records.antt =====
-- The TXT records with keys that src/dns_resolver.py reads.
use mx2_sandbox.Base.{
  ◌≡◌, ◌≢◌, refl, ◌∙◌, ap, sym, Str, str, Bool, true, false, ◌&&◌, ◌||◌, Option, none, some, List,
  [], ◌∷◌, ◌++◌, All, All-append, map, Bool-cases, Option-cases, inl, inr, arith, ◌==◌, nat_eq,
  list_eq, if◌then◌else◌,
}
use mx2_sandbox.Base.Dict.{Dict, lookup, insert, lookup-insert}
use mx2_sandbox.Base.Text.{strip, starts_with, split, split_once, join}
use mx2_sandbox.Base.Text.Laws.{Lacks, split-append, split-Lacks}
use mx2_sandbox.Gateway.Header.{occurs}
use mx2_sandbox.Server.{or_else}
use mx2_sandbox.Resolver.Dns.{
  read_items, get_part, read_key, first_key, clean_domain, resolve_domain_key,
}

-- an item of a record: a name and a value with a `=` between them
abbrev pub Item : Type 0
Item = Str × Str

abbrev pub IsItem : Item → Type 0
IsItem (name, value) = Lacks b'=' name × Lacks b';' name × Lacks b';' value

abbrev pub item_text : Item → Str
item_text (name, value) = name ++ b'=' ∷ value

abbrev pub record_text : List Item → Str
record_text record_items = join (str ";") (map item_text record_items)

-- the value of the last item of a name
abbrev pub last_value : Str → List Item → Option Str
last_value name [] = none
last_value name ((n, v) ∷ rest) = elim (last_value name rest) [
  | none ↦ if name == n then some v else none
  | some w ↦ some w
]

-- an item named v whose value begins with MX2
abbrev pub has_version : List Item → Bool
has_version [] = false
has_version ((n, v) ∷ rest) = n == str "v" && starts_with v (str "MX2") || has_version rest

starts_with-append : (s t sub : Str) → starts_with s sub ≡ true → starts_with (s ++ t) sub ≡ true
unfolding starts_with
starts_with-append s t [] h = refl
starts_with-append [] t (c ∷ sub) h = ground (arith, h)
starts_with-append (d ∷ s) t (c ∷ sub) h = ground (arith, starts_with-append s t sub)

occurs_behind : (sub w s : Str) → occurs sub s ≡ true → occurs sub (w ++ s) ≡ true
unfolding occurs
occurs_behind sub [] s h = h
occurs_behind sub (c ∷ w) s h = ground (arith, occurs_behind sub w s h)

occurs_start : (sub s : Str) → starts_with s sub ≡ true → occurs sub s ≡ true
unfolding occurs
occurs_start sub [] h = h
occurs_start sub (c ∷ s) h = ground (arith, h)

occurs_before : (sub s t : Str) → occurs sub s ≡ true → occurs sub (s ++ t) ≡ true
unfolding occurs
occurs_before sub [] t h = occurs_start sub t (starts_with-append [] t sub h)
occurs_before sub (c ∷ s) t h =
    ground (arith, h, occurs_before sub s t, starts_with-append (c ∷ s) t sub)

split_once-item :
    (name value : Str)
    → Lacks b'=' name
    → split_once b'=' (item_text (name, value)) ≡ name ∷ value ∷ []
unfolding split_once
split_once-item [] value h = refl
split_once-item (c ∷ name) value (k, h) = rw (split_once-item name value h) (ground (arith, k))

item-Lacks : (item : Item) → IsItem item → Lacks b';' (item_text item)
item-Lacks (name, value) (plain, whole, k) =
    All-append (λ c. c ≢ b';') name (b'=' ∷ value) whole ((λ e. omega (arith, e)), k)

split-record_text :
    (item : Item) (rest : List Item)
    → All IsItem (item ∷ rest)
    → split b';' (record_text (item ∷ rest)) ≡ map item_text (item ∷ rest)
unfolding join
split-record_text item [] (h, t) = split-Lacks b';' (item_text item) (item-Lacks item h)
split-record_text item (next ∷ rest) (h, t) =
    split-append b';' (item_text item) (record_text (next ∷ rest)) (item-Lacks item h)
    ∙ ap (λ ws. item_text item ∷ ws) (split-record_text next rest t)

lookup-read_items :
    (name : Str) (parts : Dict Str Str) (record_items : List Item)
    → All IsItem record_items
    → lookup name (read_items parts (map item_text record_items))
      ≡ elim (last_value name record_items) [ none ↦ lookup name parts | some w ↦ some w ]
unfolding read_items
lookup-read_items name parts [] h = refl
lookup-read_items name parts ((n, v) ∷ rest) ((plain, _, _), t) =
    rw (read_items, split_once-item n v plain)
      (lookup-read_items name (insert n v parts) rest t
        ∙ ground (arith, lookup-insert name n v parts))

-- What stands in one item stands in the record.
occurs_here :
    (sub : Str) (item : Item) (rest : List Item)
    → occurs sub (item_text item) ≡ true
    → occurs sub (record_text (item ∷ rest)) ≡ true
unfolding join
occurs_here sub item [] h = h
occurs_here sub item (next ∷ rest) h =
    occurs_before sub (item_text item) (b';' ∷ record_text (next ∷ rest)) h

occurs_nothing : (sub : Str) → occurs sub [] ≡ true → starts_with [] sub ≡ true
unfolding occurs
occurs_nothing sub h = h

occurs_later :
    (sub : Str) (item : Item) (rest : List Item)
    → occurs sub (record_text rest) ≡ true
    → occurs sub (record_text (item ∷ rest)) ≡ true
unfolding join
occurs_later sub item [] h =
    occurs_start sub (item_text item)
      (starts_with-append [] (item_text item) sub (occurs_nothing sub h))
occurs_later sub item (next ∷ rest) h =
    occurs_behind sub (item_text item) (b';' ∷ record_text (next ∷ rest))
      (occurs_behind sub (b';' ∷ []) (record_text (next ∷ rest)) h)

same : {s t : Str} → (s == t) ≡ true → s ≡ t
same e = ground (arith, e)

version_item :
    (n v : Str)
    → (n == str "v" && starts_with v (str "MX2")) ≡ true
    → occurs (str "v=MX2") (item_text (n, v)) ≡ true
unfolding starts_with nat_eq
version_item n v h =
    let named : n ≡ str "v" = same (ground (arith, h)) in
    rw named (occurs_start (str "v=MX2") (item_text (str "v", v)) (ground (arith, h)))

has_version-occurs :
    (record_items : List Item)
    → has_version record_items ≡ true
    → occurs (str "v=MX2") (record_text record_items) ≡ true
has_version-occurs [] h = ground (arith, h)
has_version-occurs ((n, v) ∷ rest) h =
    elim (Bool-cases (n == str "v" && starts_with v (str "MX2"))) [
      | inl e ↦ occurs_here (str "v=MX2") (n, v) rest (version_item n v e)
      | inr e ↦
          occurs_later (str "v=MX2") (n, v) rest (has_version-occurs rest (ground (arith, h, e)))
    ]

key_item :
    (n v : Str) → (str "pubkey" == n) ≡ true → occurs (str "pubkey=") (item_text (n, v)) ≡ true
unfolding starts_with nat_eq
key_item n v h = rw (sym (same h)) (occurs_start (str "pubkey=") (str "pubkey=" ++ v) refl)

last_value-occurs :
    (record_items : List Item) (key : Str)
    → last_value (str "pubkey") record_items ≡ some key
    → occurs (str "pubkey=") (record_text record_items) ≡ true
last_value-occurs [] key h = ground (arith, h)
last_value-occurs ((n, v) ∷ rest) key h = elim (Option-cases (last_value (str "pubkey") rest)) [
  | inl e ↦ elim (Bool-cases (str "pubkey" == n)) [
    | inl b ↦ occurs_here (str "pubkey=") (n, v) rest (key_item n v b)
    | inr b ↦ absurd (ground (arith, h, e, b))
  ]
  | inr (w, e) ↦ occurs_later (str "pubkey=") (n, v) rest (last_value-occurs rest w e)
]

part_of :
    (name default : Str) (record_items : List Item)
    → All IsItem record_items
    → get_part name default (read_items [] (map item_text record_items))
      ≡ or_else (last_value name record_items) default
unfolding get_part lookup
part_of name default record_items h = elim (Option-cases (last_value name record_items)) [
  | inl e ↦ rw (get_part, lookup-read_items name [] record_items h, e) refl
  | inr (v, e) ↦ rw (get_part, lookup-read_items name [] record_items h, e) refl
]

read_key-record_text :
    (record_items : List Item) (key : Str)
    → All IsItem record_items
    → last_value (str "pubkey") record_items ≡ some key
    → read_key (record_text record_items) ≡ record {
      public_key = strip key;
      algorithm = strip (or_else (last_value (str "alg") record_items) (str "Ed25519"));
    }
unfolding read_key
read_key-record_text [] key h e = ground (arith, e)
read_key-record_text (item ∷ rest) key h e =
    rw
      (
        read_key,
        split-record_text item rest h,
        part_of (str "pubkey") [] (item ∷ rest) h,
        part_of (str "alg") (str "Ed25519") (item ∷ rest) h,
        e,
      )
      refl

-- Where the first string that a domain publishes is a record of items, each a name and a value with a
-- `=` between them, with semicolons between the items and none of these characters elsewhere but for
-- a `=` in a value: if an item is named v and its value begins with MX2, and the last item named
-- pubkey has the value `key`, then the domain is resolved to `key` without the white space around it,
-- and to the algorithm of the last item named alg, or Ed25519 if there is none. A name is taken with
-- the white space before it, so an item behind a semicolon and a space is not named pubkey.
pub resolve-record_text :
    (query : Str → Option (List (Option Str))) (domain key : Str) (record_items : List Item)
    (strings : List (Option Str))
    → All IsItem record_items
    → has_version record_items ≡ true
    → last_value (str "pubkey") record_items ≡ some key
    → query (str "_mx2key." ++ clean_domain domain)
      ≡ some (some (record_text record_items) ∷ strings)
    → resolve_domain_key query domain
      ≡ some (record {
        public_key = strip key;
        algorithm = strip (or_else (last_value (str "alg") record_items) (str "Ed25519"));
      })
unfolding resolve_domain_key first_key
resolve-record_text query domain key record_items strings h version e answer =
    rw
      (
        resolve_domain_key,
        answer,
        has_version-occurs record_items version,
        last_value-occurs record_items key e,
        read_key-record_text record_items key h e,
      )
      refl

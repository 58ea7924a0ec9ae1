-- ===== src/Gateway/Negotiate/Laws.antt =====
-- The version and the features that src/gateway.py negotiates.
use mx2_sandbox.Base.{
  ℕ, min, ◌≡◌, refl, Str, str, false, ◌&&◌, Option, some, List, [], ◌∷◌, ◌++◌, contains, nat_eq,
  list_eq, arith,
}
use mx2_sandbox.Base.Text.Laws.{Lacks, split-append}
use mx2_sandbox.Base.Decimal.{decimal, int_of-decimal, IsDigits, decimal-IsDigits}
use mx2_sandbox.Gateway.Negotiate.{
  version_parts, version_text, intersection, Negotiated, negotiate_capabilities, or_default,
}

digits-Lacks : (s : Str) → IsDigits s → Lacks b'.' s
digits-Lacks [] h = tt
digits-Lacks (c ∷ s) ((a, b), h) = (ground arith, digits-Lacks s h)

-- a version of three parts, the last of which is arbitrary
abbrev pub sem_ver : ℕ → ℕ → Str → Str
sem_ver major minor patch = decimal major ++ b'.' ∷ (decimal minor ++ b'.' ∷ patch)

pub version_parts-sem_ver :
    (major minor : ℕ) (patch : Str)
    → version_parts (sem_ver major minor patch) ≡ some (major, minor)
version_parts-sem_ver major minor patch =
    unfold version_parts in
    rw
      (
        split-append b'.' (decimal major) (decimal minor ++ b'.' ∷ patch)
            (digits-Lacks (decimal major) (decimal-IsDigits major)),
        split-append b'.' (decimal minor) patch
            (digits-Lacks (decimal minor) (decimal-IsDigits minor)),
        int_of-decimal major,
        int_of-decimal minor,
      )
      refl

-- Any two versions of three parts are negotiated, to the version with the smaller of the two major
-- numbers and the smaller of the two minor numbers, which is again such a version.
pub negotiate_version :
    (a b c d : ℕ) (p q : Str) (client : List Str) (server : Option (List Str))
    → negotiate_capabilities (sem_ver a b p) client (sem_ver c d q) server
      ≡ some (record {
        protocol_version = sem_ver (min a c) (min b d) (str "0");
        features = intersection client (or_default server);
      })
unfolding version_text
negotiate_version a b c d p q client server =
    unfold negotiate_capabilities in
    rw (version_parts-sem_ver a b p, version_parts-sem_ver c d q) refl

contains-intersection :
    (xs ys : List Str) (f : Str)
    → contains (intersection xs ys) f ≡ (contains xs f && contains ys f)
unfolding intersection
contains-intersection [] ys f = refl
contains-intersection (x ∷ xs) ys f =
    ground (arith, contains-intersection xs ys f, contains-intersection xs ys x)

abbrev pub NoRepeats : List Str → Type 0
NoRepeats [] = Unit
NoRepeats (x ∷ xs) = (contains xs x ≡ false) × NoRepeats xs

intersection-NoRepeats : (xs ys : List Str) → NoRepeats (intersection xs ys)
unfolding intersection
intersection-NoRepeats [] ys = tt
intersection-NoRepeats (x ∷ xs) ys = ground (arith, intersection-NoRepeats xs ys)

features-negotiate :
    (cv sv : Str) (client : List Str) (server : Option (List Str)) (n : Negotiated)
    → negotiate_capabilities cv client sv server ≡ some n
    → n.features ≡ intersection client (or_default server)
unfolding negotiate_capabilities
features-negotiate cv sv client server n h = ground arith

-- If a negotiation returns, its features are those that both sides support, each once.
pub negotiate_features :
    (cv sv : Str) (client : List Str) (server : Option (List Str)) (n : Negotiated)
    → negotiate_capabilities cv client sv server ≡ some n
    → NoRepeats n.features
      × ((f : Str) → contains n.features f ≡ (contains client f && contains (or_default server) f))
negotiate_features cv sv client server n h = rw (features-negotiate cv sv client server n h) (
  intersection-NoRepeats client (or_default server),
  contains-intersection client (or_default server),
)

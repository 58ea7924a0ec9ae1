-- ===== src/Tests/Codec.antt =====
-- A codec of JSON values, for a runtime that can be run: a value is written as the instructions of
-- a stack machine, two numbers each, which put the value on the stack.
use mx2_sandbox.Base.{
  ℕ, zero, suc, ◌==◌, nat_eq, if◌then◌else◌, ◌≡◌, ◌∙◌, ap, refl, Str, Bool, true, false, Option,
  none, some, List, [], ◌∷◌,
}
use mx2_sandbox.Json.{Json, null, bool, num, text, arr, obj, Items, nil, cons, Fields, end, field}

pub data Entry : Type 0 where
  value : Json → Entry
  list : Items → Entry
  dict : Fields → Entry

write_text : Str → List ℕ → List ℕ
write_text [] t = 3 ∷ 0 ∷ t
write_text (c ∷ s) t = write_text s (4 ∷ c ∷ t)

write_bool : Bool → ℕ
write_bool false = 0
write_bool true = 1

mutual
  write_value : Json → List ℕ → List ℕ
  write_value null t = 0 ∷ 0 ∷ t
  write_value (bool b) t = 1 ∷ write_bool b ∷ t
  write_value (num n) t = 2 ∷ n ∷ t
  write_value (text s) t = write_text s t
  write_value (arr vs) t = write_items vs (7 ∷ 0 ∷ t)
  write_value (obj fs) t = write_fields fs (10 ∷ 0 ∷ t)

  write_items : Items → List ℕ → List ℕ
  write_items nil t = 5 ∷ 0 ∷ t
  write_items (cons v vs) t = write_items vs (write_value v (6 ∷ 0 ∷ t))

  write_fields : Fields → List ℕ → List ℕ
  write_fields end t = 8 ∷ 0 ∷ t
  write_fields (field k v fs) t = write_fields fs (write_value v (write_text k (9 ∷ 0 ∷ t)))

pub data Op : Type 0 where
  op_null op_bool op_num op_text op_char op_nil op_cons op_arr op_end op_field op_obj : Op

op_of : ℕ → Op
unfolding nat_eq
op_of n =
    if n == 0
    then op_null
    else if n == 1
    then op_bool
    else if n == 2
    then op_num
    else if n == 3
    then op_text
    else if n == 4
    then op_char
    else if n == 5
    then op_nil
    else if n == 6
    then op_cons
    else if n == 7
    then op_arr
    else if n == 8
    then op_end
    else if n == 9
    then op_field
    else op_obj

-- one instruction; a bad one leaves the stack as it is
step : Op → ℕ → List Entry → List Entry
step op_null n st = value null ∷ st
step op_bool zero st = value (bool false) ∷ st
step op_bool (suc n) st = value (bool true) ∷ st
step op_num n st = value (num n) ∷ st
step op_text n st = value (text []) ∷ st
step op_char c (value (text s) ∷ st) = value (text (c ∷ s)) ∷ st
step op_nil n st = list nil ∷ st
step op_cons n (value v ∷ list vs ∷ st) = list (cons v vs) ∷ st
step op_arr n (list vs ∷ st) = value (arr vs) ∷ st
step op_end n st = dict end ∷ st
step op_field n (value (text k) ∷ value v ∷ dict fs ∷ st) = dict (field k v fs) ∷ st
step op_obj n (dict fs ∷ st) = value (obj fs) ∷ st
step _ n st = st

run_code : List ℕ → List Entry → List Entry
unfolding op_of step
run_code [] st = st
run_code (op ∷ []) st = st
run_code (op ∷ n ∷ t) st = run_code t (step (op_of op) n st)

result : List Entry → Option Json
result (value v ∷ []) = some v
result _ = none

unfoldable pub dump : Json → Str
unfolding write_value write_items write_fields write_text write_bool
dump v = write_value v []

unfoldable pub load : Str → Option Json
unfolding run_code step result
load s = result (run_code s [])

run-write_text :
    (s : Str) (t : List ℕ) (st : List Entry)
    → run_code (write_text s t) st ≡ run_code t (value (text s) ∷ st)
unfolding run_code write_text step op_of nat_eq
run-write_text [] t st = refl
run-write_text (c ∷ s) t st = run-write_text s (4 ∷ c ∷ t) st

run-write_bool :
    (b : Bool) (t : List ℕ) (st : List Entry)
    → run_code (1 ∷ write_bool b ∷ t) st ≡ run_code t (value (bool b) ∷ st)
unfolding run_code write_bool step op_of nat_eq
run-write_bool false t st = refl
run-write_bool true t st = refl

mutual
  unfolding run_code write_value step op_of nat_eq

  run-write_value :
      (v : Json) (t : List ℕ) (st : List Entry)
      → run_code (write_value v t) st ≡ run_code t (value v ∷ st)
  run-write_value null t st = refl
  run-write_value (bool b) t st = run-write_bool b t st
  run-write_value (num n) t st = refl
  run-write_value (text s) t st = run-write_text s t st
  run-write_value (arr vs) t st = run-write_items vs (7 ∷ 0 ∷ t) st
  run-write_value (obj fs) t st = run-write_fields fs (10 ∷ 0 ∷ t) st

  run-write_items :
      (vs : Items) (t : List ℕ) (st : List Entry)
      → run_code (write_items vs t) st ≡ run_code t (list vs ∷ st)
  run-write_items nil t st = refl
  run-write_items (cons v vs) t st =
      run-write_items vs (write_value v (6 ∷ 0 ∷ t)) st
      ∙ run-write_value v (6 ∷ 0 ∷ t) (list vs ∷ st)

  run-write_fields :
      (fs : Fields) (t : List ℕ) (st : List Entry)
      → run_code (write_fields fs t) st ≡ run_code t (dict fs ∷ st)
  run-write_fields end t st = refl
  run-write_fields (field k v fs) t st =
      run-write_fields fs (write_value v (write_text k (9 ∷ 0 ∷ t))) st
      ∙ run-write_value v (write_text k (9 ∷ 0 ∷ t)) (dict fs ∷ st)
      ∙ run-write_text k (9 ∷ 0 ∷ t) (value v ∷ dict fs ∷ st)

pub load-dump : (v : Json) → load (dump v) ≡ some v
unfolding load dump
load-dump v = ap result (run-write_value v [] [])

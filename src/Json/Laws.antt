-- ===== src/Json/Laws.antt =====
-- Laws of the JSON accessors: what a read sees after a write, and what stays as it was.
use aimee_module_economizer.Prelude.{
  inr, inl, Bool-cases, ℕ, zero, suc, ◌≤◌, ◌≡◌, refl, ap, ap₂, false, List, [], ◌∷◌, some, Bytes,
  eq_bytes, eq_bytes_iff, if◌then◌else◌, arith, length,
}
use aimee_module_economizer.Json.{
  Value, Items, Fields, null, bool, number, string, array, object, nil, cons, end, field, to_list,
  of_list, get, get_field, set, set_field, update, update_field, delete, delete_field, insert_at,
  erase_at, clone, clone_items, clone_fields, get_string,
}
use mathlib.Core.Option

pub to_list-of_list : (vs : List Value) → to_list (of_list vs) ≡ vs
to_list-of_list [] = refl
to_list-of_list (v ∷ vs) = ap (◌∷◌ v) (to_list-of_list vs)

pub of_list-to_list : (vs : Items) → of_list (to_list vs) ≡ vs
of_list-to_list nil = refl
of_list-to_list (cons v vs) = ap (cons v) (of_list-to_list vs)

get_field-set_field :
    (fs : Fields) (key j : Bytes) (val : Value)
    → get_field j (set_field key val fs) ≡ (if eq_bytes key j then some val else get_field j fs)
unfolding get_field set_field
get_field-set_field end key j val = refl
get_field-set_field (field k v fs) key j val = ground (
  arith,
  eq_bytes_iff k key,
  eq_bytes_iff k j,
  eq_bytes_iff key j,
  get_field-set_field fs key j val,
)

get_field-update_field :
    (fs : Fields) (key j : Bytes) (f : Value → Value)
    → get_field j (update_field key f fs)
      ≡ (if eq_bytes key j then Option.map f (get_field j fs) else get_field j fs)
unfolding get_field update_field
get_field-update_field end key j f = ground arith
get_field-update_field (field k v fs) key j f = ground (
  arith,
  eq_bytes_iff k key,
  eq_bytes_iff k j,
  eq_bytes_iff key j,
  get_field-update_field fs key j f,
)

get_field-delete_field :
    (fs : Fields) (key j : Bytes)
    → eq_bytes key j ≡ false
    → get_field j (delete_field key fs) ≡ get_field j fs
unfolding get_field delete_field
get_field-delete_field end key j h = refl
get_field-delete_field (field k v fs) key j h = ground (
  arith,
  eq_bytes_iff k key,
  eq_bytes_iff k j,
  eq_bytes_iff key j,
  get_field-delete_field fs key j h,
)

-- An object has the value that `Set` gave it, and its other keys as before.
pub get-set :
    (fs : Fields) (key j : Bytes) (val : Value)
    → get (set (object fs) key val) j ≡ (if eq_bytes key j then some val else get (object fs) j)
unfolding get set
get-set fs key j val = get_field-set_field fs key j val

pub get-update :
    (v : Value) (key j : Bytes) (f : Value → Value)
    → get (update v key f) j ≡ (if eq_bytes key j then Option.map f (get v j) else get v j)
unfolding get update
get-update (object fs) key j f = get_field-update_field fs key j f
get-update _ key j f = ground arith

pub get-update_ne :
    (v : Value) (key j : Bytes) (f : Value → Value)
    → eq_bytes key j ≡ false
    → get (update v key f) j ≡ get v j
get-update_ne v key j f h = ground (arith, get-update v key j f)

pub get_string-update_ne :
    (v : Value) (key j : Bytes) (f : Value → Value)
    → eq_bytes key j ≡ false
    → get_string (update v key f) j ≡ get_string v j
unfolding get_string
get_string-update_ne v key j f h = rw (get-update_ne v key j f h)

pub get-delete :
    (v : Value) (key j : Bytes) → eq_bytes key j ≡ false → get (delete v key) j ≡ get v j
unfolding get delete
get-delete (object fs) key j h = get_field-delete_field fs key j h
get-delete _ key j h = refl

pub length-insert_at :
    (vs : List Value) (i : ℕ) (item : Value) → length (insert_at vs i item) ≡ suc (length vs)
length-insert_at [] i item = refl
length-insert_at (v ∷ vs) zero item = refl
length-insert_at (v ∷ vs) (suc i) item = ap suc (length-insert_at vs i item)

-- `RemoveAt` undoes an `Insert` at an index inside the array.
pub erase_at-insert_at :
    (vs : List Value) (i : ℕ) (item : Value) → i ≤ length vs → erase_at (insert_at vs i item) i ≡ vs
erase_at-insert_at [] zero item h = refl
erase_at-insert_at [] (suc i) item h = absurd (omega arith)
erase_at-insert_at (v ∷ vs) zero item h = refl
erase_at-insert_at (v ∷ vs) (suc i) item h = ap (◌∷◌ v) (erase_at-insert_at vs i item (omega arith))

mutual
  unfolding clone

  clone_eq : (v : Value) → clone v ≡ v
  clone_eq null = refl
  clone_eq (bool b) = refl
  clone_eq (number n) = refl
  clone_eq (string s) = refl
  clone_eq (array vs) = ap array (clone_items_eq vs)
  clone_eq (object fs) = ap object (clone_fields_eq fs)

  clone_items_eq : (vs : Items) → clone_items vs ≡ vs
  clone_items_eq nil = refl
  clone_items_eq (cons v vs) = ap₂ cons (clone_eq v) (clone_items_eq vs)

  clone_fields_eq : (fs : Fields) → clone_fields fs ≡ fs
  clone_fields_eq end = refl
  clone_fields_eq (field k v fs) = ap₂ (field k) (clone_eq v) (clone_fields_eq fs)

-- The copy that `Clone` makes carries the same value.
pub clone_lem : (v : Value) → clone v ≡ v
clone_lem v = clone_eq v

update_field_self :
    (fs : Fields) (key : Bytes) (f : Value → Value) {w : Value}
    → get_field key fs ≡ some w
    → f w ≡ w
    → update_field key f fs ≡ fs
unfolding get_field update_field
update_field_self end key f h e = refl
update_field_self (field k v fs) key f h e = elim (Bool-cases (eq_bytes k key)) [
  | inl q ↦ ground (arith, h, e)
  | inr q ↦ rw q (ap (field k v) (update_field_self fs key f (rw q at h) e))
]

-- An update that gives a field the value it has changes nothing.
pub update_self :
    (v : Value) (key : Bytes) (f : Value → Value) {w : Value}
    → get v key ≡ some w
    → f w ≡ w
    → update v key f ≡ v
unfolding get update
update_self (object fs) key f h e = ap object (update_field_self fs key f h e)
update_self _ key f h e = refl

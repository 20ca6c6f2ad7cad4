-- ===== src/Json/Writes.antt =====
-- A write after a write, of the value that is read, and of a changed value
-- (server-go/modules/economizer/jsonval.go).
use aimee_module_economizer.Prelude.{
  eq_bytes_refl, ◌≡◌, refl, ap, inl, inr, some, arith, Bytes, eq_bytes, Bool-cases,
}
use aimee_module_economizer.Json.{
  Value, get, set, set_field, get_field, update, update_field, object, Fields, field, end,
}

set_field-set_field :
    (fs : Fields) (key : Bytes) (v w : Value)
    → set_field key w (set_field key v fs) ≡ set_field key w fs
unfolding set_field
set_field-set_field end key v w = rw (eq_bytes_refl key) refl
set_field-set_field (field k x fs) key v w = elim (Bool-cases (eq_bytes k key)) [
  | inl e ↦ rw (e, e) refl
  | inr e ↦ rw (e, e) (ap (field k x) (set_field-set_field fs key v w))
]

set_field-get_field :
    (fs : Fields) (key : Bytes) {w : Value} → get_field key fs ≡ some w → set_field key w fs ≡ fs
unfolding set_field get_field
set_field-get_field end key h = cc
set_field-get_field (field k x fs) key h = elim (Bool-cases (eq_bytes k key)) [
  | inl e ↦ ground (arith, h)
  | inr e ↦ rw e (ap (field k x) (set_field-get_field fs key (rw e at h)))
]

set_field-update_field :
    (fs : Fields) (key : Bytes) (f : Value → Value) {w : Value}
    → get_field key fs ≡ some w
    → set_field key (f w) fs ≡ update_field key f fs
unfolding set_field get_field update_field
set_field-update_field end key f h = cc
set_field-update_field (field k x fs) key f h = elim (Bool-cases (eq_bytes k key)) [
  | inl e ↦ ground (arith, h)
  | inr e ↦ rw e (ap (field k x) (set_field-update_field fs key f (rw e at h)))
]

pub set-set :
    (fs : Fields) (key : Bytes) (v w : Value)
    → set (set (object fs) key v) key w ≡ set (object fs) key w
unfolding set
set-set fs key v w = ap object (set_field-set_field fs key v w)

pub set-get :
    (fs : Fields) (key : Bytes) {w : Value}
    → get (object fs) key ≡ some w
    → set (object fs) key w ≡ object fs
unfolding set get
set-get fs key h = ap object (set_field-get_field fs key h)

pub set-update :
    (fs : Fields) (key : Bytes) (f : Value → Value) {w : Value}
    → get (object fs) key ≡ some w
    → set (object fs) key (f w) ≡ update (object fs) key f
unfolding set get update
set-update fs key f h = ap object (set_field-update_field fs key f h)

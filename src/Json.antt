-- ===== src/Json.antt =====
-- The order-preserving JSON tree of server-go/modules/economizer/cjson.go and its accessors in
-- server-go/modules/economizer/jsonval.go. A `nil` pointer is `none`; no value of the program has
-- a nil child, so children are plain. `Keys` and `Vals`, which run in parallel, are one list of
-- fields. A float64 is its 64-bit pattern, a number.
pub mod Print
pub mod Laws
pub mod Writes
use aimee_module_economizer.Prelude.{
  ℕ, zero, suc, ◌+◌, Bool, true, false, ◌&&◌, List, [], ◌∷◌, ◌++◌, Option, none, some, Bytes, codes,
  eq_bytes, if◌then◌else◌, ltb,
}
use aimee_module_economizer.Prelude.Int.{ℤ, pos, negsuc}
use mathlib.Core.Option

-- `JSONFalse` and `JSONTrue` are the two values of `bool`.
mutual
  pub data Value : Type 0 where
    null : Value
    bool : Bool → Value
    number : ℕ → Value
    string : Bytes → Value
    array : Items → Value
    object : Fields → Value

  pub data Items : Type 0 where
    nil : Items
    cons : Value → Items → Items

  pub data Fields : Type 0 where
    end : Fields
    field : Bytes → Value → Fields → Fields

-- The `Items` slice as a list, and back.
abbrev pub to_list : Items → List Value
to_list nil = []
to_list (cons v vs) = v ∷ to_list vs

abbrev pub of_list : List Value → Items
of_list [] = nil
of_list (v ∷ vs) = cons v (of_list vs)

-- the search of `Get`, `Set` and `Delete`: the first field with the key
pub get_field : Bytes → Fields → Option Value
get_field key end = none
get_field key (field k v fs) = if eq_bytes k key then some v else get_field key fs

-- `Get`
unfoldable pub get : Value → Bytes → Option Value
unfolding get_field
get (object fs) key = get_field key fs
get _ key = none

abbrev string_or_empty : Option Value → Bytes
string_or_empty (some (string s)) = s
string_or_empty _ = []

-- `GetString`
unfoldable pub get_string : Value → Bytes → Bytes
get_string v key = string_or_empty (get v key)

pub set_field : Bytes → Value → Fields → Fields
set_field key val end = field key val end
set_field key val (field k v fs) =
    if eq_bytes k key then field k val fs else field k v (set_field key val fs)

-- `Set`
unfoldable pub set : Value → Bytes → Value → Value
unfolding set_field
set (object fs) key val = object (set_field key val fs)
set v key val = v

pub delete_field : Bytes → Fields → Fields
delete_field key end = end
delete_field key (field k v fs) = if eq_bytes k key then fs else field k v (delete_field key fs)

-- `Delete`
unfoldable pub delete : Value → Bytes → Value
unfolding delete_field
delete (object fs) key = object (delete_field key fs)
delete v key = v

-- A call such as `v.Get(key).Append(x)` changes the child in place: the first field with the key
-- gets a new value.
pub update_field : Bytes → (Value → Value) → Fields → Fields
update_field key f end = end
update_field key f (field k v fs) =
    if eq_bytes k key then field k (f v) fs else field k v (update_field key f fs)

unfoldable pub update : Value → Bytes → (Value → Value) → Value
unfolding update_field
update (object fs) key f = object (update_field key f fs)
update v key f = v

-- `Append`
unfoldable pub append : Value → Value → Value
append (array vs) item = array (of_list (to_list vs ++ item ∷ []))
append v item = v

-- the splice of `Insert`, at an index that is not negative
abbrev pub insert_at : List Value → ℕ → Value → List Value
insert_at [] i item = item ∷ []
insert_at (v ∷ vs) zero item = item ∷ v ∷ vs
insert_at (v ∷ vs) (suc i) item = v ∷ insert_at vs i item

abbrev clamp_index : ℤ → ℕ
clamp_index (pos i) = i
clamp_index (negsuc i) = 0

-- `Insert`
unfoldable pub insert : Value → ℤ → Value → Value
insert (array vs) i item = array (of_list (insert_at (to_list vs) (clamp_index i) item))
insert v i item = v

abbrev pub erase_at : List Value → ℕ → List Value
erase_at [] i = []
erase_at (v ∷ vs) zero = vs
erase_at (v ∷ vs) (suc i) = v ∷ erase_at vs i

-- `RemoveAt`
unfoldable pub remove_at : Value → ℤ → Value
remove_at (array vs) (pos i) = array (of_list (erase_at (to_list vs) i))
remove_at v i = v

abbrev count_items : Items → ℕ
count_items nil = 0
count_items (cons v vs) = suc (count_items vs)

abbrev count_fields : Fields → ℕ
count_fields end = 0
count_fields (field k v fs) = suc (count_fields fs)

-- `Len`
unfoldable pub len : Value → ℕ
len (array vs) = count_items vs
len (object fs) = count_fields fs
len v = 0

abbrev item_at : Items → ℕ → Option Value
item_at nil i = none
item_at (cons v vs) zero = some v
item_at (cons v vs) (suc i) = item_at vs i

-- `At`
unfoldable pub at : Value → ℤ → Option Value
at (array vs) (pos i) = item_at vs i
at v i = none

-- `IsString` and `IsArray`, on a pointer that may be nil
unfoldable pub is_string : Option Value → Bool
is_string (some (string s)) = true
is_string _ = false

unfoldable pub is_array : Option Value → Bool
is_array (some (array vs)) = true
is_array _ = false

-- What a loop over `v.Items` visits when it is guarded by `IsArray`.
abbrev pub items_of : Option Value → List Value
items_of (some (array vs)) = to_list vs
items_of _ = []

-- `Clone` builds a new node for each node.
unfoldable mutual
  pub clone : Value → Value
  clone null = null
  clone (bool b) = bool b
  clone (number n) = number n
  clone (string s) = string s
  clone (array vs) = array (clone_items vs)
  clone (object fs) = object (clone_fields fs)

  pub clone_items : Items → Items
  clone_items nil = nil
  clone_items (cons v vs) = cons (clone v) (clone_items vs)

  pub clone_fields : Fields → Fields
  clone_fields end = end
  clone_fields (field k v fs) = field k (clone v) (clone_fields fs)

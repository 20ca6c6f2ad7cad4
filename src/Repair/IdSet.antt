-- ===== src/Repair/IdSet.antt =====
-- The insertion-ordered id set of server-go/modules/economizer/repair.go.
use aimee_module_economizer.Prelude.{
  Bool, true, false, ◌||◌, List, [], ◌∷◌, ◌++◌, ◌≡◌, arith, Bytes, eq_bytes, eq_bytes_iff,
  if◌then◌else◌, any,
}

pub record IdSet : Type 0 where
  pub order : List Bytes
  pub seen : Bytes → Bool

unfoldable pub new_id_set : IdSet
new_id_set = record { order = []; seen = λ _. false }

unfoldable pub add : IdSet → Bytes → IdSet
add s id =
    if s.seen id
    then s
    else record { order = s.order ++ id ∷ []; seen = λ k. if eq_bytes k id then true else s.seen k }

unfoldable pub has : IdSet → Bytes → Bool
has s id = s.seen id

unfoldable pub empty : IdSet → Bool
empty s = elim s.order [ [] ↦ true | _ ∷ _ ↦ false ]

abbrev pub is_listed : Bytes → List Bytes → Bool
is_listed id ids = any (λ k. eq_bytes k id) ids

-- The map knows exactly the ids that are listed.
abbrev pub Agrees : IdSet → Type 0
Agrees s = (id : Bytes) → s.seen id ≡ is_listed id s.order

pub is_listed-concat :
    (ids : List Bytes) (a id : Bytes)
    → is_listed id (ids ++ a ∷ []) ≡ (is_listed id ids || eq_bytes a id)
is_listed-concat [] a id = ground arith
is_listed-concat (k ∷ ids) a id = ground (arith, is_listed-concat ids a id)

pub seen-add : (s : IdSet) (a id : Bytes) → (add s a).seen id ≡ (s.seen id || eq_bytes a id)
unfolding add
seen-add s a id = ground (arith, eq_bytes_iff a id, eq_bytes_iff id a)

pub add-Agrees : (s : IdSet) (a : Bytes) → Agrees s → Agrees (add s a)
unfolding add
add-Agrees s a h id =
    ground (arith, h id, h a, eq_bytes_iff a id, eq_bytes_iff id a, is_listed-concat s.order a id)

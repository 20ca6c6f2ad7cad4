-- ===== src/Fold/Split.antt =====
-- The view that `FoldView` of server-go/modules/economizer/fold.go builds.
use aimee_module_economizer.Prelude.{
  ◌+◌, ◌-◌, ◌≤◌, ◌<◌, ◌≡◌, sym, ap, ◌∙◌, subst, ◌≢◌, ◌⊎◌, true, false, Option, some, List, ◌∷◌,
  arith, Bytes, length, drop,
}
use aimee_module_economizer.Json.{Value, array, of_list}
use aimee_module_economizer.Fold.{FoldConfig, FoldFreeze, FoldResult, Closet}
use aimee_module_economizer.Prelude.{get_elem?}
use aimee_module_economizer.Fold.Excerpt.{is_clean_user_turn}
use aimee_module_economizer.Fold.View.{
  retained_of, min_fold_of, Boundary, folded_message, ack_message, unchanged, folded_body, build,
  fold_view,
}
use aimee_module_economizer.Fold.Boundaries.{IsBoundary, IsPlaced, IsLast}
use aimee_module_economizer.Fold.Freeze.{map-clone, IsFold, fold_view-IsFold, IsFold-IsBoundary}

-- what the view of a fold is
IsSplit : List Value → FoldConfig → FoldResult → Type 0
IsSplit ms cfg r =
    (min_fold_of cfg ≤ r.folded_msgs)
    × (is_clean_user_turn (get_elem? ms r.folded_msgs) ≡ true)
    × ((body : Bytes) × (r.messages
          ≡ some (array (of_list (folded_message body ∷ ack_message ∷ drop r.folded_msgs ms)))))
    × (0 < r.retained_msgs)
    × (r.folded_msgs + r.retained_msgs ≡ length ms)
    × ((r.reused_boundary ≡ true) ⊎ IsLast ms r.folded_msgs (length ms - retained_of cfg))

build-IsSplit :
    (closet : Closet) (ms : List Value) (cfg : FoldConfig) (b : Boundary)
    → IsBoundary closet ms (min_fold_of cfg) b
    → IsPlaced ms (retained_of cfg) b
    → IsSplit ms cfg (build closet ms cfg b)
unfolding IsSplit build IsBoundary IsPlaced
build-IsSplit closet ms cfg b c p = (
  c.0,
  c.2,
  (
    (folded_body closet ms cfg b).0,
    ap
        (λ x.
          some (array (of_list (folded_message (folded_body closet ms cfg b).0 ∷ ack_message ∷ x))))
        (map-clone (drop b.split ms)),
  ),
  omega (arith, c.1),
  omega (arith, c.1),
  p,
)

folded_changed : (r : FoldResult) → r.folded ≡ true → r ≢ unchanged
folded_changed r h e = false_true (sym (ap (λ x. x.folded) e) ∙ h)
  where
    false_true : false ≡ true → ⊥
    false_true q = cc

-- A fold cuts at a user turn that answers no call, behind at least the minimum of messages to
-- fold: the view is a synthetic user turn, an acknowledgement and every message from the cut on,
-- unchanged, and the counts of folded and retained messages add up. Unless a frozen boundary was
-- used again, the cut leaves the retained messages behind it, and no user turn that answers no call
-- stands between the cut and the first of these.
pub fold_view-split :
    (closet : Closet) (cfg : FoldConfig) (freeze g : Option FoldFreeze) (ms : List Value)
    (r : FoldResult)
    → fold_view closet (some (array (of_list ms))) (some cfg) freeze ≡ (r, g)
    → r.folded ≡ true
    → (min_fold_of cfg ≤ r.folded_msgs)
      × (is_clean_user_turn (get_elem? ms r.folded_msgs) ≡ true)
      × ((body : Bytes) × (r.messages
            ≡ some (array (of_list (folded_message body ∷ ack_message ∷ drop r.folded_msgs ms)))))
      × (0 < r.retained_msgs)
      × (r.folded_msgs + r.retained_msgs ≡ length ms)
      × ((r.reused_boundary ≡ true) ⊎ IsLast ms r.folded_msgs (length ms - retained_of cfg))
unfolding IsFold IsSplit
fold_view-split closet cfg freeze g ms r h t =
    let (e, (b, fold)) = fold_view-IsFold closet ms cfg freeze r g h (folded_changed r t) in
    let (c, p) = IsFold-IsBoundary closet ms cfg freeze r g b fold in
    subst (IsSplit ms cfg) (sym fold.2) (build-IsSplit closet ms cfg b c p)

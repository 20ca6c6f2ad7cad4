-- ===== src/Fold/Theorems.antt =====
-- Two folds of one run of server-go/modules/economizer/fold.go: the transcript that has grown is
-- folded with the freeze state of the fold before.
use aimee_module_economizer.Prelude.{
  ℕ, ◌+◌, ◌-◌, ◌≤◌, ◌≡◌, refl, sym, ap, ap₂, ◌∙◌, subst, ◌≢◌, true, false, none, some, List, ◌++◌,
  arith, length,
}
use aimee_module_economizer.Json.{Value, array, of_list}
use aimee_module_economizer.Fold.{FoldConfig, FoldFreeze, FoldResult, Closet}
use aimee_module_economizer.Prelude.{Option-some, length-append}
use aimee_module_economizer.Fold.View.{
  committed, too_short, retained_of, min_fold_of, Boundary, tail_cap_of, commit, unchanged, build,
  fold_items, fold_view,
}
use aimee_module_economizer.Fold.Boundaries.{IsBoundary}
use aimee_module_economizer.Fold.Freeze.{
  fold_view-fold_items, IsFold, fold_view-IsFold, IsFold-IsBoundary,
}
use aimee_module_economizer.Fold.Extend.{again, boundary-again, build-again, grown}

too_short-extend :
    (n k retained min_fold : ℕ)
    → too_short n retained min_fold ≡ false
    → too_short (n + k) retained min_fold ≡ false
unfolding too_short
too_short-extend n k retained min_fold h = ground arith

-- the freeze state that a fold has left stays as it is
committed-again :
    (f : FoldFreeze) (b : Boundary) → committed (committed f b) (again b) ≡ committed f b
unfolding committed again
committed-again f b = refl

tail_cap_of-committed :
    (f : FoldFreeze) (b : Boundary) (retained : ℕ)
    → tail_cap_of (some (committed f b)) retained ≡ tail_cap_of (some f) retained
unfolding tail_cap_of committed
tail_cap_of-committed f b retained = refl

fold_items-again :
    (closet : Closet) (ms extra : List Value) (cfg : FoldConfig) (f : FoldFreeze) (b : Boundary)
    → IsBoundary closet ms (min_fold_of cfg) b
    → too_short (length ms) (retained_of cfg) (min_fold_of cfg) ≡ false
    → length (ms ++ extra) - b.split ≤ tail_cap_of (some f) (retained_of cfg)
    → fold_items closet (ms ++ extra) cfg (some (committed f b))
      ≡ (build closet (ms ++ extra) cfg (again b), some (committed f b))
unfolding fold_items commit committed
fold_items-again closet ms extra cfg f b c t l =
    rw
      (
        length-append ms extra,
        too_short-extend (length ms) (length extra) (retained_of cfg) (min_fold_of cfg) t,
        tail_cap_of-committed f b (retained_of cfg),
        boundary-again closet ms extra (min_fold_of cfg) b c (committed f b) (retained_of cfg)
            (tail_cap_of (some f) (retained_of cfg)) l refl refl refl,
      )
      (ap (λ g. (build closet (ms ++ extra) cfg (again b), some g)) (committed-again f b))

fold_view-again :
    (closet : Closet) (cfg : FoldConfig) (f : FoldFreeze) (ms extra view : List Value)
    (b : Boundary)
    → cfg.enabled ≡ true
    → IsBoundary closet ms (min_fold_of cfg) b
    → too_short (length ms) (retained_of cfg) (min_fold_of cfg) ≡ false
    → (build closet ms cfg b).messages ≡ some (array (of_list view))
    → length (ms ++ extra) - b.split ≤ tail_cap_of (some f) (retained_of cfg)
    → fold_view closet (some (array (of_list (ms ++ extra)))) (some cfg) (some (committed f b)) ≡ (
      grown (build closet ms cfg b) (view ++ extra) (length (ms ++ extra) - b.split),
      some (committed f b),
    )
fold_view-again closet cfg f ms extra view b e c t v l =
    fold_view-fold_items closet (ms ++ extra) cfg (some (committed f b)) e
    ∙ fold_items-again closet ms extra cfg f b c t l
    ∙ ap (λ r. (r, some (committed f b)))
        (build-again closet ms extra (min_fold_of cfg) b c cfg view v)

transported :
    (closet : Closet) (cfg : FoldConfig) (f g : FoldFreeze) (ms extra view : List Value)
    (b : Boundary) (r : FoldResult)
    → IsBoundary closet ms (min_fold_of cfg) b
    → cfg.enabled ≡ true
    → too_short (length ms) (retained_of cfg) (min_fold_of cfg) ≡ false
    → r ≡ build closet ms cfg b
    → g ≡ committed f b
    → r.messages ≡ some (array (of_list view))
    → length (ms ++ extra) - r.folded_msgs ≤ tail_cap_of (some f) (retained_of cfg)
    → fold_view closet (some (array (of_list (ms ++ extra)))) (some cfg) (some g)
      ≡ (grown r (view ++ extra) (length (ms ++ extra) - r.folded_msgs), some g)
unfolding build
transported closet cfg f g ms extra view b r c e t p q v l =
    ap (λ x. fold_view closet (some (array (of_list (ms ++ extra)))) (some cfg) (some x)) q
    ∙ fold_view-again closet cfg f ms extra view b e c t (sym (ap (λ x. x.messages) p) ∙ v) (
        subst (λ x. length (ms ++ extra) - x.folded_msgs ≤ tail_cap_of (some f) (retained_of cfg)) p
          l)
    ∙ ap₂ (λ x y. (grown x (view ++ extra) (length (ms ++ extra) - x.folded_msgs), some y)) (sym p)
        (sym q)

view_changed : (r : FoldResult) (v : Value) → r.messages ≡ some v → r ≢ unchanged
view_changed r v h e = none_some (sym (ap (λ x. x.messages) e) ∙ h)
  where
    none_some : none ≡ some v → ⊥
    none_some q = cc

-- A fold that gives a view leaves a freeze state with which the transcript grown by further
-- messages, while its tail is within the cap, folds at the same boundary: to the same view with
-- the further messages behind it, and the freeze state stays as it is.
pub fold_view-append :
    (closet : Closet) (cfg : FoldConfig) (f g : FoldFreeze) (ms extra view : List Value)
    (r : FoldResult)
    → fold_view closet (some (array (of_list ms))) (some cfg) (some f) ≡ (r, some g)
    → r.messages ≡ some (array (of_list view))
    → length (ms ++ extra) - r.folded_msgs ≤ tail_cap_of (some f) (retained_of cfg)
    → fold_view closet (some (array (of_list (ms ++ extra)))) (some cfg) (some g)
      ≡ (grown r (view ++ extra) (length (ms ++ extra) - r.folded_msgs), some g)
unfolding IsFold commit
fold_view-append closet cfg f g ms extra view r h v l =
    let (e, (b, fold)) =
      fold_view-IsFold closet ms cfg (some f) r (some g) h
        (view_changed r (array (of_list view)) v) in
    let (c, p) = IsFold-IsBoundary closet ms cfg (some f) r (some g) b fold in
    transported closet cfg f g ms extra view b r c e fold.0 fold.2 (Option-some fold.3) v l

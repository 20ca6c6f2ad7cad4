-- ===== src/Fold/Freeze.antt =====
-- What `FoldView` of server-go/modules/economizer/fold.go gives, and what the freeze state does for
-- the next fold.
use aimee_module_economizer.Prelude.{
  ℕ, zero, suc, ◌<◌, ◌≡◌, refl, sym, ap, ap₂, ◌∙◌, ◌≢◌, inl, inr, Bool, true, false, Option, some,
  List, [], ◌∷◌, map, arith, if◌then◌else◌, length, Bool-cases, Option-cases,
}
use aimee_module_economizer.Json.{Value, array, to_list, of_list, clone}
use aimee_module_economizer.Fold.{
  FoldConfig, FoldFreeze, FoldResult, Closet, fold_default_retained_msgs, or_default,
}
use aimee_module_economizer.Fold.View.{
  too_short, retained_of, min_fold_of, Boundary, tail_cap_of, commit, unchanged, boundary, build,
  fold_items, fold_view,
}
use aimee_module_economizer.Json.Laws.{clone_lem, to_list-of_list}
use aimee_module_economizer.Fold.Boundaries.{IsBoundary, IsPlaced, boundary-IsBoundary}

pub map-clone : (ms : List Value) → map clone ms ≡ ms
map-clone [] = refl
map-clone (m ∷ ms) = ap₂ ◌∷◌ (clone_lem m) (map-clone ms)

pub or_default_pos : (n d : ℕ) → 0 < d → 0 < or_default n d
or_default_pos zero d h = h
or_default_pos (suc n) d h = omega arith

module _ (closet : Closet) (ms : List Value) (cfg : FoldConfig) (freeze : Option FoldFreeze) where
  -- a fold that is not declined
  unfoldable pub IsFold : FoldResult → Option FoldFreeze → Boundary → Type 0
  IsFold r g b =
      (too_short (length ms) (retained_of cfg) (min_fold_of cfg) ≡ false)
      × (boundary closet ms (min_fold_of cfg) (retained_of cfg)
            (tail_cap_of freeze (retained_of cfg)) freeze
          ≡ some b)
      × (r ≡ build closet ms cfg b)
      × (g ≡ commit freeze b)

  fold_items-IsFold :
      (r : FoldResult) (g : Option FoldFreeze)
      → fold_items closet ms cfg freeze ≡ (r, g)
      → r ≢ unchanged
      → (b : Boundary) × IsFold r g b
  unfolding fold_items IsFold
  fold_items-IsFold r g h n =
      elim (Bool-cases (too_short (length ms) (retained_of cfg) (min_fold_of cfg))) [
        | inl e ↦ absurd (n (sym (ap (λ x. x.0) (rw (e, fold_items) at h))))
        | inr e ↦
            elim (Option-cases (
              boundary closet ms (min_fold_of cfg) (retained_of cfg)
                (tail_cap_of freeze (retained_of cfg)) freeze)) [
                  | inl f ↦ absurd (n (sym (ap (λ x. x.0) (rw (e, f, fold_items) at h))))
                  | inr (b, f) ↦
                      let q = rw (e, f, fold_items) at h in
                      (b, (e, f, sym (ap (λ x. x.0) q), sym (ap (λ x. x.1) q)))
                ]
      ]

  fold_view-enabled :
      {on : Bool}
      → cfg.enabled ≡ on
      → fold_view closet (some (array (of_list ms))) (some cfg) freeze
        ≡ (if on then fold_items closet ms cfg freeze else (unchanged, freeze))
  unfolding fold_view
  fold_view-enabled {on = on} e =
      ap
        (λ x.
          if x then fold_items closet (to_list (of_list ms)) cfg freeze else (unchanged, freeze))
        e
      ∙ ap (λ x. if on then fold_items closet x cfg freeze else (unchanged, freeze))
          (to_list-of_list ms)

  pub fold_view-fold_items :
      cfg.enabled ≡ true
      → fold_view closet (some (array (of_list ms))) (some cfg) freeze
        ≡ fold_items closet ms cfg freeze
  fold_view-fold_items e = fold_view-enabled e

  -- A fold that is not declined comes from an enabled configuration and a boundary.
  pub fold_view-IsFold :
      (r : FoldResult) (g : Option FoldFreeze)
      → fold_view closet (some (array (of_list ms))) (some cfg) freeze ≡ (r, g)
      → r ≢ unchanged
      → (cfg.enabled ≡ true) × ((b : Boundary) × IsFold r g b)
  fold_view-IsFold r g h n = elim (Bool-cases cfg.enabled) [
    | inr e ↦ absurd (n (sym (ap (λ x. x.0) (sym (fold_view-enabled e) ∙ h))))
    | inl e ↦ (e, fold_items-IsFold r g (sym (fold_view-enabled e) ∙ h) n)
  ]

  pub IsFold-IsBoundary :
      (r : FoldResult) (g : Option FoldFreeze) (b : Boundary)
      → IsFold r g b
      → IsBoundary closet ms (min_fold_of cfg) b × IsPlaced ms (retained_of cfg) b
  unfolding IsFold too_short
  IsFold-IsBoundary r g b (e, f, p, q) =
      boundary-IsBoundary closet ms (min_fold_of cfg) (retained_of cfg)
        (tail_cap_of freeze (retained_of cfg)) freeze b (ground (arith, e))
        (or_default_pos cfg.retained_msgs fold_default_retained_msgs (omega arith)) f

-- ===== src/Fold/Extend.antt =====
-- A transcript of server-go/modules/economizer/fold.go that has grown behind a boundary: what is
-- ahead of the boundary, and what the fold makes of it, are as before.
use aimee_module_economizer.Prelude.{
  ℕ, zero, suc, ◌-◌, ◌≤◌, ◌<◌, ◌≡◌, refl, sym, ap, ap₂, ◌∙◌, true, some, List, [], ◌∷◌, ◌++◌, map,
  arith, Bytes, length, take, drop,
}
use aimee_module_economizer.Json.{Value, array, of_list, items_of, clone}
use aimee_module_economizer.Fold.{EvictResult, FoldConfig, FoldFreeze, FoldResult, Closet}
use aimee_module_economizer.Prelude.{get_elem?, length-append}
use aimee_module_economizer.Fold.Digest.{prefix_digest}
use aimee_module_economizer.Fold.View.{
  cut_at, may_reuse, Boundary, folded_message, ack_message, frozen_boundary, boundary, folded_body,
  build,
}
use aimee_module_economizer.Json.Laws.{to_list-of_list}
use aimee_module_economizer.Fold.Boundaries.{IsBoundary}
use aimee_module_economizer.Fold.Freeze.{map-clone}

module _ {A : Type 0} where
  take-extend : (n : ℕ) (xs ys : List A) → n ≤ length xs → take n (xs ++ ys) ≡ take n xs
  take-extend zero xs ys h = refl
  take-extend (suc n) [] ys h = absurd (omega arith)
  take-extend (suc n) (x ∷ xs) ys h = ap (◌∷◌ x) (take-extend n xs ys (omega arith))

  drop-extend : (n : ℕ) (xs ys : List A) → n ≤ length xs → drop n (xs ++ ys) ≡ drop n xs ++ ys
  drop-extend zero xs ys h = refl
  drop-extend (suc n) [] ys h = absurd (omega arith)
  drop-extend (suc n) (x ∷ xs) ys h = drop-extend n xs ys (omega arith)

  get_elem?-extend :
      (n : ℕ) (xs ys : List A) → n < length xs → get_elem? (xs ++ ys) n ≡ get_elem? xs n
  get_elem?-extend n [] ys h = absurd (omega arith)
  get_elem?-extend zero (x ∷ xs) ys h = refl
  get_elem?-extend (suc n) (x ∷ xs) ys h = get_elem?-extend n xs ys (omega arith)

-- the boundary as the next fold finds it
unfoldable pub again : Boundary → Boundary
again b = record {
  split = b.split;
  reused = true;
  digest = b.digest;
  folded_bytes = b.folded_bytes;
}

shown : Closet → List Value → FoldConfig → Boundary → List Value
shown closet ms cfg b =
    folded_message (folded_body closet ms cfg b).0 ∷ ack_message ∷ map clone (drop b.split ms)

pub array-injective :
    (xs ys : List Value) → some (array (of_list xs)) ≡ some (array (of_list ys)) → xs ≡ ys
array-injective xs ys h = sym (to_list-of_list xs) ∙ ap items_of h ∙ to_list-of_list ys

-- A fold again, with a longer view of as many messages: only the view, the retained count and the
-- mark of the reuse differ.
unfoldable pub grown : FoldResult → List Value → ℕ → FoldResult
grown r view retained = record {
  messages = some (array (of_list view));
  folded = true;
  folded_msgs = r.folded_msgs;
  retained_msgs = retained;
  reused_boundary = true;
  closet_evict = r.closet_evict;
}

rebuilt : ℕ → ℕ → List Value → Bytes × EvictResult → FoldResult
rebuilt retained split view body = record {
  messages = some (array (of_list view));
  folded = true;
  folded_msgs = split;
  retained_msgs = retained;
  reused_boundary = true;
  closet_evict = body.1;
}

module _ (closet : Closet) (ms extra : List Value) (min_fold : ℕ) (b : Boundary)
    (c : IsBoundary closet ms min_fold b) where
  prefix_digest-extend :
      prefix_digest closet.cjson_number (ms ++ extra) b.split ≡ (b.digest, b.folded_bytes)
  unfolding prefix_digest IsBoundary
  prefix_digest-extend = rw (take-extend b.split ms extra (omega (arith, c.1))) c.3

  cut_at-again : cut_at closet (ms ++ extra) b.split true ≡ again b
  unfolding cut_at again
  cut_at-again = rw prefix_digest-extend refl

  may_reuse-again :
      (f : FoldFreeze) (tail_cap : ℕ)
      → length (ms ++ extra) - b.split ≤ tail_cap
      → f.active ≡ true
      → f.frozen_split ≡ b.split
      → f.prefix_digest ≡ b.digest
      → may_reuse closet (ms ++ extra) min_fold tail_cap f ≡ true
  unfolding may_reuse IsBoundary again
  may_reuse-again f tail_cap l a s d =
      rw (a, s, d, cut_at-again, get_elem?-extend b.split ms extra c.1, c.2)
        (ground (arith, length-append ms extra, c.0, c.1))

  folded_body-again :
      (cfg : FoldConfig)
      → folded_body closet (ms ++ extra) cfg (again b) ≡ folded_body closet ms cfg b
  unfolding folded_body again IsBoundary
  folded_body-again cfg = rw (take-extend b.split ms extra (omega (arith, c.1))) refl

  shown-again :
      (cfg : FoldConfig) → shown closet (ms ++ extra) cfg (again b) ≡ shown closet ms cfg b ++ extra
  unfolding shown again IsBoundary
  shown-again cfg =
      rw
        (
          folded_body-again cfg,
          map-clone (drop b.split (ms ++ extra)),
          map-clone (drop b.split ms),
          drop-extend b.split ms extra (omega (arith, c.1)),
        )
        refl

  pub build-again :
      (cfg : FoldConfig) (view : List Value)
      → (build closet ms cfg b).messages ≡ some (array (of_list view))
      → build closet (ms ++ extra) cfg (again b)
        ≡ grown (build closet ms cfg b) (view ++ extra) (length (ms ++ extra) - b.split)
  unfolding build again shown rebuilt grown
  build-again cfg view h =
      ap₂ (rebuilt (length (ms ++ extra) - b.split) b.split)
        (shown-again cfg ∙ ap (λ x. x ++ extra) (array-injective (shown closet ms cfg b) view h))
        (folded_body-again cfg)

  frozen_boundary-again :
      (f : FoldFreeze) (tail_cap : ℕ)
      → length (ms ++ extra) - b.split ≤ tail_cap
      → f.active ≡ true
      → f.frozen_split ≡ b.split
      → f.prefix_digest ≡ b.digest
      → frozen_boundary closet (ms ++ extra) min_fold tail_cap (some f) ≡ some (again b)
  unfolding frozen_boundary
  frozen_boundary-again f tail_cap l a s d =
      rw (may_reuse-again f tail_cap l a s d, s, cut_at-again) refl

  pub boundary-again :
      (f : FoldFreeze) (retained tail_cap : ℕ)
      → length (ms ++ extra) - b.split ≤ tail_cap
      → f.active ≡ true
      → f.frozen_split ≡ b.split
      → f.prefix_digest ≡ b.digest
      → boundary closet (ms ++ extra) min_fold retained tail_cap (some f) ≡ some (again b)
  unfolding boundary
  boundary-again f retained tail_cap l a s d =
      rw (frozen_boundary-again f tail_cap l a s d, boundary) refl

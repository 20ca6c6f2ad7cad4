-- ===== src/Fold/View.antt =====
-- `FoldView` of server-go/modules/economizer/fold.go. The freeze state is passed in and handed
-- back; a nil pointer is `none`.
use aimee_module_economizer.Prelude.{
  ℕ, zero, suc, ◌-◌, Bool, true, false, not, ◌&&◌, ◌||◌, Option, none, some, List, [], ◌∷◌, ◌++◌,
  map, if◌then◌else◌, ◌==◌, ltb, leb, Bytes, codes, eq_bytes, length, take, drop,
}
use aimee_module_economizer.Json.{Value, string, array, object, end, to_list, of_list, set, clone}
use aimee_module_economizer.Fold.{
  EvictResult, evict_none, FoldConfig, FoldFreeze, FoldResult, Closet, fold_default_retained_msgs,
  fold_default_min_fold_msgs, fold_default_excerpt_bytes, fold_default_tail_cap_msgs, or_default,
}
use aimee_module_economizer.Prelude.{get_elem?}
use aimee_module_economizer.Fold.Excerpt.{is_clean_user_turn, decimal}
use aimee_module_economizer.Fold.Digest.{prefix_digest}
use aimee_module_economizer.Fold.Skeleton.{skeleton_messages}

-- where the fold cuts, whether a frozen boundary was used again, and the digest and size of the
-- messages ahead of the cut
pub record Boundary : Type 0 where
  pub split : ℕ
  pub reused : Bool
  pub digest : ℕ
  pub folded_bytes : ℕ

unfoldable pub tail_cap_of : Option FoldFreeze → ℕ → ℕ
tail_cap_of none retained =
    if ltb fold_default_tail_cap_msgs retained then retained else fold_default_tail_cap_msgs
tail_cap_of (some f) retained =
    let cap = or_default f.tail_cap_msgs fold_default_tail_cap_msgs in
    if ltb cap retained then retained else cap

-- the loop over `s` from a message down to `minFold`, which is at least 1
unfoldable pub find_split : List Value → ℕ → ℕ → Option ℕ
find_split ms min_fold zero = none
find_split ms min_fold (suc s) = elim (ltb (suc s) min_fold) [
  | true ↦ none
  | false ↦ elim (is_clean_user_turn (get_elem? ms (suc s))) [
    | true ↦ some (suc s)
    | false ↦ find_split ms min_fold s
  ]
]

unfoldable pub folded_message : Bytes → Value
folded_message body =
    set (set (object end) (codes "role") (string (codes "user"))) (codes "content") (string body)

unfoldable pub ack_message : Value
ack_message = set (set (object end) (codes "role") (string (codes "assistant"))) (codes "content") (
    string (
      codes "Understood "
      ++ 0xe2 ∷ 0x80 ∷ 0x94 ∷ codes " continuing from the folded summary above."))

-- the freeze state that a successful fold leaves
unfoldable pub committed : FoldFreeze → Boundary → FoldFreeze
committed f b = record {
  active = true;
  frozen_split = b.split;
  tail_cap_msgs = f.tail_cap_msgs;
  epochs =
      if not b.reused
        && (not f.active || not (f.frozen_split == b.split) || not (f.prefix_digest == b.digest))
      then suc f.epochs
      else f.epochs;
  prefix_digest = b.digest;
}

unfoldable pub commit : Option FoldFreeze → Boundary → Option FoldFreeze
commit none b = none
commit (some f) b = some (committed f b)

abbrev pub retained_of : FoldConfig → ℕ
retained_of cfg = or_default cfg.retained_msgs fold_default_retained_msgs

abbrev pub min_fold_of : FoldConfig → ℕ
min_fold_of cfg = or_default cfg.min_fold_msgs fold_default_min_fold_msgs

unfoldable pub too_short : ℕ → ℕ → ℕ → Bool
too_short count retained min_fold =
    count == 0 || leb count retained || ltb (count - retained) min_fold

abbrev pub unchanged : FoldResult
unchanged = record {
  messages = none;
  folded = false;
  folded_msgs = 0;
  retained_msgs = 0;
  reused_boundary = false;
  closet_evict = evict_none;
}

module _ (closet : Closet) where
  -- a cut with the digest of what is ahead of it
  unfoldable pub cut_at : List Value → ℕ → Bool → Boundary
  cut_at ms s reused =
      let d = prefix_digest closet.cjson_number ms s in
      record { split = s; reused = reused; digest = d.0; folded_bytes = d.1 }

  -- the pinned boundary is still clean, its tail within the cap, and its prefix unchanged
  unfoldable pub may_reuse : List Value → ℕ → ℕ → FoldFreeze → Bool
  may_reuse ms min_fold tail_cap f =
      let count = length ms in
      let fs = f.frozen_split in
      f.active
      && leb min_fold fs
      && ltb fs count
      && leb (count - fs) tail_cap
      && is_clean_user_turn (get_elem? ms fs)
      && (cut_at ms fs true).digest == f.prefix_digest

  unfoldable pub frozen_boundary : List Value → ℕ → ℕ → Option FoldFreeze → Option Boundary
  frozen_boundary ms min_fold tail_cap none = none
  frozen_boundary ms min_fold tail_cap (some f) =
      if may_reuse ms min_fold tail_cap f then some (cut_at ms f.frozen_split true) else none

  unfoldable pub fresh_boundary : List Value → ℕ → ℕ → Option Boundary
  fresh_boundary ms min_fold retained = elim (find_split ms min_fold (length ms - retained)) [
    | none ↦ none
    | some s ↦ some (cut_at ms s false)
  ]

  unfoldable pub boundary : List Value → ℕ → ℕ → ℕ → Option FoldFreeze → Option Boundary
  boundary ms min_fold retained tail_cap freeze =
      elim (frozen_boundary ms min_fold tail_cap freeze) [
        | some b ↦ some b
        | none ↦ fresh_boundary ms min_fold retained
      ]

  -- the text of the synthetic user turn, and whether the closet had to drop a coordinate
  unfoldable pub folded_body : List Value → FoldConfig → Boundary → Bytes × EvictResult
  folded_body ms cfg b =
      let opening =
        codes "[folded "
        ++ decimal b.split
        ++ codes " earlier message(s); skeleton below "
        ++ 0xe2 ∷ 0x80 ∷ 0x94 ∷ codes " exact identifiers are conserved in "
        ++ codes "the Coordinate Closet, full bodies remain in history]"
        ++ b'\n' ∷ b'\n' ∷ [] in
      let out =
        skeleton_messages closet (take b.split ms) 0
          (or_default cfg.reasoning_excerpt_bytes fold_default_excerpt_bytes) cfg.register_enabled
          (opening, closet.new_set) in
      let rendered = closet.render_closet out.1 cfg.closet b.folded_bytes in
      ((if eq_bytes rendered.0 [] then out.0 else out.0 ++ b'\n' ∷ rendered.0), rendered.1)

  unfoldable pub build : List Value → FoldConfig → Boundary → FoldResult
  build ms cfg b =
      let body = folded_body ms cfg b in
      record {
        messages =
            some
              (array (of_list (folded_message body.0 ∷ ack_message ∷ map clone (drop b.split ms))));
        folded = true;
        folded_msgs = b.split;
        retained_msgs = length ms - b.split;
        reused_boundary = b.reused;
        closet_evict = body.1;
      }

  unfoldable pub fold_items :
      List Value → FoldConfig → Option FoldFreeze → FoldResult × Option FoldFreeze
  fold_items ms cfg freeze =
      let retained = retained_of cfg in
      let min_fold = min_fold_of cfg in
      if too_short (length ms) retained min_fold
      then (unchanged, freeze)
      else elim (boundary ms min_fold retained (tail_cap_of freeze retained) freeze) [
        | none ↦ (unchanged, freeze)
        | some b ↦ (build ms cfg b, commit freeze b)
      ]

  -- `FoldView`
  unfoldable pub fold_view :
      Option Value → Option FoldConfig → Option FoldFreeze → FoldResult × Option FoldFreeze
  fold_view (some (array vs)) (some cfg) freeze =
      if cfg.enabled then fold_items (to_list vs) cfg freeze else (unchanged, freeze)
  fold_view _ _ freeze = (unchanged, freeze)

-- ===== src/Fold/Slots.antt =====
-- The view that `CompressView` of server-go/modules/economizer/fold.go gives.
use aimee_module_economizer.Prelude.{
  ℕ, ◌-◌, ◌<◌, ◌≡◌, refl, sym, ap, ◌∙◌, subst, ◌⊎◌, inl, inr, Bool, false, none, some, List, [],
  ◌∷◌, ◌++◌, arith, if◌then◌else◌, Bytes, eq_bytes, length, Bool-cases, take, drop,
}
use aimee_module_economizer.Json.{Value, array, to_list, of_list}
use aimee_module_economizer.Json.Laws.{to_list-of_list}
use aimee_module_economizer.Fold.{FoldConfig, Closet, fold_default_retained_msgs}
use aimee_module_economizer.Fold.View.{unchanged, retained_of, folded_message}
use aimee_module_economizer.Fold.Compress.{
  eligible, compressed_copy, rendered, declines, CompactConfig, policy, compress_items,
  compress_view, notes,
}
use aimee_module_economizer.Prelude.{take-append-drop, length-drop}
use aimee_module_economizer.Fold.Compress.{ends_with_user, note_body, conserved_message}
use aimee_module_economizer.Fold.Frames.{Pairwise, SameFrame, compress_messages-Pairwise}
use aimee_module_economizer.Fold.Extend.{array-injective}
use aimee_module_economizer.Fold.Freeze.{or_default_pos, map-clone}

-- Nothing, or a note of the user's, behind a bridging message if the transcript ends with the user.
unfoldable pub IsNote : List Value → List Value → Type 0
IsNote ms tail =
    (tail ≡ [])
    ⊎ ((body : Bytes) × (tail
          ≡ (if ends_with_user ms then conserved_message ∷ [] else []) ++ folded_message body ∷ []))

notes-IsNote : (arr : List Value) (n : ℕ) (rendered : Bytes) → IsNote arr (notes arr n rendered)
unfolding notes IsNote
notes-IsNote arr n rendered = elim (Bool-cases (eq_bytes rendered [])) [
  | inl e ↦ inl (rw (e, notes) refl)
  | inr e ↦ inr (note_body n rendered, rw (e, notes) refl)
]

ends_with_user-append :
    (xs ys : List Value) → 0 < length ys → ends_with_user (xs ++ ys) ≡ ends_with_user ys
ends_with_user-append [] ys h = refl
ends_with_user-append (x ∷ []) [] h = absurd (omega arith)
ends_with_user-append (x ∷ []) (y ∷ ys) h = refl
ends_with_user-append (x ∷ z ∷ xs) ys h = ends_with_user-append (z ∷ xs) ys h

ends_with_user-drop :
    (n : ℕ) (ms : List Value) → n < length ms → ends_with_user (drop n ms) ≡ ends_with_user ms
ends_with_user-drop n ms h =
    sym (ends_with_user-append (take n ms) (drop n ms) (omega (arith, length-drop n ms)))
    ∙ ap ends_with_user (take-append-drop n ms)

-- A view of a compression: a message for each message, in order, of which those ahead of the
-- retained ones are the same but for their bodies, and a note.
unfoldable pub IsCompressed : List Value → ℕ → List Value → Type 0
IsCompressed ms limit view =
    (early : List Value) × (tail : List Value) × (view ≡ early ++ drop limit ms ++ tail)
    × Pairwise SameFrame (take limit ms) early
    × IsNote ms tail

module _ (closet : Closet) (compact_body : CompactConfig → Bytes → Bytes) where
  compressed_copy-Pairwise :
      (ms : List Value) (cfg : FoldConfig)
      → Pairwise SameFrame
          (take (length ms - retained_of cfg) ms)
          (eligible closet compact_body ms cfg).0
  unfolding eligible
  compressed_copy-Pairwise ms cfg = rw (map-clone ms) (
      compress_messages-Pairwise closet compact_body (policy cfg)
        (take (length ms - retained_of cfg) ms) 0 (0, 0, closet.new_set))

  compressed_copy_eq :
      (ms : List Value) (cfg : FoldConfig)
      → compressed_copy closet compact_body ms cfg
        ≡ (eligible closet compact_body ms cfg).0 ++ drop (length ms - retained_of cfg) ms
  unfolding compressed_copy
  compressed_copy_eq ms cfg = rw (map-clone ms) refl

  copy-ends :
      (ms : List Value) (cfg : FoldConfig)
      → 0 < retained_of cfg
      → retained_of cfg < length ms
      → ends_with_user (compressed_copy closet compact_body ms cfg) ≡ ends_with_user ms
  copy-ends ms cfg p l =
      ap ends_with_user (compressed_copy_eq ms cfg)
      ∙ ends_with_user-append (eligible closet compact_body ms cfg).0
          (drop (length ms - retained_of cfg) ms)
          (omega (arith, length-drop (length ms - retained_of cfg) ms))
      ∙ ends_with_user-drop (length ms - retained_of cfg) ms (omega arith)

  long :
      (ms : List Value) (cfg : FoldConfig)
      → declines closet compact_body ms cfg ≡ false
      → retained_of cfg < length ms
  unfolding declines
  long ms cfg e = ground (arith, e)

  compress_items-IsCompressed :
      (ms view : List Value) (cfg : FoldConfig)
      → 0 < retained_of cfg
      → (compress_items closet compact_body ms cfg).messages ≡ some (array (of_list view))
      → (retained_of cfg < length ms) × IsCompressed ms (length ms - retained_of cfg) view
  unfolding compress_items IsCompressed IsNote
  compress_items-IsCompressed ms view cfg p h =
      elim (Bool-cases (declines closet compact_body ms cfg)) [
        | inl e ↦ absurd (none_some (rw (e, compress_items) at h))
        | inr e ↦
            let arr = compressed_copy closet compact_body ms cfg in
            let tail =
              notes arr (eligible closet compact_body ms cfg).1.0
                (rendered closet compact_body ms cfg).0 in
            let l : retained_of cfg < length ms = long ms cfg e in
            let q : arr ++ tail ≡ view =
              array-injective (arr ++ tail) view (rw (e, compress_items) at h) in
            (
              l,
              (
                (eligible closet compact_body ms cfg).0,
                tail,
                sym q ∙ ap (λ x. x ++ tail) (compressed_copy_eq ms cfg),
                compressed_copy-Pairwise ms cfg,
                subst
                    (λ b.
                      (tail ≡ [])
                      ⊎ ((body : Bytes) × (tail
                            ≡ (if b then conserved_message ∷ [] else [])
                              ++ folded_message body ∷ [])))
                    (copy-ends ms cfg p l)
                    (notes-IsNote arr (eligible closet compact_body ms cfg).1.0
                      (rendered closet compact_body ms cfg).0),
              ),
            )
      ]
    where
      none_some : {v : Value} → none ≡ some v → ⊥
      none_some q = cc

  compress_view-enabled :
      (ms : List Value) (cfg : FoldConfig) {on : Bool}
      → cfg.enabled ≡ on
      → compress_view closet compact_body (some (array (of_list ms))) (some cfg)
        ≡ (if on then compress_items closet compact_body ms cfg else unchanged)
  unfolding compress_view
  compress_view-enabled ms cfg {on = on} e =
      ap
        (λ x.
          if x then compress_items closet compact_body (to_list (of_list ms)) cfg else unchanged)
        e
      ∙ ap (λ x. if on then compress_items closet compact_body x cfg else unchanged)
          (to_list-of_list ms)

-- A view that CompressView gives has a message for each message, in order: those ahead of the
-- retained ones differ from the originals in `content` and `output` only, blocks of a content array
-- in the same two keys unless the message has the role `tool`, and the retained ones not at
-- all. Behind them stands nothing, or a note of the user's, which a bridging message of the assistant
-- separates from a transcript that ends with the user.
pub compress_view-IsCompressed :
    (closet : Closet) (compact_body : CompactConfig → Bytes → Bytes) (ms view : List Value)
    (cfg : FoldConfig)
    → (compress_view closet compact_body (some (array (of_list ms))) (some cfg)).messages
      ≡ some (array (of_list view))
    → (retained_of cfg < length ms) × IsCompressed ms (length ms - retained_of cfg) view
compress_view-IsCompressed closet compact_body ms view cfg h = elim (Bool-cases cfg.enabled) [
  | inr e ↦ absurd (
      none_some
        (sym (ap (λ r. r.messages) (compress_view-enabled closet compact_body ms cfg e)) ∙ h))
  | inl e ↦
      compress_items-IsCompressed closet compact_body ms view cfg
        (or_default_pos cfg.retained_msgs fold_default_retained_msgs (omega arith))
        (sym (ap (λ r. r.messages) (compress_view-enabled closet compact_body ms cfg e)) ∙ h)
]
  where
    none_some : {v : Value} → none ≡ some v → ⊥
    none_some q = cc

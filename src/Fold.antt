-- ===== src/Fold.antt =====
-- The rolling history fold of server-go/modules/economizer/fold.go: its configuration, its freeze
-- state and its result, and what it calls in server-go/modules/economizer/closet.go and compact.go
-- as interfaces. An `int` of the configuration at or below 0, where the code reads only that it is
-- no positive number, is 0.
pub mod Register
pub mod Excerpt
pub mod Skeleton
pub mod Digest
pub mod View
pub mod Boundaries
pub mod Freeze
pub mod Compress
pub mod Frames
pub mod Slots
pub mod Shorten
pub mod Split
pub mod Extend
pub mod Theorems
pub mod Tests
use aimee_module_economizer.Prelude.{
  ℕ, zero, suc, ◌+◌, ◌-◌, ◌*◌, ◌/◌, ◌%◌, ◌^◌, ◌≤◌, ◌<◌, min, ◌≡◌, refl, sym, ap, ap₂, ◌∙◌, subst,
  fun_ext, ◌≢◌, ◌↔◌, ◌⊎◌, inl, inr, Bool, true, false, not, ◌&&◌, ◌||◌, Option, none, some, List,
  [], ◌∷◌, ◌++◌, map, append-nil, append_assoc, arith, if◌then◌else◌, ◌==◌, ltb, leb, Bytes, codes,
  eq_bytes, eq_bytes_iff, length, All, any, all, Bool-cases, Option-cases, ==_iff, take, drop,
}
use aimee_module_economizer.Json.{
  Value, Items, Fields, null, bool, number, string, array, object, nil, cons, end, field, to_list,
  of_list, get, get_string, set, append, is_string, is_array, items_of, clone,
}

-- `EvictResult`
pub data EvictResult : Type 0 where
  evict_none evict_fail : EvictResult

-- `ClosetConfig`
pub record ClosetConfig : Type 0 where
  pub enabled : Bool
  pub budget_bytes : ℕ
  pub max_ratio_pct : ℕ
  pub denylist : Bytes

-- `FoldConfig`
pub record FoldConfig : Type 0 where
  pub enabled : Bool
  pub retained_msgs : ℕ
  pub min_fold_msgs : ℕ
  pub reasoning_excerpt_bytes : ℕ
  pub register_enabled : Bool
  pub closet : ClosetConfig
  pub compact_head_bytes : ℕ
  pub compact_tail_bytes : ℕ

-- `FoldFreeze`
pub record FoldFreeze : Type 0 where
  pub active : Bool
  pub frozen_split : ℕ
  pub tail_cap_msgs : ℕ
  pub epochs : ℕ
  pub prefix_digest : ℕ

-- `FoldResult`
pub record FoldResult : Type 0 where
  pub messages : Option Value
  pub folded : Bool
  pub folded_msgs : ℕ
  pub retained_msgs : ℕ
  pub reused_boundary : Bool
  pub closet_evict : EvictResult

-- What the fold uses of the coordinate closet: a set of coordinates, `NominateInto` with the turn
-- that a text comes from, and `RenderCloset`; and the spelling of a number in JSON.
pub record Closet : Type 1 where
  pub CoordSet : Type 0
  pub new_set : CoordSet
  pub nominate_into : Bytes → ℕ → CoordSet → CoordSet
  pub render_closet : CoordSet → ClosetConfig → ℕ → Bytes × EvictResult
  pub cjson_number : ℕ → Bytes

abbrev pub fold_default_retained_msgs : ℕ
fold_default_retained_msgs = 8

abbrev pub fold_default_min_fold_msgs : ℕ
fold_default_min_fold_msgs = 4

abbrev pub fold_default_excerpt_bytes : ℕ
fold_default_excerpt_bytes = 160

abbrev pub fold_default_tail_cap_msgs : ℕ
fold_default_tail_cap_msgs = 24

abbrev pub or_default : ℕ → ℕ → ℕ
or_default zero default = default
or_default (suc n) default = suc n

-- ===== src/Gateway/Decision.antt =====
-- server-go/modules/economizer/gateway.go: the bypass reasons, the snapshot, the decision and the
-- replacement of the messages array; and the reducer's result, of
-- server-go/modules/economizer/reduce.go, as far as the decision reads it.
use aimee_module_economizer.Prelude.{
  ℕ, Bool, true, false, not, ◌||◌, Option, none, some, [], if◌then◌else◌, ◌==◌, leb, Bytes, codes,
  eq_bytes,
}
use aimee_module_economizer.Prelude.Int.{ℤ, pos, negsuc}
use aimee_module_economizer.Json.{Value, object, set, clone}

-- `GWBypassReason`; `none` of the source is `apply`.
pub data BypassReason : Type 0 where
  apply : BypassReason
  reduce_alloc_failed reduce_parse_failed reduce_internal_assertion : BypassReason
  reduce_format_unsupported no_op structural_violation snapshot_oom : BypassReason
  replace_failed construct_failed : BypassReason

-- `String`
unfoldable pub bypass_name : BypassReason → Bytes
bypass_name apply = codes "none"
bypass_name reduce_alloc_failed = codes "reduce_alloc_failed"
bypass_name reduce_parse_failed = codes "reduce_parse_failed"
bypass_name reduce_internal_assertion = codes "reduce_internal_assertion"
bypass_name reduce_format_unsupported = codes "reduce_format_unsupported"
bypass_name no_op = codes "no_op"
bypass_name structural_violation = codes "structural_violation"
bypass_name snapshot_oom = codes "snapshot_oom"
bypass_name replace_failed = codes "replace_failed"
bypass_name construct_failed = codes "construct_failed"

-- `ReduceError`
pub data ReduceError : Type 0 where
  no_error alloc_failed parse_failed internal_assertion format_unsupported : ReduceError

unfoldable pub reduce_error_to_bypass : ReduceError → BypassReason
reduce_error_to_bypass alloc_failed = reduce_alloc_failed
reduce_error_to_bypass parse_failed = reduce_parse_failed
reduce_error_to_bypass format_unsupported = reduce_format_unsupported
reduce_error_to_bypass _ = reduce_internal_assertion

-- `ReduceReason`
pub data ReduceReason : Type 0 where
  unset reduced measured skip_no_gain already : ReduceReason

-- The fields of `ReduceResult` that the gateway reads.
pub record ReduceResult : Type 0 where
  pub messages : Option Value
  pub mutated : Bool
  pub reason : ReduceReason
  pub baseline_tokens : ℕ
  pub reduced_tokens : ℕ

-- `StructuralCheck`: it changes the array that it is given, and returns its repairs, or an error
-- code below zero.
abbrev pub StructuralCheck : Type 0
StructuralCheck = Value → Value × ℤ

abbrev pub is_zero : ℤ → Bool
is_zero (pos n) = n == 0
is_zero (negsuc n) = false

-- `GWSnapshotMessages`
unfoldable pub snapshot_messages : Option Value → Option Value
snapshot_messages none = none
snapshot_messages (some v) = some (clone v)

abbrev pub is_reduced : ReduceReason → Bool
is_reduced reduced = true
is_reduced _ = false

-- the check on a copy; without a check the view is trusted
unfoldable pub probe : Option StructuralCheck → Value → BypassReason
probe none view = apply
probe (some repair) view =
    if not (is_zero (repair (clone view)).1) then structural_violation else apply

unfoldable pub decide_view : Option StructuralCheck → ReduceResult → Option Value → BypassReason
decide_view repair res none = no_op
decide_view repair res (some view) =
    if not res.mutated || not (is_reduced res.reason)
    then no_op
    else if leb res.baseline_tokens res.reduced_tokens
    then no_op
    else probe repair view

-- `GWShouldApply`
unfoldable pub should_apply :
    Bool → Option ReduceResult → ReduceError → Option StructuralCheck → BypassReason
should_apply reduce_ok none err repair = reduce_error_to_bypass internal_assertion
should_apply reduce_ok (some res) err repair =
    if not reduce_ok then reduce_error_to_bypass err else decide_view repair res res.messages

-- `GWReplaceMessages`: the container behind the call, or `none` if it returns false and leaves the
-- container as it is.
unfoldable pub replace_messages : Option Value → Bytes → Option Value → Option Value
replace_messages (some (object fs)) key (some view) =
    if eq_bytes key [] then none else some (set (object fs) key view)
replace_messages _ key view = none

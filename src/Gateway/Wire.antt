-- ===== src/Gateway/Wire.antt =====
-- server-go/modules/economizer/gateway_wire.go: one buffered request through the gateway. The
-- session store, the counters and the provider are outside: a call of a store or a counter is
-- appended to a log, and the store's answers are arguments.
use aimee_module_economizer.Prelude.{
  ℕ, Bool, true, false, not, ◌||◌, Option, none, some, List, [], ◌∷◌, ◌++◌, if◌then◌else◌, Bytes,
  codes, eq_bytes,
}
use aimee_module_economizer.Json.{Value, get, is_array}
use aimee_module_economizer.Gateway.Decision.{
  apply, no_error, should_apply, bypass_name, snapshot_messages, replace_messages, ReduceResult,
  StructuralCheck, BypassReason,
}

-- What the request does to the injected ports, in order.
pub data Effect : Type 0 where
  inc : Bytes → Effect
  inc_reason : Bytes → Bytes → Effect
  token_delta : ℕ → ℕ → Effect
  disable : Bytes → ℕ → Bytes → Effect

-- `SessionStore`, as it answers this request: `resolved` is `none` for an identity-less request.
pub record Sessions : Type 0 where
  pub resolved : Option Bytes
  pub is_disabled : Bytes → Bool

-- `GatewayConfig` and `GatewayDeps`; a missing store is `none`.
pub record Deps : Type 0 where
  pub mutate_on : Bool
  pub ttl_ms : ℕ
  pub sessions : Option Sessions
  pub has_stats : Bool
  pub repair : Option StructuralCheck

-- `MutateCtx`; `reduced` is `State.Reduced`, the provenance flag.
pub record MutateCtx : Type 0 where
  pub mutate_on : Bool
  pub have_key : Bool
  pub mutated : Bool
  pub key : Bytes
  pub pristine : Option Value
  pub reduced : Bool
  pub ttl_ms : ℕ

abbrev pub zero_ctx : MutateCtx
zero_ctx = record {
  mutate_on = false;
  have_key = false;
  mutated = false;
  key = [];
  pristine = none;
  reduced = false;
  ttl_ms = 0;
}

-- The request: its body, its context and what was done to the ports.
pub record Request : Type 0 where
  pub container : Option Value
  pub ctx : MutateCtx
  pub effects : List Effect

unfoldable pub stats_inc : Deps → Bytes → List Effect
stats_inc d c = if d.has_stats then inc c ∷ [] else []

unfoldable pub stats_inc_reason : Deps → Bytes → Bytes → List Effect
stats_inc_reason d c reason = if d.has_stats then inc_reason c reason ∷ [] else []

-- `GWProvenanceClear` and `GWProvenanceMarkReduced`
unfoldable pub provenance_clear : MutateCtx → MutateCtx
provenance_clear ctx = record ctx { reduced = false }

unfoldable pub provenance_mark : MutateCtx → MutateCtx
provenance_mark ctx = record ctx { reduced = true }

abbrev bypassed : Deps → Request → Bytes → Request
bypassed d r reason = record r {
  ctx = provenance_clear r.ctx;
  effects = r.effects ++ stats_inc_reason d (codes "hard_bypass") reason;
}

-- the end of `BufferedMutate`, with the container behind the replacement
unfoldable pub install : Deps → ReduceResult → Request → Option Value → Request
install d res r none = bypassed d r (codes "replace_failed")
install d res r (some replaced) = record r {
  container = some replaced;
  ctx = record (provenance_mark r.ctx) { mutated = true };
  effects =
      r.effects
      ++ stats_inc d (codes "mutate_applied")
      ++ (if d.has_stats then token_delta res.baseline_tokens res.reduced_tokens ∷ [] else []);
}

abbrev pub is_apply : BypassReason → Bool
is_apply apply = true
is_apply _ = false

unfoldable pub decide : Deps → Bytes → ReduceResult → Request → BypassReason → Request
decide d key res r bypass =
    if is_apply bypass
    then install d res r (replace_messages r.container key res.messages)
    else bypassed d r (bypass_name bypass)

abbrev pub get_messages : Option Value → Bytes → Option Value
get_messages none key = none
get_messages (some v) key = get v key

abbrev pub is_none : Option Value → Bool
is_none none = true
is_none (some v) = false

-- `Reduce` at the gateway seam is a component of its own.
module _ (reduce : Value → ReduceResult) where
  -- the snapshot and the reduction of the array under the key
  unfoldable pub mutate_array : Deps → Bytes → Request → Value → Request
  mutate_array d key r msgs =
      let snapped = record r {
        ctx = record r.ctx { pristine = snapshot_messages (some msgs) };
        effects = r.effects ++ stats_inc d (codes "mutate_attempted");
      } in
      let res = reduce msgs in
      decide d key res snapped (should_apply true (some res) no_error d.repair)

  unfoldable pub mutate_messages : Deps → Bytes → Request → Option Value → Request
  mutate_messages d key r none = r
  mutate_messages d key r (some msgs) =
      if is_array (some msgs) then mutate_array d key r msgs else r

  -- with the session's key resolved
  unfoldable pub mutate_session : Deps → Bytes → Sessions → Bytes → Request → Request
  mutate_session d key sessions session_key r =
      let keyed = record r { ctx = record r.ctx { key = session_key; have_key = true } } in
      if sessions.is_disabled session_key
      then record keyed { effects = r.effects ++ stats_inc d (codes "session_disabled_blocks") }
      else mutate_messages d key keyed (get_messages r.container key)

  unfoldable pub mutate_known : Deps → Bytes → Option Sessions → Request → Request
  mutate_known d key none r = r
  mutate_known d key (some sessions) r = elim (sessions.resolved) [
    | none ↦ r
    | some session_key ↦ mutate_session d key sessions session_key r
  ]

  -- `BufferedMutate`: the container, the array's key and the effects so far
  unfoldable pub buffered_mutate : Deps → Bytes → Option Value → List Effect → Request
  buffered_mutate d key container effects =
      let fresh : Request = record { container = container; ctx = zero_ctx; effects = effects } in
      if is_none container || eq_bytes key [] || not d.mutate_on
      then fresh
      else mutate_known d key d.sessions
          (record fresh { ctx = record zero_ctx { mutate_on = true; ttl_ms = d.ttl_ms } })

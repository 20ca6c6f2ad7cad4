-- ===== src/Gateway/After.antt =====
-- server-go/modules/economizer/gateway_wire.go: what follows the answer of the provider, for
-- buffered and for streaming requests. `ParseJSON`, which is `encoding/json`, is a parameter.
use aimee_module_economizer.Prelude.{
  ℕ, ◌/◌, Bool, true, false, not, ◌&&◌, ◌||◌, Option, none, some, List, [], ◌∷◌, ◌++◌,
  if◌then◌else◌, ◌==◌, Bytes, codes, eq_bytes,
}
use aimee_module_economizer.Json.{set, Value, object, get, get_string}
use aimee_module_economizer.Gateway.Wire.{
  is_none, Request, Deps, MutateCtx, Effect, disable, stats_inc, provenance_clear,
}
use aimee_module_economizer.Gateway.Decision.{replace_messages, StructuralCheck}

-- `PostAction`
pub data PostAction : Type 0 where
  post_none post_resend : PostAction

-- `Sessions.Disable`, if there is a store
unfoldable pub disabled : Deps → MutateCtx → Bytes → List Effect
disabled d ctx reason = elim (d.sessions) [
  | none ↦ []
  | some s ↦ disable ctx.key ctx.ttl_ms reason ∷ []
]

-- The structural check run on the array under the key, in place.
unfoldable pub repair_under : Bytes → Option StructuralCheck → Value → Option Value → Value
repair_under key (some repair) v (some restored) = set v key (repair restored).0
repair_under key repair v restored = v

-- the request with the container behind the replacement, or as it was if that failed
unfoldable pub restore_into : Deps → Bytes → Request → Option Value → Request
restore_into d key r none = r
restore_into d key r (some v) = record r {
  container = some (repair_under key d.repair v (get v key));
  ctx = record r.ctx { pristine = none };
}

unfoldable pub restore : Deps → Bytes → Request → Option Value → Request
restore d key r none = r
restore d key r (some p) = restore_into d key r (replace_messages r.container key (some p))

abbrev pub not_resent : Deps → Request → Bytes → Bytes → Request
not_resent d r reason counter = record r {
  ctx = record (provenance_clear r.ctx) { mutated = false };
  effects = r.effects ++ disabled d r.ctx reason ++ stats_inc d counter;
}

unfoldable pub after_4xx : Deps → Bytes → Request → Request
after_4xx d key r =
    not_resent d (restore d key r r.ctx.pristine) (codes "4xx") (codes "4xx_restore_resend")

unfoldable pub after_5xx : Deps → Request → Request
after_5xx d r = not_resent d r (codes "5xx") (codes "5xx_disable")

-- `BufferedAfterStatus`
unfoldable pub buffered_after_status : Deps → Bytes → ℕ → Request → Request × PostAction
buffered_after_status d key http_status r =
    if not r.ctx.mutated || is_none r.container || eq_bytes key []
    then (r, post_none)
    else if http_status / 100 == 4
    then (after_4xx d key r, post_resend)
    else if http_status / 100 == 5
    then (after_5xx d r, post_none)
    else (r, post_none)

-- `StreamDisable`
unfoldable pub stream_disable : Deps → Bytes → Request → Request
stream_disable d reason r =
    if not r.ctx.mutated || not r.ctx.have_key
    then r
    else not_resent d r (if eq_bytes reason [] then codes "stream" else reason)
        (codes "stream_error_disable")

-- `StatusIsInvalidRequest`
unfoldable pub status_is_invalid_request : ℕ → Bool
status_is_invalid_request s = s == 400 || s == 413 || s == 422

abbrev is_object : Value → Bool
is_object (object fs) = true
is_object _ = false

unfoldable pub invalid_type : Option Value → Bool
invalid_type none = false
invalid_type (some err) =
    is_object err
    && (eq_bytes (get_string err (codes "type")) (codes "invalid_request_error")
        || eq_bytes (get_string err (codes "type")) (codes "request_too_large"))

unfoldable pub invalid_root : Option Value → Bool
invalid_root none = false
invalid_root (some root) = is_object root && invalid_type (get root (codes "error"))

-- `AnthropicStreamErrorIsInvalidRequest`
unfoldable pub anthropic_stream_error_is_invalid_request : (Bytes → Option Value) → Bytes → Bool
anthropic_stream_error_is_invalid_request parse_json payload =
    if eq_bytes payload [] then false else invalid_root (parse_json payload)

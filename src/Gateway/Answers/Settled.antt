-- ===== src/Gateway/Answers/Settled.antt =====
-- What the answers to a request leave (server-go/modules/economizer/gateway_wire.go).
use aimee_module_economizer.Prelude.{ℕ, ◌++◌, ◌≡◌, not, if◌then◌else◌, Option, List, [], Bytes}
use mathlib.Core.Option
use aimee_module_economizer.Json.{Value}
use aimee_module_economizer.Gateway.Wire.{Request, Deps}
use aimee_module_economizer.Gateway.Restore.{repair_at}
use aimee_module_economizer.Gateway.Answers.{
  ProviderAnswer, is_decided, is_refused, disabled_keys, session_keys,
}

-- What some answers to a request leave: it is sent again once if the first that counts is a 4xx, and never
-- otherwise; its body is then as it came, but for the structural check, and otherwise as it was sent; its
-- session is disabled once if an answer counts; and it is then neither mutated nor marked.
pub Settled : Deps → Bytes → Option Value → Request → List ProviderAnswer → Request × ℕ → Type 0
Settled d key c r es a =
    let k = r.ctx.have_key in
    (a.1 ≡ (if is_refused k es then 1 else 0))
    × (a.0.container
        ≡ (if is_refused k es then Option.map (repair_at key d.repair) c else r.container))
    × (disabled_keys a.0.effects
        ≡ disabled_keys r.effects ++ (if is_decided k es then session_keys d r else []))
    × (a.0.ctx.mutated ≡ not (is_decided k es))
    × (a.0.ctx.reduced ≡ not (is_decided k es))

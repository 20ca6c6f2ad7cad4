-- ===== src/Gateway/Answers.antt =====
-- Everything that follows the dispatch of one request in
-- server-go/modules/economizer/gateway_wire.go: the statuses of its answers, and error frames of its stream.
pub mod Settled
use aimee_module_economizer.Prelude.{
  ℕ, ◌+◌, ◌/◌, ◌++◌, ◌≡◌, refl, sym, subst, ap, ◌∙◌, inl, inr, Bool, true, false, not, ◌||◌,
  if◌then◌else◌, ◌==◌, Option, none, some, List, [], ◌∷◌, append-nil, arith, Bytes, codes, eq_bytes,
  Bool-cases, Option-cases,
}
use mathlib.Core.Option
use aimee_module_economizer.Json.{Value}
use aimee_module_economizer.Gateway.Wire.{
  stats_inc, buffered_mutate, provenance_clear, Effect, inc, inc_reason, token_delta, disable,
  Request, Deps,
}
use aimee_module_economizer.Gateway.After.{
  PostAction, disabled, post_resend, post_none, not_resent, after_5xx, after_4xx,
  buffered_after_status, stream_disable, restore,
}
use aimee_module_economizer.Gateway.Decision.{ReduceResult}
use aimee_module_economizer.Gateway.Outcome.{IsReplaced}
use aimee_module_economizer.Gateway.Mutate.{buffered_mutate-Outcome}
use aimee_module_economizer.Gateway.Restore.{
  repair_at, status_4xx, status_5xx, status_other, status_unmutated, is_replaceable, IsReplaced-of,
  restore-IsReplaced, restore-effects,
}

-- what a request meets behind its dispatch
pub data ProviderAnswer : Type 0 where
  status : ℕ → ProviderAnswer
  stream_error : Bytes → ProviderAnswer

abbrev pub respond : Deps → Bytes → ProviderAnswer → Request → Request × PostAction
respond d key (status n) r = buffered_after_status d key n r
respond d key (stream_error reason) r = (stream_disable d reason r, post_none)

abbrev pub resends : PostAction → ℕ
resends post_resend = 1
resends post_none = 0

-- the request behind some answers, and how often it was sent again
unfoldable pub follow : Deps → Bytes → List ProviderAnswer → Request → Request × ℕ
follow d key [] r = (r, 0)
follow d key (e ∷ es) r =
    let x = respond d key e r in let rest = follow d key es x.0 in (rest.0, resends x.1 + rest.1)

-- An answer that counts: a 4xx, a 5xx, or an error frame of a request with a session key.
abbrev pub is_decisive : Bool → ProviderAnswer → Bool
is_decisive have_key (status n) = n / 100 == 4 || n / 100 == 5
is_decisive have_key (stream_error reason) = have_key

abbrev pub is_refusal : ProviderAnswer → Bool
is_refusal (status n) = n / 100 == 4
is_refusal (stream_error reason) = false

-- Whether an answer counts, and whether the first that counts is a 4xx.
abbrev pub is_decided : Bool → List ProviderAnswer → Bool
is_decided k [] = false
is_decided k (e ∷ es) = is_decisive k e || is_decided k es

abbrev pub is_refused : Bool → List ProviderAnswer → Bool
is_refused k [] = false
is_refused k (e ∷ es) = let rest = is_refused k es in if is_decisive k e then is_refusal e else rest

-- The keys of the sessions that a log disables.
abbrev pub disabled_keys : List Effect → List Bytes
disabled_keys [] = []
disabled_keys (disable k ttl reason ∷ es) = k ∷ disabled_keys es
disabled_keys (inc c ∷ es) = disabled_keys es
disabled_keys (inc_reason c reason ∷ es) = disabled_keys es
disabled_keys (token_delta before after ∷ es) = disabled_keys es

abbrev pub session_keys : Deps → Request → List Bytes
session_keys d r = elim (d.sessions) [ none ↦ [] | some s ↦ r.ctx.key ∷ [] ]

disabled_keys-append :
    (xs ys : List Effect) → disabled_keys (xs ++ ys) ≡ disabled_keys xs ++ disabled_keys ys
disabled_keys-append [] ys = refl
disabled_keys-append (disable k ttl reason ∷ xs) ys = ap (λ l. k ∷ l) (disabled_keys-append xs ys)
disabled_keys-append (inc c ∷ xs) ys = disabled_keys-append xs ys
disabled_keys-append (inc_reason c reason ∷ xs) ys = disabled_keys-append xs ys
disabled_keys-append (token_delta before after ∷ xs) ys = disabled_keys-append xs ys

disabled_keys-disabled :
    (d : Deps) (r : Request) (reason : Bytes)
    → disabled_keys (disabled d r.ctx reason) ≡ session_keys d r
unfolding disabled
disabled_keys-disabled d r reason = elim (Option-cases (d.sessions)) [
  | inl e ↦ rw (disabled, e) refl
  | inr (s, e) ↦ rw (disabled, e) refl
]

disabled_keys-stats_inc : (d : Deps) (c : Bytes) → disabled_keys (stats_inc d c) ≡ []
unfolding stats_inc
disabled_keys-stats_inc d c = elim (Bool-cases d.has_stats) [
  | inl e ↦ rw e refl
  | inr e ↦ rw e refl
]

-- each of the three ways to disable adds the session's key
pub disabled_keys-not_resent :
    (d : Deps) (r : Request) (reason counter : Bytes)
    → disabled_keys (not_resent d r reason counter).effects
      ≡ disabled_keys r.effects ++ session_keys d r
disabled_keys-not_resent d r reason counter =
    disabled_keys-append (r.effects ++ disabled d r.ctx reason) (stats_inc d counter)
    ∙ ap (λ l. disabled_keys (r.effects ++ disabled d r.ctx reason) ++ l)
        (disabled_keys-stats_inc d counter)
    ∙ append-nil (disabled_keys (r.effects ++ disabled d r.ctx reason))
    ∙ disabled_keys-append r.effects (disabled d r.ctx reason)
    ∙ ap (λ l. disabled_keys r.effects ++ l) (disabled_keys-disabled d r reason)

-- an unmutated request meets no answer that counts
respond-unmutated :
    (d : Deps) (key : Bytes) (e : ProviderAnswer) (r : Request)
    → r.ctx.mutated ≡ false
    → respond d key e r ≡ (r, post_none)
unfolding stream_disable
respond-unmutated d key (status n) r m = status_unmutated d key r n m
respond-unmutated d key (stream_error reason) r m = rw m refl

pub follow-same :
    (d : Deps) (key : Bytes) (e : ProviderAnswer) (es : List ProviderAnswer) (r : Request)
    → respond d key e r ≡ (r, post_none)
    → follow d key (e ∷ es) r ≡ follow d key es r
unfolding follow
follow-same d key e es r h = rw h (ap (λ n. ((follow d key es r).0, n)) (omega arith))

follow-unmutated :
    (d : Deps) (key : Bytes) (es : List ProviderAnswer) (r : Request)
    → r.ctx.mutated ≡ false
    → follow d key es r ≡ (r, 0)
unfolding follow
follow-unmutated d key [] r m = refl
follow-unmutated d key (e ∷ es) r m =
    follow-same d key e es r (respond-unmutated d key e r m) ∙ follow-unmutated d key es r m

-- an answer that leaves the request unmutated is the last that is acted on
pub follow-last :
    (d : Deps) (key : Bytes) (e : ProviderAnswer) (es : List ProviderAnswer) (r t : Request)
    (p : PostAction)
    → respond d key e r ≡ (t, p)
    → t.ctx.mutated ≡ false
    → follow d key (e ∷ es) r ≡ (t, resends p)
unfolding follow
follow-last d key e es r t p h m =
    rw (h, follow-unmutated d key es t m) (ap (λ n. (t, n)) (omega arith))

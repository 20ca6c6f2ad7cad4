-- ===== src/Gateway/Tests.antt =====
-- A request through the gateway (server-go/modules/economizer/gateway_wire_test.go), and the
-- theorems at it.
use aimee_module_economizer.Repair.Collect.{
  add_field, add_fields, add_block, add_blocks, string_field, detect_format, add_field,
  collect_results_of, collect_calls_of, collect_results_onto, collect_calls_onto,
  collect_tool_result_ids, collect_tool_call_ids,
}
use aimee_module_economizer.Gateway.Mutate.{buffered_mutate-Outcome}
use aimee_module_economizer.Repair.Pairing.{IsAnswered}
use aimee_module_economizer.Repair.History.{
  sanitize_assistant_tool_arguments, sanitize_message, repair_messages, message_history_repair,
}
use aimee_module_economizer.Gateway.Pairing.{buffered_mutate-IsAnswered, production_check}
use aimee_module_economizer.Gateway.Outcome.{Outcome}
use aimee_module_economizer.Prelude.{
  ◌≡◌, refl, Bool, true, false, Option, none, some, [], ◌++◌, Bytes, codes, eq_bytes,
}
use mathlib.Core.Option
use aimee_module_economizer.Json.{
  get_string, to_list, is_array, Items, Value, get, set, object, array, string, nil, cons, end,
  field, clone,
}
use aimee_module_economizer.Repair.IdSet.{new_id_set, empty}
use aimee_module_economizer.Gateway.Wire.{
  buffered_mutate, mutate_known, mutate_session, mutate_messages, mutate_array, decide, install,
  Deps, stats_inc, Sessions, provenance_mark, provenance_clear,
}
use aimee_module_economizer.Gateway.After.{buffered_after_status, disabled, post_resend, post_none}
use aimee_module_economizer.Gateway.Decision.{
  ReduceResult, should_apply, decide_view, probe, replace_messages, snapshot_messages, reduced,
}
use aimee_module_economizer.Prelude.{List, ◌∷◌}
use aimee_module_economizer.Gateway.Answers.{ProviderAnswer, status, stream_error}
use aimee_module_economizer.Gateway.Answers.Settled.{Settled}
use aimee_module_economizer.Gateway.Restore.{buffered_after_status-4xx, repair_at}

abbrev key : Bytes
key = codes "messages"

abbrev long : Items
long = cons (string (codes "aaaa")) nil

abbrev short : Items
short = cons (string (codes "a")) nil

abbrev body : Option Value
body = some (object (field key (array long) end))

-- a reducer that shortens every array to `short`
abbrev shorten : Value → ReduceResult
shorten v = record {
  messages = some (array short);
  mutated = true;
  reason = reduced;
  baseline_tokens = 2;
  reduced_tokens = 1;
}

abbrev session : Sessions
session = record { resolved = some (codes "s"); is_disabled = λ k. false }

abbrev deps : Deps
deps = record {
  mutate_on = true;
  ttl_ms = 1000;
  sessions = some session;
  has_stats = true;
  repair = none;
}

run : Bool
unfolding buffered_mutate mutate_known mutate_session mutate_messages mutate_array decide install
    should_apply decide_view probe replace_messages snapshot_messages get set clone eq_bytes
    is_array provenance_mark provenance_clear
run = (buffered_mutate shorten deps key body []).ctx.mutated

is_mutated : (buffered_mutate shorten deps key body []).ctx.mutated ≡ true
unfolding run
is_mutated = refl

replaced_body :
    (buffered_mutate shorten deps key body []).container
    ≡ some (object (field key (array short) end))
unfolding run
replaced_body = refl

buffered_after_status-4xx_example :
    let r = buffered_mutate shorten deps key body [] in
    let a = buffered_after_status deps key 413 r in
    (a.1 ≡ post_resend)
    × (a.0.container ≡ Option.map (repair_at key deps.repair) body)
    × (a.0.ctx.mutated ≡ false)
    × (a.0.ctx.reduced ≡ false)
    × (a.0.effects
        ≡ r.effects
          ++ disabled deps r.ctx (codes "4xx")
          ++ stats_inc deps (codes "4xx_restore_resend"))
    × (buffered_after_status deps key 400 a.0 ≡ (a.0, post_none))
buffered_after_status-4xx_example =
    buffered_after_status-4xx shorten deps key body [] 413 400 is_mutated refl

-- a success, a failure and a refusal behind it
abbrev answers : List ProviderAnswer
answers = status 200 ∷ status 503 ∷ stream_error (codes "overloaded") ∷ status 404 ∷ []

abbrev accepts_none : Bytes → Bool
accepts_none text = false

abbrev checked : Deps
checked = record deps { repair = some (production_check accepts_none) }

checked_run : Bool
unfolding run message_history_repair repair_messages sanitize_message
    sanitize_assistant_tool_arguments get_string collect_tool_call_ids collect_tool_result_ids
    collect_calls_onto collect_results_onto collect_calls_of collect_results_of add_field add_fields
    add_block add_blocks string_field new_id_set empty detect_format
checked_run = (buffered_mutate shorten checked key body []).ctx.mutated

checked_is_mutated : (buffered_mutate shorten checked key body []).ctx.mutated ≡ true
unfolding checked_run
checked_is_mutated = refl

checked_leaves :
    (buffered_mutate shorten checked key body []).container
    ≡ some (object (field key (array short) end))
unfolding checked_run
checked_leaves = refl

short_under_key : get (object (field key (array short) end)) key ≡ some (array short)
unfolding checked_run
short_under_key = refl

buffered_mutate-IsAnswered_example : IsAnswered (to_list short)
buffered_mutate-IsAnswered_example =
    buffered_mutate-IsAnswered accepts_none shorten checked key body [] refl checked_is_mutated
      (object (field key (array short) end)) short checked_leaves short_under_key

buffered_mutate-Outcome_example :
    Outcome shorten deps key body (buffered_mutate shorten deps key body [])
buffered_mutate-Outcome_example = buffered_mutate-Outcome shorten deps key body []

-- ===== src/Repair/Strategy.antt =====
-- What the repairs of server-go/modules/economizer/repair.go share: a loop that places results and
-- a loop that drops, and what the two have to do.
use aimee_module_economizer.Prelude.{
  not, ℕ, ◌+◌, Bool, true, false, List, ◌≡◌, ap, ◌∙◌, sym, arith, Bytes, any, fun_ext,
}
use aimee_module_economizer.Json.{Value}
use aimee_module_economizer.Repair.IdSet.{IdSet, has, is_listed}
use aimee_module_economizer.Repair.Collect.{collect_tool_call_ids, collect_tool_result_ids}
use aimee_module_economizer.Repair.Scan.{
  issues, answers, is_called, is_answered, seen-collect_tool_call_ids, seen-collect_tool_result_ids,
  collect_tool_call_ids-Agrees,
}
use aimee_module_economizer.Repair.Orphans.{place_missing, drop_where, then_drop}
use aimee_module_economizer.Repair.Loops.{
  IsPlacing, is_called-place_missing, is_answered-place_missing, place_missing-All,
  place_missing_none, any-drop_where, drop_where_clean, drop_where_none, drop_where-All,
  All-of-is_listed,
}
use aimee_module_economizer.Repair.Pairing.{is_plain, IsPlain, IsAnswered}

abbrev pub Drop : Type 0
Drop = IdSet → List Value → List Value × ℕ

-- `clean calls ms` tells whether the second loop has nothing to do.
pub record IsStrategy (place : Bytes → List Value → List Value) (dropping : Drop)
    (clean : IdSet → List Value → Bool) : Type 0 where
  pub placing : IsPlacing place
  pub place_plain : (id : Bytes) (ms : List Value) → IsPlain ms → IsPlain (place id ms)
  pub drop_calls :
      (c : IdSet) (j : Bytes) (ms : List Value)
      → IsPlain ms
      → is_called j (dropping c ms).0 ≡ is_called j ms
  pub drop_answers :
      (c : IdSet) (j : Bytes) (ms : List Value)
      → has c j ≡ true
      → IsPlain ms
      → is_answered j (dropping c ms).0 ≡ is_answered j ms
  pub drop_plain : (c : IdSet) (ms : List Value) → IsPlain ms → IsPlain (dropping c ms).0
  pub drop_clean : (c : IdSet) (ms : List Value) → clean c (dropping c ms).0 ≡ true
  pub drop_none : (c : IdSet) (ms : List Value) → clean c ms ≡ true → dropping c ms ≡ (ms, 0)
  pub ext : (c d : IdSet) (ms : List Value) → has c ≡ has d → clean c ms ≡ clean d ms

pub has-collect_calls :
    (ms : List Value) (j : Bytes) → has (collect_tool_call_ids ms) j ≡ is_called j ms
unfolding has
has-collect_calls ms j = seen-collect_tool_call_ids j ms

pub has-collect_results :
    (ms : List Value) (j : Bytes) → has (collect_tool_result_ids ms) j ≡ is_answered j ms
unfolding has
has-collect_results ms j = seen-collect_tool_result_ids j ms

pub is_listed-calls :
    (ms : List Value) (j : Bytes) → is_listed j (collect_tool_call_ids ms).order ≡ is_called j ms
is_listed-calls ms j = sym (collect_tool_call_ids-Agrees ms j) ∙ seen-collect_tool_call_ids j ms

-- With every call answered there is nothing to place.
pub place_missing_answered :
    (place : Bytes → List Value → List Value) (ms : List Value)
    → IsAnswered ms
    → place_missing place (collect_tool_result_ids ms) (collect_tool_call_ids ms).order ms ≡ (ms, 0)
place_missing_answered place ms h =
    place_missing_none place (collect_tool_result_ids ms) (collect_tool_call_ids ms).order ms (
      All-of-is_listed (λ id. has (collect_tool_result_ids ms) id ≡ true) _
        (λ id e. has-collect_results ms id ∙ h id (sym (is_listed-calls ms id) ∙ e)))

module _ (place : Bytes → List Value → List Value) (dropping : Drop)
    (clean : IdSet → List Value → Bool) where
  -- the whole of a strategy, on the sets that are collected before
  abbrev pub repair_with : List Value → List Value × ℕ
  repair_with ms =
      then_drop (dropping (collect_tool_call_ids ms))
        (place_missing place (collect_tool_result_ids ms) (collect_tool_call_ids ms).order ms)

  pub record IsRepaired (ms out : List Value) : Type 0 where
    pub same_calls : (j : Bytes) → is_called j out ≡ is_called j ms
    pub answered : IsAnswered out
    pub plain : IsPlain out
    pub cleaned : clean (collect_tool_call_ids out) out ≡ true

  module _ (s : IsStrategy place dropping clean) (ms : List Value) (h : IsPlain ms) where
    abbrev placed : List Value
    placed =
        (place_missing place (collect_tool_result_ids ms) (collect_tool_call_ids ms).order ms).0

    abbrev out : List Value
    out = (dropping (collect_tool_call_ids ms) placed).0

    placed-IsPlain : IsPlain placed
    placed-IsPlain =
        place_missing-All place (collect_tool_result_ids ms) (λ m. is_plain m ≡ true) s.place_plain
          (collect_tool_call_ids ms).order ms h

    is_called-out : (j : Bytes) → is_called j out ≡ is_called j ms
    is_called-out j =
        s.drop_calls (collect_tool_call_ids ms) j placed placed-IsPlain
        ∙ is_called-place_missing place (collect_tool_result_ids ms) s.placing
            (collect_tool_call_ids ms).order ms j

    is_answered-out : (j : Bytes) → is_called j ms ≡ true → is_answered j out ≡ true
    is_answered-out j e =
        s.drop_answers (collect_tool_call_ids ms) j placed (has-collect_calls ms j ∙ e)
          placed-IsPlain
        ∙ ground (
          arith,
          is_answered-place_missing place (collect_tool_result_ids ms) s.placing
              (collect_tool_call_ids ms).order ms j,
          is_listed-calls ms j,
          has-collect_results ms j,
        )

    has-out : has (collect_tool_call_ids out) ≡ has (collect_tool_call_ids ms)
    has-out =
        fun_ext (λ j. has-collect_calls out j ∙ is_called-out j ∙ sym (has-collect_calls ms j))

    pub repair_with-IsRepaired : IsRepaired ms (repair_with ms).0
    repair_with-IsRepaired = record {
      same_calls = is_called-out;
      answered = λ j e. is_answered-out j (sym (is_called-out j) ∙ e);
      plain = s.drop_plain (collect_tool_call_ids ms) placed placed-IsPlain;
      cleaned =
          s.ext (collect_tool_call_ids out) (collect_tool_call_ids ms) out has-out
          ∙ s.drop_clean (collect_tool_call_ids ms) placed;
    }

  -- A transcript that is answered and clean is left as it is, and no repair is counted.
  pub repair_with_none :
      (s : IsStrategy place dropping clean) (ms : List Value)
      → IsAnswered ms
      → clean (collect_tool_call_ids ms) ms ≡ true
      → repair_with ms ≡ (ms, 0)
  repair_with_none s ms a c =
      ap (then_drop (dropping (collect_tool_call_ids ms))) (place_missing_answered place ms a)
      ∙ ap (λ (d : List Value × ℕ). (d.0, 0 + d.1)) (s.drop_none (collect_tool_call_ids ms) ms c)

-- A strategy that drops whole messages.
pub record IsDropping (orphan : IdSet → Value → Bool) : Type 0 where
  pub spares_calls :
      (c : IdSet) (j : Bytes) (v : Value)
      → is_plain v ≡ true
      → orphan c v ≡ true
      → issues j v ≡ false
  pub spares_answers :
      (c : IdSet) (j : Bytes) (v : Value)
      → has c j ≡ true
      → is_plain v ≡ true
      → orphan c v ≡ true
      → answers j v ≡ false
  pub ext : (c d : IdSet) (v : Value) → has c ≡ has d → orphan c v ≡ orphan d v

abbrev pub no_orphan : (IdSet → Value → Bool) → IdSet → List Value → Bool
no_orphan orphan c ms = not (any (orphan c) ms)

pub dropping-IsStrategy :
    (place : Bytes → List Value → List Value) (orphan : IdSet → Value → Bool)
    → IsPlacing place
    → ((id : Bytes) (ms : List Value) → IsPlain ms → IsPlain (place id ms))
    → IsDropping orphan
    → IsStrategy place (λ c. drop_where (orphan c)) (no_orphan orphan)
dropping-IsStrategy place orphan placing plain d = record {
  placing = placing;
  place_plain = plain;
  drop_calls = λ c j ms h.
      any-drop_where (orphan c) (λ m. is_plain m ≡ true) (issues j)
        (λ v p o. d.spares_calls c j v p o) ms h;
  drop_answers = λ c j ms k h.
      any-drop_where (orphan c) (λ m. is_plain m ≡ true) (answers j)
        (λ v p o. d.spares_answers c j v k p o) ms h;
  drop_plain = λ c ms h. drop_where-All (orphan c) (λ m. is_plain m ≡ true) ms h;
  drop_clean = λ c ms. ap not (drop_where_clean (orphan c) ms);
  drop_none = λ c ms k. drop_where_none (orphan c) ms (ground arith);
  ext = λ c e ms p. ap (λ (q : Value → Bool). not (any q ms)) (fun_ext (λ v. d.ext c e v p));
}

-- ===== src/TaskRail/Order.antt =====
-- Sequences of `Reserve` and `Ack` on a started plan (server-go/modules/economizer/rail.go).
use aimee_module_economizer.Prelude.{
  ℕ, zero, suc, ◌+◌, ◌≤◌, ◌<◌, ◌≡◌, refl, ap, ◌∙◌, ◌⊎◌, inl, inr, true, false, Option, none, some,
  List, [], ◌∷◌, arith, Bytes, length, Bool-cases,
}
use mathlib.Core.Option
use aimee_module_economizer.Prelude.Int.{ℤ, pos, negsuc}
use aimee_module_economizer.TaskRail.{
  TaskRail, RailStep, StepState, pending, reserved, done, is_done, is_pending, change_at,
  change_step, reserve_step, ack_step, reserve, ack, next_from, next, count_done, done_count,
}

-- One successful operation.
pub data Step : TaskRail → TaskRail → Type 0 where
  reserving : {r r' : TaskRail} (idx : ℤ) → reserve idx r ≡ some r' → Step r r'
  acking : {r r' : TaskRail} (idx : ℤ) (evidence : Bytes) → ack idx evidence r ≡ some r' → Step r r'

pub data Steps : TaskRail → TaskRail → Type 0 where
  stop : {r : TaskRail} → Steps r r
  step : {r s t : TaskRail} → Step r s → Steps s t → Steps r t

-- a step that is later in the order pending, reserved, done, with the same title
abbrev rank : StepState → ℕ
rank pending = 0
rank reserved = 1
rank done = 2

abbrev pub Advances : RailStep → RailStep → Type 0
Advances s t = (s.title ≡ t.title) × (rank s.state ≤ rank t.state)

abbrev pub AllAdvance : List RailStep → List RailStep → Type 0
AllAdvance [] [] = Unit
AllAdvance (s ∷ ss) (t ∷ ts) = Advances s t × AllAdvance ss ts
AllAdvance _ _ = ⊥

-- The same plan, some of its steps further on.
abbrev pub IsProgress : TaskRail → TaskRail → Type 0
IsProgress r r' =
    (r.objective ≡ r'.objective) × (r.locked ≡ r'.locked) × AllAdvance r.steps r'.steps

AllAdvance-refl : (ss : List RailStep) → AllAdvance ss ss
AllAdvance-refl [] = tt
AllAdvance-refl (s ∷ ss) = ((refl, omega arith), AllAdvance-refl ss)

AllAdvance-trans :
    (ss ts us : List RailStep) → AllAdvance ss ts → AllAdvance ts us → AllAdvance ss us
AllAdvance-trans [] [] us h k = k
AllAdvance-trans (s ∷ ss) (t ∷ ts) (u ∷ us) h k =
    ((h.0.0 ∙ k.0.0, omega (arith, h.0.1, k.0.1)), AllAdvance-trans ss ts us h.1 k.1)
AllAdvance-trans (s ∷ ss) (t ∷ ts) [] h k = absurd k
AllAdvance-trans [] (t ∷ ts) us h k = absurd h
AllAdvance-trans (s ∷ ss) [] us h k = absurd h

map-some :
    {A B : Type 0} (f : A → B) (o : Option A) {b : B}
    → Option.map f o ≡ some b
    → (a : A) × (o ≡ some a) × (f a ≡ b)
map-some f none h = cc
map-some f (some a) h = (a, refl, ground arith)

change_at-AllAdvance :
    (f : RailStep → Option RailStep)
    → ((s t : RailStep) → f s ≡ some t → Advances s t)
    → (i : ℕ) (ss : List RailStep) {ts : List RailStep} → change_at f i ss ≡ some ts
    → AllAdvance ss ts
unfolding change_at
change_at-AllAdvance f a zero [] h = cc
change_at-AllAdvance f a (suc i) [] h = cc
change_at-AllAdvance f a zero (s ∷ ss) h =
    let (t, e, q) = map-some (λ t. t ∷ ss) (f s) h in rw (← q) (a s t e, AllAdvance-refl ss)
change_at-AllAdvance f a (suc i) (s ∷ ss) h =
    let (ts, e, q) = map-some (◌∷◌ s) (change_at f i ss) h in
    rw (← q) ((refl, omega arith), change_at-AllAdvance f a i ss e)

change_step-IsProgress :
    (f : RailStep → Option RailStep)
    → ((s t : RailStep) → f s ≡ some t → Advances s t)
    → (idx : ℤ) (r : TaskRail) {r' : TaskRail} → change_step f idx r ≡ some r'
    → IsProgress r r'
unfolding change_step
change_step-IsProgress f a (negsuc i) r h = cc
change_step-IsProgress f a (pos i) r h =
    let (ss, e, q) = map-some (λ ss. record r { steps = ss }) (change_at f i r.steps) h in
    rw (← q) (refl, refl, change_at-AllAdvance f a i r.steps e)

rank_pending : (st : StepState) → is_pending st ≡ true → rank st ≡ 0
rank_pending pending h = refl
rank_pending _ h = cc

rank_le : (st : StepState) → rank st ≤ 2
rank_le pending = omega arith
rank_le reserved = omega arith
rank_le done = omega arith

reserve_step-Advances : (s t : RailStep) → reserve_step s ≡ some t → Advances s t
unfolding reserve_step
reserve_step-Advances s t h = elim (Bool-cases (is_pending s.state)) [
  | inl e ↦
      let h' = rw (e, reserve_step) at h in
      (ground (arith, h'), ground (arith, h', rank_pending s.state e))
  | inr e ↦ ground (arith, rw (e, reserve_step) at h)
]

ack_step-Advances :
    (evidence : Bytes) (s t : RailStep) → ack_step evidence s ≡ some t → Advances s t
unfolding ack_step
ack_step-Advances evidence s t h = (ground arith, ground (arith, rank_le s.state))

Step-IsProgress : {r r' : TaskRail} → Step r r' → IsProgress r r'
unfolding reserve ack
Step-IsProgress {r} (reserving idx h) =
    change_step-IsProgress reserve_step reserve_step-Advances idx r h
Step-IsProgress {r} (acking idx evidence h) =
    change_step-IsProgress (ack_step evidence) (ack_step-Advances evidence) idx r h

-- Whatever is reserved and acknowledged, in any order, the plan stays: its objective, its lock and
-- its titles are as they were, and no step goes back, so a done step stays done.
pub Steps-IsProgress : {r r' : TaskRail} → Steps r r' → IsProgress r r'
Steps-IsProgress {r} stop = (refl, refl, AllAdvance-refl r.steps)
Steps-IsProgress {r} {r'} (step {s} h hs) =
    let (a, b, c) = Step-IsProgress h in
    let (d, e, f) = Steps-IsProgress hs in
    (a ∙ d, b ∙ e, AllAdvance-trans r.steps s.steps r'.steps c f)

-- the steps before an index are done, and the one at it is not
abbrev pub IsFirst : ℕ → List RailStep → Type 0
IsFirst i [] = ⊥
IsFirst zero (s ∷ ss) = is_done s.state ≡ false
IsFirst (suc i) (s ∷ ss) = (is_done s.state ≡ true) × IsFirst i ss

count_done_le : (ss : List RailStep) → count_done ss ≤ length ss
unfolding count_done
count_done_le [] = omega arith
count_done_le (s ∷ ss) = ground (arith, count_done_le ss)

next_from_cases :
    (i : ℕ) (ss : List RailStep)
    → ((next_from i ss ≡ negsuc 0) × (count_done ss ≡ length ss))
      ⊎ ((j : ℕ) × (next_from i ss ≡ pos (i + j)) × (count_done ss < length ss) × IsFirst j ss)
unfolding next_from count_done
next_from_cases i [] = inl (refl, refl)
next_from_cases i (s ∷ ss) = elim (Bool-cases (is_done s.state)) [
  | inr e ↦ rw e (inr (0, ground arith, omega (arith, count_done_le ss), e))
  | inl e ↦ elim (next_from_cases (suc i) ss) [
    | inl (n, c) ↦ rw e (inl (n, omega (arith, c)))
    | inr (j, n, l, q) ↦ rw e (inr (suc j, n ∙ ap pos (omega arith), omega (arith, l), (e, q)))
  ]
]

-- `Next` is -1 exactly if every step is done; otherwise it is the index of the first step that is
-- not, a reserved one included.
pub next-IsFirst :
    (r : TaskRail)
    → ((next r ≡ negsuc 0) × (done_count r ≡ length r.steps))
      ⊎ ((j : ℕ) × (next r ≡ pos j) × (done_count r < length r.steps) × IsFirst j r.steps)
unfolding next done_count
next-IsFirst r = elim (next_from_cases 0 r.steps) [
  | inl h ↦ inl h
  | inr (j, n, l, q) ↦ inr (j, n ∙ ap pos (omega arith), l, q)
]

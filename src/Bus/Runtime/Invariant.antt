-- ===== src/Bus/Runtime/Invariant.antt =====
-- The bounds of the maps of `runModuleClient` in server-go/bus/module_runtime.go.
use aimee_module_economizer.Prelude.{
  ℕ, ◌≤◌, ◌<◌, ◌≡◌, refl, sym, ◌∙◌, subst, ◌≢◌, ◌⊎◌, inl, inr, none, some, List, [], ◌∷◌, arith,
  ◌==◌, length, Bool-cases, Option-cases,
}
use aimee_module_economizer.Prelude.{Option-some}
use aimee_module_economizer.Bus.Message.{module_message_max_body}
use aimee_module_economizer.Bus.Runtime.{
  idle_serving, module_max_in_flight, find, erase, put_entry, ModuleAssembly, ModuleWork, Serving,
  cancel_job,
}

module _ {A : Type 0} where
  pub find-erase : (k : ℕ) (xs : List (ℕ × A)) → find k (erase k xs) ≡ none
  unfolding find erase
  find-erase k [] = refl
  find-erase k (p ∷ xs) = ground (arith, find-erase k xs)

  find-erase_other : (k j : ℕ) (xs : List (ℕ × A)) → j ≢ k → find k (erase j xs) ≡ find k xs
  unfolding find erase
  find-erase_other k j [] n = refl
  find-erase_other k j (p ∷ xs) n = ground (arith, find-erase_other k j xs n)

  find-erase_present :
      (k j : ℕ) (xs : List (ℕ × A)) {a : A}
      → find k (erase j xs) ≡ some a
      → (j ≢ k) × (find k xs ≡ some a)
  find-erase_present k j xs h = elim (Bool-cases (j == k)) [
    | inl e ↦ absurd (ground (arith, e, h, find-erase k xs))
    | inr e ↦ let n : j ≢ k = ground (arith, e) in (n, sym (find-erase_other k j xs n) ∙ h)
  ]

  pub length-erase : (k : ℕ) (xs : List (ℕ × A)) → length (erase k xs) ≤ length xs
  unfolding erase
  length-erase k [] = omega arith
  length-erase k (p ∷ xs) = ground (arith, length-erase k xs)

  pub length-erase_present :
      (k : ℕ) (xs : List (ℕ × A)) {a : A} → find k xs ≡ some a → length (erase k xs) < length xs
  unfolding find erase
  length-erase_present k [] h = absurd (ground (arith, h))
  length-erase_present k (p ∷ xs) {a} h = elim (Bool-cases (p.0 == k)) [
    | inl e ↦ rw e (ground (arith, length-erase k xs))
    | inr e ↦ rw e (ground (arith, length-erase_present k xs {a = a} (ground (arith, e, h))))
  ]

find-cancel_job :
    (k j : ℕ) (xs : List (ℕ × ModuleWork)) → find k xs ≡ none → find k (cancel_job j xs) ≡ none
unfolding find cancel_job
find-cancel_job k j [] h = refl
find-cancel_job k j (p ∷ xs) h = elim (Bool-cases (p.0 == k)) [
  | inl e ↦ absurd (ground (arith, e, h))
  | inr e ↦ ground (arith, e, h, find-cancel_job k j xs (ground (arith, e, h)))
]

length-cancel_job : (j : ℕ) (xs : List (ℕ × ModuleWork)) → length (cancel_job j xs) ≡ length xs
unfolding cancel_job
length-cancel_job j [] = refl
length-cancel_job j (p ∷ xs) = ground (arith, length-cancel_job j xs)

-- Within their bounds the maps hold bodies within the limit, and a correlation has an assembly or a job.
pub IsServing : Serving → Type 0
IsServing s =
    (length s.assemblies ≤ module_max_in_flight)
    × (length s.jobs ≤ module_max_in_flight)
    × ((k : ℕ) (a : ModuleAssembly)
        → find k s.assemblies ≡ some a
        → length a.body ≤ module_message_max_body)
    × ((k : ℕ) (a : ModuleAssembly) → find k s.assemblies ≡ some a → find k s.jobs ≡ none)

pub erase_assembly-IsServing :
    (k : ℕ) (s : Serving) → IsServing s → IsServing (record s { assemblies = erase k s.assemblies })
unfolding IsServing
erase_assembly-IsServing k s (a, j, b, d) = (
  omega (arith, length-erase k s.assemblies),
  j,
  λ i x h. b i x (find-erase_present i k s.assemblies h).1,
  λ i x h. d i x (find-erase_present i k s.assemblies h).1,
)

pub cancel-IsServing :
    (k : ℕ) (s : Serving) → IsServing s → IsServing (record s { jobs = cancel_job k s.jobs })
unfolding IsServing
cancel-IsServing k s (a, j, b, d) =
    (a, omega (arith, length-cancel_job k s.jobs), b, λ i x h. find-cancel_job i k s.jobs (d i x h))

find-erase_absent :
    {A : Type 0} (i k : ℕ) (xs : List (ℕ × A)) → find i xs ≡ none → find i (erase k xs) ≡ none
find-erase_absent i k xs h = elim (Option-cases (find i (erase k xs))) [
  | inl e ↦ e
  | inr (a, e) ↦ absurd (ground (arith, h, (find-erase_present i k xs e).1))
]

pub erase_job-IsServing :
    (k : ℕ) (s : Serving) → IsServing s → IsServing (record s { jobs = erase k s.jobs })
unfolding IsServing
erase_job-IsServing k s (a, j, b, d) =
    (a, omega (arith, length-erase k s.jobs), b, λ i x h. find-erase_absent i k s.jobs (d i x h))

-- what the head of `put_entry` holds
find-put :
    {A : Type 0} (i k : ℕ) (x : A) (xs : List (ℕ × A)) {a : A}
    → find i (put_entry k x xs) ≡ some a
    → ((k ≡ i) × (x ≡ a)) ⊎ ((k ≢ i) × (find i xs ≡ some a))
unfolding find
find-put i k x xs h = elim (Bool-cases (k == i)) [
  | inl e ↦ inl (ground (arith, e), Option-some (ground (arith, e, h)))
  | inr e ↦ inr (find-erase_present i k xs (ground (arith, e, h)))
]

pub put_assembly-IsServing :
    (k : ℕ) (x : ModuleAssembly) (s : Serving)
    → IsServing s
    → length (erase k s.assemblies) < module_max_in_flight
    → length x.body ≤ module_message_max_body
    → find k s.jobs ≡ none
    → IsServing (record s { assemblies = put_entry k x s.assemblies })
unfolding IsServing
put_assembly-IsServing k x s (a, j, b, d) l m f = (
  l,
  j,
  λ i y h. elim (find-put i k x s.assemblies h) [
    | inl (e, g) ↦ subst (λ z. length z.body ≤ module_message_max_body) g m
    | inr (e, g) ↦ b i y g
  ],
  λ i y h. elim (find-put i k x s.assemblies h) [
    | inl (e, g) ↦ subst (λ z. find z s.jobs ≡ none) e f
    | inr (e, g) ↦ d i y g
  ],
)

pub put_job-IsServing :
    (k : ℕ) (w : ModuleWork) (s : Serving)
    → IsServing s
    → length s.jobs < module_max_in_flight
    → find k s.assemblies ≡ none
    → IsServing (record s { jobs = put_entry k w s.jobs })
unfolding IsServing
put_job-IsServing k w s (a, j, b, d) l f = (
  a,
  omega (arith, length-erase k s.jobs),
  b,
  λ i y h. elim (Option-cases (find i (put_entry k w s.jobs))) [
    | inl e ↦ e
    | inr (v, e) ↦ elim (find-put i k w s.jobs e) [
      | inl (q, g) ↦ absurd (ground (arith, subst (λ z. find z s.assemblies ≡ none) q f, h))
      | inr (q, g) ↦ absurd (ground (arith, d i y h, g))
    ]
  ],
)

pub read_count : (s : Serving) → IsServing s → length s.assemblies ≤ module_max_in_flight
unfolding IsServing
read_count s i = i.0

pub idle_serving-IsServing : IsServing idle_serving
unfolding IsServing find
idle_serving-IsServing =
    (omega arith, omega arith, λ k a h. absurd (ground (arith, h)), λ k a h. refl)

-- ===== src/Processor/Run.antt =====
-- The loop `run` as a number of single steps.
use clear_core.Prelude.{ℕ, refl, arith, ◌≡◌, ◌≢◌, ◌⊎◌, ◌<◌, ◌∙◌, suc, inl, inr}
use clear_core.Processor.{StepResult, run}

pub StepResult-cases : (r : StepResult) → (r ≡ StepResult.ok) ⊎ (r ≢ StepResult.ok)
StepResult-cases StepResult.ok = inl refl
StepResult-cases StepResult.exception = inr (ground arith)
StepResult-cases StepResult.fault = inr (ground arith)
StepResult-cases StepResult.halt = inr (ground arith)

module _ {S : Type 0} (step : S → S × StepResult) where
  -- The state after `n` steps.
  unfoldable pub iterate : ℕ → S → S
  iterate ℕ.zero s = s
  iterate (ℕ.suc n) s = iterate n (step s).0

  -- The first `n` steps are `Ok`.
  abbrev pub AllOk : ℕ → S → Type 0
  AllOk n s = (j : ℕ) → j < n → (step (iterate j s)).1 ≡ StepResult.ok

  -- The loop ended with step `k`, the first that is not `Ok`.
  pub record IsStopped (n : ℕ) (s : S) (p : S × StepResult) : Type 0 where
    pub k : ℕ
    pub in_budget : k < n
    pub first : AllOk k s
    pub last_step : p ≡ step (iterate k s)
    pub not_ok : p.1 ≢ StepResult.ok

  pub run_goes_on :
      (n : ℕ) (s : S) → (step s).1 ≡ StepResult.ok → run step (suc n) s ≡ run step n (step s).0
  unfolding run
  run_goes_on n s e = rw (e, run) refl

  pub run_stops : (n : ℕ) (s : S) → (step s).1 ≢ StepResult.ok → run step (suc n) s ≡ step s
  unfolding run
  run_stops n s e = by_result (step s).0 (step s).1 e
    where
      by_result :
          (t : S) (r : StepResult)
          → r ≢ StepResult.ok
          → elim r as (λ _. S × StepResult) [
            | StepResult.ok ↦ run step n t
            | StepResult.exception ↦ (t, StepResult.exception)
            | StepResult.fault ↦ (t, StepResult.fault)
            | StepResult.halt ↦ (t, StepResult.halt)
          ]
            ≡ (t, r)
      by_result t StepResult.ok h = absurd (h refl)
      by_result t StepResult.exception h = refl
      by_result t StepResult.fault h = refl
      by_result t StepResult.halt h = refl

  AllOk-suc : (n : ℕ) (s : S) → (step s).1 ≡ StepResult.ok → AllOk n (step s).0 → AllOk (suc n) s
  unfolding iterate
  AllOk-suc n s e h ℕ.zero l = e
  AllOk-suc n s e h (ℕ.suc j) l = h j (omega arith)

  -- With a budget of `n` steps, `run` either ends with the first step that is not `Ok` and gives its
  -- state and result, or all `n` steps are `Ok` and it gives the state after them.
  pub run-first :
      (n : ℕ) (s : S)
      → IsStopped n s (run step n s) ⊎ (AllOk n s × (run step n s ≡ (iterate n s, StepResult.ok)))
  unfolding run iterate
  run-first ℕ.zero s = inr (λ j l. ground arith, refl)
  run-first (ℕ.suc n) s = elim (StepResult-cases (step s).1) [
    | inr e ↦ inl (record {
      k = 0;
      in_budget = omega arith;
      first = λ j l. ground arith;
      last_step = run_stops n s e;
      not_ok = rw (run_stops n s e) e;
    })
    | inl e ↦ elim (run-first n (step s).0) [
      | inl q ↦ inl (record {
        k = suc q.k;
        in_budget = omega (arith, q.in_budget);
        first = AllOk-suc q.k s e q.first;
        last_step = run_goes_on n s e ∙ q.last_step;
        not_ok = rw (run_goes_on n s e) q.not_ok;
      })
      | inr (ok, q) ↦ inr (AllOk-suc n s e ok, run_goes_on n s e ∙ q)
    ]
  ]

  -- What every step keeps, `run` keeps.
  pub run-preserves {ℓ} :
      (P : S → Type ℓ) (n : ℕ) (s : S) → ((t : S) → P t → P (step t).0) → P s → P (run step n s).0
  unfolding run
  run-preserves P ℕ.zero s h p = p
  run-preserves P (ℕ.suc n) s h p = elim (StepResult-cases (step s).1) [
    | inr e ↦ rw (run_stops n s e) (h s p)
    | inl e ↦ rw (run_goes_on n s e) (run-preserves P n (step s).0 h (h s p))
  ]

  -- What the result of every step satisfies, and `Ok` does, that of `run` satisfies.
  pub run-result {ℓ} :
      (P : StepResult → Type ℓ) (n : ℕ) (s : S)
      → P StepResult.ok
      → ((t : S) → P (step t).1)
      → P (run step n s).1
  unfolding run
  run-result P ℕ.zero s h p = h
  run-result P (ℕ.suc n) s h p = elim (StepResult-cases (step s).1) [
    | inr e ↦ rw (run_stops n s e) (p s)
    | inl e ↦ rw (run_goes_on n s e) (run-result P n (step s).0 h p)
  ]

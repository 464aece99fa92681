-- ===== src/Requests/Worker.antt =====
-- `processNextWorkItem` of cmd/middleware/operator/middleware-request/controller.go, for an item whose
-- attempts `sync` (the syncHandler) change the state of the services `S`.
use tapr.Base.{
  ℕ, zero, suc, ◌+◌, ◌<◌, Option, none, some, ◌≡◌, ◌≢◌, refl, arith, Option-cases, inl, inr,
}
use tapr.Requests.Dispatch.{Action, unknown, add, update, delete}

-- `forgotten`: the item is done. `put_back`: it goes back on the queue, after five seconds.
-- `retrying`: the rounds are used up while the loop still tries again.
pub data Outcome : Type 0 where
  forgotten put_back retrying : Outcome

module _ {S E : Type 0} (sync : S → S × Option E) where
  -- The loop, for a number of rounds.
  unfoldable pub process : ℕ → Action → S → S × Outcome
  process zero action s = (s, retrying)
  process (suc rounds) action s =
      let (t, err) = sync s in
      elim err [
        | none ↦ (t, forgotten)
        | some e ↦ elim action [
          | unknown ↦ (t, put_back)
          | add ↦ (t, put_back)
          | update ↦ (t, put_back)
          | delete ↦ process rounds delete t
        ]
      ]

  -- The state after a number of attempts.
  unfoldable pub attempts : ℕ → S → S
  attempts zero s = s
  attempts (suc n) s = attempts n (sync s).0

  -- A deletion whose attempts fail `k` times and then work is forgotten after exactly `k + 1` attempts,
  -- whatever further rounds there are; it is never put back.
  pub process-delete :
      (k more : ℕ) (s : S)
      → ((i : ℕ) → i < k → (sync (attempts i s)).1 ≢ none)
      → (sync (attempts k s)).1 ≡ none
      → process (suc (k + more)) delete s ≡ (attempts (suc k) s, forgotten)
  unfolding process attempts
  process-delete zero more s fails works = rw (works, process) refl
  process-delete (suc k) more s fails works = elim (Option-cases (sync s).1) [
    | inl ok ↦ absurd (fails 0 (omega arith) ok)
    | inr (e, failed) ↦
        let shift : suc k + more ≡ suc (k + more) = omega arith in
        rw (failed, process) rw shift
          (process-delete k more (sync s).0 (λ i small. fails (suc i) (omega arith)) works)
  ]

  -- The first `n` attempts fail.
  abbrev pub Failing : ℕ → S → Type 0
  Failing n s = (i : ℕ) → i < n → (sync (attempts i s)).1 ≢ none

  -- What an end of the processing tells of the attempts and of the state that they leave.
  abbrev pub IsExplained : ℕ → Action → S → S × Outcome → Type 0
  IsExplained rounds action s (t, forgotten) =
      (n : ℕ) × (t ≡ attempts (suc n) s) × Failing n s × ((sync (attempts n s)).1 ≡ none)
  IsExplained rounds action s (t, put_back) = (action ≢ delete) × (t ≡ attempts 1 s) × Failing 1 s
  IsExplained rounds action s (t, retrying) = (t ≡ attempts rounds s) × Failing rounds s

  Failing-suc : (n : ℕ) (s : S) → (sync s).1 ≢ none → Failing n (sync s).0 → Failing (suc n) s
  unfolding attempts
  Failing-suc n s failed later zero small = failed
  Failing-suc n s failed later (suc i) small = later i (omega arith)

  worked :
      (rounds : ℕ) (action : Action) (s : S)
      → (sync s).1 ≡ none
      → IsExplained rounds action s ((sync s).0, forgotten)
  unfolding attempts
  worked rounds action s ok = (0, refl, (λ i small. absurd (omega (arith, small))), ok)

  returned :
      (rounds : ℕ) (action : Action) (s : S)
      → action ≢ delete
      → (sync s).1 ≢ none
      → IsExplained rounds action s ((sync s).0, put_back)
  unfolding attempts
  returned rounds action s other failed =
      (other, refl, Failing-suc 0 s failed (λ i small. absurd (omega (arith, small))))

  later-IsExplained :
      (rounds : ℕ) (s : S) (o : S × Outcome)
      → (sync s).1 ≢ none
      → IsExplained rounds delete (sync s).0 o
      → IsExplained (suc rounds) delete s o
  unfolding attempts
  later-IsExplained rounds s (t, forgotten) failed (n, e, fails, works) =
      (suc n, e, Failing-suc n s failed fails, works)
  later-IsExplained rounds s (t, put_back) failed (other, e, fails) = absurd (other refl)
  later-IsExplained rounds s (t, retrying) failed (e, fails) =
      (e, Failing-suc rounds s failed fails)

  failing : (s : S) (e : E) → (sync s).1 ≡ some e → (sync s).1 ≢ none
  failing s e failed ok = cc

  -- An item is forgotten only after an attempt that worked, the first to do so; it is put back only if it
  -- is no deletion, after one failed attempt; and where neither happens, every round was a failed
  -- attempt. The state is what those attempts made of it.
  pub process-IsExplained :
      (rounds : ℕ) (action : Action) (s : S) → IsExplained rounds action s (process rounds action s)
  unfolding process attempts
  process-IsExplained zero action s = (refl, λ i small. absurd (omega (arith, small)))
  process-IsExplained (suc rounds) unknown s = elim (Option-cases (sync s).1) [
    | inl ok ↦ rw (ok, process) (worked (suc rounds) unknown s ok)
    | inr (e, failed) ↦
        rw (failed, process) (returned (suc rounds) unknown s (λ e. cc) (failing s e failed))
  ]
  process-IsExplained (suc rounds) add s = elim (Option-cases (sync s).1) [
    | inl ok ↦ rw (ok, process) (worked (suc rounds) add s ok)
    | inr (e, failed) ↦
        rw (failed, process) (returned (suc rounds) add s (λ e. cc) (failing s e failed))
  ]
  process-IsExplained (suc rounds) update s = elim (Option-cases (sync s).1) [
    | inl ok ↦ rw (ok, process) (worked (suc rounds) update s ok)
    | inr (e, failed) ↦
        rw (failed, process) (returned (suc rounds) update s (λ e. cc) (failing s e failed))
  ]
  process-IsExplained (suc rounds) delete s = elim (Option-cases (sync s).1) [
    | inl ok ↦ rw (ok, process) (worked (suc rounds) delete s ok)
    | inr (e, failed) ↦
        rw (failed, process)
          (later-IsExplained rounds s (process rounds delete (sync s).0) (failing s e failed)
            (process-IsExplained rounds delete (sync s).0))
  ]

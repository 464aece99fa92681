-- ===== src/Backup/Tasks/Laws.antt =====
-- What a caller of Backup/Tasks.antt has once it gets no error.
use tapr.Base.{
  String, Bool, true, false, List, [], ◌∷◌, if◌then◌else◌, ◌≡◌, refl, arith, Bool-cases, inl, inr,
}
use tapr.Base.Effect.{
  Error, Result, ok, err, Eff, pure, fail, resolve, Post, Ensures, IsPoll, Answer, Ensures-poll,
}
use tapr.Backup.Types.{State, new, waiting, requested, rejected, running, failed, ready, Task}
use tapr.Backup.Tasks.{
  Resource, is_incomplete, is_failed, failures, any_incomplete, verdict, check_all, wait_for_all,
}

-- New, requested or ready: the states that are left when a task neither waits, runs, was rejected nor
-- failed.
pub data IsSettled : State → Type 0 where
  settled_new : IsSettled new
  settled_requested : IsSettled requested
  settled_ready : IsSettled ready

complete-IsSettled : (s : State) → is_incomplete s ≡ false → is_failed s ≡ false → IsSettled s
complete-IsSettled new i f = settled_new
complete-IsSettled waiting i f = absurd (ground arith)
complete-IsSettled requested i f = settled_requested
complete-IsSettled rejected i f = absurd (ground arith)
complete-IsSettled running i f = absurd (ground arith)
complete-IsSettled failed i f = absurd (ground arith)
complete-IsSettled ready i f = settled_ready

abbrev pub AllSettled : List Task → Type 0
AllSettled [] = Unit
AllSettled (t ∷ ts) = IsSettled t.status.state × AllSettled ts

failures-AllSettled :
    (title : String) (ts : List Task)
    → failures title ts ≡ []
    → any_incomplete ts ≡ false
    → AllSettled ts
failures-AllSettled title [] f i = tt
failures-AllSettled title (t ∷ ts) f i = elim (Bool-cases (is_failed t.status.state)) [
  | inl bad ↦ absurd (no_message (rw bad at f))
  | inr good ↦ (
    complete-IsSettled t.status.state (ground (arith, i)) good,
    failures-AllSettled title ts (rw good at f) (ground (arith, i)),
  )
]
  where
    no_message : {A : Type 0} {x : A} {xs : List A} → x ∷ xs ≡ [] → ⊥
    no_message e = cc

module _ {W : Type 0} (resource : Resource W) where
  -- The server listed these tasks in the end, and all of them were settled.
  abbrev pub Settled : W → Type 0
  Settled t = (s : W) × (ts : List Task) × (resource.list_all s ≡ (t, ok ts)) × AllSettled ts

  abbrev Any : W → Type 0
  Any s = Unit {0}

  verdict-Answer :
      (t : W) (messages : List String) (incomplete : Bool)
      → (messages ≡ [] → incomplete ≡ false → Settled t)
      → Post (Answer Any Settled) Any (verdict resource messages incomplete t)
  verdict-Answer t [] true h = tt
  verdict-Answer t [] false h = h refl refl
  verdict-Answer t (m ∷ ms) incomplete h = tt

  not_found-Answer :
      (t : W) (e : Error)
      → Post (Answer Any Settled) Any ((if e.not_found then pure false else fail e) t)
  not_found-Answer t e = elim (Bool-cases e.not_found) [
    | inl yes_ ↦ rw yes_ tt
    | inr no_ ↦ rw no_ tt
  ]

  check_all-Answer :
      (title : String) (s : W) (o : W × Result (List Task))
      → resource.list_all s ≡ o
      → Post (Answer Any Settled) Any (
          resolve
            (λ ts. verdict resource (failures title ts) (any_incomplete ts))
            (λ e. if e.not_found then pure false else fail e)
            o)
  check_all-Answer title s (t, ok ts) h =
      verdict-Answer t (failures title ts) (any_incomplete ts)
        (λ f i. (s, ts, h, failures-AllSettled title ts f i))
  check_all-Answer title s (t, err e) h = not_found-Answer t e

  check_all-Ensures :
      (title : String) → Ensures Any (check_all resource title) (Answer Any Settled) Any
  unfolding check_all
  check_all-Ensures title = record {
    run = λ s h. check_all-Answer title s (resource.list_all s) refl;
  }

  wait_for_all-Ensures :
      (poll : Eff W Bool → Eff W (Unit {0})) (title : String)
      → ((check : Eff W Bool) → IsPoll check (poll check))
      → Ensures Any (wait_for_all resource poll title) (λ u. Settled) Any
  unfolding wait_for_all
  wait_for_all-Ensures poll title polls =
      Ensures-poll Any Settled Any (polls (check_all resource title)) (check_all-Ensures title)
        (λ s h. tt)

  -- With a poll that keeps calling its condition, a wait that returns no error ends in a world where
  -- the server has just listed the tasks, none of them waiting, running, rejected or failed.
  pub wait_for_all-Settled :
      (poll : Eff W Bool → Eff W (Unit {0})) (title : String)
      → ((check : Eff W Bool) → IsPoll check (poll check))
      → (s t : W) → wait_for_all resource poll title s ≡ (t, ok tt)
      → Settled t
  wait_for_all-Settled poll title polls s t e =
      rw e at ((wait_for_all-Ensures poll title polls).run s tt)

-- ===== src/Backup/Trace.antt =====
-- The order in which a controller may store statuses and create jobs, as an automaton over its log, and
-- the rules by which a handler is shown to keep to it.
pub mod Steps
pub mod KvRocks
pub mod Handlers
use tapr.Base.{
  ℕ, String, Bool, true, false, not, ◌&&◌, Option, none, some, List, [], ◌∷◌, ◌++◌, if◌then◌else◌,
  ◌≡◌, refl, arith,
}
use tapr.Base.Effect.{
  Error, failure, Result, ok, err, Eff, ◌>>=◌, pure, fail, chain, resolve, catching, ignoring, Post,
  Ensures, Ensures-weaken, Ensures-pure, Ensures-fail, Ensures-if, Ensures-catching, Ensures->>=,
  IsPoll, Answer, Ensures-poll,
}
use tapr.Backup.Types.{
  State, new, waiting, requested, rejected, running, failed, ready, is_finished, Status, Task, Job,
}
use tapr.Backup.Services.{
  Services, Run, Entry, stored, created, always, with_world, call, note, set_object,
}
use tapr.Backup.Status.{is_running, new_status, store, update_copy, update_object}

-- The state that was stored last, and whether the job was created.
pub record Position : Type 0 where
  pub state : State
  pub made : Bool

-- A run starts after its job, is ready after it ran, and can fail or be rejected at any time.
abbrev pub may_store : Position → State → Bool
may_store p new = false
may_store p waiting = false
may_store p requested = false
may_store p rejected = true
may_store p failed = true
may_store p running = p.made
may_store p ready = p.made && is_running p.state

-- Nothing comes after a finished state, and there is one job at most.
abbrev pub permits : Position → State → Bool
permits p s = not (is_finished p.state) && may_store p s

abbrev pub move : Position → State → Position
move p s = record p { state = s }

abbrev pub allowed : Position → Entry → Bool
allowed p (created j) = not (is_finished p.state) && not p.made
allowed p (stored s) = permits p s.state

abbrev pub after : Position → Entry → Position
after p (created j) = record p { made = true }
after p (stored s) = move p s.state

unfoldable pub replay : Position → List Entry → Option Position
replay p [] = some p
replay p (e ∷ es) = let rest = replay (after p e) es in if allowed p e then rest else none

replay-append :
    (p : Position) (es : List Entry) (q : Position) (e : Entry)
    → replay p es ≡ some q
    → allowed q e ≡ true
    → replay p (es ++ (e ∷ [])) ≡ some (after q e)
unfolding replay
replay-append p [] q e h k = ground arith
replay-append p (d ∷ es) q e h k = ground (arith, replay-append (after p d) es q e)

module _ {W : Type 0} (start : Position) where
  abbrev pub At : Position → Run W → Type 0
  At p s = replay start s.log ≡ some p

  abbrev pub Legal : Run W → Type 0
  Legal s = (p : Position) × At p s

  abbrev pub Finished : Run W → Type 0
  Finished s = (p : Position) × At p s × (is_finished p.state ≡ true)

  pub At-Legal : {p : Position} (s : Run W) → At p s → Legal s
  At-Legal {p} s h = (p, h)

  pub Finished-Legal : (s : Run W) → Finished s → Legal s
  Finished-Legal s h = (h.0, h.1)

  with_world-At :
      {A : Type 0} (p : Position) (s : Run W) (o : W × Result A)
      → At p s
      → Post (λ a. At p) (At p) (with_world s o)
  with_world-At p s (w, ok a) h = h
  with_world-At p s (w, err e) h = h

  -- Calls leave the log alone.
  pub call-At :
      {A : Type 0} (p : Position) (m : Eff W A) → Ensures (At p) (call m) (λ a. At p) (At p)
  unfolding call
  call-At p m = record { run = λ s h. with_world-At p s (m s.world) h }

  pub set_object-At : (p : Position) (t : Task) → Ensures (At p) (set_object t) (λ u. At p) (At p)
  unfolding set_object
  set_object-At p t = record { run = λ s h. h }

  pub note-At :
      (p : Position) (e : Entry) (R : Run W → Type 0)
      → allowed p e ≡ true
      → Ensures (At p) (note e) (λ u. At (after p e)) R
  unfolding note
  note-At p e R k = record { run = λ s h. replay-append start s.log p e h k }

  pub pure-At : {A : Type 0} (p : Position) (a : A) → Ensures (At p) (pure a) (λ b. At p) (At p)
  pure-At p a = Ensures-pure (λ s h. h)

  pub legally :
      {A : Type 0} {q : Position} {P : Run W → Type 0} {Q : A → Run W → Type 0} {m : Eff (Run W) A}
      → Ensures P m Q (At q)
      → Ensures P m Q Legal
  legally h = Ensures-weaken h (λ s p. p) (λ a s q. q) At-Legal

module _ {W : Type 0} (services : Services W) (start : Position) where
  -- A status that may be stored moves the position, or the call fails.
  store-At :
      (p : Position) (t : Task)
      → permits p t.status.state ≡ true
      → Ensures (At start p) (store services t) (λ u. At start (move p t.status.state)) (At start p)
  unfolding store
  store-At p t k = Ensures->>= (call-At start p (services.update_status t)) λ u.
      Ensures->>= (note-At start p (stored t.status) (At start p) k) (λ v. Ensures-pure (λ s h. h))

  pub update_copy-At :
      (p : Position) (t : Task) (state : State) (message : Option String)
      → permits p state ≡ true
      → Ensures
          (At start p)
          (update_copy services t state message)
          (λ u. At start (move p state))
          (At start p)
  unfolding update_copy
  update_copy-At p t state message k =
      Ensures->>= (call-At start p (always services.now))
        λ now. store-At p (record t { status = new_status state message now t.status }) k

  pub update_object-At :
      (p : Position) (state : State) (message : Option String)
      → permits p state ≡ true
      → Ensures
          (At start p)
          (update_object services state message)
          (λ u. At start (move p state))
          (At start p)
  unfolding update_object
  update_object-At p state message k = Ensures->>= (call-At start p (always services.now)) λ now.
      record {
        run = λ s h.
            let t = record s.object { status = new_status state message now s.object.status } in
            (Ensures->>= (set_object-At start p t) (λ u. store-At p t k)).run s h;
      }

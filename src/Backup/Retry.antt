-- ===== src/Backup/Retry.antt =====
-- What the work queue's retries of a task without a cluster name do. A backup's handler changes the object
-- of the queue, the restore handlers change a copy.
use tapr.Base.{
  ℕ, String, true, false, Option, some, if◌then◌else◌, ◌==◌, string_eq, ◌≡◌, refl, arith, zero, suc,
}
use tapr.Base.Effect.{
  Error, failure, Result, ok, err, Eff, pure, fail, Post, Ensures, Ensures-pure, Ensures-fail,
  Ensures-if, Ensures-catching, Ensures->>=, ignoring,
}
use tapr.Requests.Dispatch.{Action}
use tapr.Backup.Types.{State, failed, is_finished, Task}
use tapr.Backup.Services.{Services, Run, call, always, with_world, note, set_object, Entry, stored}
use tapr.Backup.Status.{new_status, store, update_copy, update_object}
use tapr.Backup.Pg.{Poll}
use tapr.Backup.PgBackup.{add_backup, handle_backup}
use tapr.Backup.PgRestore.{add_restore, handle_restore}
use tapr.Backup.KvRocks.{add_kv_restore, handle_kv_restore, add_kv_backup, handle_kv_backup}

-- The queue hands the same object to the handler again, `n` times.
unfoldable pub retries : {W : Type 0} → Eff (Run W) (Unit {0}) → ℕ → Run W → Run W
retries handle zero s = s
retries handle (suc n) s = retries handle n (handle s).0

abbrev pub IsUnnamed : Task → Type 0
IsUnnamed t = (t.cluster_name ≡ "") × (is_finished t.status.state ≡ false)

module _ {W : Type 0} (P : Task → Type 0) where
  -- What holds of the object alone.
  abbrev Of : Run W → Type 0
  Of s = P s.object

  with_world-Of :
      {A : Type 0} (s : Run W) (o : W × Result A) → Of s → Post (λ a. Of) Of (with_world s o)
  with_world-Of s (w, ok a) h = h
  with_world-Of s (w, err e) h = h

  call-Of : {A : Type 0} (m : Eff W A) → Ensures Of (call m) (λ a. Of) Of
  unfolding call
  call-Of m = record { run = λ s h. with_world-Of s (m s.world) h }

  note-Of : (e : Entry) → Ensures Of (note e) (λ u. Of) Of
  unfolding note
  note-Of e = record { run = λ s h. h }

  store-Of : (services : Services W) (t : Task) → Ensures Of (store services t) (λ u. Of) Of
  unfolding store
  store-Of services t =
      Ensures->>= (call-Of (services.update_status t))
        λ u. Ensures->>= (note-Of (stored t.status)) λ v. Ensures-pure (λ s h. h)

  update_copy-Of :
      (services : Services W) (t : Task) (state : State) (message : Option String)
      → Ensures Of (update_copy services t state message) (λ u. Of) Of
  unfolding update_copy
  update_copy-Of services t state message =
      Ensures->>= (call-Of (always services.now))
        λ now. store-Of services (record t { status = new_status state message now t.status })

  -- The object has the new status even if the server refuses it.
  update_object-Of :
      (services : Services W) (state : State) (message : Option String)
      → ((t : Task) → t.status.state ≡ state → P t)
      → Ensures (λ s. Unit {0}) (update_object services state message) (λ u. Of) Of
  unfolding update_object set_object call
  update_object-Of services state message h = record {
    run = λ s u.
        let now = (services.now s.world).1 in
        let t = record s.object { status = new_status state message now s.object.status } in
        (store-Of services t).run (record s { world = (services.now s.world).0; object = t })
          (h t refl);
  }

-- The outcome of a handler that reports an error.
abbrev pub Fails : {W : Type 0} → (Run W → Type 0) → Run W × Result (Unit {0}) → Type 0
Fails P (s, r) = P s × ((e : Error) × (r ≡ err e))

Post-Fails :
    {W : Type 0} (P : Run W → Type 0) (o : Run W × Result (Unit {0}))
    → Post (λ u s. ⊥) P o
    → Fails P o
Post-Fails P (s, ok u) h = absurd h
Post-Fails P (s, err e) h = (h, (e, refl))

module _ {W : Type 0} (P : Task → Type 0) {before : Run W → Type 0} where
  -- Of a handler that stores a status and reports its error, whatever the server says.
  reports :
      (m : Eff (Run W) Task) (e : Error)
      → Ensures before m (λ t. Of P) (Of P)
      → Ensures before (ignoring {B = Unit {0}} m (fail e)) (λ u s. ⊥) (Of P)
  reports m e h = Ensures-catching h (λ t. Ensures-fail (λ s k. k)) (λ x. Ensures-fail (λ s k. k))

  on_unnamed :
      (t : Task) (m n : Eff (Run W) (Unit {0}))
      → IsUnnamed t
      → Ensures before m (λ u s. ⊥) (Of P)
      → Ensures before
          (if is_finished t.status.state then pure tt else if t.cluster_name == "" then m else n)
          (λ u s. ⊥)
          (Of P)
  on_unnamed t m n u h =
      Ensures-if (is_finished t.status.state) (λ finished. cc)
        λ fresh. Ensures-if (t.cluster_name == "") (λ unnamed. h) (λ named. absurd (ground arith))

abbrev IsOver : Task → Type 0
IsOver t = is_finished t.status.state ≡ true

abbrev Is : Task → Task → Type 0
Is o t = t ≡ o

module _ {W : Type 0} (services : Services W) (poll : Poll W) where
  add_restore-unnamed :
      (t o : Task)
      → IsUnnamed t
      → Ensures (Of {W = W} (Is o)) (add_restore services poll t) (λ u s. ⊥) (Of (Is o))
  unfolding add_restore
  add_restore-unnamed t o u = on_unnamed (Is o) t _ _ u (
      reports (Is o) _ (failure "pg restore cluster name is empty")
        (update_copy-Of (Is o) services t failed (some "pg restore cluster name is empty")))

  add_kv_restore-unnamed :
      (t o : Task)
      → IsUnnamed t
      → Ensures (Of {W = W} (Is o)) (add_kv_restore services t) (λ u s. ⊥) (Of (Is o))
  unfolding add_kv_restore
  add_kv_restore-unnamed t o u = on_unnamed (Is o) t _ _ u (
      reports (Is o) _ (failure "kvrocks restore cluster name is empty")
        (update_copy-Of (Is o) services t failed (some "kvrocks restore cluster name is empty")))

  abbrev Any : Run W → Type 0
  Any s = Unit {0}

  add_backup-unnamed :
      (t : Task) → IsUnnamed t → Ensures Any (add_backup services poll t) (λ u s. ⊥) (Of IsOver)
  unfolding add_backup
  add_backup-unnamed t u = on_unnamed IsOver t _ _ u (
      reports IsOver _ (failure "pg backup cluster name is empty") (
        update_object-Of IsOver services failed (some "pg backup cluster name is empty")
          (λ x e. rw e refl)))

  add_kv_backup-unnamed :
      (t : Task) → IsUnnamed t → Ensures Any (add_kv_backup services t) (λ u s. ⊥) (Of IsOver)
  unfolding add_kv_backup
  add_kv_backup-unnamed t u = on_unnamed IsOver t _ _ u (
      reports IsOver _ (failure "kvrocks backup cluster name is empty") (
        update_object-Of IsOver services failed (some "kvrocks backup cluster name is empty")
          (λ x e. rw e refl)))

-- A handler that fails and leaves the object as it was fails at each retry.
retries-Fails :
    {W : Type 0} (handle : Eff (Run W) (Unit {0})) (o : Task)
    → ((s : Run W) → s.object ≡ o → Fails (λ r. r.object ≡ o) (handle s))
    → (n : ℕ) (s : Run W) → s.object ≡ o
    → Fails (λ r. r.object ≡ o) (handle (retries handle n s))
unfolding retries
retries-Fails handle o h zero s e = h s e
retries-Fails handle o h (suc n) s e = retries-Fails handle o h n (handle s).0 (h s e).0

-- A handler that does nothing once the object is finished.
retries-over :
    {W : Type 0} (handle : Eff (Run W) (Unit {0}))
    → ((s : Run W) → is_finished s.object.status.state ≡ true → handle s ≡ (s, ok tt))
    → (n : ℕ) (s : Run W) → is_finished s.object.status.state ≡ true
    → handle (retries handle n s) ≡ (s, ok tt)
unfolding retries
retries-over handle h zero s e = h s e
retries-over handle h (suc n) s e = rw (h s e) (retries-over handle h n s e)

abbrev pub GivesUp : {W : Type 0} → Eff (Run W) (Unit {0}) → Run W → Type 0
GivesUp handle s =
    Fails (λ r. is_finished r.object.status.state ≡ true) (handle s)
    × ((n : ℕ) → handle (retries handle (suc n) s) ≡ ((handle s).0, ok tt))

gives_up :
    {W : Type 0} (handle : Eff (Run W) (Unit {0})) (s : Run W)
    → ((r : Run W) → is_finished r.object.status.state ≡ true → handle r ≡ (r, ok tt))
    → Fails (λ r. is_finished r.object.status.state ≡ true) (handle s)
    → GivesUp handle s
unfolding retries
gives_up handle s h f = (f, λ n. retries-over handle h n (handle s).0 f.0)

module _ {W : Type 0} (services : Services W) (poll : Poll W) where
  -- A restore without a cluster name that is not finished, be it of PostgreSQL or of KVRocks, fails at
  -- every retry, and the object of the queue stays as it was, whatever the services answer.
  pub handle_restore-retries :
      (n : ℕ) (s : Run W)
      → IsUnnamed s.object
      → Fails
          (λ r. r.object ≡ s.object)
          (handle_restore services poll Action.add
            (retries (handle_restore services poll Action.add) n s))
        × Fails
            (λ r. r.object ≡ s.object)
            (handle_kv_restore services Action.add
              (retries (handle_kv_restore services Action.add) n s))
  unfolding handle_restore handle_kv_restore
  handle_restore-retries n s u = (
    retries-Fails (handle_restore services poll Action.add) s.object
        (λ r e.
          Post-Fails (Of (Is s.object)) (add_restore services poll r.object r)
            ((add_restore-unnamed services poll r.object s.object (rw e u)).run r e))
        n s refl,
    retries-Fails (handle_kv_restore services Action.add) s.object
        (λ r e.
          Post-Fails (Of (Is s.object)) (add_kv_restore services r.object r)
            ((add_kv_restore-unnamed services poll r.object s.object (rw e u)).run r e))
        n s refl,
  )

  handle_backup_over :
      (s : Run W)
      → is_finished s.object.status.state ≡ true
      → handle_backup services poll Action.add s ≡ (s, ok tt)
  unfolding handle_backup
  handle_backup_over s e = rw e refl

  handle_kv_backup_over :
      (s : Run W)
      → is_finished s.object.status.state ≡ true
      → handle_kv_backup services Action.add s ≡ (s, ok tt)
  unfolding handle_kv_backup
  handle_kv_backup_over s e = rw e refl

  -- A backup without a cluster name that is not finished, be it of PostgreSQL or of KVRocks, fails once, its object
  -- is finished then, also where the server did not take the status, and every retry does nothing.
  pub handle_backup-retries :
      (s : Run W)
      → IsUnnamed s.object
      → GivesUp (handle_backup services poll Action.add) s
        × GivesUp (handle_kv_backup services Action.add) s
  unfolding handle_backup handle_kv_backup
  handle_backup-retries s u = (
    gives_up (handle_backup services poll Action.add) s handle_backup_over (
        Post-Fails (Of IsOver) (add_backup services poll s.object s)
          ((add_backup-unnamed services poll s.object u).run s tt)),
    gives_up (handle_kv_backup services Action.add) s handle_kv_backup_over (
        Post-Fails (Of IsOver) (add_kv_backup services s.object s)
          ((add_kv_backup-unnamed services poll s.object u).run s tt)),
  )

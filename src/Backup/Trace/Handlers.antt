-- ===== src/Backup/Trace/Handlers.antt =====
-- The handlers of the two PostgreSQL controllers against the automaton of Backup/Trace.antt.
use tapr.Base.{
  ℕ, String, Bool, true, false, not, Option, none, some, List, [], ◌==◌, string_eq, ◌≡◌, refl,
  arith, Bool-cases, inl, inr,
}
use tapr.Base.Effect.{
  Error, failure, Result, ok, err, Eff, fail, ignoring, Post, Ensures, Ensures-pure, Ensures-fail,
  Ensures-if, Ensures-catching, Ensures->>=, IsPoll, Ensures-poll,
}
use tapr.Requests.Dispatch.{Action}
use tapr.Backup.Types.{State, rejected, failed, is_finished, Task}
use tapr.Backup.Services.{Services, Run, Entry}
use tapr.Backup.Pg.{Next, go_on, stop, proceed, Poll, check_gone}
use tapr.Backup.PgBackup.{backup_job, backup_cluster, add_backup, handle_backup}
use tapr.Backup.PgRestore.{
  is_ready, restore_from, restore_job, restore_cluster, add_restore, handle_restore,
}
use tapr.Backup.Trace.{
  Position, At, Legal, Finished, At-Legal, legally, move, replay, call-At, set_object-At,
  update_copy-At, update_object-At,
}
use tapr.Backup.Trace.Steps.{
  Keeps, find_admin-Keeps, check_gone-Keeps, Cleared, clear_job-Cleared, run_job-Finished,
}

-- What the handler did from `start` on is legal, and if it reports no error the last state is finished.
abbrev pub Ends : {W : Type 0} → Position → Run W × Result (Unit {0}) → Type 0
Ends start (s, r) =
    (p : Position) × (replay start s.log ≡ some p) × (r ≡ ok tt → is_finished p.state ≡ true)

pub replay-nothing : {p : Position} {es : List Entry} → es ≡ [] → replay p es ≡ some p
unfolding replay
replay-nothing {p} h = rw h refl

module _ {W : Type 0} where
  pub Post-Ends :
      (start : Position) (o : Run W × Result (Unit {0}))
      → Post (λ u. Finished start) (Legal start) o
      → Ends start o
  Post-Ends start (s, ok tt) h = (h.0, h.1, λ e. h.2)
  Post-Ends start (s, err x) h = (h.0, h.1, λ e. cc)

abbrev pub Polls : {W : Type 0} → Poll W → Type 0
Polls {W} poll = (i j : ℕ) (check : Eff (Run W) Bool) → IsPoll check (poll i j check)

-- The position before a controller takes a task up.
abbrev pub start_of : State → Position
start_of state = record { state = state; made = false }

module _ {W : Type 0} (services : Services W) (poll : Poll W) (polls : Polls poll) where
  module _ (p : Position) (unfinished : is_finished p.state ≡ false) (unmade : p.made ≡ false) where
    abbrev Handles : Eff (Run W) (Unit {0}) → Type 0
    Handles m = Ensures (At p p) m (λ u. Finished p) (Legal p)

    -- A failure that is reported after its status was stored, or not.
    Handles-ignoring :
        (m : Eff (Run W) Task) (q : Position) (e : Error)
        → Ensures (At p p) m (λ t. At p q) (At p p)
        → Handles (ignoring m (fail e))
    Handles-ignoring m q e h =
        Ensures-catching h (λ t. Ensures-fail (At-Legal p)) (λ x. Ensures-fail (At-Legal p))

    Handles-proceed :
        (next : Next) (m : Eff (Run W) (Unit {0}))
        → Handles m
        → Ensures
            (Cleared services p p unfinished next)
            (proceed next m)
            (λ u. Finished p)
            (Legal p)
    Handles-proceed go_on m h = h
    Handles-proceed stop m h = Ensures-pure (λ s f. f)

    backup_job-Keeps :
        (t : Task) (admin password : String) (volume : Option String)
        → Keeps services p p (backup_job services poll t admin password volume)
    unfolding backup_job
    backup_job-Keeps t admin password none = Ensures-pure (λ s h. h)
    backup_job-Keeps t admin password (some source) =
        Ensures->>= (call-At p p _)
          λ time. Ensures->>= (set_object-At p p _) λ u. Ensures-pure (λ s h. h)

    backup_cluster-Handles : (t : Task) → Handles (backup_cluster services poll t)
    unfolding backup_cluster
    backup_cluster-Handles t =
        Ensures->>= (legally p (find_admin-Keeps services p p t.namespace t.cluster_name))
          λ (admin, password).
            Ensures->>=
              (legally p (
                clear_job-Cleared services p p unfinished _ t.namespace "duplicate backup request" (
                  Ensures-poll (At p p) (At p p) (At p p)
                    (polls 1 60 (check_gone services t.namespace))
                    (check_gone-Keeps services p p t.namespace) (λ s h. h))))
              λ next. Handles-proceed next _ (
                Ensures->>= (legally p (backup_job-Keeps t admin password t.volume)) λ job.
                  run_job-Finished services p p unfinished unmade poll job "backup job failed"
                    polls)

    add_backup-Handles :
        (t : Task) → is_finished t.status.state ≡ false → Handles (add_backup services poll t)
    unfolding add_backup
    add_backup-Handles t fresh =
        Ensures-if (is_finished t.status.state) (λ h. cc)
          λ h.
            Ensures-if (t.cluster_name == "")
              (λ h. Handles-ignoring _ (move p failed) (failure "pg backup cluster name is empty") (
                update_object-At services p p failed (some "pg backup cluster name is empty")
                  (ground arith)))
              λ h. backup_cluster-Handles t

    restore_from-Handles :
        (t backup : Task) (admin password : String)
        → Handles (restore_from services poll t backup admin password)
    unfolding restore_from
    restore_from-Handles t backup admin password =
        Ensures->>=
          (legally p (
            clear_job-Cleared services p p unfinished _ t.namespace "duplicate restore request"
              (Ensures-pure (λ s h. h))))
          λ next. Handles-proceed next _ (
            run_job-Finished services p p unfinished unmade poll
              (restore_job t backup admin password) "restore job failed" polls)

    restore_cluster-Handles : (t : Task) → Handles (restore_cluster services poll t)
    unfolding restore_cluster
    restore_cluster-Handles t =
        Ensures->>= (legally p (find_admin-Keeps services p p t.namespace t.cluster_name))
          λ (admin, password).
            Ensures->>= (legally p (call-At p p (services.find_backup t.namespace t.backup_name)))
              λ backup.
                Ensures-if (not (is_ready backup.status.state)) (λ h. Ensures-fail (At-Legal p))
                  λ h.
                    Ensures-if (backup.status.backup_path == "")
                      (λ h.
                        Handles-ignoring _ (move p rejected)
                          (failure "cluster's backup file is empty")
                          (update_object-At services p p rejected
                            (some "cluster's backup file is empty") (ground arith)))
                      λ h. restore_from-Handles t backup admin password

    add_restore-Handles :
        (t : Task) → is_finished t.status.state ≡ false → Handles (add_restore services poll t)
    unfolding add_restore
    add_restore-Handles t fresh =
        Ensures-if (is_finished t.status.state) (λ h. cc)
          λ h.
            Ensures-if (t.cluster_name == "")
              (λ h.
                Handles-ignoring _ (move p failed) (failure "pg restore cluster name is empty") (
                  update_copy-At services p p t failed (some "pg restore cluster name is empty")
                    (ground arith)))
              λ h. restore_cluster-Handles t

  add_backup_closed :
      (t : Task) (s : Run W)
      → is_finished t.status.state ≡ true
      → add_backup services poll t s ≡ (s, ok tt)
  unfolding add_backup
  add_backup_closed t s h = rw h refl

  add_restore_closed :
      (t : Task) (s : Run W)
      → is_finished t.status.state ≡ true
      → add_restore services poll t s ≡ (s, ok tt)
  unfolding add_restore
  add_restore_closed t s h = rw h refl

  -- For every world, and a poll that keeps calling its condition: from an empty log, the handler of an
  -- added backup stores statuses and creates jobs in the order of the automaton (one job at most,
  -- running only after the job, ready only after running, nothing after a finished state), and if it
  -- returns no error the state that was stored last, or the backup had, is finished.
  pub handle_backup-Ends :
      (s : Run W)
      → s.log ≡ []
      → Ends (start_of s.object.status.state) (handle_backup services poll Action.add s)
  unfolding handle_backup
  handle_backup-Ends s h = elim (Bool-cases (is_finished s.object.status.state)) [
    | inl closed ↦
        rw (add_backup_closed s.object s closed)
          (start_of s.object.status.state, replay-nothing h, λ e. closed)
    | inr fresh ↦ Post-Ends (start_of s.object.status.state) (add_backup services poll s.object s) (
        (add_backup-Handles (start_of s.object.status.state) fresh refl s.object fresh).run s
          (replay-nothing h))
  ]

  -- For every world, and a poll that keeps calling its condition: from an empty log, the handler of an
  -- added restore stores statuses and creates jobs in the order of the automaton, and if it returns no
  -- error the state that was stored last, or the restore had, is finished.
  pub handle_restore-Ends :
      (s : Run W)
      → s.log ≡ []
      → Ends (start_of s.object.status.state) (handle_restore services poll Action.add s)
  unfolding handle_restore
  handle_restore-Ends s h = elim (Bool-cases (is_finished s.object.status.state)) [
    | inl closed ↦
        rw (add_restore_closed s.object s closed)
          (start_of s.object.status.state, replay-nothing h, λ e. closed)
    | inr fresh ↦
        Post-Ends (start_of s.object.status.state) (add_restore services poll s.object s) (
          (add_restore-Handles (start_of s.object.status.state) fresh refl s.object fresh).run s
            (replay-nothing h))
  ]

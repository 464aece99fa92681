-- ===== src/Backup/Trace/KvRocks.antt =====
-- The KVRocks controllers against the automaton of Backup/Trace.antt.
use tapr.Base.{true, false, none, some, [], ◌==◌, string_eq, ◌≡◌, refl, arith, Bool-cases, inl, inr}
use tapr.Base.Effect.{
  Error, failure, Result, ok, err, Eff, fail, ignoring, Post, Ensures, Ensures-pure, Ensures-fail,
  Ensures-if, Ensures-catching, Ensures->>=,
}
use tapr.Requests.Dispatch.{Action}
use tapr.Backup.Types.{
  State, running, failed, ready, is_finished, Task, ClusterType, redis_cluster, kv_rocks, other,
}
use tapr.Backup.Services.{Services, Run}
use tapr.Backup.KvRocks.{
  run_kv, of_kind, kv_cluster, add_kv_backup, add_kv_restore, handle_kv_backup, handle_kv_restore,
}
use tapr.Backup.Trace.{
  Position, At, Legal, At-Legal, legally, move, call-At, update_copy-At, update_object-At,
}
use tapr.Backup.Trace.Handlers.{replay-nothing}

-- There are no jobs: a run may start at once, and none may be created.
abbrev pub begun : State → Position
begun state = record { state = state; made = true }

Post-Legal :
    {W : Type 0} (start : Position) (o : Run W × Result (Unit {0}))
    → Post (λ u. Legal start) (Legal start) o
    → Legal start o.0
Post-Legal start (s, ok tt) h = h
Post-Legal start (s, err x) h = h

module _ {W : Type 0} (services : Services W) where
  module _ (p : Position) (unfinished : is_finished p.state ≡ false) (free : p.made ≡ true) where
    abbrev Handles : Eff (Run W) (Unit {0}) → Type 0
    Handles m = Ensures (At p p) m (λ u. Legal p) (Legal p)

    run_kv-Handles : Handles (run_kv services)
    unfolding run_kv
    run_kv-Handles =
        Ensures->>= (legally p (update_object-At services p p running none (ground arith))) λ t.
          Ensures-catching (call-At p (move p running) (services.transfer t))
            (λ u.
              Ensures-catching
                (update_copy-At services p (move p running) t ready none (ground arith))
                (λ v. Ensures-pure (At-Legal p)) λ e. Ensures-pure (At-Legal p))
            λ e.
              Ensures-catching (update_copy-At services p (move p running) t failed none refl)
                (λ v. Ensures-fail (At-Legal p)) λ x. Ensures-fail (At-Legal p)

    kind-Handles : (kind : ClusterType) → Handles (of_kind services kind)
    unfolding of_kind
    kind-Handles redis_cluster = Ensures-pure (At-Legal p)
    kind-Handles (other text) = Ensures-pure (At-Legal p)
    kind-Handles kv_rocks = run_kv-Handles

    kv_cluster-Handles : (t : Task) → Handles (kv_cluster services t)
    unfolding kv_cluster
    kv_cluster-Handles t =
        Ensures->>=
          (legally p (call-At p p (services.find_redix_cluster t.namespace t.cluster_name)))
          kind-Handles

    Handles-ignoring :
        (m : Eff (Run W) Task) (q : Position) (e : Error)
        → Ensures (At p p) m (λ t. At p q) (At p p)
        → Handles (ignoring m (fail e))
    Handles-ignoring m q e h =
        Ensures-catching h (λ t. Ensures-fail (At-Legal p)) (λ x. Ensures-fail (At-Legal p))

    add_kv_backup-Handles : (t : Task) → Handles (add_kv_backup services t)
    unfolding add_kv_backup
    add_kv_backup-Handles t =
        Ensures-if (is_finished t.status.state) (λ h. Ensures-pure (At-Legal p))
          λ h.
            Ensures-if (t.cluster_name == "")
              (λ h.
                Handles-ignoring _ (move p failed) (failure "kvrocks backup cluster name is empty")
                  (update_object-At services p p failed
                    (some "kvrocks backup cluster name is empty") (ground arith)))
              λ h. kv_cluster-Handles t

    add_kv_restore-Handles : (t : Task) → Handles (add_kv_restore services t)
    unfolding add_kv_restore
    add_kv_restore-Handles t =
        Ensures-if (is_finished t.status.state) (λ h. Ensures-pure (At-Legal p))
          λ h.
            Ensures-if (t.cluster_name == "")
              (λ h.
                Handles-ignoring _ (move p failed) (failure "kvrocks restore cluster name is empty")
                  (update_copy-At services p p t failed
                    (some "kvrocks restore cluster name is empty") (ground arith)))
              λ h. kv_cluster-Handles t

  add_kv_backup_closed :
      (t : Task) (s : Run W)
      → is_finished t.status.state ≡ true
      → add_kv_backup services t s ≡ (s, ok tt)
  unfolding add_kv_backup
  add_kv_backup_closed t s h = rw h refl

  add_kv_restore_closed :
      (t : Task) (s : Run W)
      → is_finished t.status.state ≡ true
      → add_kv_restore services t s ≡ (s, ok tt)
  unfolding add_kv_restore
  add_kv_restore_closed t s h = rw h refl

  -- From an empty log, neither handler of a KVRocks backup or restore creates a job, ready is stored only
  -- after running, and nothing is stored after a finished state or for a task that is finished,
  -- whatever the services answer.
  pub handle_kv-Legal :
      (s : Run W)
      → s.log ≡ []
      → Legal (begun s.object.status.state) (handle_kv_backup services Action.add s).0
        × Legal (begun s.object.status.state) (handle_kv_restore services Action.add s).0
  unfolding handle_kv_backup handle_kv_restore
  handle_kv-Legal s h = elim (Bool-cases (is_finished s.object.status.state)) [
    | inl closed ↦ (
      rw (add_kv_backup_closed s.object s closed) (begun s.object.status.state, replay-nothing h),
      rw (add_kv_restore_closed s.object s closed) (begun s.object.status.state, replay-nothing h),
    )
    | inr fresh ↦ (
      Post-Legal (begun s.object.status.state) (add_kv_backup services s.object s) (
          (add_kv_backup-Handles (begun s.object.status.state) fresh refl s.object).run s
            (replay-nothing h)),
      Post-Legal (begun s.object.status.state) (add_kv_restore services s.object s) (
          (add_kv_restore-Handles (begun s.object.status.state) fresh refl s.object).run s
            (replay-nothing h)),
    )
  ]

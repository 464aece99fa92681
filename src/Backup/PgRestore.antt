-- ===== src/Backup/PgRestore.antt =====
-- cmd/middleware/operator/pgcluster-restore/handler.go. The goroutine of `watchJobDelete` is left out.
use tapr.Base.{
  String, ◌<>◌, Bool, true, false, not, none, some, [], ◌∷◌, ◌++◌, if◌then◌else◌, ◌==◌, string_eq,
}
use tapr.Base.Effect.{failure, Eff, ◌>>=◌, pure, fail, ignoring}
use tapr.Requests.Dispatch.{Action}
use tapr.Backup.Types.{State, rejected, failed, ready, is_finished, Task, Job}
use tapr.Backup.Services.{Services, Run, call}
use tapr.Backup.Status.{update_object, update_copy}
use tapr.Backup.Pg.{Poll, proceed, find_admin, clear_job, run_job, job_env}

abbrev pub is_ready : State → Bool
is_ready ready = true
is_ready State.new = false
is_ready State.waiting = false
is_ready State.requested = false
is_ready State.rejected = false
is_ready State.running = false
is_ready State.failed = false

-- The job that reads the file of a backup.
abbrev pub restore_job : Task → Task → String → String → Job
restore_job t backup admin password = record {
  namespace = t.namespace;
  env =
      job_env admin password ++ (("BACKUP_FILENAME", "/restore" <> backup.status.backup_path) ∷ []);
  mount = elim backup.volume [ none ↦ none | some source ↦ some (source, "/restore", "") ];
}

module _ {W : Type 0} (services : Services W) (poll : Poll W) where
  -- From a backup that is ready. Nothing waits for the deletion of an old job.
  unfoldable pub restore_from : Task → Task → String → String → Eff (Run W) (Unit {0})
  unfolding clear_job run_job
  restore_from t backup admin password =
      clear_job services (pure tt) t.namespace "duplicate restore request" >>= λ next.
      proceed next
        (run_job services poll (restore_job t backup admin password) "restore job failed")

  unfoldable pub restore_cluster : Task → Eff (Run W) (Unit {0})
  unfolding find_admin restore_from update_object
  restore_cluster t = find_admin services t.namespace t.cluster_name >>= λ (admin, password).
      call (services.find_backup t.namespace t.backup_name) >>= λ backup.
      if not (is_ready backup.status.state)
      then fail (failure "cluster's backup is not ready for restore")
      else if backup.status.backup_path == ""
      then (ignoring (update_object services rejected (some "cluster's backup file is empty"))
          (fail (failure "cluster's backup file is empty")))
      else restore_from t backup admin password

  -- The status of a restore without a cluster is written on a copy.
  unfoldable pub add_restore : Task → Eff (Run W) (Unit {0})
  unfolding restore_cluster update_copy
  add_restore t =
      if is_finished t.status.state
      then pure tt
      else if t.cluster_name == ""
      then (ignoring (update_copy services t failed (some "pg restore cluster name is empty"))
          (fail (failure "pg restore cluster name is empty")))
      else restore_cluster t

  unfoldable pub handle_restore : Action → Eff (Run W) (Unit {0})
  unfolding add_restore
  handle_restore Action.unknown s = pure tt s
  handle_restore Action.add s = add_restore s.object s
  handle_restore Action.update s = pure tt s
  handle_restore Action.delete s = pure tt s

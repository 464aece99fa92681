-- ===== src/Backup/PgBackup.antt =====
-- cmd/middleware/operator/pgcluster-backup/handler.go. The goroutine of `watchJobDelete`, which cleans up
-- pods, is left out.
use tapr.Base.{String, ◌<>◌, Option, none, some, [], ◌∷◌, ◌++◌, if◌then◌else◌, ◌==◌, string_eq}
use tapr.Base.Effect.{failure, Eff, ◌>>=◌, pure, fail, ignoring}
use tapr.Requests.Dispatch.{Action}
use tapr.Backup.Types.{failed, is_finished, Task, Job}
use tapr.Backup.Services.{Services, Run, always, call, set_object}
use tapr.Backup.Status.{update_object}
use tapr.Backup.Pg.{Poll, proceed, find_admin, check_gone, clear_job, run_job, job_env}

module _ {W : Type 0} (services : Services W) (poll : Poll W) where
  -- The job, whose file the object names from then on.
  unfoldable pub backup_job : Task → String → String → Option String → Eff (Run W) Job
  backup_job t admin password none =
      pure (record { namespace = t.namespace; env = job_env admin password; mount = none })
  backup_job t admin password (some source) = call (always services.sub_path) >>= λ time.
      let sub_path = "backup/" <> time in
      let path = "/" <> sub_path in
      let file = path <> "/all.sql" in
      set_object (record t { status = record t.status { backup_path = file } }) >>= λ u.
      pure (record {
        namespace = t.namespace;
        env = job_env admin password ++ (("BACKUP_FILENAME", file) ∷ []);
        mount = some (source, path, sub_path);
      })

  unfoldable pub backup_cluster : Task → Eff (Run W) (Unit {0})
  unfolding find_admin clear_job check_gone backup_job run_job
  backup_cluster t = find_admin services t.namespace t.cluster_name >>= λ (admin, password).
      clear_job services (poll 1 60 (check_gone services t.namespace)) t.namespace
        "duplicate backup request"
      >>= λ next. proceed next (
          backup_job t admin password t.volume >>= λ job.
          run_job services poll job "backup job failed")

  unfoldable pub add_backup : Task → Eff (Run W) (Unit {0})
  unfolding backup_cluster update_object
  add_backup t =
      if is_finished t.status.state
      then pure tt
      else if t.cluster_name == ""
      then (ignoring (update_object services failed (some "pg backup cluster name is empty"))
          (fail (failure "pg backup cluster name is empty")))
      else backup_cluster t

  unfoldable pub delete_backup : Task → Eff (Run W) (Unit {0})
  delete_backup t =
      if t.status.backup_path == ""
      then pure tt
      else call (services.remove_all t.status.backup_path)

  unfoldable pub handle_backup : Action → Eff (Run W) (Unit {0})
  unfolding add_backup delete_backup
  handle_backup Action.unknown s = pure tt s
  handle_backup Action.add s = add_backup s.object s
  handle_backup Action.update s = pure tt s
  handle_backup Action.delete s = delete_backup s.object s

-- ===== src/Backup/Pg.antt =====
-- What the handlers of pgcluster-backup and pgcluster-restore share: the administrator of a cluster,
-- the job that may still be there, and the job that is run and waited for.
use tapr.Base.{
  ℕ, String, Bool, true, false, none, some, [], ◌∷◌, if◌then◌else◌, ◌==◌, ◌||◌, string_eq, ltb,
}
use tapr.Base.Dict.{Dict}
use tapr.Base.Effect.{Eff, ◌>>=◌, pure, fail, catching, ignoring}
use tapr.Backup.Types.{rejected, running, failed, ready, Task, Password, PgCluster, Job}
use tapr.Backup.Services.{Services, Run, created, call, note, read_key, get_var_value}
use tapr.Backup.Status.{update_copy, update_object}

abbrev pub citus_admin_secret_name : String
citus_admin_secret_name = "pgcluster-admin"

-- Whether the handler goes on.
pub data Next : Type 0 where
  go_on stop : Next

-- `poll interval timeout` is `wait.PollWithContext`, in seconds.
abbrev pub Poll : Type 0 → Type 0
Poll W = ℕ → ℕ → Eff (Run W) Bool → Eff (Run W) (Unit {0})

abbrev pub proceed : {S : Type 0} → Next → Eff S (Unit {0}) → Eff S (Unit {0})
proceed go_on m = m
proceed stop m = pure tt

module _ {W : Type 0} (services : Services W) where
  -- The user, and the password before it is read.
  unfoldable pub admin_of : PgCluster → Eff (Run W) (String × Password)
  admin_of cluster =
      if cluster.admin_user == ""
      then (call (services.secret cluster.namespace citus_admin_secret_name) >>= λ entries. pure (
        read_key "user" entries,
        record { value = read_key "password" entries; value_from = none },
      ))
      else pure (cluster.admin_user, cluster.password)

  unfoldable pub find_admin : String → String → Eff (Run W) (String × String)
  unfolding admin_of get_var_value
  find_admin namespace cluster_name =
      call (services.find_pg_cluster namespace cluster_name) >>= λ cluster.
      admin_of cluster >>= λ (admin, p).
      get_var_value (λ n k. call (services.secret n k)) namespace p >>= λ password.
      pure (admin, password)

  -- The job is gone.
  unfoldable pub check_gone : String → Eff (Run W) Bool
  check_gone namespace =
      catching (call (services.find_job namespace)) (λ j. pure false)
        λ e. if e.not_found then pure true else fail e

  -- A job of before: one that runs makes the request a duplicate, one that is over is deleted. Then
  -- `cleared` is what the handler waits for.
  unfoldable pub clear_job : Eff (Run W) (Unit {0}) → String → String → Eff (Run W) Next
  clear_job cleared namespace duplicate =
      catching (call (services.find_job namespace))
        (λ j.
          if ltb 0 j.active
          then (update_object services rejected (some duplicate) >>= λ t. pure stop)
          else if ltb 0 j.succeeded || ltb 0 j.job_failed
          then (call (services.delete_job namespace) >>= λ u. cleared >>= λ u. pure go_on)
          else pure go_on)
        λ e. if e.not_found then pure go_on else fail e

  -- `waitForJobComplete`, one call of the condition.
  unfoldable pub check_complete : String → Task → String → Eff (Run W) Bool
  unfolding update_copy
  check_complete namespace t message = call (services.find_job namespace) >>= λ j.
      if ltb 0 j.active
      then pure false
      else if ltb 0 j.succeeded
      then (update_copy services t ready none >>= λ u. pure true)
      else if ltb 0 j.job_failed
      then (update_copy services t failed (some message) >>= λ u. pure true)
      else pure false

  -- From the creation of the job to its end.
  unfoldable pub create_job : Job → Eff (Run W) (Unit {0})
  create_job job =
      catching (call (services.submit_job job)) (λ u. note (created job))
        λ e. ignoring (update_object services failed (some e.text)) (fail e)

  unfoldable pub run_job : Poll W → Job → String → Eff (Run W) (Unit {0})
  unfolding create_job check_complete update_object
  run_job poll job message = create_job job >>= λ u. update_object services running none >>= λ t.
      poll 5 3600 (check_complete job.namespace t message)

-- The environment that both jobs have.
abbrev pub job_env : String → String → Dict String String
job_env admin password =
    ("PG_HOST", "citus-0.citus-headless")
    ∷ ("PG_PORT", "5432")
    ∷ ("PGUSER", admin)
    ∷ ("PGPASSWORD", password)
    ∷ []

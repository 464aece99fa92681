-- ===== src/Backup/Tests.antt =====
-- A small cluster: the world is the list of what the server answers about the job, and a poll asks five
-- times. The theorems of the backup controllers are applied to it.
use tapr.Base.{
  ℕ, zero, suc, ◌+◌, String, Bool, true, false, Option, none, some, List, [], ◌∷◌, ◌≡◌, refl,
}
use tapr.Base.Effect.{failure, Result, ok, err, Eff, Polled, done, failed, again, timeout, IsPoll}
use tapr.Requests.Dispatch.{Action}
use tapr.Backup.Types.{State, new, running, ready, Status, Task, kv_rocks, JobStatus}
use tapr.Backup.Services.{Services, Run, Entry, stored, created}
use tapr.Backup.Pg.{Poll}
use tapr.Backup.PgBackup.{handle_backup}
use tapr.Backup.PgRestore.{handle_restore}
use tapr.Backup.KvRocks.{handle_kv_backup, handle_kv_restore}
use tapr.Backup.Trace.{Legal}
use tapr.Backup.Trace.Handlers.{Ends, start_of, Polls, handle_backup-Ends, handle_restore-Ends}
use tapr.Backup.Trace.KvRocks.{begun, handle_kv-Legal}
use tapr.Backup.Retry.{Fails, GivesUp, retries, handle_restore-retries, handle_backup-retries}

module _ {S : Type 0} where
  abbrev answered : S × Result Bool → Eff S (Unit {0}) → S × Result (Unit {0})
  answered (t, ok true) more = (t, ok tt)
  answered (t, ok false) more = more t
  answered (t, err e) more = (t, err e)

  abbrev ask : Eff S Bool → ℕ → Eff S (Unit {0})
  ask check zero s = (s, err (failure "timed out"))
  ask check (suc n) s = answered (check s) (ask check n)

  answered-Polled :
      (check : Eff S Bool) (more : Eff S (Unit {0})) (s : S) (o : S × Result Bool)
      → check s ≡ o
      → IsPoll check more
      → Polled check s (answered o more).0 (answered o more).1
  answered-Polled check more s (t, ok true) e h = done s t e
  answered-Polled check more s (t, ok false) e h = again s t (more t).0 (more t).1 e (h t)
  answered-Polled check more s (t, err x) e h = failed s t x e

  ask-IsPoll : (check : Eff S Bool) (n : ℕ) → IsPoll check (ask check n)
  ask-IsPoll check zero s = timeout s (failure "timed out")
  ask-IsPoll check (suc n) s =
      answered-Polled check (ask check n) s (check s) refl (ask-IsPoll check n)

abbrev World : Type 0
World = List (Option JobStatus)

abbrev ask_job : Eff World JobStatus
ask_job [] = ([], err (record { not_found = true; text = "not found" }))
ask_job (none ∷ js) = (js, err (record { not_found = true; text = "not found" }))
ask_job (some j ∷ js) = (js, ok j)

abbrev blank : Status
blank = record { state = new; error = ""; backup_path = ""; start_at = none; completed_at = none }

abbrev finished_backup : Task
finished_backup = record {
  namespace = "os";
  name = "backup";
  cluster_name = "citus";
  backup_name = "";
  volume = some "/data";
  status = record blank { state = ready; backup_path = "/backup/1/all.sql" };
}

abbrev services : Services World
services = record {
  update_status = λ t w. (w, ok t);
  find_pg_cluster = λ namespace name w. (
    w,
    ok (record {
      namespace = namespace;
      admin_user = "";
      password = record { value = ""; value_from = none };
    }),
  );
  find_redix_cluster = λ namespace name w. (w, ok kv_rocks);
  find_backup = λ namespace name w. (w, ok finished_backup);
  secret = λ namespace name w. (w, ok (("user", "admin") ∷ ("password", "pw") ∷ []));
  find_job = λ namespace. ask_job;
  delete_job = λ namespace w. (w, ok tt);
  submit_job = λ j w. (w, ok tt);
  now = λ w. (w, 7);
  sub_path = λ w. (w, "7");
  transfer = λ t w. (w, ok tt);
  remove_all = λ path w. (w, ok tt);
}

abbrev poll : Poll World
poll i j check = ask check 5

abbrev job_counts : ℕ → ℕ → ℕ → JobStatus
job_counts a s f = record { active = a; succeeded = s; job_failed = f }

-- No job at first, then one that runs and that is over.
abbrev jobs : World
jobs = none ∷ some (job_counts 1 0 0) ∷ some (job_counts 0 1 0) ∷ []

abbrev task : String → Task
task cluster = record finished_backup {
  cluster_name = cluster;
  backup_name = "backup";
  status = blank;
}

abbrev at_start : String → Run World
at_start cluster = record { world = jobs; object = task cluster; log = [] }

polls : Polls poll
polls i j check = ask-IsPoll check 5

abbrev states : List Entry → List (Option State)
states [] = []
states (stored s ∷ es) = some s.state ∷ states es
states (created j ∷ es) = none ∷ states es

handle_backup_run :
    states (handle_backup services poll Action.add (at_start "citus")).0.log
    ≡ none ∷ some running ∷ some ready ∷ []
unfolding handle_backup tapr.Base.string_eq tapr.Backup.Services.call tapr.Base.Dict.lookup
    tapr.Backup.Services.set_object tapr.Backup.Services.note
handle_backup_run = refl

handle_restore_run :
    states (handle_restore services poll Action.add (at_start "citus")).0.log
    ≡ none ∷ some running ∷ some ready ∷ []
unfolding handle_restore tapr.Base.string_eq tapr.Backup.Services.call tapr.Base.Dict.lookup
    tapr.Backup.Services.note tapr.Backup.Services.set_object
handle_restore_run = refl

handle_backup-Ends_example :
    Ends (start_of new) (handle_backup services poll Action.add (at_start "citus"))
handle_backup-Ends_example = handle_backup-Ends services poll polls (at_start "citus") refl

handle_restore-Ends_example :
    Ends (start_of new) (handle_restore services poll Action.add (at_start "citus"))
handle_restore-Ends_example = handle_restore-Ends services poll polls (at_start "citus") refl

handle_kv-Legal_example :
    Legal (begun new) (handle_kv_backup services Action.add (at_start "citus")).0
    × Legal (begun new) (handle_kv_restore services Action.add (at_start "citus")).0
handle_kv-Legal_example = handle_kv-Legal services (at_start "citus") refl

handle_restore-retries_example :
    Fails
      (λ r. r.object ≡ task "")
      (handle_restore services poll Action.add
        (retries (handle_restore services poll Action.add) 3 (at_start "")))
    × Fails
        (λ r. r.object ≡ task "")
        (handle_kv_restore services Action.add
          (retries (handle_kv_restore services Action.add) 3 (at_start "")))
handle_restore-retries_example = handle_restore-retries services poll 3 (at_start "") (refl, refl)

handle_backup-retries_example :
    GivesUp (handle_backup services poll Action.add) (at_start "")
    × GivesUp (handle_kv_backup services Action.add) (at_start "")
handle_backup-retries_example = handle_backup-retries services poll (at_start "") (refl, refl)

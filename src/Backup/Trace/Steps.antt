-- ===== src/Backup/Trace/Steps.antt =====
-- The steps that the handlers share, against the automaton of Backup/Trace.antt.
use tapr.Base.{
  ℕ, String, Bool, true, false, not, ◌||◌, Option, none, some, ◌==◌, string_eq, ltb, ◌≡◌, refl,
  arith,
}
use tapr.Base.Effect.{
  Eff, Ensures, Ensures-pure, Ensures-fail, Ensures-if, Ensures-catching, Ensures->>=, IsPoll,
  Answer, Ensures-poll,
}
use tapr.Backup.Types.{
  rejected, running, failed, ready, is_finished, Task, Password, PgCluster, Job,
}
use tapr.Backup.Services.{Services, Run, created, call, read_from, get_var_value}
use tapr.Backup.Pg.{
  citus_admin_secret_name, Next, go_on, stop, Poll, admin_of, find_admin, check_gone, clear_job,
  check_complete, create_job, run_job,
}
use tapr.Backup.Trace.{
  Position, At, Legal, Finished, At-Legal, legally, move, call-At, note-At, update_copy-At,
  update_object-At,
}

module _ {W : Type 0} (services : Services W) (start : Position) (p : Position) where
  abbrev pub Keeps : {A : Type 0} → Eff (Run W) A → Type 0
  Keeps m = Ensures (At start p) m (λ a. At start p) (At start p)

  read_from-Keeps :
      (namespace : String) (o : Option (String × String))
      → Keeps (read_from (λ n k. call (services.secret n k)) namespace o)
  unfolding read_from
  read_from-Keeps namespace none = Ensures-fail (λ s h. h)
  read_from-Keeps namespace (some (name, key)) =
      Ensures->>= (call-At start p (services.secret namespace name))
        λ entries. Ensures-pure (λ s h. h)

  get_var_value-Keeps :
      (namespace : String) (v : Password)
      → Keeps (get_var_value (λ n k. call (services.secret n k)) namespace v)
  unfolding get_var_value
  get_var_value-Keeps namespace v =
      Ensures-if (not (v.value == "")) (λ h. Ensures-pure (λ s h. h))
        λ h. read_from-Keeps namespace v.value_from

  admin_of-Keeps : (cluster : PgCluster) → Keeps (admin_of services cluster)
  unfolding admin_of
  admin_of-Keeps cluster =
      Ensures-if (cluster.admin_user == "")
        (λ h.
          Ensures->>= (call-At start p (services.secret cluster.namespace citus_admin_secret_name))
            λ entries. Ensures-pure (λ s h. h))
        λ h. Ensures-pure (λ s h. h)

  pub find_admin-Keeps : (namespace name : String) → Keeps (find_admin services namespace name)
  unfolding find_admin
  find_admin-Keeps namespace name =
      Ensures->>= (call-At start p (services.find_pg_cluster namespace name)) λ cluster.
        Ensures->>= (admin_of-Keeps cluster) λ (admin, v).
          Ensures->>= (get_var_value-Keeps namespace v) λ password. Ensures-pure (λ s h. h)

  pub check_gone-Keeps :
      (namespace : String)
      → Ensures
          (At start p)
          (check_gone services namespace)
          (Answer (At start p) (At start p))
          (At start p)
  unfolding check_gone
  check_gone-Keeps namespace =
      Ensures-catching (call-At start p (services.find_job namespace))
        (λ j. Ensures-pure (λ s h. h))
        λ e. Ensures-if e.not_found (λ h. Ensures-pure (λ s h. h)) (λ h. Ensures-fail (λ s h. h))

-- From the position where nothing is created yet, and a job that may be created.
module _ {W : Type 0} (services : Services W) (start p : Position)
    (unfinished : is_finished p.state ≡ false) where
  abbrev pub Cleared : Next → Run W → Type 0
  Cleared go_on = At start p
  Cleared stop = Finished start

  pub clear_job-Cleared :
      (cleared : Eff (Run W) (Unit {0})) (namespace duplicate : String)
      → Keeps services start p cleared
      → Ensures (At start p) (clear_job services cleared namespace duplicate) Cleared (At start p)
  unfolding clear_job
  clear_job-Cleared cleared namespace duplicate k =
      Ensures-catching (call-At start p (services.find_job namespace))
        (λ j.
          Ensures-if (ltb 0 j.active)
            (λ h.
              Ensures->>=
                (update_object-At services start p rejected (some duplicate) (ground arith))
                λ t. Ensures-pure (λ s h. (move p rejected, h, refl)))
            λ h.
              Ensures-if (ltb 0 j.succeeded || ltb 0 j.job_failed)
                (λ h.
                  Ensures->>= (call-At start p (services.delete_job namespace))
                    λ u. Ensures->>= k (λ u. Ensures-pure (λ s h. h)))
                λ h. Ensures-pure (λ s h. h))
        λ e. Ensures-if e.not_found (λ h. Ensures-pure (λ s h. h)) (λ h. Ensures-fail (λ s h. h))

  module _ (unmade : p.made ≡ false) where
    create_job-At :
        (job : Job)
        → Ensures
            (At start p)
            (create_job services job)
            (λ u. At start (record p { made = true }))
            (Legal start)
    unfolding create_job
    create_job-At job =
        Ensures-catching (call-At start p (services.submit_job job))
          (λ u. note-At start p (created job) (Legal start) (ground arith))
          λ e.
            Ensures-catching (update_object-At services start p failed (some e.text) (ground arith))
              (λ t. Ensures-fail (At-Legal start)) λ x. Ensures-fail (At-Legal start)

    abbrev at_work : Position
    at_work = record { state = running; made = true }

    check_complete-Finished :
        (namespace : String) (t : Task) (message : String)
        → Ensures
            (At start at_work)
            (check_complete services namespace t message)
            (Answer (At start at_work) (Finished start))
            (Legal start)
    unfolding check_complete
    check_complete-Finished namespace t message =
        Ensures->>= (legally start (call-At start at_work (services.find_job namespace))) λ j.
          Ensures-if (ltb 0 j.active) (λ h. Ensures-pure (λ s h. h))
            λ h.
              Ensures-if (ltb 0 j.succeeded)
                (λ h.
                  Ensures->>=
                    (legally start (update_copy-At services start at_work t ready none refl))
                    λ u. Ensures-pure (λ s h. (move at_work ready, h, refl)))
                λ h.
                  Ensures-if (ltb 0 j.job_failed)
                    (λ h.
                      Ensures->>=
                        (legally start
                          (update_copy-At services start at_work t failed (some message) refl))
                        λ u. Ensures-pure (λ s h. (move at_work failed, h, refl)))
                    λ h. Ensures-pure (λ s h. h)

    pub run_job-Finished :
        (poll : Poll W) (job : Job) (message : String)
        → ((i j : ℕ) (check : Eff (Run W) Bool) → IsPoll check (poll i j check))
        → Ensures
            (At start p)
            (run_job services poll job message)
            (λ u. Finished start)
            (Legal start)
    unfolding run_job
    run_job-Finished poll job message polls = Ensures->>= (create_job-At job) λ u.
        Ensures->>=
          (legally start (
            update_object-At services start (record p { made = true }) running none (ground arith)))
          λ t.
            Ensures-poll (At start at_work) (Finished start) (Legal start)
              (polls 5 3600 (check_complete services job.namespace t message))
              (check_complete-Finished job.namespace t message) (At-Legal start)

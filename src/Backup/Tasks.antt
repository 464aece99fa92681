-- ===== src/Backup/Tasks.antt =====
-- `ForceCreateNew...` and `WaitForAll...Complete` of pkg/workload/citus/helper.go and of
-- pkg/workload/kvrocks/helper.go: a fresh backup or restore in the place of an old one, and the wait for all
-- of them.
pub mod Laws
pub mod Replace
mod Tests
use tapr.Base.{
  ℕ, String, ◌<>◌, Bool, true, false, not, ◌||◌, Option, none, some, List, [], ◌∷◌, if◌then◌else◌,
  ◌≡◌,
}
use tapr.Base.Effect.{
  Error, failure, Result, ok, err, Eff, ◌>>=◌, pure, fail, catching, ignoring, chain, resolve,
}
use tapr.Backup.Types.{
  State, new, waiting, requested, rejected, running, failed, ready, Status, Task,
}
use tapr.Backup.Status.{is_running}

-- The calls of the clientset for one of the four resources, by namespace and name. `aggregate` is
-- `utilerrors.NewAggregate`.
pub record Resource (W : Type 0) : Type 0 where
  pub find : String → String → Eff W Task
  pub remove : String → String → Eff W (Unit {0})
  pub create : Task → Eff W (Unit {0})
  pub list_all : Eff W (List Task)
  pub aggregate : List String → Error

module _ {W : Type 0} (resource : Resource W) where
  unfoldable pub check_removed : Task → Eff W Bool
  check_removed t =
      catching (resource.find t.namespace t.name) (λ old. pure false)
        λ e. if e.not_found then pure true else fail e

  -- What stands between the deletion of the old one and the creation, and what a running one is called.
  unfoldable pub force_create : (Task → Eff W (Unit {0})) → String → Task → Eff W (Unit {0})
  force_create after_removal duplicate t =
      catching (resource.find t.namespace t.name)
        (λ old.
          if is_running old.status.state
          then fail (failure duplicate)
          else (resource.remove t.namespace t.name >>= λ u. after_removal t >>= λ u.
              resource.create (record t { status = record t.status { state = new } })))
        λ e.
          if e.not_found
          then resource.create (record t { status = record t.status { state = new } })
          else fail e

  -- `ForceCreateNewPGClusterBackup` and `ForceCreateNewKVRocksBackup`, which wait until the old one is gone.
  -- `poll` is `wait.PollImmediateWithContext`, whose error is not looked at.
  unfoldable pub force_create_backup :
      (Eff W Bool → Eff W (Unit {0})) → String → Task → Eff W (Unit {0})
  unfolding force_create check_removed
  force_create_backup poll = force_create (λ t. ignoring (poll (check_removed t)) (pure tt))

  -- `ForceCreateNewPGClusterRestore` and `ForceCreateNewKVRocksRestore`.
  unfoldable pub force_create_restore : String → Task → Eff W (Unit {0})
  unfolding force_create
  force_create_restore = force_create (λ t. pure tt)

-- The switch over a task's state.
abbrev pub is_incomplete : State → Bool
is_incomplete new = false
is_incomplete waiting = true
is_incomplete requested = false
is_incomplete rejected = false
is_incomplete running = true
is_incomplete failed = false
is_incomplete ready = false

abbrev pub is_failed : State → Bool
is_failed new = false
is_failed waiting = false
is_failed requested = false
is_failed rejected = true
is_failed running = false
is_failed failed = true
is_failed ready = false

-- The loop over the items: the messages, and whether one is incomplete.
abbrev pub failures : String → List Task → List String
failures title [] = []
failures title (t ∷ ts) =
    let rest = failures title ts in
    if is_failed t.status.state
    then (title <> ", " <> t.status.error <> ", " <> t.name <> ", " <> t.namespace) ∷ rest
    else rest

abbrev pub any_incomplete : List Task → Bool
any_incomplete [] = false
any_incomplete (t ∷ ts) = is_incomplete t.status.state || any_incomplete ts

module _ {W : Type 0} (resource : Resource W) where
  -- What the condition answers: an error, if there is a message, wins over `done`.
  abbrev pub verdict : List String → Bool → Eff W Bool
  verdict [] incomplete = pure (not incomplete)
  verdict (m ∷ ms) incomplete = fail (resource.aggregate (m ∷ ms))

  unfoldable pub check_all : String → Eff W Bool
  check_all title =
      catching resource.list_all (λ ts. verdict (failures title ts) (any_incomplete ts))
        λ e. if e.not_found then pure false else fail e

  -- `WaitForAllBackupComplete` and `WaitForAllRestoreComplete`; `poll` is `wait.PollWithContext`.
  unfoldable pub wait_for_all : (Eff W Bool → Eff W (Unit {0})) → String → Eff W (Unit {0})
  unfolding check_all
  wait_for_all poll title = poll (check_all title)

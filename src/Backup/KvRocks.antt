-- ===== src/Backup/KvRocks.antt =====
-- cmd/middleware/operator/kvrocks-bakcup/handler.go and kvrocks-restore/handler.go.
use tapr.Base.{none, some, if◌then◌else◌, ◌==◌, string_eq}
use tapr.Base.Effect.{failure, Eff, ◌>>=◌, pure, fail, catching, ignoring}
use tapr.Requests.Dispatch.{Action}
use tapr.Backup.Types.{
  running, failed, ready, is_finished, Task, ClusterType, redis_cluster, kv_rocks, other,
}
use tapr.Backup.Services.{Services, Run, call}
use tapr.Backup.Status.{update_object, update_copy}

module _ {W : Type 0} (services : Services W) where
  -- From the running status on. An error of the last update is only logged.
  unfoldable pub run_kv : Eff (Run W) (Unit {0})
  unfolding update_object update_copy
  run_kv = update_object services running none >>= λ t.
      catching (call (services.transfer t))
        (λ u. ignoring (update_copy services t ready none) (pure tt))
        λ e. ignoring (update_copy services t failed none) (fail e)

  unfoldable pub of_kind : ClusterType → Eff (Run W) (Unit {0})
  unfolding run_kv
  of_kind redis_cluster = pure tt
  of_kind (other text) = pure tt
  of_kind kv_rocks = run_kv

  unfoldable pub kv_cluster : Task → Eff (Run W) (Unit {0})
  unfolding of_kind
  kv_cluster t = call (services.find_redix_cluster t.namespace t.cluster_name) >>= of_kind

  unfoldable pub add_kv_backup : Task → Eff (Run W) (Unit {0})
  unfolding kv_cluster update_object
  add_kv_backup t =
      if is_finished t.status.state
      then pure tt
      else if t.cluster_name == ""
      then (ignoring (update_object services failed (some "kvrocks backup cluster name is empty"))
          (fail (failure "kvrocks backup cluster name is empty")))
      else kv_cluster t

  -- The failure of the clean-up is only logged.
  unfoldable pub handle_kv_backup : Action → Eff (Run W) (Unit {0})
  unfolding add_kv_backup
  handle_kv_backup Action.unknown s = pure tt s
  handle_kv_backup Action.add s = add_kv_backup s.object s
  handle_kv_backup Action.update s = pure tt s
  handle_kv_backup Action.delete s =
      (if s.object.status.backup_path == ""
          then pure tt
          else (ignoring (call (services.remove_all s.object.status.backup_path)) (pure tt)))
        s

  unfoldable pub add_kv_restore : Task → Eff (Run W) (Unit {0})
  unfolding kv_cluster update_copy
  add_kv_restore t =
      if is_finished t.status.state
      then pure tt
      else if t.cluster_name == ""
      then (ignoring (update_copy services t failed (some "kvrocks restore cluster name is empty"))
          (fail (failure "kvrocks restore cluster name is empty")))
      else kv_cluster t

  unfoldable pub handle_kv_restore : Action → Eff (Run W) (Unit {0})
  unfolding add_kv_restore
  handle_kv_restore Action.unknown s = pure tt s
  handle_kv_restore Action.add s = add_kv_restore s.object s
  handle_kv_restore Action.update s = pure tt s
  handle_kv_restore Action.delete s = pure tt s

-- ===== src/Backup/Watcher.antt =====
-- cmd/middleware/operator/backup: what the watcher does for an event of a system backup (watcher.go), and
-- the backup of all PostgreSQL clusters (backup_pg.go).
pub mod Created
pub mod Events
use tapr.Base.{
  ℕ, String, ◌<>◌, Bool, true, false, not, ◌||◌, Option, none, some, List, [], ◌∷◌, if◌then◌else◌,
  ◌==◌, string_eq,
}
use tapr.Base.Dict.{Dict, lookup, insert}
use tapr.Base.Effect.{
  Error, failure, Result, ok, err, Eff, ◌>>=◌, pure, fail, ignoring, catching, chain, resolve,
  for_each,
}
use tapr.Backup.Types.{State, Status, Task, PgCluster}
use tapr.Backup.Tasks.{Resource, force_create_backup, wait_for_all}

-- A PGCluster, as far as its backup goes.
pub record Source : Type 0 where
  pub namespace : String
  pub owner : String
  pub backup_storage : String

-- The calls of Kubernetes: the clusters, the annotations of a stateful set, the volume of a claim, and the
-- path of a volume on its host.
pub record Storage (W : Type 0) : Type 0 where
  pub list_clusters : Eff W (List Source)
  pub annotations : String → String → Eff W (Dict String String)
  pub find_claim : String → String → Eff W String
  pub find_volume : String → Eff W String

-- `ClusterBackup`, with the namespace and the path of the volume.
abbrev pub cluster_backup : String → String → Task
cluster_backup namespace path = record {
  namespace = namespace;
  name = "citus-backup";
  cluster_name = "citus";
  backup_name = "";
  volume = some path;
  status = record {
    state = State.new;
    error = "";
    backup_path = "";
    start_at = none;
    completed_at = none;
  };
}

module _ {W : Type 0} (storage : Storage W) where
  abbrev pub annotation : String → Option String → Eff W String
  annotation key none = fail (failure ("cannot find user db data pvc, " <> key))
  annotation key (some pvc) = pure pvc

  -- `GetUserDBPVCName`
  unfoldable pub get_user_db_pvc_name : String → Eff W String
  get_user_db_pvc_name namespace = storage.annotations namespace "bfl" >>= λ entries.
      annotation "dbdata_hostpath" (lookup "dbdata_hostpath" entries)

  unfoldable pub claim_path : Source → Eff W String
  unfolding get_user_db_pvc_name
  claim_path source =
      if source.owner == "system"
      then (storage.find_claim source.namespace "citus-data-pvc" >>= storage.find_volume)
      else get_user_db_pvc_name ("user-space-" <> source.owner)

  unfoldable pub backup_path_of : Source → Eff W String
  unfolding claim_path
  backup_path_of source =
      if not (source.backup_storage == "")
      then pure source.backup_storage
      else (claim_path source >>= λ pvc. pure (pvc <> "/pg_backup"))

  module _ (backups : Resource W) (poll poll_immediate : Eff W Bool → Eff W (Unit {0})) where
    unfoldable pub create_backup_of : Source → Eff W (Unit {0})
    unfolding backup_path_of
    create_backup_of source = backup_path_of source >>= λ path.
        force_create_backup backups poll_immediate "duplicate pg backup job"
          (cluster_backup source.namespace path)

    -- `backupPostgres`
    unfoldable pub backup_postgres : Eff W (Unit {0})
    unfolding create_backup_of
    backup_postgres = storage.list_clusters >>= λ sources.
        for_each create_backup_of sources >>= λ u. wait_for_all backups poll "backup pg failed"

-- ===== src/Backup/Watcher/Events.antt =====
-- The events of watcher.go, and the backup of all Redis clusters (backup_kvrocks.go), both in
-- cmd/middleware/operator/backup. `backup_redis`, of a Redis cluster, is a parameter, and so is `backup_all`, the two
-- goroutines of `backup` whose calls may interleave in any way.
use tapr.Base.{
  String, Bool, Option, none, some, List, [], ◌∷◌, if◌then◌else◌, ◌==◌, ◌||◌, string_eq,
}
use tapr.Base.Dict.{Dict, insert}
use tapr.Base.Effect.{Error, Eff, ◌>>=◌, pure, fail, ignoring, catching}
use tapr.Backup.Types.{State, Task, ClusterType, redis_cluster, kv_rocks, other}
use tapr.Backup.Tasks.{Resource, force_create_backup, wait_for_all}

-- A cluster by its namespace, its name and its type.
pub record RedixItem : Type 0 where
  pub namespace : String
  pub name : String
  pub kind : ClusterType

-- `KVRocksBackup`, for a cluster.
abbrev pub kvrocks_backup : RedixItem → Task
kvrocks_backup c = record {
  namespace = c.namespace;
  name = "kvrocks-backup";
  cluster_name = c.name;
  backup_name = "";
  volume = none;
  status = record {
    state = State.new;
    error = "";
    backup_path = "";
    start_at = none;
    completed_at = none;
  };
}

module _ {W : Type 0} (list_redix : Eff W (List RedixItem)) (backups : Resource W)
    (poll poll_immediate : Eff W Bool → Eff W (Unit {0})) (backup_redis : Eff W (Unit {0})) where
  abbrev pub finish : Option Error → Eff W (Unit {0})
  finish none = pure tt
  finish (some e) = fail e

  -- What an iteration does: a failed creation returns, and the error of the wait is what it leaves.
  unfoldable pub one_redix : RedixItem → ClusterType → Option Error → Eff W (Option Error)
  one_redix c kv_rocks last =
      force_create_backup backups poll_immediate "duplicate kvrocks backup job" (kvrocks_backup c)
      >>= λ u.
          catching (wait_for_all backups poll "backup kvrocks failed") (λ v. pure none)
            (λ e. pure (some e))
  one_redix c redis_cluster last = catching backup_redis (λ v. pure none) (λ e. pure (some e))
  one_redix c (other text) last = pure last

  unfoldable pub each_redix : List RedixItem → Option Error → Eff W (Unit {0})
  unfolding one_redix
  each_redix [] last = finish last
  each_redix (c ∷ cs) last = one_redix c c.kind last >>= λ e. each_redix cs e

  -- `backupRedix`, whose error is that of the last cluster.
  unfoldable pub backup_redix : Eff W (Unit {0})
  unfolding each_redix
  backup_redix = list_redix >>= λ cs. each_redix cs none

-- A system backup of pkg/backup.
pub record SysBackup : Type 0 where
  pub namespace : String
  pub name : String
  pub phase : Option String
  pub middle_ware_phase : Option String
  pub middle_ware_failed_message : Option String
  pub annotations : Dict String String

pub data EventType : Type 0 where
  added modified deleted bookmark error : EventType

-- What becomes of an event; `panicked` is a nil pointer that is followed.
pub data Reaction : Type 0 where
  ignored panicked backed_up : Reaction

pub record SysBackups (W : Type 0) : Type 0 where
  pub find_sys_backup : String → String → Eff W SysBackup
  pub find_pbm_name : String → Eff W String
  pub update_sys_backup : SysBackup → Eff W (Unit {0})
  pub retry_on_conflict : Eff W (Unit {0}) → Eff W (Unit {0})

module _ {W : Type 0} (calls : SysBackups W) (backup_all : Eff W (Unit {0})) where
  -- `updateBackupState`
  unfoldable pub update_backup_state : SysBackup → String → Option String → Eff W (Unit {0})
  update_backup_state b state message = calls.retry_on_conflict (
      calls.find_sys_backup b.namespace b.name >>= λ u. calls.find_pbm_name b.namespace >>= λ name.
      calls.update_sys_backup (record u {
        middle_ware_phase = some state;
        middle_ware_failed_message = message;
        annotations = insert "percona/psmdb-last-backup-pbmname" name u.annotations;
      }))

  -- An error of an update is only logged.
  unfoldable pub back_up : SysBackup → Eff W Reaction
  unfolding update_backup_state
  back_up b = ignoring (update_backup_state b "Running" none) (
      catching backup_all (λ u. ignoring (update_backup_state b "Success" none) (pure backed_up))
        λ e. ignoring (update_backup_state b "Failed" (some e.text)) (pure backed_up))

  unfoldable pub unless_taken : SysBackup → Option String → Eff W Reaction
  unfolding back_up
  unless_taken b none = back_up b
  unless_taken b (some state) =
      if state == "Failed" || state == "Success" || state == "Running"
      then pure ignored
      else back_up b

  -- The log message of the first test follows the phase also where it is nil.
  unfoldable pub if_started : SysBackup → Option String → Eff W Reaction
  unfolding unless_taken
  if_started b none = pure panicked
  if_started b (some phase) =
      if phase == "Started" then unless_taken b b.middle_ware_phase else pure ignored

  abbrev pub of_object : Option SysBackup → Eff W Reaction
  of_object none = pure ignored
  of_object (some b) = if_started b b.phase

  -- An event, with the object that was read from it, if it could be read.
  unfoldable pub on_backup_event : EventType → Option SysBackup → Eff W Reaction
  unfolding if_started
  on_backup_event added o = of_object o
  on_backup_event modified o = of_object o
  on_backup_event deleted o = pure ignored
  on_backup_event bookmark o = pure ignored
  on_backup_event error o = pure ignored

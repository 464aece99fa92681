-- ===== src/Backup/Types.antt =====
-- The custom resources of pkg/apis/apr/v1alpha1 that the backup controllers read and write.
use tapr.Base.{ℕ, String, Bool, true, false, Option}
use tapr.Base.Dict.{Dict}

-- `BackupState` and `RestoreState` have the same values.
pub data State : Type 0 where
  new waiting requested rejected running failed ready : State

-- `case Error, Rejected, Ready`
abbrev pub is_finished : State → Bool
is_finished new = false
is_finished waiting = false
is_finished requested = false
is_finished running = false
is_finished rejected = true
is_finished failed = true
is_finished ready = true

-- A missing path or error is "". Times are those of the clock.
pub record Status : Type 0 where
  pub state : State
  pub error : String
  pub backup_path : String
  pub start_at : Option ℕ
  pub completed_at : Option ℕ

-- A backup or a restore; what its kind lacks is empty. `volume` is the source of `VolumeSpec`.
pub record Task : Type 0 where
  pub namespace : String
  pub name : String
  pub cluster_name : String
  pub backup_name : String
  pub volume : Option String
  pub status : Status

-- `PasswordVar`: a value, or the name and key of a secret.
pub record Password : Type 0 where
  pub value : String
  pub value_from : Option (String × String)

pub record PgCluster : Type 0 where
  pub namespace : String
  pub admin_user : String
  pub password : Password

-- `RedixCluster`, by its type.
pub data ClusterType : Type 0 where
  redis_cluster kv_rocks : ClusterType
  other : String → ClusterType

-- The counts of a Kubernetes job.
pub record JobStatus : Type 0 where
  pub active : ℕ
  pub succeeded : ℕ
  pub job_failed : ℕ

-- What the controllers fill in of the job templates. `mount` is a volume with the path and the
-- subpath that it is mounted at.
pub record Job : Type 0 where
  pub namespace : String
  pub env : Dict String String
  pub mount : Option (String × String × String)

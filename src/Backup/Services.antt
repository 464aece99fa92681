-- ===== src/Backup/Services.antt =====
-- What the backup controllers call, on an arbitrary world `W` whose calls may fail and may change it.
use tapr.Base.{
  ℕ, String, Option, none, some, List, [], ◌∷◌, ◌++◌, if◌then◌else◌, not, ◌==◌, string_eq,
}
use tapr.Base.Dict.{Dict, lookup}
use tapr.Base.Effect.{failure, Result, ok, Eff, ◌>>=◌, pure, fail}
use tapr.Backup.Types.{Status, Task, Password, PgCluster, ClusterType, JobStatus, Job}

-- `update_status` returns the server's object. `sub_path` is the time as a text. `transfer` stands for
-- `BackupKVRocks` or `RestoreKVRocks`.
pub record Services (W : Type 0) : Type 0 where
  pub update_status : Task → Eff W Task
  pub find_pg_cluster : String → String → Eff W PgCluster
  pub find_redix_cluster : String → String → Eff W ClusterType
  pub find_backup : String → String → Eff W Task
  pub secret : String → String → Eff W (Dict String String)
  pub find_job : String → Eff W JobStatus
  pub delete_job : String → Eff W (Unit {0})
  pub submit_job : Job → Eff W (Unit {0})
  pub now : W → W × ℕ
  pub sub_path : W → W × String
  pub transfer : Task → Eff W (Unit {0})
  pub remove_all : String → Eff W (Unit {0})

-- What a controller has done: each status that it stored, and each job that it created.
pub data Entry : Type 0 where
  stored : Status → Entry
  created : Job → Entry

-- `object` is the object of the work queue, which the code changes in place.
pub record Run (W : Type 0) : Type 0 where
  pub world : W
  pub object : Task
  pub log : List Entry

module _ {W : Type 0} where
  abbrev pub with_world : {A : Type 0} → Run W → W × Result A → Run W × Result A
  with_world s (w, r) = (record s { world = w }, r)

  -- A call that cannot fail.
  abbrev pub always : {A : Type 0} → (W → W × A) → Eff W A
  always m w = ((m w).0, ok (m w).1)

  -- A call of a service.
  unfoldable pub call : {A : Type 0} → Eff W A → Eff (Run W) A
  call m s = with_world s (m s.world)

  unfoldable pub set_object : Task → Eff (Run W) (Unit {0})
  set_object t s = (record s { object = t }, ok tt)

  unfoldable pub note : Entry → Eff (Run W) (Unit {0})
  note e s = (record s { log = s.log ++ (e ∷ []) }, ok tt)

-- A missing key of a secret reads as "".
abbrev pub read_key : String → Dict String String → String
read_key key entries = elim (lookup key entries) [ none ↦ "" | some v ↦ v ]

-- The password of a namespace's object; `secret` reads a secret.
module _ {S : Type 0} (secret : String → String → Eff S (Dict String String))
    (namespace : String) where
  unfoldable pub read_from : Option (String × String) → Eff S String
  read_from none = fail (failure "password is not defined")
  read_from (some (name, key)) = secret namespace name >>= λ entries. pure (read_key key entries)

  -- `GetVarValue`
  unfoldable pub get_var_value : Password → Eff S String
  unfolding read_from
  get_var_value p = if not (p.value == "") then pure p.value else read_from p.value_from

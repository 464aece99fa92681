-- ===== src/Nats/Types.antt =====
-- pkg/workload/nats/types.go, and the NATS part of a MiddlewareRequest (pkg/apis/apr/v1alpha1/types.go).
use tapr.Base.{ℕ, String, List}

pub record User : Type 0 where
  pub username : String
  pub password : String
  pub publish_allow : List String
  pub subscribe_allow : List String

pub record Config : Type 0 where
  pub http_port : ℕ
  pub max_file_store : ℕ
  pub max_memory_store : ℕ
  pub store_dir : String
  pub users : List User
  pub port : ℕ
  pub pid_file : String
  pub server_name : String

-- `app_name` is the app that an export is for; a subject's own permission leaves it empty.
pub record Permission : Type 0 where
  pub app_name : String
  pub pub_perm : String
  pub sub_perm : String

pub record Subject : Type 0 where
  pub name : String
  pub permission : Permission
  pub exports : List Permission

pub record RefSubject : Type 0 where
  pub name : String
  pub perm : List String

pub record Ref : Type 0 where
  pub app_name : String
  pub app_namespace : String
  pub subjects : List RefSubject

-- A request as this component reads it. `middleware` is the type's text, "nats" for its own.
pub record Request : Type 0 where
  pub namespace : String
  pub app : String
  pub app_namespace : String
  pub middleware : String
  pub user : String
  pub subjects : List Subject
  pub refs : List Ref

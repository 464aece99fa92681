-- ===== src/Ws/Types.antt =====
-- pkg/ws/ws_types.go and the types of pkg/ws/server.go, client.go and filters.go.
-- `interface{}` payloads are the type `J` of a parameter. A nil slice and an empty one are both `[]`.
use tapr.Base.{ℕ, String, Bool, Option, List, string_eq}
use tapr.Base.Dict.{Dict, lookup}
use tapr.Base.Panic.{◌>>=◌}

abbrev pub queue_size : ℕ
queue_size = 500

abbrev pub expiration_duration : ℕ
expiration_duration = 45

-- `users_access_type`: 1 selects private connections, 2 public ones, any other number all.
pub record CloseMessage : Type 0 where
  pub conn_ids : List String
  pub tokens : List String
  pub users : List String
  pub users_access_type : ℕ

pub record ReadMessage (J : Type 0) : Type 0 where
  pub payload : J
  pub action : String
  pub cookie : String
  pub user_name : String
  pub conn_id : String
  pub token : String
  pub access_public : Bool

pub record WriteMessage (J : Type 0) : Type 0 where
  pub message_type : ℕ
  pub message : J
  pub conn_id : String
  pub tokens : List String
  pub users : List String
  pub users_access_type : ℕ

-- The values that `Locals` holds for a connection. `expired` is the Unix time of the last ping, or
-- `none` where nothing of that type is stored.
pub record Conn : Type 0 where
  pub user : String
  pub conn_id : String
  pub token : String
  pub token_original : String
  pub user_agent : String
  pub cookie : String
  pub access_public : Bool
  pub expired : Option ℕ

-- `conn` is a pointer, which `New` always sets.
pub record Client : Type 0 where
  pub conn : Option Conn

pub record User : Type 0 where
  pub name : String
  pub conns : Dict String Client

pub record Server (J : Type 0) : Type 0 where
  pub users : Dict String User
  pub read_queue : List (ReadMessage J)
  pub write_queue : List (WriteMessage J)
  pub close_queue : List CloseMessage

-- `server.users[user].conns[id]`
abbrev pub lookup_conn : String → String → Dict String User → Option Client
lookup_conn user id users = do u ← lookup user users; lookup id u.conns

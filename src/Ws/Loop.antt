-- ===== src/Ws/Loop.antt =====
-- The server of pkg/ws as it runs: handlers and routines interleave, and `closeConns` gives up its
-- lock between the choice of the connections and their removal.
pub mod Safety
use tapr.Base.{
  ℕ, ◌+◌, ◌≤◌, ◌<◌, String, Bool, true, false, Option, none, some, List, [], ◌∷◌, ◌++◌, ◌≡◌, refl,
  ◌∙◌, if◌then◌else◌, ◌==◌, contains, string_eq, is_empty, arith, Bool-cases, ap, sym, inl, inr,
  ◌≢◌, All, length, length-append, Option-cases,
}
use tapr.Base.Dict.{
  Dict, lookup, adjust, lookup-adjust, adjust-NodupKeys, is_empty-adjust, All-adjust, NodupKeys,
}
use tapr.Base.Panic.{◌>>=◌, >>=-eq-some}
use tapr.Ws.Types.{
  CloseMessage, WriteMessage, ReadMessage, Client, Conn, User, Server, lookup_conn, queue_size,
}
use tapr.Ws.Filter.{Fields, new_filter}
use tapr.Ws.Server.{add_client, close_targets, close_listed, check_expired}
use tapr.Ws.Table.{
  IsOwn, IsValidUser, IsValid, lookup_conn-add_client, add_client-IsValid, lookup_conn-remove_conns,
  remove_conns-IsValid,
}
use tapr.Ws.Close.{IsUnique, new_filter_total}

-- `updateExpiration` on the client of a connection.
abbrev pub refresh : ℕ → Client → Client
refresh now c = record {
  conn = elim c.conn [ none ↦ none | some k ↦ some (record k { expired = some now }) ];
}

abbrev pub refresh_user : String → ℕ → User → User
refresh_user id now u = record u { conns = adjust id (refresh now) u.conns }

unfoldable pub update_expiration : String → String → ℕ → Dict String User → Dict String User
update_expiration user id now users = adjust user (refresh_user id now) users

-- `closing` holds the targets of a `closeConns` that has not removed them yet.
pub record State (J : Type 0) : Type 0 where
  pub server : Server J
  pub open server use *
  pub closing : Option (List String)

abbrev with_users : {J : Type 0} → State J → Dict String User → State J
with_users s users = record s { server = record s.server { users = users } }

module _ {J : Type 0} where
  -- The steps of the handlers, of the routines and of the connections. A send on a full channel waits.
  pub data Step (s t : State J) : Type 0 where
    connect :
        (k : Conn)
        → ((u : String) → lookup_conn u k.conn_id s.users ≡ none)
        → t ≡ with_users s (add_client k.user k.conn_id (record { conn = some k }) s.users)
        → Step s t
    ping :
        (user id : String) (now : ℕ)
        → t ≡ with_users s (update_expiration user id now s.users)
        → Step s t
    ask_close :
        (m : CloseMessage)
        → length s.close_queue < queue_size
        → t ≡ record s { server = record s.server { close_queue = s.close_queue ++ (m ∷ []) } }
        → Step s t
    ask_write :
        (m : WriteMessage J)
        → length s.write_queue < queue_size
        → t ≡ record s { server = record s.server { write_queue = s.write_queue ++ (m ∷ []) } }
        → Step s t
    tell :
        (m : ReadMessage J)
        → length s.read_queue < queue_size
        → t ≡ record s { server = record s.server { read_queue = s.read_queue ++ (m ∷ []) } }
        → Step s t
    take_close :
        (m : CloseMessage) (rest : List CloseMessage) (ids : List String)
        → s.closing ≡ none
        → s.close_queue ≡ m ∷ rest
        → close_targets m s.users ≡ some ids
        → t ≡ record { server = record s.server { close_queue = rest }; closing = some ids }
        → Step s t
    finish_close :
        (ids : List String)
        → s.closing ≡ some ids
        → t ≡ record {
          server = record s.server { users = (close_listed ids s.users).0 };
          closing = none;
        }
        → Step s t
    take_write :
        (m : WriteMessage J) (rest : List (WriteMessage J))
        → s.write_queue ≡ m ∷ rest
        → t ≡ record s { server = record s.server { write_queue = rest } }
        → Step s t
    take_read :
        (m : ReadMessage J) (rest : List (ReadMessage J))
        → s.read_queue ≡ m ∷ rest
        → t ≡ record s { server = record s.server { read_queue = rest } }
        → Step s t

  pub data Reach (s : State J) : State J → Type 0 where
    here : Reach s s
    next : {t u : State J} → Reach s t → Step t u → Reach s u

  -- `NewWebSocketServer`
  abbrev pub init : State J
  init = record {
    server = record { users = []; read_queue = []; write_queue = []; close_queue = [] };
    closing = none;
  }

-- ===== src/Ws/Server.antt =====
-- pkg/ws/server.go: the table of users and connections, and the bodies of its routines. A routine
-- takes a message off its queue; what it sends, closes or hands on is in its result.
use tapr.Base.{
  ℕ, String, Option, none, some, List, [], ◌∷◌, ◌++◌, if◌then◌else◌, ◌==◌, map, string_eq, nat_eq,
  is_empty,
}
use tapr.Base.Dict.{Dict, lookup, insert, erase}
use tapr.Base.Panic.{◌>>=◌}
use tapr.Ws.Types.{CloseMessage, WriteMessage, Client, User}
use tapr.Ws.Filter.{
  Fields, new_filter, result, filter_by_users, filter_by_publics_only, filter_by_privates_only,
  filter_by_tokens, filter_by_conn_ids, filter_by_expired,
}

-- `addClient`: `name` and `id` are what `getUser` and `getConnId` read from the connection.
unfoldable pub add_client : String → String → Client → Dict String User → Dict String User
add_client name id c users = elim (lookup name users) [
  | none ↦ insert name (record { name = name; conns = insert id c [] }) users
  | some u ↦ insert name (record u { conns = insert id c u.conns }) users
]

-- The part that `closeConns` and `routineWrite` share: filters are applied for lists that are given.
unfoldable pub select_fields :
    List String → ℕ → List String → List String → List Fields → List Fields
select_fields users access tokens ids fs =
    let by_user =
      if is_empty users
      then fs
      else (let ds = filter_by_users users fs in
          if access == 1
          then filter_by_privates_only ds
          else if access == 2
          then filter_by_publics_only ds
          else ds) in
    let by_token = if is_empty tokens then by_user else filter_by_tokens tokens by_user in
    if is_empty ids then by_token else filter_by_conn_ids ids by_token

-- The first half of `closeConns`, under the read lock.
unfoldable pub close_targets : CloseMessage → Dict String User → Option (List String)
close_targets m users = do
  fs ← new_filter users
  some (result (select_fields m.users m.users_access_type m.tokens m.conn_ids fs))

-- The inner loop: the connections of one user that go, and the clients that are cancelled.
unfoldable pub close_each : List String → Dict String Client → Dict String Client × List Client
close_each [] conns = (conns, [])
close_each (id ∷ ids) conns = elim (lookup id conns) [
  | none ↦ close_each ids conns
  | some c ↦ elim c.conn [
    | none ↦ close_each ids conns
    | some k ↦ let (left, closed) = close_each ids (erase id conns) in (left, c ∷ closed)
  ]
]

-- The loop over the users: their new connections, the users left with none, the cancelled clients.
unfoldable pub sweep : List String → Dict String User → Dict String User × List String × List Client
sweep ids [] = ([], [], [])
sweep ids ((name, u) ∷ users) =
    let (left, closed) = close_each ids u.conns in
    let (users', gone, more) = sweep ids users in
    (
      (name, record u { conns = left }) ∷ users',
      (if is_empty left then name ∷ gone else gone),
      closed ++ more,
    )

unfoldable pub erase_all {ℓ} : {V : Type ℓ} → List String → Dict String V → Dict String V
erase_all [] d = d
erase_all (k ∷ ks) d = erase_all ks (erase k d)

-- The second half of `closeConns`, under the write lock.
unfoldable pub remove_conns : List String → Dict String User → Dict String User × List Client
remove_conns ids users =
    let (users', gone, closed) = sweep ids users in (erase_all gone users', closed)

-- What `closeConns` does with its targets.
abbrev pub close_listed : List String → Dict String User → Dict String User × List Client
close_listed ids users = if is_empty ids then (users, []) else remove_conns ids users

unfoldable pub close_conns :
    CloseMessage → Dict String User → Option (Dict String User × List Client)
close_conns m users = do ids ← close_targets m users; some (close_listed ids users)

-- The inner loop of `routineWrite`: the clients of one user that get the message.
unfoldable pub write_each : List String → Dict String Client → List (String × Client)
write_each [] conns = []
write_each (id ∷ ids) conns = elim (lookup id conns) [
  | none ↦ write_each ids conns
  | some c ↦ (id, c) ∷ write_each ids conns
]

unfoldable pub write_all : List String → Dict String User → List (String × Client)
write_all ids [] = []
write_all ids ((name, u) ∷ users) = write_each ids u.conns ++ write_all ids users

unfoldable pub write_targets :
    {J : Type 0} → WriteMessage J → Dict String User → Option (List String)
write_targets m users = do
  fs ← new_filter users
  some (
      result (
        select_fields m.users m.users_access_type m.tokens
          (if m.conn_id == "" then [] else m.conn_id ∷ []) fs))

-- One round of `routineWrite`. `marshal` is `json.Marshal`; its failure drops the message.
unfoldable pub write_message :
    {J : Type 0}
    → (J → Option String)
    → WriteMessage J
    → Dict String User
    → Option (List (String × Client × String))
write_message marshal m users = elim (marshal m.message) [
  | none ↦ some []
  | some text ↦ do
    ids ← write_targets m users
    some (map (λ (id, c). (id, c, text)) (write_all ids users))
]

-- One round of `checkExpired`: what it puts on the close queue.
unfoldable pub check_expired : ℕ → Dict String User → Option (List CloseMessage)
check_expired now users = do
  fs ← new_filter users
  let ids = result (filter_by_expired now fs)
  some (
      if is_empty ids
      then []
      else record { conn_ids = ids; tokens = []; users = []; users_access_type = 0 } ∷ [])

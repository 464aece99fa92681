-- ===== src/Ws/Gateway.antt =====
-- cmd/websocket/app (handler.go, server.go), pkg/ws/middleware and `Server.List`: what the HTTP side
-- reads and hands to the server. `md5` stands for `utils.MD5`; a body that `json.Unmarshal` refuses
-- is `none`.
use tapr.Base.{
  ℕ, ◌+◌, String, ◌<>◌, Bool, true, false, not, ◌&&◌, Option, none, some, List, [], ◌∷◌, ◌≡◌, refl,
  if◌then◌else◌, ◌==◌, string_eq, arith, length, map, is_empty, ◌⊎◌, ◌≢◌,
}
use tapr.Base.Dict.{Dict, lookup}
use tapr.Base.Panic.{◌>>=◌, >>=-eq-some}
use tapr.Ws.Types.{CloseMessage, WriteMessage, ReadMessage, Client, Conn, User}

-- `sendMesssageReq` and `disConnectionReq`
pub record SendRequest (J : Type 0) : Type 0 where
  pub payload : J
  pub users : List String
  pub users_access_type : ℕ
  pub tokens : List String
  pub conn_id : String

pub record CloseRequest : Type 0 where
  pub conns : List String
  pub tokens : List String
  pub users : List String
  pub users_access_type : ℕ

-- The reply's `code` and `message`; the text of a decoding error is left out.
pub data Reply : Type 0 where
  success : Reply
  bad_request : String → Reply

abbrev pub text_message : ℕ
text_message = 1

module _ (md5 : String → String) where
  -- The loop of `CloseConnection` skips empty tokens.
  unfoldable pub close_tokens : List String → List String
  close_tokens [] = []
  close_tokens (t ∷ ts) = let rest = close_tokens ts in if t == "" then rest else md5 t ∷ rest

  unfoldable pub close_connection : Option CloseRequest → Reply × Option CloseMessage
  unfolding close_tokens
  close_connection none = (bad_request "receive data invalid", none)
  close_connection (some r) = (
    success,
    some (record {
      conn_ids = r.conns;
      tokens = close_tokens r.tokens;
      users = r.users;
      users_access_type = r.users_access_type;
    }),
  )

  is_empty-map : (ts : List String) → is_empty (map md5 ts) ≡ is_empty ts
  is_empty-map [] = refl
  is_empty-map (t ∷ ts) = refl

  module _ {J : Type 0} where
    unfoldable pub send_message : Option (SendRequest J) → Reply × Option (WriteMessage J)
    send_message none = (bad_request "send data invalid", none)
    send_message (some r) =
        if r.conn_id == "" && is_empty r.users && is_empty r.tokens
        then (bad_request "send message target is nil", none)
        else (
          success,
          some (record {
            message_type = text_message;
            message = r.payload;
            conn_id = r.conn_id;
            tokens = map md5 r.tokens;
            users = r.users;
            users_access_type = r.users_access_type;
          }),
        )

    abbrev pub HasTarget : WriteMessage J → Type 0
    HasTarget m = (m.conn_id ≢ "") ⊎ ((is_empty m.users ≡ false) ⊎ (is_empty m.tokens ≡ false))

    -- `SendMessage` hands on a message only with a target, so no request reaches every connection.
    pub send_message-HasTarget :
        (body : Option (SendRequest J)) (m : WriteMessage J)
        → (send_message body).1 ≡ some m
        → HasTarget m
    unfolding send_message
    send_message-HasTarget none m h = cc
    send_message-HasTarget (some r) m h = ground (arith, is_empty-map r.tokens)

-- `RequireHeader` from the request to the values that the connection carries. `headers` is `none`
-- for a nil map, the ids are those of `uuid.New`, and a missing header reads as "".
abbrev header : String → Dict String String → String
header name headers = elim (lookup name headers) [ none ↦ "" | some v ↦ v ]

pub data Access : Type 0 where
  upgrade_required bad_headers : Access
  granted : Conn → Access

unfoldable pub require_header :
    (String → String) → Bool → String → Option (Dict String String) → String → String → Access
require_header md5 upgrade auth_token headers fresh_token fresh_id =
    if not upgrade
    then upgrade_required
    else (let public = auth_token == "" in
        let token = if public then fresh_token else auth_token in
        elim headers [
          | none ↦ bad_headers
          | some hs ↦ granted (record {
            user = header "X-Bfl-User" hs;
            conn_id = fresh_id;
            token = md5 token;
            token_original = token;
            user_agent = header "User-Agent" hs;
            cookie = header "Cookie" hs;
            access_public = public;
            expired = none;
          })
        ])

-- Who comes without the cookie is public and gets the fresh token; who comes with it is private and
-- keeps it. The connection carries the digest of the token it was given, and no other is granted.
pub require_header-access :
    (md5 : String → String) (upgrade : Bool) (auth_token : String)
    (headers : Option (Dict String String)) (fresh_token fresh_id : String) (k : Conn)
    → require_header md5 upgrade auth_token headers fresh_token fresh_id ≡ granted k
    → (upgrade ≡ true)
      × (k.conn_id ≡ fresh_id)
      × (k.token ≡ md5 k.token_original)
      × (((auth_token ≡ "") × (k.access_public ≡ true) × (k.token_original ≡ fresh_token))
          ⊎ ((auth_token ≢ "") × (k.access_public ≡ false) × (k.token_original ≡ auth_token)))
unfolding require_header
require_header-access md5 upgrade auth_token headers fresh_token fresh_id k h = ground arith

-- `setLocals` stores the time of the connection.
abbrev pub set_locals : ℕ → Conn → Conn
set_locals now k = record k { expired = some now }

-- `Server.List`: the entries of one user, private and public.
pub record Listed : Type 0 where
  pub id : String
  pub token : String
  pub user_agent : String
  pub user_agent_tag : String

pub record ListedUser : Type 0 where
  pub name : String
  pub conns : List Listed
  pub conns_number : ℕ
  pub public_conns : List Listed
  pub public_conns_number : ℕ

-- `Client.md5`: no digest of nothing.
abbrev agent_tag : (String → String) → String → String
agent_tag md5 agent = if agent == "" then "" else md5 agent

abbrev listed : (String → String) → Conn → Listed
listed md5 k = record {
  id = k.conn_id;
  token = k.token_original;
  user_agent = k.user_agent;
  user_agent_tag = agent_tag md5 k.user_agent;
}

-- A client without a connection makes `getAccessLevel` panic.
unfoldable pub split_conns :
    (String → String) → Dict String Client → Option (List Listed × List Listed)
split_conns md5 [] = some ([], [])
split_conns md5 ((id, c) ∷ conns) = do
  k ← c.conn
  (privates, publics) ← split_conns md5 conns
  some (
      if k.access_public
      then (privates, listed md5 k ∷ publics)
      else (listed md5 k ∷ privates, publics))

unfoldable pub list_users : (String → String) → Dict String User → Option (List ListedUser)
list_users md5 [] = some []
list_users md5 ((name, u) ∷ users) = do
  (privates, publics) ← split_conns md5 u.conns
  more ← list_users md5 users
  some (
      record {
        name = u.name;
        conns = privates;
        conns_number = length privates;
        public_conns = publics;
        public_conns_number = length publics;
      }
      ∷ more)

-- The connections of a table, and those of a listing.
pub count_conns : Dict String User → ℕ
count_conns [] = 0
count_conns ((name, u) ∷ users) = length u.conns + count_conns users

pub count_listed : List ListedUser → ℕ
count_listed [] = 0
count_listed (l ∷ ls) = l.conns_number + l.public_conns_number + count_listed ls

length-split_conns :
    (md5 : String → String) (conns : Dict String Client) (ps qs : List Listed)
    → split_conns md5 conns ≡ some (ps, qs)
    → length ps + length qs ≡ length conns
unfolding split_conns
length-split_conns md5 [] ps qs h = ground arith
length-split_conns md5 ((id, c) ∷ conns) ps qs h =
    let (k, e, h') = >>=-eq-some c.conn _ h in
    let ((ps', qs'), e', h'') = >>=-eq-some (split_conns md5 conns) _ h' in
    ground (arith, length-split_conns md5 conns ps' qs' e')

-- A listing has one entry for each user, and its two numbers add up to the connections of the table.
pub list_users_counts :
    (md5 : String → String) (users : Dict String User) (ls : List ListedUser)
    → list_users md5 users ≡ some ls
    → (length ls ≡ length users) × (count_listed ls ≡ count_conns users)
unfolding list_users count_listed count_conns
list_users_counts md5 [] ls h = ground arith
list_users_counts md5 ((name, u) ∷ users) ls h =
    let ((ps, qs), e, h') = >>=-eq-some (split_conns md5 u.conns) _ h in
    let (more, e', h'') = >>=-eq-some (list_users md5 users) _ h' in
    ground (arith, length-split_conns md5 u.conns ps qs e, list_users_counts md5 users more e')

-- `handleWebSocketMessage`: the request that it sends to the application, if a path is configured.
pub record Post (J : Type 0) : Type 0 where
  pub url : String
  pub cookie : String
  pub body : ReadMessage J

unfoldable pub handle_message : {J : Type 0} → String → ReadMessage J → Option (Post J)
handle_message app_path m =
    if app_path == "" then none else some (record { url = app_path; cookie = m.cookie; body = m })

-- `getEnvAppInfo`: the path from the two environment variables; it stays empty unless both are set.
unfoldable pub env_app_path : String → String → String
env_app_path port url =
    if port == "" then "" else if url == "" then "" else "http://127.0.0.1:" <> port <> url

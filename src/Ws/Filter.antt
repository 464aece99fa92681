-- ===== src/Ws/Filter.antt =====
-- pkg/ws/filters.go. A panic of `NewFilter` on a client without a connection is `none`.

use tapr.Base.{
  ℕ, ltb, ◌-◌, String, Bool, true, false, Option, none, some, List, [], ◌∷◌, ◌++◌, if◌then◌else◌,
  ◌==◌, contains, string_eq, nat_eq, is_empty, filter,
}
use tapr.Base.Dict.{Dict}
use tapr.Base.Panic.{◌>>=◌}
use tapr.Ws.Types.{Client, Conn, User, expiration_duration}

pub record Fields : Type 0 where
  pub user : String
  pub token : String
  pub conn_id : String
  pub public : String
  pub client : Client

-- `fmt.Sprintf("%v", public)`
abbrev pub bool_text : Bool → String
bool_text true = "true"
bool_text false = "false"

unfoldable pub fields_of_conns : String → Dict String Client → Option (List Fields)
fields_of_conns user [] = some []
fields_of_conns user ((id, c) ∷ conns) = do
  k ← c.conn
  more ← fields_of_conns user conns
  some (
      record {
        user = user;
        token = k.token;
        conn_id = id;
        public = bool_text k.access_public;
        client = c;
      }
      ∷ more)

unfoldable pub new_filter : Dict String User → Option (List Fields)
new_filter [] = some []
new_filter ((name, u) ∷ users) = do
  fs ← fields_of_conns name u.conns
  more ← new_filter users
  some (fs ++ more)

-- `Result`: the connection ids as a set.
unfoldable pub result : List Fields → List String
result [] = []
result (d ∷ ds) = let rest = result ds in if contains rest d.conn_id then rest else d.conn_id ∷ rest

-- An empty list clears the selection.
unfoldable pub filter_by : List String → (Fields → String) → List Fields → List Fields
unfolding filter
filter_by list value ds = if is_empty list then [] else filter (λ d. contains list (value d)) ds

abbrev pub filter_by_users : List String → List Fields → List Fields
filter_by_users users = filter_by users (λ d. d.user)

abbrev pub filter_by_publics_only : List Fields → List Fields
filter_by_publics_only = filter_by ("true" ∷ []) (λ d. d.public)

abbrev pub filter_by_privates_only : List Fields → List Fields
filter_by_privates_only = filter_by ("false" ∷ []) (λ d. d.public)

abbrev pub filter_by_tokens : List String → List Fields → List Fields
filter_by_tokens tokens = filter_by tokens (λ d. d.token)

abbrev pub filter_by_conn_ids : List String → List Fields → List Fields
filter_by_conn_ids ids = filter_by ids (λ d. d.conn_id)

-- `Client.isExpired` at the Unix time `now`. Where the stored time lies in the future the difference
-- is negative in Go and 0 here: not above the limit either way.
unfoldable pub is_expired : ℕ → Conn → Bool
is_expired now k = elim k.expired [
  | none ↦ true
  | some t ↦ if t == 0 then true else ltb expiration_duration (now - t)
]

abbrev pub client_expired : ℕ → Client → Bool
client_expired now c = elim c.conn [ none ↦ true | some k ↦ is_expired now k ]

unfoldable pub filter_by_expired : ℕ → List Fields → List Fields
unfolding filter
filter_by_expired now ds = filter (λ d. client_expired now d.client) ds

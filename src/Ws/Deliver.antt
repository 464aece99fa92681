-- ===== src/Ws/Deliver.antt =====
-- `routineWrite` and `checkExpired` of pkg/ws/server.go: who gets a message, and what expires.
use mathlib.Core.Bool.{and-true}
use tapr.Base.{
  ℕ, String, Bool, true, false, Option, none, some, List, [], ◌∷◌, ◌≡◌, refl, ◌∙◌, ◌&&◌, ◌||◌,
  if◌then◌else◌, ◌==◌, contains, string_eq, is_empty, arith, any, any-append, map, All, any-filter,
}
use tapr.Base.Dict.{Dict, lookup}
use tapr.Ws.Types.{CloseMessage, WriteMessage, Client, Conn, User, lookup_conn}
use tapr.Ws.Filter.{Fields, new_filter, result, filter_by_expired, is_expired, client_expired}
use tapr.Ws.Server.{
  select_fields, write_each, write_all, write_targets, write_message, check_expired,
}
use tapr.Ws.Select.{selects, any-new_filter, contains-result}
use tapr.Ws.Table.{IsValid}
use tapr.Ws.Close.{IsUnique, new_filter_total, any_conn_unique, contains-chosen}

abbrev is_some {ℓ} : {A : Type ℓ} → Option A → Bool
is_some none = false
is_some (some a) = true

abbrev to : String → String × Client → Bool
to id (i, c) = id == i

any-write_each :
    (id : String) (ids : List String) (conns : Dict String Client)
    → any (to id) (write_each ids conns) ≡ (contains ids id && is_some (lookup id conns))
unfolding any write_each
any-write_each id [] conns = refl
any-write_each id (i ∷ ids) conns = ground (arith, any-write_each id ids conns)

-- Some user holds a connection under the id.
held : String → Dict String User → Bool
held id [] = false
held id ((name, u) ∷ users) = is_some (lookup id u.conns) || held id users

held_found :
    (u id : String) (c : Client) (users : Dict String User)
    → lookup_conn u id users ≡ some c
    → held id users ≡ true
unfolding held lookup
held_found u id c [] found = cc
held_found u id c ((name, w) ∷ users) found = ground (arith, held_found u id c users)

any-write_all :
    (id : String) (ids : List String) (users : Dict String User)
    → any (to id) (write_all ids users) ≡ (contains ids id && held id users)
unfolding write_all held any
any-write_all id ids [] = ground arith
any-write_all id ids ((name, w) ∷ users) = ground (
  arith,
  any-append (to id) (write_each ids w.conns) (write_all ids users),
  any-write_each id ids w.conns,
  any-write_all id ids users,
)

any_sent :
    (id text : String) (ws : List (String × Client))
    → any (λ (i, c, t). id == i) (map (λ (i, c). (i, c, text)) ws) ≡ any (to id) ws
unfolding any
any_sent id text [] = refl
any_sent id text (w ∷ ws) = ground (arith, any_sent id text ws)

abbrev pub ids_of : String → List String
ids_of id = if id == "" then [] else id ∷ []

-- On a well-formed table whose ids are unique, a round of `routineWrite` whose payload can be encoded
-- does not panic, and it writes to a connection exactly if the message selects it.
pub write_message-selects :
    {J : Type 0} (marshal : J → Option String) (m : WriteMessage J) (users : Dict String User)
    (text : String)
    → IsValid users
    → IsUnique users
    → marshal m.message ≡ some text
    → (out : List (String × Client × String)) × (write_message marshal m users ≡ some out)
      × ((u id : String) (k : Conn)
          → lookup_conn u id users ≡ some (record { conn = some k })
          → any (λ (i, c, t). id == i) out
            ≡ selects m.users m.users_access_type m.tokens (ids_of m.conn_id) u id k)
unfolding write_message write_targets
write_message-selects marshal m users text v unique encoded =
    let (fs, e) = new_filter_total users v.each in
    let ids : List String =
      result (select_fields m.users m.users_access_type m.tokens (ids_of m.conn_id) fs) in
    (
      map (λ (i, c). (i, c, text)) (write_all ids users),
      rw (encoded, e, write_message),
      λ u id k found.
          any_sent id text (write_all ids users)
          ∙ any-write_all id ids users
          ∙ rw (held_found u id _ users found) (and-true _)
          ∙ contains-chosen m.users m.users_access_type m.tokens (ids_of m.conn_id) users fs u id k
              v unique e found,
    )

contains-expired :
    (now : ℕ) (users : Dict String User) (fs : List Fields) (u id : String) (k : Conn)
    → IsValid users
    → IsUnique users
    → new_filter users ≡ some fs
    → lookup_conn u id users ≡ some (record { conn = some k })
    → contains (result (filter_by_expired now fs)) id ≡ is_expired now k
unfolding filter_by_expired
contains-expired now users fs u id k v unique e found =
    contains-result id _
    ∙ any-filter (λ d. id == d.conn_id) (λ d. client_expired now d.client) fs
    ∙ any-new_filter _ users fs e
    ∙ any_conn_unique (λ w i l. is_expired now l) users u id k v unique found

-- The messages of one round of `checkExpired`.
abbrev batch : List String → List CloseMessage
batch ids =
    if is_empty ids
    then []
    else record { conn_ids = ids; tokens = []; users = []; users_access_type = 0 } ∷ []

batch_nonempty : (ids : List String) → All (λ m. is_empty m.conn_ids ≡ false) (batch ids)
batch_nonempty [] = tt
batch_nonempty (i ∷ ids) = (refl, tt)

batch-selects :
    (u id : String) (k : Conn) (ids : List String)
    → any (λ m. selects m.users m.users_access_type m.tokens m.conn_ids u id k) (batch ids)
      ≡ contains ids id
unfolding any selects
batch-selects u id k [] = refl
batch-selects u id k (i ∷ ids) = ground arith

-- On a well-formed table whose ids are unique a round of `checkExpired` does not panic. It puts no
-- message without ids on the close queue (such a one would close every connection), and its messages
-- select exactly the connections that have expired.
pub check_expired-selects :
    (now : ℕ) (users : Dict String User)
    → IsValid users
    → IsUnique users
    → (out : List CloseMessage) × (check_expired now users ≡ some out)
      × All (λ m. is_empty m.conn_ids ≡ false) out
      × ((u id : String) (k : Conn)
          → lookup_conn u id users ≡ some (record { conn = some k })
          → any (λ m. selects m.users m.users_access_type m.tokens m.conn_ids u id k) out
            ≡ is_expired now k)
unfolding check_expired
check_expired-selects now users v unique =
    let (fs, e) = new_filter_total users v.each in
    let ids : List String = result (filter_by_expired now fs) in
    (
      batch ids,
      rw (e, check_expired),
      batch_nonempty ids,
      λ u id k found.
          batch-selects u id k ids ∙ contains-expired now users fs u id k v unique e found,
    )

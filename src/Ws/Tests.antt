-- ===== src/Ws/Tests.antt =====
-- The gateway on small inputs: two users, one with a public connection.
use tapr.Base.{
  ℕ, String, Bool, true, false, Option, none, some, List, [], ◌∷◌, ◌++◌, ◌≡◌, refl, ◌&&◌, ◌||◌, not,
  if◌then◌else◌, ◌==◌, contains, string_eq, nat_eq, is_empty, arith, any, All, length, ◌≤◌, ◌≢◌,
  ◌⊎◌,
}
use tapr.Base.Dict.{Dict, lookup, insert, keys}
use tapr.Ws.Types.{CloseMessage, WriteMessage, Client, Conn, User, lookup_conn}
use tapr.Ws.Filter.{Fields, new_filter, fields_of_conns, is_expired}
use tapr.Ws.Server.{add_client, close_conns, write_message, check_expired, remove_conns}
use tapr.Ws.Select.{selects}
use tapr.Ws.Table.{IsValid}
use tapr.Ws.Close.{IsUnique, close_conns-selects}
use tapr.Ws.Deliver.{ids_of, write_message-selects, check_expired-selects}
use tapr.Ws.Loop.{State, Step, connect, Reach, here, next, init}
use tapr.Ws.Loop.Safety.{Inv, Reach-Inv, init-Inv, Reach-safe}
use tapr.Ws.Session.{
  Event, failed, frame, Json, session, actions, told, action_open, actions-session,
}
use tapr.Ws.Gateway.{
  SendRequest, send_message, HasTarget, send_message-HasTarget, Access, granted, require_header,
  require_header-access, ListedUser, list_users, count_listed, count_conns, list_users_counts,
}

abbrev alice : Conn
alice = record {
  user = "alice";
  conn_id = "c1";
  token = "t1";
  token_original = "o1";
  user_agent = "";
  cookie = "";
  access_public = false;
  expired = some 10;
}

abbrev bob : Conn
bob = record {
  user = "bob";
  conn_id = "c2";
  token = "t2";
  token_original = "o2";
  user_agent = "";
  cookie = "";
  access_public = true;
  expired = some 90;
}

abbrev client : Conn → Client
client k = record { conn = some k }

abbrev entry : Conn → String × User
entry k = (k.user, record { name = k.user; conns = (k.conn_id, client k) ∷ [] })

abbrev one : Dict String User
one = entry alice ∷ []

abbrev two : Dict String User
two = entry alice ∷ entry bob ∷ []

abbrev at : Dict String User → State ℕ
at users = record { server = record init.server { users = users }; closing = none }

absent_alice : (u : String) → lookup_conn u "c1" [] ≡ none
unfolding lookup
absent_alice u = refl

differ : (◌==◌ {A = String} "c2" "c1") ≡ false
unfolding string_eq
differ = refl

absent_bob : (u : String) → lookup_conn u "c2" one ≡ none
unfolding lookup
absent_bob u = ground (arith, differ)

connect_alice : Step init (at one)
unfolding add_client lookup insert
connect_alice = connect alice absent_alice refl

connect_bob : Step (at one) (at two)
unfolding add_client lookup insert string_eq
connect_bob = connect bob absent_bob refl

run : Reach init (at two)
run = next (next here connect_alice) connect_bob

two-Inv : Inv (at two)
two-Inv = Reach-Inv init-Inv run

two-IsValid : IsValid two
two-IsValid = two-Inv.valid

two-IsUnique : IsUnique two
two-IsUnique = two-Inv.unique

abbrev close_alice : CloseMessage
close_alice = record { conn_ids = []; tokens = "t1" ∷ []; users = []; users_access_type = 0 }

abbrev to_bob : WriteMessage ℕ
to_bob = record {
  message_type = 1;
  message = 7;
  conn_id = "";
  tokens = [];
  users = "bob" ∷ [];
  users_access_type = 2;
}

abbrev marshal : ℕ → Option String
marshal n = some "7"

close_left : close_conns close_alice two ≡ some (entry bob ∷ [], client alice ∷ [])
unfolding close_conns string_eq tapr.Ws.Server.close_targets new_filter fields_of_conns
    tapr.Ws.Filter.result tapr.Ws.Server.select_fields tapr.Ws.Filter.filter_by remove_conns
    tapr.Ws.Server.erase_all tapr.Ws.Server.sweep tapr.Ws.Server.close_each lookup
    tapr.Base.Dict.erase
close_left = refl

written : write_message marshal to_bob two ≡ some (("c2", client bob, "7") ∷ [])
unfolding write_message string_eq tapr.Ws.Server.write_targets new_filter fields_of_conns
    tapr.Ws.Server.write_all tapr.Ws.Server.write_each tapr.Ws.Filter.result
    tapr.Ws.Server.select_fields nat_eq tapr.Ws.Filter.filter_by lookup
written = refl

expired_alice :
    check_expired 60 two
    ≡ some (record { conn_ids = "c1" ∷ []; tokens = []; users = []; users_access_type = 0 } ∷ [])
unfolding check_expired string_eq new_filter fields_of_conns tapr.Ws.Filter.result
    tapr.Ws.Filter.filter_by_expired is_expired nat_eq
expired_alice = refl

-- A close message without any criterion closes every connection.
close_all :
    close_conns (record { conn_ids = []; tokens = []; users = []; users_access_type = 0 }) two
    ≡ some ([], client alice ∷ client bob ∷ [])
unfolding close_conns string_eq tapr.Ws.Server.close_targets new_filter fields_of_conns
    tapr.Ws.Filter.result tapr.Ws.Server.select_fields remove_conns tapr.Ws.Server.erase_all
    tapr.Ws.Server.sweep tapr.Ws.Server.close_each lookup tapr.Base.Dict.erase
close_all = refl

close_conns-selects_example :
    (users' : Dict String User) × (closed : List Client) × (close_conns close_alice two
      ≡ some (users', closed))
    × IsValid users'
    × ((u id : String) (k : Conn)
        → lookup_conn u id two ≡ some (record { conn = some k })
        → lookup_conn u id users'
          ≡ (if selects [] 0 ("t1" ∷ []) [] u id k then none else some (record { conn = some k })))
    × ((u id : String) → lookup_conn u id two ≡ none → lookup_conn u id users' ≡ none)
close_conns-selects_example = close_conns-selects close_alice two two-IsValid two-IsUnique

Reach-safe_example : Inv (at two) × ((fs : List Fields) × (new_filter two ≡ some fs))
Reach-safe_example = Reach-safe run

write_message-selects_example :
    (out : List (String × Client × String)) × (write_message marshal to_bob two ≡ some out)
    × ((u id : String) (k : Conn)
        → lookup_conn u id two ≡ some (record { conn = some k })
        → any (λ (i, c, t). id == i) out ≡ selects ("bob" ∷ []) 2 [] (ids_of "") u id k)
write_message-selects_example =
    write_message-selects marshal to_bob two "7" two-IsValid two-IsUnique refl

check_expired-selects_example :
    (out : List CloseMessage) × (check_expired 60 two ≡ some out)
    × All (λ m. is_empty m.conn_ids ≡ false) out
    × ((u id : String) (k : Conn)
        → lookup_conn u id two ≡ some (record { conn = some k })
        → any (λ m. selects m.users m.users_access_type m.tokens m.conn_ids u id k) out
          ≡ is_expired 60 k)
check_expired-selects_example = check_expired-selects 60 two two-IsValid two-IsUnique

-- Payloads are texts; the text "p" is a ping.
abbrev json : Json String
json = record {
  decode = λ s. some s;
  filled = λ s. s;
  event = λ s. if s == "p" then some "ping" else none;
  empty = "";
}

abbrev events : List Event
events = frame "p" ∷ frame "hello" ∷ failed ∷ frame "late" ∷ []

told_events : actions (session json alice events) ≡ "open" ∷ "message" ∷ "close" ∷ []
unfolding session string_eq actions
told_events = refl

actions-session_example : actions (session json alice events) ≡ action_open ∷ told json events
actions-session_example = actions-session json alice events

abbrev digest : String → String
digest s = s

abbrev request : SendRequest ℕ
request = record {
  payload = 7;
  users = "bob" ∷ [];
  users_access_type = 2;
  tokens = [];
  conn_id = "";
}

sent : (send_message digest (some request)).1 ≡ some to_bob
unfolding send_message string_eq
sent = refl

abbrev visitor : Conn
visitor = record {
  user = "bob";
  conn_id = "c9";
  token = "fresh";
  token_original = "fresh";
  user_agent = "";
  cookie = "";
  access_public = true;
  expired = none;
}

abbrev blank : String
blank = ""

abbrev headers : Dict String String
headers = ("X-Bfl-User", "bob") ∷ []

admitted : require_header digest true "" (some headers) "fresh" "c9" ≡ granted visitor
unfolding require_header string_eq lookup
admitted = refl

abbrev listing : List ListedUser
listing =
    record {
      name = "alice";
      conns = record { id = "c1"; token = "o1"; user_agent = ""; user_agent_tag = "" } ∷ [];
      conns_number = 1;
      public_conns = [];
      public_conns_number = 0;
    }
    ∷ []

listed_one : list_users digest one ≡ some listing
unfolding list_users string_eq tapr.Ws.Gateway.split_conns
listed_one = refl

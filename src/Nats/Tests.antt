-- ===== src/Nats/Tests.antt =====
-- The NATS model on small inputs.
use tapr.Base.{
  ℕ, String, Bool, true, false, Option, none, some, List, [], ◌∷◌, ◌++◌, ◌≡◌, refl, ◌||◌, ◌&&◌, not,
  if◌then◌else◌, ◌==◌, contains, string_eq, nat_eq, is_empty, All, filter, ◌<>◌,
}
use tapr.Nats.Types.{User, Permission, Request}
use tapr.Nats.Names.{
  owner_of_ns, owner_of_ns-append, NoDash, make_real_ref_name, make_real_subject_name,
}
use tapr.Nats.Users.{
  find_user, NodupNames, upsert_user, delete_user, find_user-upsert_user, upsert_user-NodupNames,
}
use tapr.Nats.Users.Delete.{delete_user-filter}
use tapr.Nats.Access.{subscribe, Lists, get_allow}
use tapr.Nats.Access.Exports.{exported}
use tapr.Nats.Access.Laws.{perms, defaults, asked, is_own, get_allow-grants}
use tapr.Nats.Types.{Config}
use tapr.Nats.Access.{create_or_update_user}
use tapr.Nats.Access.Stored.{entry_of, create_or_update_user-entry}

abbrev user : String → User
user name = record { username = name; password = "p"; publish_allow = []; subscribe_allow = [] }

abbrev three : List User
three = user "a" ∷ user "b" ∷ user "c" ∷ []

three-NodupNames : NodupNames three
unfolding string_eq find_user
three-NodupNames = (refl, (refl, (refl, tt)))

deleted : delete_user "b" three ≡ some (user "a" ∷ user "c" ∷ [])
unfolding string_eq delete_user tapr.Nats.Users.delete_loop
deleted = refl

-- With a name twice in a row, the second one is passed over.
deleted_twice :
    delete_user "b" (user "b" ∷ user "b" ∷ user "c" ∷ []) ≡ some (user "b" ∷ user "c" ∷ [])
unfolding string_eq delete_user tapr.Nats.Users.delete_loop
deleted_twice = refl

delete_user-filter_example :
    delete_user "b" three ≡ some (filter (λ u. not (u.username == "b")) three)
delete_user-filter_example = delete_user-filter "b" three three-NodupNames

abbrev none_given : Permission
none_given = record { app_name = ""; pub_perm = ""; sub_perm = "" }

abbrev provider : Request
provider = record {
  namespace = "user-system-bob";
  app = "files";
  app_namespace = "user-space-bob";
  middleware = "nats";
  user = "files";
  subjects =
      record {
        name = "changes";
        permission = record { app_name = ""; pub_perm = "allow"; sub_perm = "" };
        exports = record { app_name = "search"; pub_perm = "deny"; sub_perm = "allow" } ∷ [];
      }
      ∷ [];
  refs = [];
}

abbrev client : Request
client = record {
  namespace = "user-system-bob";
  app = "search";
  app_namespace = "user-space-bob";
  middleware = "nats";
  user = "search";
  subjects = [];
  refs =
      record {
        app_name = "files";
        app_namespace = "user-space-x";
        subjects = record { name = "changes"; perm = "sub" ∷ [] } ∷ [];
      }
      ∷ [];
}

abbrev cluster : List Request
cluster = provider ∷ client ∷ []

abbrev client_lists : Lists
client_lists = record {
  pubs = [];
  subs =
      "user-space-bob.changes" ∷ "$JS.API.STREAM.NAMES" ∷ "$JS.API.CONSUMER.CREATE.>" ∷ "_INBOX.>"
      ∷ "$SYS.ACCOUNT.*.CONNECT" ∷ "$SYS.ACCOUNT.*.DISCONNECT" ∷ "$JS.FC.>" ∷ "$SYS._INBOX_.>"
      ∷ "$SYS.SERVER.*.CLIENT.AUTH.ERR" ∷ "$SYS.REQ.SERVER.PING.>" ∷ [];
}

computed : get_allow (some cluster) client ≡ some client_lists
unfolding string_eq get_allow tapr.Base.Dict.lookup tapr.Base.Dict.insert make_real_ref_name
    owner_of_ns tapr.Base.nat_eq make_real_subject_name
computed = refl

get_allow-grants_example :
    ((n : String)
      → contains (perms subscribe client_lists) n ≡ (
          is_own subscribe client n
          || contains (asked subscribe (owner_of_ns client.namespace) client.refs) n
          || (not (is_empty (perms subscribe client_lists)) && contains (defaults subscribe) n)))
    × All
        (λ n. exported subscribe client.app n cluster ≡ true)
        (asked subscribe (owner_of_ns client.namespace) client.refs)
get_allow-grants_example = get_allow-grants cluster client client_lists subscribe computed

bob-NoDash : NoDash "bob"
unfolding nat_eq
bob-NoDash = (refl, (refl, (refl, tt)))

owner_of_bob : owner_of_ns ("user-space" <> ("-" <> "bob")) ≡ "bob"
owner_of_bob = owner_of_ns-append "user-space" "bob" bob-NoDash

abbrev config : Config
config = record {
  http_port = 8222;
  max_file_store = 1;
  max_memory_store = 1;
  store_dir = "/data";
  users = three;
  port = 4222;
  pid_file = "/pid";
  server_name = "nats";
}

abbrev encrypt : String → Option String
encrypt s = some ("x" <> s)

abbrev stored : Config
stored = record config {
  users = user "a" ∷ user "b" ∷ user "c" ∷ entry_of client "xpw" client_lists ∷ [];
}

stores : create_or_update_user encrypt (some cluster) (some config) client "pw" ≡ some stored
unfolding string_eq create_or_update_user get_allow tapr.Base.Dict.lookup tapr.Base.Dict.insert
    make_real_ref_name owner_of_ns nat_eq make_real_subject_name upsert_user
    tapr.Nats.Users.replace_user tapr.Nats.Users.has_user
stores = refl

create_or_update_user-entry_example :
    (encrypted : String) × (l : Lists) × (encrypt "pw" ≡ some encrypted)
    × (get_allow (some cluster) client ≡ some l)
    × ((name : String)
        → find_user name stored.users ≡ (
            if name == client.user
            then some (entry_of client encrypted l)
            else find_user name three))
create_or_update_user-entry_example =
    create_or_update_user-entry encrypt (some cluster) config stored client "pw" stores

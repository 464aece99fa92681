-- ===== src/Nats/Access/Stored.antt =====
-- What `createOrUpdateUser` of pkg/workload/nats/helper.go leaves in the configuration.
use mathlib.Core.Option.{some-injective}
use tapr.Base.{String, Option, some, List, ◌≡◌, if◌then◌else◌, ◌==◌, string_eq}
use tapr.Base.Panic.{>>=-eq-some}
use tapr.Nats.Types.{User, Config, Request}
use tapr.Nats.Users.{find_user, find_user-upsert_user}
use tapr.Nats.Access.{Lists, get_allow, create_or_update_user}

abbrev pub entry_of : Request → String → Lists → User
entry_of r encrypted l = record {
  username = r.user;
  password = encrypted;
  publish_allow = l.pubs;
  subscribe_allow = l.subs;
}

-- If `createOrUpdateUser` succeeds, the password could be encrypted and the permissions computed; the
-- user's entry has exactly these, and every other name has the entry that it had.
pub create_or_update_user-entry :
    (encrypt : String → Option String) (requests : Option (List Request)) (c c' : Config)
    (r : Request) (password : String)
    → create_or_update_user encrypt requests (some c) r password ≡ some c'
    → (encrypted : String) × (l : Lists) × (encrypt password ≡ some encrypted)
      × (get_allow requests r ≡ some l)
      × ((name : String)
          → find_user name c'.users
            ≡ (if name == r.user then some (entry_of r encrypted l) else find_user name c.users))
unfolding create_or_update_user
create_or_update_user-entry encrypt requests c c' r password h =
    let (encrypted, e, h') = >>=-eq-some (encrypt password) _ h in
    let (l, e', h'') = >>=-eq-some (get_allow requests r) _ h' in
    (
      encrypted,
      l,
      e,
      e',
      λ name.
          rw (← some-injective _ _ h'')
            (find_user-upsert_user name (entry_of r encrypted l) c.users),
    )

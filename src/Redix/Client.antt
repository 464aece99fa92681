-- ===== src/Redix/Client.antt =====
-- `kvrClient` of pkg/workload/kvrocks/helper.go. A namespace of KVRocks has a name and a token, by which
-- its clients authenticate.
use tapr.Base.{String, Option, none, some, List, [], ◌∷◌, if◌then◌else◌, ◌==◌, string_eq}
use tapr.Base.Effect.{failure, Eff, ◌>>=◌, pure, fail}

-- The driver: a command with its reply, `none` where that is nil, and `CONFIG REWRITE`.
pub record KvDriver (W : Type 0) : Type 0 where
  pub command : List String → Eff W (Option (List String))
  pub config_rewrite : Eff W (Unit {0})
  pub cmd_string : List String → List String → String

pub record KvNamespace : Type 0 where
  pub name : String
  pub token : String

abbrev pub add_of : String → String → List String
add_of name token = "namespace" ∷ "add" ∷ name ∷ token ∷ []

abbrev pub set_of : String → String → List String
set_of name token = "namespace" ∷ "set" ∷ name ∷ token ∷ []

abbrev pub get_of : String → List String
get_of name = "namespace" ∷ "get" ∷ name ∷ []

abbrev pub del_of : String → List String
del_of name = "namespace" ∷ "del" ∷ name ∷ []

abbrev pub cons_namespace : KvNamespace → Option (List KvNamespace) → Option (List KvNamespace)
cons_namespace n none = none
cons_namespace n (some ns) = some (n ∷ ns)

-- The reply to `get *` in pairs, but the default namespace. A name without a token is a panic, which
-- ends the call.
unfoldable pub pairs_of : List String → Option (List KvNamespace)
pairs_of [] = some []
pairs_of (n ∷ []) = if n == "__namespace" then some [] else none
pairs_of (n ∷ t ∷ more) =
    let rest = pairs_of more in
    if n == "__namespace" then rest else cons_namespace (record { name = n; token = t }) rest

module _ {W : Type 0} where
  abbrev pub is_reply : Option (List String) → Eff W (Unit {0})
  is_reply none = fail (failure "redis: nil")
  is_reply (some values) = pure tt

  abbrev pub all_pairs : Option (List KvNamespace) → Eff W (List KvNamespace)
  all_pairs none = fail (failure "index out of range")
  all_pairs (some ns) = pure ns

  abbrev pub from_listing : Option (List String) → Eff W (List KvNamespace)
  from_listing none = pure []
  from_listing (some values) = all_pairs (pairs_of values)

abbrev pub found_as : {W : Type 0} → KvDriver W → String → Option (List String) → Option KvNamespace
found_as driver name none = none
found_as driver name (some values) =
    some (record { name = name; token = driver.cmd_string (get_of name) values })

module _ {W : Type 0} (driver : KvDriver W) where
  -- `cli.Namespace(...).Err()`, for which a nil reply is an error.
  unfoldable pub checked : List String → Eff W (Unit {0})
  checked args = driver.command args >>= is_reply

  unfoldable pub rewriting : List String → Eff W (Unit {0})
  unfolding checked
  rewriting args = checked args >>= λ u. driver.config_rewrite

  unfoldable pub add_namespace : String → String → Eff W (Unit {0})
  unfolding rewriting
  add_namespace name token = rewriting (add_of name token)

  unfoldable pub update_namespace : String → String → Eff W (Unit {0})
  unfolding rewriting
  update_namespace name token = rewriting (set_of name token)

  unfoldable pub delete_namespace : String → Eff W (Unit {0})
  unfolding rewriting
  delete_namespace name = rewriting (del_of name)

  -- The token is the text of the whole command, not the value.
  unfoldable pub get_namespace : String → Eff W (Option KvNamespace)
  get_namespace name = driver.command (get_of name) >>= λ r. pure (found_as driver name r)

  unfoldable pub list_namespace : Eff W (List KvNamespace)
  unfolding pairs_of
  list_namespace = driver.command (get_of "*") >>= from_listing

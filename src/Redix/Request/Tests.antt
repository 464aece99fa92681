-- ===== src/Redix/Request/Tests.antt =====
-- A KVRocks that has room for one namespace, and the theorem at an update that renames it.
use tapr.Base.{
  ℕ, String, Bool, true, false, Option, none, some, List, [], ◌∷◌, ◌≡◌, ◌≢◌, refl, ◌⊎◌, inl, inr,
  All, if◌then◌else◌, ◌==◌, ==_refl, string_eq, Bool-cases, arith,
}
use tapr.Base.Effect.{Error, failure, Result, ok, err, Eff, Post}
use tapr.Backup.Types.{kv_rocks}
use tapr.Redix.Client.{KvNamespace, add_of, set_of, get_of, del_of, pairs_of}
use tapr.Redix.Request.{RedisRequest, RedixCluster, RedisPlatform, create_or_update_kvrocks_request}
use tapr.Redix.Request.Laws.{Table, IsKvRocks}
use tapr.Redix.Request.Put.{IsServed, IsBroken, create_or_update_kvrocks_request-IsServed}

abbrev World : Type 0
World = Option (String × String)

abbrev table : Table World
table none n = none
table (some (m, t)) n = if m == n then some t else none

abbrev KvReply : Type 0
KvReply = World × Result (Option (List String))

abbrev add : String → String → World → KvReply
add name token none = (some (name, token), ok (some ("OK" ∷ [])))
add name token (some p) = (some p, err (failure "full"))

abbrev set : String → String → World → KvReply
set name token none = (none, err (failure "not found"))
set name token (some (m, t)) =
    if m == name
    then (some (m, token), ok (some ("OK" ∷ [])))
    else (some (m, t), err (failure "not found"))

abbrev del : String → World → KvReply
del name none = (none, ok none)
del name (some (m, t)) = if m == name then (none, ok (some ("OK" ∷ []))) else (some (m, t), ok none)

abbrev list_all : World → KvReply
list_all none = (none, ok none)
list_all (some (m, t)) = (some (m, t), ok (some (m ∷ t ∷ [])))

abbrev get : String → World → KvReply
get name none = (none, ok none)
get name (some (m, t)) =
    if m == name then (some (m, t), ok (some (t ∷ []))) else (some (m, t), ok none)

abbrev command : List String → World → KvReply
command [] w = (w, err (failure "syntax error"))
command (a ∷ []) w = (w, err (failure "syntax error"))
command (a ∷ op ∷ []) w = (w, err (failure "syntax error"))
command (a ∷ op ∷ name ∷ []) w =
    if op == "get" then (if name == "*" then list_all w else get name w) else del name w
command (a ∷ op ∷ name ∷ token ∷ more) w =
    if op == "add" then add name token w else set name token w

abbrev platform : RedisPlatform World
platform = record {
  list_redix = λ namespace w. (w, ok []);
  secret = λ a b w. (w, ok []);
  connect = λ c p w. (w, ok tt);
  driver = record {
    command = command;
    config_rewrite = λ w. (w, ok tt);
    cmd_string = λ args values. "";
  };
  update_proxy_config = λ w. (w, ok tt);
}

command_get :
    (name : String) (w : World)
    → command (get_of name) w ≡ (if name == "*" then list_all w else get name w)
unfolding string_eq
command_get name w = refl

command_add : (name token : String) (w : World) → command (add_of name token) w ≡ add name token w
unfolding string_eq
command_add name token w = refl

command_set : (name token : String) (w : World) → command (set_of name token) w ≡ set name token w
unfolding string_eq
command_set name token w = refl

command_del : (name : String) (w : World) → command (del_of name) w ≡ del name w
unfolding string_eq
command_del name w = refl

list_all_quiet : (w : World) → (list_all w).0 ≡ w
list_all_quiet none = refl
list_all_quiet (some (m, t)) = refl

get_quiet : (name : String) (w : World) → (get name w).0 ≡ w
get_quiet name none = refl
get_quiet name (some (m, t)) = ground arith

get_command_quiet : (name : String) (w : World) → table (command (get_of name) w).0 ≡ table w
get_command_quiet name w = rw (command_get name w) (elim (Bool-cases (name == "*")) [
  | inl e ↦ rw e (rw (list_all_quiet w) refl)
  | inr e ↦ rw e (rw (get_quiet name w) refl)
])

set_spares :
    (name token : String) (w : World) (n : String)
    → n ≢ name
    → table (set name token w).0 n ≡ table w n
set_spares name token none n ne = refl
set_spares name token (some (m, t)) n ne = ground arith

add_spares :
    (name token : String) (w : World) (n : String)
    → n ≢ name
    → table (add name token w).0 n ≡ table w n
add_spares name token none n ne = ground arith
add_spares name token (some p) n ne = refl

del_spares :
    (name : String) (w : World) (n : String) → n ≢ name → table (del name w).0 n ≡ table w n
del_spares name none n ne = refl
del_spares name (some (m, t)) n ne = ground arith

del_removes :
    (name : String) (w : World)
    → (table (del name w).0 name ≡ table w name) ⊎ (table (del name w).0 name ≡ none)
del_removes name none = inl refl
del_removes name (some (m, t)) = elim (Bool-cases (m == name)) [
  | inl e ↦ inr (ground arith)
  | inr e ↦ inl (ground arith)
]

add_puts :
    (name token : String) (w u : World) (values : List String)
    → add name token w ≡ (u, ok (some values))
    → table u name ≡ some token
add_puts name token none u values e = ground arith
add_puts name token (some p) u values e = cc

set_puts :
    (name token : String) (w u : World) (values : List String)
    → set name token w ≡ (u, ok (some values))
    → table u name ≡ some token
set_puts name token none u values e = cc
set_puts name token (some (m, t)) u values e = ground arith

one_pair :
    (m t : String) (ns : List KvNamespace)
    → pairs_of (m ∷ t ∷ []) ≡ some ns
    → All (λ n. table (some (m, t)) n.name ≡ some n.token) ns
unfolding pairs_of
one_pair m t ns p = elim (Bool-cases (m == "__namespace")) [
  | inl e ↦ let q : ns ≡ [] = ground arith in rw q tt
  | inr e ↦
      let q : ns ≡ record { name = m; token = t } ∷ [] = ground arith in
      rw q (rw (==_refl {A = String} m) refl, tt)
]

values_of :
    (m t : String) (u : World) (values : List String)
    → list_all (some (m, t)) ≡ (u, ok (some values))
    → values ≡ m ∷ t ∷ []
values_of m t u values e = cc

listed_in :
    (w u : World) (values : List String) (ns : List KvNamespace)
    → list_all w ≡ (u, ok (some values))
    → pairs_of values ≡ some ns
    → All (λ n. table w n.name ≡ some n.token) ns
listed_in none u values ns e p = absurd (cc)
listed_in (some (m, t)) u values ns e p = one_pair m t ns (rw (values_of m t u values e) at p)

platform-IsKvRocks : IsKvRocks table platform
platform-IsKvRocks = record {
  secret_quiet = λ a b w. refl;
  connect_quiet = λ c p w. refl;
  rewrite_quiet = λ w. refl;
  get_quiet = get_command_quiet;
  list_pairs = λ w u values ns e p.
      listed_in w u values ns (rw (command_get "*" w, ==_refl {A = String} "*") at e) p;
  add_spares = λ name token w n ne. rw (command_add name token w) (add_spares name token w n ne);
  add_puts = λ name token w u values e.
      add_puts name token w u values (rw (command_add name token w) at e);
  set_spares = λ name token w n ne. rw (command_set name token w) (set_spares name token w n ne);
  set_puts = λ name token w u values e.
      set_puts name token w u values (rw (command_set name token w) at e);
  del_spares = λ name w n ne. rw (command_del name w) (del_spares name w n ne);
  del_removes = λ name w. rw (command_del name w) (del_removes name w);
}

abbrev request : RedisRequest
request = record {
  namespace = "app";
  redis_namespace = "cache";
  password = record { value = "pw"; value_from = none };
}

abbrev cluster : RedixCluster
cluster = record {
  namespace = "os-platform";
  name = "kvrocks";
  kind = kv_rocks;
  password = record { value = "root"; value_from = none };
}

-- The namespace that had the password as its token is removed.
renamed :
    create_or_update_kvrocks_request platform request cluster true (some ("old", "pw"))
    ≡ (some ("app_cache", "pw"), ok tt)
unfolding create_or_update_kvrocks_request string_eq tapr.Base.Effect.for_each
renamed = refl

create_or_update_kvrocks_request-IsServed_example :
    Post
      (λ u. IsServed table platform request true (some ("old", "pw")))
      (IsBroken table platform request true (some ("old", "pw")))
      (create_or_update_kvrocks_request platform request cluster true (some ("old", "pw")))
create_or_update_kvrocks_request-IsServed_example =
    create_or_update_kvrocks_request-IsServed table platform platform-IsKvRocks request true
      (some ("old", "pw")) cluster

-- ===== src/Postgres/Request/DeleteTests.antt =====
-- A server with databases that can only be dropped, and the clean-up of a request on it.
use Prim.Native.Char.{code}
use text.Mathlib.TextLemmas.{nil-append, cons-append}
use tapr.Base.{
  ℕ, zero, suc, nat_eq, String, ◌<>◌, Bool, true, false, Option, none, some, List, [], ◌∷◌, ◌≡◌,
  ◌≢◌, refl, sym, ap, ◌∙◌, if◌then◌else◌, ◌==◌, ◌&&◌, ◌||◌, string_eq, ==_refl, arith, All,
  Bool-cases, inl, inr,
}
use tapr.Base.Effect.{Error, failure, Result, ok, err, Eff}
use tapr.Postgres.Client.{
  Connection, Statement, create_role, alter_role, limit_role, grant_files, drop_role,
  create_database, drop_database, terminate_backend, create_extension, create_citus, text_of,
  find_database_text, list_owned_text, is_first,
}
use tapr.Postgres.Request.{Database, PgRequest, Platform, real_name, delete_database_if_not_exists}
use tapr.Postgres.Request.Laws.{View, IsPostgres, Spares}
use tapr.Postgres.Request.Delete.{IsRequested, delete_database_if_not_exists-keeps}

-- The databases, each with its node.
abbrev World : Type 0
World = List (String × String)

abbrev is_there : World → String → String → Bool
is_there [] h d = false
is_there ((a, b) ∷ w) h d = (a == h && b == d) || is_there w h d

abbrev remove : World → String → String → World
remove [] h d = []
remove ((a, b) ∷ w) h d =
    let rest = remove w h d in if a == h && b == d then rest else (a, b) ∷ rest

abbrev names_at : World → String → List String
names_at [] h = []
names_at ((a, b) ∷ w) h = let rest = names_at w h in if a == h then b ∷ rest else rest

abbrev code_at : ℕ → String → ℕ
code_at k String.[] = 0
code_at zero (String.◌∷◌ c s) = code c
code_at (suc k) (String.◌∷◌ c s) = code_at k s

abbrev after : ℕ → String → String
after zero s = s
after (suc k) String.[] = ""
after (suc k) (String.◌∷◌ c s) = after k s

-- A database is dropped by the name that follows `drop database if exists `; all else fails.
abbrev exec : Connection → String → Eff World (Unit {0})
exec c t w =
    if code_at 5 t == 100
    then (remove w c.host (after 24 t), ok tt)
    else (w, err (failure "cannot execute in a read-only transaction"))

abbrev platform : Platform World
platform = record {
  find_sts = λ a b w. (w, ok (record { name = "citus"; namespace = "os-platform"; replicas = 2 }));
  find_pg_cluster = λ a b w. (
    w,
    ok (record {
      namespace = "os-platform";
      admin_user = "";
      password = record { value = ""; value_from = none };
    }),
  );
  secret = λ a b w. (w, ok (("user", "admin") ∷ ("password", "pw") ∷ []));
  driver = record {
    connect = λ c w. (w, ok tt);
    exec = exec;
    query = λ c q a w. (w, ok (if q == list_owned_text then names_at w c.host else []));
    citus_node = λ c q h n w. (w, ok tt);
  };
}

abbrev has : View World
has w h d = is_there w h d ≡ true

abbrev IsLong : ℕ → String → Type 0
IsLong k String.[] = ⊥
IsLong zero (String.◌∷◌ c s) = Unit
IsLong (suc k) (String.◌∷◌ c s) = IsLong k s

code_at-append : (k : ℕ) (p s : String) → IsLong k p → code_at k (p <> s) ≡ code_at k p
code_at-append k String.[] s long = absurd long
code_at-append zero (String.◌∷◌ c p) s long = rw (cons-append c p s) refl
code_at-append (suc k) (String.◌∷◌ c p) s long = rw (cons-append c p s) (code_at-append k p s long)

abbrev count_of : String → ℕ
count_of String.[] = 0
count_of (String.◌∷◌ c s) = suc (count_of s)

after-append : (p s : String) → after (count_of p) (p <> s) ≡ s
after-append String.[] s = nil-append s
after-append (String.◌∷◌ c p) s = rw (cons-append c p s) (after-append p s)

is_there-remove :
    (w : World) (h x a d : String)
    → d ≢ x
    → is_there w a d ≡ true
    → is_there (remove w h x) a d ≡ true
is_there-remove [] h x a d ne k = k
is_there-remove ((b, y) ∷ w) h x a d ne k = ground (arith, is_there-remove w h x a d ne)

no_drop : (s : Statement) (d : String) → Spares s d → (code_at 5 (text_of s) == 100) ≡ false
unfolding text_of nat_eq
no_drop (create_role u p) d sp = rw (code_at-append 5 "create role " _ tt) refl
no_drop (alter_role u p) d sp = rw (code_at-append 5 "alter role " _ tt) refl
no_drop (limit_role u) d sp = rw (code_at-append 5 "alter role " _ tt) refl
no_drop (grant_files u) d sp =
    rw (code_at-append 5 "grant pg_write_server_files, pg_read_server_files to " _ tt) refl
no_drop (drop_role u) d sp = rw (code_at-append 5 "drop role if exists " _ tt) refl
no_drop (create_database db owner) d sp = rw (code_at-append 5 "create database " _ tt) refl
no_drop (drop_database x) d sp = absurd sp
no_drop (terminate_backend p) d sp = rw (code_at-append 5 "SELECT pg_terminate_backend(" _ tt) refl
no_drop (create_extension e) d sp =
    rw (code_at-append 5 "create extension if not exists " _ tt) refl
no_drop create_citus d sp = refl

dropped :
    (c : Connection) (x : String) (w : World)
    → exec c (text_of (drop_database x)) w ≡ (remove w c.host x, ok tt)
unfolding text_of nat_eq
dropped c x w =
    rw (code_at-append 5 "drop database if exists " x tt)
      (ap (λ n. (remove w c.host n, ok tt)) (after-append "drop database if exists " x))

kept :
    (c : Connection) (s : Statement) (w : World) (d : String)
    → Spares s d
    → exec c (text_of s) w ≡ (w, err (failure "cannot execute in a read-only transaction"))
kept c s w d sp = rw (no_drop s d sp) refl

other_query : (find_database_text == list_owned_text) ≡ false
unfolding string_eq
other_query = refl

no_success :
    (w u : World) (x : Error) → ◌≡◌ {A = World × Result (Unit {0})} (w, err x) (u, ok tt) → ⊥
no_success w u x e = cc

none_found :
    (w u : World) (db : String) (rows : List String)
    → ◌≡◌ {A = World × Result (List String)} (w, ok []) (u, ok rows)
    → is_first db rows ≡ true
    → ⊥
none_found w u db [] e f = cc
none_found w u db (r ∷ rows) e f = cc

platform-IsPostgres : IsPostgres has (λ s. Unit) platform
platform-IsPostgres = record {
  sts_stable = λ a b w h d k. k;
  cluster_stable = λ a b w h d k. k;
  secret_stable = λ a b w h d k. k;
  connect_stable = λ c w h d k. k;
  query_stable = λ c q a w h d k. k;
  node_stable = λ c q h n w a d k. k;
  exec_spares = λ c s w h d sp k. rw (kept c s w d sp) k;
  drop_spares = λ c x w h d n ne k. rw (dropped c x w) (is_there-remove w c.host x h d ne k);
  exec_creates = λ c db owner w u n e.
      absurd (no_success w u _ (sym (kept c (create_database db owner) w db tt) ∙ e));
  query_finds = λ c db w u rows e f. absurd (none_found w u db rows (rw other_query at e) f);
}

abbrev database : String → Database
database name = record { name = name; extensions = []; scripts = []; distributed = true }

abbrev request : PgRequest
request = record {
  namespace = "app-alice";
  app_namespace = "app-alice";
  user = "app";
  password = record { value = "pw"; value_from = none };
  databases = database "tags" ∷ [];
}

abbrev node : ℕ → String
node zero = "citus-0.citus-headless.os-platform"
node (suc n) = "citus-1.citus-headless.os-platform"

abbrev before : World
before =
    (node 0, "app_alice_old")
    ∷ (node 0, "app_alice_tags")
    ∷ (node 1, "app_alice_old")
    ∷ (node 1, "app_alice_tags")
    ∷ []

-- The clean-up does drop the database that the request no longer names, on both nodes.
cleaned :
    delete_database_if_not_exists platform request before
    ≡ ((node 0, "app_alice_tags") ∷ (node 1, "app_alice_tags") ∷ [], ok tt)
unfolding delete_database_if_not_exists string_eq tapr.Base.Dict.lookup tapr.Base.nat_eq
    tapr.Base.Effect.for_each text_of tapr.Postgres.Request.node_host
cleaned = refl

tags_asked : IsRequested request "app_alice_tags"
unfolding string_eq real_name
tags_asked = refl

has_tags : has before (node 1) "app_alice_tags"
unfolding string_eq
has_tags = refl

names_kept : (rows : List String) → All (λ s. Unit {0}) rows
names_kept [] = tt
names_kept (r ∷ rows) = (tt, names_kept rows)

delete_database_if_not_exists-keeps_example :
    has (delete_database_if_not_exists platform request before).0 (node 1) "app_alice_tags"
delete_database_if_not_exists-keeps_example =
    delete_database_if_not_exists-keeps has platform platform-IsPostgres request before (node 1)
      "app_alice_tags" (λ c w u rows e. names_kept rows) tags_asked has_tags

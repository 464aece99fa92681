-- ===== src/Postgres/Request/Tests.antt =====
-- A server that keeps every statement that it is told, with its host, and the theorems at it.
use tapr.Base.{
  ℕ, zero, suc, String, ◌<>◌, Bool, true, false, Option, none, some, List, [], ◌∷◌, ◌≡◌, refl, sym,
  ap, ◌==◌, string_eq, ==_refl, contains, arith,
}
use tapr.Base.Effect.{Error, failure, Result, ok, err, Eff}
use tapr.Postgres.Client.{Connection, create_database, drop_database, text_of}
use tapr.Postgres.Request.{Database, PgRequest, Platform, real_name, create_or_update_pg_request}
use tapr.Postgres.Request.Laws.{View, IsPostgres}
use tapr.Postgres.Request.Create.{IsFit, IsServed, create_or_update_pg_request-IsServed}

abbrev World : Type 0
World = List String

abbrev line : String → String → String
line host text = host <> " " <> text

abbrev was_told : View World
was_told w h d = (owner : String) × (contains w (line h (text_of (create_database d owner))) ≡ true)

abbrev platform : Platform World
platform = record {
  find_sts = λ a b w. (w, ok (record { name = "citus"; namespace = "os-platform"; replicas = 2 }));
  find_pg_cluster = λ a b w. (
    w,
    ok (record {
      namespace = "os-platform";
      admin_user = "";
      password = record { value = ""; value_from = none };
    }),
  );
  secret = λ a b w. (w, ok (("user", "admin") ∷ ("password", "pw") ∷ []));
  driver = record {
    connect = λ c w. (w, ok tt);
    exec = λ c t w. (line c.host t ∷ w, ok tt);
    query = λ c q a w. (w, ok []);
    citus_node = λ c q h n w. (w, ok tt);
  };
}

abbrev Anything : String → Type 0
Anything s = Unit {0}

contains-cons : (w : World) (x k : String) → contains w k ≡ true → contains (x ∷ w) k ≡ true
contains-cons w x k h = ground arith

told-created :
    (c : Connection) (db owner : String) (w u : World)
    → ◌≡◌ {A = World × Result (Unit {0})}
        (line c.host (text_of (create_database db owner)) ∷ w, ok tt)
        (u, ok tt)
    → contains u (line c.host (text_of (create_database db owner))) ≡ true
told-created c db owner w u e =
    rw (sym (ap (λ (p : World × Result (Unit {0})). p.0) e)) (ground arith)

platform-IsPostgres : IsPostgres was_told Anything platform
platform-IsPostgres = record {
  sts_stable = λ a b w h d k. k;
  cluster_stable = λ a b w h d k. k;
  secret_stable = λ a b w h d k. k;
  connect_stable = λ c w h d k. k;
  query_stable = λ c q a w h d k. k;
  node_stable = λ c q h n w a d k. k;
  exec_spares = λ c s w h d sp k. (k.0, contains-cons w (line c.host (text_of s)) _ k.1);
  drop_spares =
      λ c db w h d n ne k. (k.0, contains-cons w (line c.host (text_of (drop_database db))) _ k.1);
  exec_creates = λ c db owner w u n e. (owner, told-created c db owner w u e);
  query_finds = λ c db w u rows e f. absurd (ground arith);
}

abbrev database : String → Bool → Database
database name distributed = record {
  name = name;
  extensions = "pgvector" ∷ [];
  scripts = [];
  distributed = distributed;
}

abbrev request : PgRequest
request = record {
  namespace = "app-alice";
  app_namespace = "app-alice";
  user = "app";
  password = record { value = "pw"; value_from = none };
  databases = database "notes" true ∷ database "tags" false ∷ [];
}

first_name : real_name request (database "notes" true) ≡ "app_alice_notes"
unfolding real_name
first_name = refl

abbrev served : World
served = (create_or_update_pg_request platform request []).0

create_or_update_run : create_or_update_pg_request platform request [] ≡ (served, ok tt)
unfolding create_or_update_pg_request string_eq tapr.Base.Dict.lookup tapr.Base.nat_eq
    tapr.Base.Effect.for_each
create_or_update_run = refl

harmless : (db : Database) → IsFit was_told Anything platform request db
harmless db = (tt, λ c w h d k. (k.0, contains-cons w _ _ k.1))

create_or_update_pg_request-IsServed_example : IsServed was_told platform request [] served
create_or_update_pg_request-IsServed_example =
    create_or_update_pg_request-IsServed was_told platform platform-IsPostgres request [] served
      (harmless (database "notes" true), (harmless (database "tags" false), tt))
      create_or_update_run

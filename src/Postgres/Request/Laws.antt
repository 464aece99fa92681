-- ===== src/Postgres/Request/Laws.antt =====
-- Which databases the nodes have, against what PostgreSQL and the other services are documented to do.
use tapr.Base.{
  ℕ, String, true, Option, none, some, List, [], ◌∷◌, ◌≡◌, ◌≢◌, refl, not, ◌==◌, string_eq,
}
use tapr.Base.Effect.{
  Result, ok, err, Eff, ◌>>=◌, pure, Post, Ensures, Ensures-weaken, Ensures-pure, Ensures-fail,
  Ensures-if, Ensures-with, Ensures->>=,
}
use tapr.Backup.Types.{Password, PgCluster}
use tapr.Backup.Services.{read_key, read_from, get_var_value}
use tapr.Backup.Pg.{citus_admin_secret_name}
use tapr.Postgres.Client.{
  Connection, Statement, create_role, alter_role, limit_role, grant_files, drop_role,
  create_database, drop_database, terminate_backend, create_extension, create_citus, text_of,
  is_first, find_database_text, run,
}
use tapr.Postgres.Request.{
  StatefulSet, Platform, cluster_admin, find_workload, pg_cluster_namespace, pg_cluster_name,
}

-- `has w host db`: the node has the database.
abbrev pub View : Type 0 → Type 1
View W = W → String → String → Type 0

-- Statements other than `drop database` drop no database. What that one drops depends on how PostgreSQL reads
-- the name, which stands there unquoted.
abbrev pub Spares : Statement → String → Type 0
Spares (drop_database x) db = ⊥
Spares (create_role a b) db = Unit
Spares (alter_role a b) db = Unit
Spares (limit_role a) db = Unit
Spares (grant_files a) db = Unit
Spares (drop_role a) db = Unit
Spares (create_database a b) db = Unit
Spares (terminate_backend a) db = Unit
Spares (create_extension a) db = Unit
Spares create_citus db = Unit

-- The stateful set that the API server tells of in the world `s`.
abbrev pub Found : {W : Type 0} → Platform W → W → StatefulSet → Type 0
Found {W} platform s sts =
    (u : W) × (platform.find_sts pg_cluster_namespace pg_cluster_name s ≡ (u, ok sts))

module _ {W : Type 0} (has : View W) where
  -- A call that drops no database.
  abbrev pub Stable : {A : Type 0} → Eff W A → Type 0
  Stable m = (w : W) (h d : String) → has w h d → has (m w).0 h d

  -- `IsName` tells the names that PostgreSQL takes as they stand (in lower case, for it folds others). No text of a
  -- request may end its statement early, which the code does not check.
  pub record IsPostgres (IsName : String → Type 0) (platform : Platform W) : Type 0 where
    pub sts_stable : (a b : String) → Stable (platform.find_sts a b)
    pub cluster_stable : (a b : String) → Stable (platform.find_pg_cluster a b)
    pub secret_stable : (a b : String) → Stable (platform.secret a b)
    pub connect_stable : (c : Connection) → Stable (platform.driver.connect c)
    pub query_stable : (c : Connection) (q a : String) → Stable (platform.driver.query c q a)
    pub node_stable :
        (c : Connection) (q h : String) (n : ℕ) → Stable (platform.driver.citus_node c q h n)
    pub exec_spares :
        (c : Connection) (s : Statement) (w : W) (h d : String)
        → Spares s d
        → has w h d
        → has (platform.driver.exec c (text_of s) w).0 h d
    pub drop_spares :
        (c : Connection) (db : String) (w : W) (h d : String)
        → IsName db
        → d ≢ db
        → has w h d
        → has (platform.driver.exec c (text_of (drop_database db)) w).0 h d
    pub exec_creates :
        (c : Connection) (db owner : String) (w u : W)
        → IsName db
        → platform.driver.exec c (text_of (create_database db owner)) w ≡ (u, ok tt)
        → has u c.host db
    pub query_finds :
        (c : Connection) (db : String) (w u : W) (rows : List String)
        → platform.driver.query c find_database_text db w ≡ (u, ok rows)
        → is_first db rows ≡ true
        → has u c.host db

  -- All these databases, each with its node.
  abbrev pub Have : List (String × String) → W → Type 0
  Have [] w = Unit
  Have ((h, d) ∷ hs) w = has w h d × Have hs w

  abbrev pub Any : W → Type 0
  Any w = Unit {0}

  abbrev pub Keeps : {A : Type 0} → List (String × String) → Eff W A → Type 0
  Keeps hs m = Ensures (Have hs) m (λ a. Have hs) (Have hs)

  module _ {A : Type 0} where
    pub Have-Stable :
        (hs : List (String × String)) (m : Eff W A)
        → Stable m
        → (w : W) → Have hs w
        → Have hs (m w).0
    Have-Stable [] m st w h = tt
    Have-Stable ((a, b) ∷ hs) m st w (h, hh) = (st w a b h, Have-Stable hs m st w hh)

    Post-Have :
        (hs : List (String × String)) (o : W × Result A)
        → Have hs o.0
        → Post (λ a. Have hs) (Have hs) o
    Post-Have hs (w, ok a) h = h
    Post-Have hs (w, err e) h = h

    pub Keeps-of : (hs : List (String × String)) (m : Eff W A) → Stable m → Keeps hs m
    Keeps-of hs m st = record { run = λ w h. Post-Have hs (m w) (Have-Stable hs m st w h) }

    -- Where a failure need not keep them.
    pub anyway :
        {P : W → Type 0} {Q : A → W → Type 0} {R : W → Type 0} {m : Eff W A}
        → Ensures P m Q R
        → Ensures P m Q Any
    anyway h = Ensures-weaken h (λ s p. p) (λ a s q. q) (λ s r. tt)

  module _ {IsName : String → Type 0} (platform : Platform W) (pg : IsPostgres IsName platform)
      (hs : List (String × String)) where
    pub run-Keeps :
        (c : Connection) (s : Statement)
        → ((d : String) → Spares s d)
        → Keeps hs (run platform.driver c s)
    unfolding run
    run-Keeps c s sp = Keeps-of hs _ (λ w h d. pg.exec_spares c s w h d (sp d))

    read_from-Keeps :
        (namespace : String) (o : Option (String × String))
        → Keeps hs (read_from platform.secret namespace o)
    unfolding read_from
    read_from-Keeps namespace none = Ensures-fail (λ s h. h)
    read_from-Keeps namespace (some (name, key)) =
        Ensures->>= (Keeps-of hs _ (pg.secret_stable namespace name))
          λ entries. Ensures-pure (λ s h. h)

    pub get_var_value-Keeps :
        (namespace : String) (v : Password) → Keeps hs (get_var_value platform.secret namespace v)
    unfolding get_var_value
    get_var_value-Keeps namespace v =
        Ensures-if (not (v.value == "")) (λ h. Ensures-pure (λ s h. h))
          λ h. read_from-Keeps namespace v.value_from

    cluster_admin-Keeps :
        (namespace : String) (cluster : PgCluster)
        → Keeps hs (cluster_admin platform namespace cluster)
    unfolding cluster_admin
    cluster_admin-Keeps namespace cluster =
        Ensures-if (cluster.admin_user == "")
          (λ h.
            Ensures->>= (Keeps-of hs _ (pg.secret_stable namespace citus_admin_secret_name))
              λ entries.
                Ensures->>=
                  (get_var_value-Keeps namespace
                    (record { value = read_key "password" entries; value_from = none }))
                  λ pwd. Ensures-pure (λ s h. h))
          λ h.
            Ensures->>= (get_var_value-Keeps namespace cluster.password)
              λ pwd. Ensures-pure (λ s h. h)

    workload_of-Keeps :
        (sts : StatefulSet)
        → Ensures
            (Have hs)
            (platform.find_pg_cluster pg_cluster_namespace pg_cluster_name >>= λ cluster.
              cluster_admin platform pg_cluster_namespace cluster >>= λ (user, pwd).
              pure {A = StatefulSet × String × String} (sts, user, pwd))
            (λ r w. (r.0 ≡ sts) × Have hs w)
            (Have hs)
    workload_of-Keeps sts =
        Ensures->>=
          (Keeps-of hs (platform.find_pg_cluster pg_cluster_namespace pg_cluster_name)
            (pg.cluster_stable pg_cluster_namespace pg_cluster_name))
          λ cluster.
            Ensures->>= (cluster_admin-Keeps pg_cluster_namespace cluster)
              λ (user, pwd). Ensures-pure (λ s h. (refl, h))

    pub find_workload-Keeps : Keeps hs (find_workload platform)
    unfolding find_workload
    find_workload-Keeps =
        Ensures->>=
          (Keeps-of hs (platform.find_sts pg_cluster_namespace pg_cluster_name)
            (pg.sts_stable pg_cluster_namespace pg_cluster_name))
          λ sts. Ensures-weaken (workload_of-Keeps sts) (λ s h. h) (λ a s q. q.1) (λ s h. h)

    find_sts-Found :
        (s : W) (o : W × Result StatefulSet)
        → platform.find_sts pg_cluster_namespace pg_cluster_name s ≡ o
        → Have hs o.0
        → Post (λ sts w. Found platform s sts × Have hs w) (Have hs) o
    find_sts-Found s (u, ok sts) e h = ((u, e), h)
    find_sts-Found s (u, err x) e h = h

    find_sts-Ensures :
        (s : W)
        → Ensures
            (λ w. (w ≡ s) × Have hs w)
            (platform.find_sts pg_cluster_namespace pg_cluster_name)
            (λ sts w. Found platform s sts × Have hs w)
            (Have hs)
    find_sts-Ensures s = record {
      run = λ w p. rw p.0 (
          find_sts-Found s (platform.find_sts pg_cluster_namespace pg_cluster_name s) refl (
            Have-Stable hs (platform.find_sts pg_cluster_namespace pg_cluster_name)
              (pg.sts_stable pg_cluster_namespace pg_cluster_name) s (rw p.0 at p.1)));
    }

    pub find_workload-Found :
        (s : W)
        → Ensures
            (λ w. (w ≡ s) × Have hs w)
            (find_workload platform)
            (λ r w. Found platform s r.0 × Have hs w)
            (Have hs)
    unfolding find_workload
    find_workload-Found s = Ensures->>= (find_sts-Ensures s) λ sts.
        Ensures-with λ f.
          Ensures-weaken (workload_of-Keeps sts) (λ w h. h) (λ r w q. (rw q.0 f, q.1)) (λ w h. h)

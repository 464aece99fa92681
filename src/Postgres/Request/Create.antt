-- ===== src/Postgres/Request/Create.antt =====
-- `createOrUpdatePGRequest` against the databases that the nodes have.
use tapr.Base.{
  ℕ, zero, suc, ◌-◌, String, ◌||◌, List, [], ◌∷◌, ◌++◌, ◌≡◌, refl, ◌∙◌, All, if◌then◌else◌, ◌==◌,
  string_eq, nat_eq, Bool-cases, inl, inr,
}
use tapr.Base.Effect.{
  ok, ◌>>=◌, pure, Ensures, Ensures-weaken, Ensures-pure, Ensures-if, Ensures-with, Ensures->>=,
  for_each, Ensures-for_each,
}
use tapr.Postgres.Client.{
  Connection, connection_to, script_of, switch_database, create_database_if_not_exists,
  add_worker_node,
}
use tapr.Postgres.Request.{
  Database, PgRequest, StatefulSet, Platform, real_name, node_host, each_node, fill_database,
  database_on, databases_on, create_on_node, add_worker, add_workers, create_or_update_pg_request,
}
use tapr.Postgres.Request.Laws.{
  Found, find_workload-Found, View, Stable, IsPostgres, Have, Any, Keeps, Keeps-of, anyway,
  get_var_value-Keeps, find_workload-Keeps,
}
use tapr.Postgres.Request.Steps.{
  create_or_update_user-Keeps, fill_database-Keeps, create_if_not_exists-Have,
}

-- The databases that a node should have.
abbrev pub wanted_on : PgRequest → ℕ → String → List Database → List (String × String)
wanted_on req i host [] = []
wanted_on req i host (db ∷ dbs) =
    let rest = wanted_on req i host dbs in
    if db.distributed || i == 0 then (host, real_name req db) ∷ rest else rest

-- On `n` nodes from the node `i` on.
abbrev pub wanted : PgRequest → StatefulSet → ℕ → ℕ → List (String × String)
wanted req sts zero i = []
wanted req sts (suc n) i =
    wanted_on req i (node_host sts i) req.databases ++ wanted req sts n (suc i)

module _ {W : Type 0} (has : View W) (IsName : String → Type 0) (platform : Platform W) where
  -- The names are taken as they stand, and no script drops a database.
  abbrev pub IsFit : PgRequest → Database → Type 0
  IsFit req db =
      IsName (real_name req db)
      × ((c : Connection)
          → Stable has (platform.driver.exec c (script_of (real_name req db) req.user db.scripts)))

module _ {W : Type 0} (has : View W) (platform : Platform W) where
  -- What a request that is done has brought about: the databases are there on the nodes of the
  -- stateful set that the API server told of at its start.
  abbrev pub IsServed : PgRequest → W → W → Type 0
  IsServed req s w =
      (sts : StatefulSet) × Found platform s sts × Have has (wanted req sts sts.replicas 0) w

Have-append :
    {W : Type 0} (has : View W) (xs ys : List (String × String)) (w : W)
    → Have has xs w
    → Have has ys w
    → Have has (xs ++ ys) w
Have-append has [] ys w h k = k
Have-append has ((a, b) ∷ xs) ys w (h, hs) k = (h, Have-append has xs ys w hs k)

Have-split :
    {W : Type 0} (has : View W) (xs ys : List (String × String)) (w : W)
    → Have has (xs ++ ys) w
    → Have has xs w × Have has ys w
Have-split has [] ys w k = (tt, k)
Have-split has ((a, b) ∷ xs) ys w (h, k) = let (hs, ks) = Have-split has xs ys w k in ((h, hs), ks)

module _ {W : Type 0} (has : View W) {IsName : String → Type 0} (platform : Platform W)
    (pg : IsPostgres has IsName platform) where
  abbrev On : String → List (String × String) → Connection → W → Type 0
  On host hs c w = (c.host ≡ host) × Have has hs w

  switch-On :
      (c : Connection) (db : String) (hs : List (String × String))
      → Ensures (Have has hs) (switch_database platform.driver c db) (On c.host hs) (Have has hs)
  unfolding switch_database
  switch-On c db hs =
      Ensures->>= (Keeps-of has hs _ (pg.connect_stable (record c { database = db })))
        λ u. Ensures-pure (λ w h. (refl, h))

  present-On :
      (req : PgRequest) (i : ℕ) (host : String) (c : Connection) (db : Database)
      (hs : List (String × String))
      → c.host ≡ host
      → IsFit has IsName platform req db
      → Ensures
          (Have has hs)
          (create_database_if_not_exists platform.driver c (real_name req db) req.user >>= λ u.
            switch_database platform.driver c (real_name req db) >>= λ d.
            fill_database platform req db i host d >>= λ u. pure d)
          (λ d. On host ((host, real_name req db) ∷ hs) d)
          (Any has)
  present-On req i host c db hs e fit =
      Ensures->>=
        (anyway has
          (create_if_not_exists-Have has platform pg hs c (real_name req db) req.user fit.0))
        λ u.
          Ensures->>=
            (anyway has (switch-On c (real_name req db) ((c.host, real_name req db) ∷ hs)))
            λ d. Ensures-with λ same.
              Ensures->>=
                (anyway has (
                  fill_database-Keeps has platform pg ((c.host, real_name req db) ∷ hs) req db i
                    host d (fit.1 d)))
                λ v. Ensures-pure (λ w h. (same ∙ e, (rw e at h.0, h.1)))

  databases_on-Have :
      (req : PgRequest) (i : ℕ) (host : String) (dbs : List Database) (c : Connection)
      (hs : List (String × String))
      → c.host ≡ host
      → All (IsFit has IsName platform req) dbs
      → Ensures
          (Have has hs)
          (databases_on platform req i host dbs c)
          (λ u w. Have has (wanted_on req i host dbs) w × Have has hs w)
          (Any has)
  unfolding databases_on database_on
  databases_on-Have req i host [] c hs e fits = Ensures-pure (λ w h. (tt, h))
  databases_on-Have req i host (db ∷ dbs) c hs e fits =
      elim (Bool-cases (db.distributed || i == 0)) [
        | inl here ↦ rw here (
            Ensures->>= (present-On req i host c db hs e fits.0) λ d. Ensures-with λ same.
              Ensures-weaken
                (databases_on-Have req i host dbs d ((host, real_name req db) ∷ hs) same fits.1)
                (λ w h. h) (λ u w q. ((q.1.0, q.0), q.1.1)) (λ w r. r))
        | inr elsewhere ↦ rw elsewhere (databases_on-Have req i host dbs c hs e fits.1)
      ]

  create_on_node-Have :
      (req : PgRequest) (sts : StatefulSet) (user pwd : String) (i : ℕ)
      (hs : List (String × String))
      → All (IsFit has IsName platform req) req.databases
      → Ensures
          (Have has hs)
          (create_on_node platform req sts user pwd i)
          (λ u w. Have has (wanted_on req i (node_host sts i) req.databases) w × Have has hs w)
          (Any has)
  unfolding create_on_node
  create_on_node-Have req sts user pwd i hs fits =
      Ensures->>=
        (anyway has
          (Keeps-of has hs _ (pg.connect_stable (connection_to user pwd (node_host sts i)))))
        λ u.
          Ensures->>=
            (anyway has (get_var_value-Keeps has platform pg hs req.namespace req.password))
            λ p.
              Ensures->>=
                (anyway has (
                  create_or_update_user-Keeps has platform pg hs
                    (connection_to user pwd (node_host sts i)) req.user p))
                λ v.
                  databases_on-Have req i (node_host sts i) req.databases
                    (connection_to user pwd (node_host sts i)) hs refl fits

  each_node-Have :
      (req : PgRequest) (sts : StatefulSet) (user pwd : String) (n i : ℕ)
      (hs : List (String × String))
      → All (IsFit has IsName platform req) req.databases
      → Ensures
          (Have has hs)
          (each_node platform (create_on_node platform req sts user pwd) n i)
          (λ u w. Have has (wanted req sts n i) w × Have has hs w)
          (Any has)
  unfolding each_node
  each_node-Have req sts user pwd zero i hs fits = Ensures-pure (λ w h. (tt, h))
  each_node-Have req sts user pwd (suc n) i hs fits =
      Ensures->>= (create_on_node-Have req sts user pwd i hs fits) λ u.
        Ensures-weaken
          (each_node-Have req sts user pwd n (suc i)
            (wanted_on req i (node_host sts i) req.databases ++ hs) fits)
          (λ w h. Have-append has (wanted_on req i (node_host sts i) req.databases) hs w h.0 h.1)
          (λ v w q.
            let (here, old) =
              Have-split has (wanted_on req i (node_host sts i) req.databases) hs w q.1 in
            (
              Have-append has (wanted_on req i (node_host sts i) req.databases)
                  (wanted req sts n (suc i)) w here q.0,
              old,
            ))
          (λ w r. r)

  module _ (hs : List (String × String)) where
    add_worker-Keeps :
        (req : PgRequest) (sts : StatefulSet) (user pwd : String) (i : ℕ) (db : Database)
        → Keeps has hs (add_worker platform req sts user pwd i db)
    unfolding add_worker add_worker_node
    add_worker-Keeps req sts user pwd i db =
        Ensures-if db.distributed
          (λ h.
            Ensures->>= (Keeps-of has hs _ (pg.connect_stable _))
              λ u. Keeps-of has hs _ (pg.node_stable _ _ _ 5432))
          λ h. Ensures-pure (λ w k. k)

    each_worker-Keeps :
        (req : PgRequest) (sts : StatefulSet) (user pwd : String) (n i : ℕ)
        → Keeps has hs (
            each_node platform
              (λ j. for_each (add_worker platform req sts user pwd j) req.databases)
              n
              i)
    unfolding each_node
    each_worker-Keeps req sts user pwd zero i = Ensures-pure (λ w h. h)
    each_worker-Keeps req sts user pwd (suc n) i =
        Ensures->>=
          (Ensures-for_each (λ dbs. Have has hs) (Have has hs)
            (add_worker platform req sts user pwd i)
            (λ db dbs. add_worker-Keeps req sts user pwd i db) req.databases)
          λ u. each_worker-Keeps req sts user pwd n (suc i)

    add_workers-Keeps : (req : PgRequest) → Keeps has hs (add_workers platform req)
    unfolding add_workers
    add_workers-Keeps req =
        Ensures->>= (find_workload-Keeps has platform pg hs)
          λ (sts, user, pwd). each_worker-Keeps req sts user pwd (sts.replicas - 1) 1

  create_or_update-Served :
      (req : PgRequest) (s : W)
      → All (IsFit has IsName platform req) req.databases
      → Ensures
          (λ w. w ≡ s)
          (create_or_update_pg_request platform req)
          (λ u. IsServed has platform req s)
          (Any has)
  unfolding create_or_update_pg_request
  create_or_update-Served req s fits =
      Ensures->>=
        (Ensures-weaken (find_workload-Found has platform pg [] s) (λ w e. (e, tt)) (λ r w q. q)
          (λ w h. tt))
        λ (sts, user, pwd). Ensures-with λ found.
          Ensures->>= (each_node-Have req sts user pwd sts.replicas 0 [] fits) λ u.
            Ensures-weaken (add_workers-Keeps (wanted req sts sts.replicas 0) req) (λ w h. h.0)
              (λ v w h. (sts, found, h)) (λ w r. tt)

  -- For services that do what they are documented to do, database names that are taken as they stand and
  -- scripts that drop no database: after a request that returns no error, each distributed database of
  -- it is on every node of the stateful set, and every other one is on the first node.
  pub create_or_update_pg_request-IsServed :
      (req : PgRequest) (s w : W)
      → All (IsFit has IsName platform req) req.databases
      → create_or_update_pg_request platform req s ≡ (w, ok tt)
      → IsServed has platform req s w
  create_or_update_pg_request-IsServed req s w fits e =
      rw e at ((create_or_update-Served req s fits).run s refl)

-- ===== src/Postgres/Request/Delete.antt =====
-- `deleteDatabaseIfNotExists` against the databases that the nodes have.
use tapr.Base.{
  ℕ, zero, suc, String, List, All, refl, true, false, [], ◌∷◌, ◌≡◌, ◌≢◌, string_eq, contains, map,
}
use tapr.Base.Effect.{
  Result, ok, err, Eff, Post, Ensures, Ensures-weaken, Ensures-with, Ensures-pure, Ensures-if,
  Ensures->>=, Ensures-for_each,
}
use tapr.Postgres.Client.{
  Connection, connection_to, drop_database, terminate_backend, list_backends_text, list_owned_text,
  run, drop, list_database_by_owner,
}
use tapr.Postgres.Request.{
  PgRequest, StatefulSet, Platform, real_name, node_host, each_node, drop_on, drop_unless_requested,
  delete_database_if_not_exists,
}
use tapr.Postgres.Request.Laws.{
  View, IsPostgres, Have, Keeps, Keeps-of, run-Keeps, find_workload-Keeps,
}

-- The request names the database.
abbrev pub IsRequested : PgRequest → String → Type 0
IsRequested req db = contains (map (real_name req) req.databases) db ≡ true

module _ {W : Type 0} (has : View W) {IsName : String → Type 0} (platform : Platform W)
    (pg : IsPostgres has IsName platform) where
  -- The databases that the server ever lists for the owner have names that it takes as they stand.
  abbrev AreNames : String → Type 0
  AreNames owner =
      (c : Connection) (w u : W) (rows : List String)
      → platform.driver.query c list_owned_text owner w ≡ (u, ok rows)
      → All IsName rows

  module _ (h d : String) where
    Post-single :
        {A : Type 0} (o : W × Result A)
        → has o.0 h d
        → Post (λ a. Have has ((h, d) ∷ [])) (Have has ((h, d) ∷ [])) o
    Post-single (w, ok a) k = (k, tt)
    Post-single (w, err e) k = (k, tt)

    Post-world :
        {A : Type 0} (o : W × Result A)
        → Post (λ a. Have has ((h, d) ∷ [])) (Have has ((h, d) ∷ [])) o
        → has o.0 h d
    Post-world (w, ok a) k = k.0
    Post-world (w, err e) k = k.0

    abbrev Holds : {A : Type 0} → Eff W A → Type 0
    Holds m = Keeps has ((h, d) ∷ []) m

    dropped-Holds :
        (c : Connection) (x : String)
        → IsName x
        → d ≢ x
        → Holds (run platform.driver c (drop_database x))
    unfolding run
    dropped-Holds c x name ne = record {
      run = λ w k.
          Post-single (run platform.driver c (drop_database x) w)
            (pg.drop_spares c x w h d name ne k.0);
    }

    drop-Holds : (c : Connection) (x : String) → IsName x → d ≢ x → Holds (drop platform.driver c x)
    unfolding drop run
    drop-Holds c x name ne =
        Ensures->>= (Keeps-of has ((h, d) ∷ []) _ (pg.query_stable c list_backends_text x)) λ pids.
          Ensures->>=
            (Ensures-for_each (λ rest. Have has ((h, d) ∷ [])) (Have has ((h, d) ∷ []))
              (λ pid. run platform.driver c (terminate_backend pid))
              (λ pid rest.
                run-Keeps has platform pg ((h, d) ∷ []) c (terminate_backend pid) (λ e. tt))
              pids)
            λ u. dropped-Holds c x name ne

    each_node-Holds :
        (f : ℕ → Eff W (Unit {0}))
        → ((i : ℕ) → Holds (f i))
        → (n i : ℕ) → Holds (each_node platform f n i)
    unfolding each_node
    each_node-Holds f hold zero i = Ensures-pure (λ w k. k)
    each_node-Holds f hold (suc n) i = Ensures->>= (hold i) (λ u. each_node-Holds f hold n (suc i))

    drop_on-Holds :
        (user pwd x host : String) → IsName x → d ≢ x → Holds (drop_on platform user pwd x host)
    unfolding drop_on
    drop_on-Holds user pwd x host name ne =
        Ensures->>= (Keeps-of has ((h, d) ∷ []) _ (pg.connect_stable (connection_to user pwd host)))
          λ u. drop-Holds (connection_to user pwd host) x name ne

    unrequested-ne :
        (req : PgRequest) (x : String)
        → IsRequested req d
        → contains (map (real_name req) req.databases) x ≡ false
        → d ≢ x
    unrequested-ne req x asked not_asked e = cc

    drop_unless_requested-Holds :
        (req : PgRequest) (sts : StatefulSet) (user pwd x : String)
        → IsRequested req d
        → IsName x
        → Holds (drop_unless_requested platform req sts user pwd x)
    unfolding drop_unless_requested
    drop_unless_requested-Holds req sts user pwd x asked name =
        Ensures-if (contains (map (real_name req) req.databases) x) (λ e. Ensures-pure (λ w k. k))
          λ e.
            each_node-Holds _
              (λ i. drop_on-Holds user pwd x (node_host sts i) name (unrequested-ne req x asked e))
              sts.replicas 0

    abbrev Listed : List String → W → Type 0
    Listed rows w = All IsName rows × Have has ((h, d) ∷ []) w

    list-Listed :
        (c : Connection) (owner : String)
        → AreNames owner
        → Ensures
            (Have has ((h, d) ∷ []))
            (list_database_by_owner platform.driver c owner)
            Listed
            (Have has ((h, d) ∷ []))
    unfolding list_database_by_owner
    list-Listed c owner names = record {
      run = λ w k.
          listed w (platform.driver.query c list_owned_text owner w) refl
            (pg.query_stable c list_owned_text owner w h d k.0);
    }
      where
        listed :
            (w : W) (o : W × Result (List String))
            → platform.driver.query c list_owned_text owner w ≡ o
            → has o.0 h d
            → Post Listed (Have has ((h, d) ∷ [])) o
        listed w (u, ok rows) e k = (names c w u rows e, (k, tt))
        listed w (u, err x) e k = (k, tt)

    each-Holds :
        (req : PgRequest) (sts : StatefulSet) (user pwd x : String) (rest : List String)
        → IsRequested req d
        → Ensures
            (Listed (x ∷ rest))
            (drop_unless_requested platform req sts user pwd x)
            (λ u. Listed rest)
            (Have has ((h, d) ∷ []))
    each-Holds req sts user pwd x rest asked = Ensures-with λ (name, names).
        Ensures-weaken (drop_unless_requested-Holds req sts user pwd x asked name) (λ w k. k)
          (λ u w k. (names, k)) (λ w k. k)

    delete-Holds :
        (req : PgRequest)
        → IsRequested req d
        → AreNames req.user
        → Holds (delete_database_if_not_exists platform req)
    unfolding delete_database_if_not_exists
    delete-Holds req asked names =
        Ensures->>= (find_workload-Keeps has platform pg ((h, d) ∷ [])) λ (sts, user, pwd).
          Ensures->>=
            (Keeps-of has ((h, d) ∷ [])
              (platform.driver.connect (connection_to user pwd (node_host sts 0)))
              (pg.connect_stable (connection_to user pwd (node_host sts 0))))
            λ u.
              Ensures->>= (list-Listed (connection_to user pwd (node_host sts 0)) req.user names)
                λ dbs.
                  Ensures-weaken
                    (Ensures-for_each Listed (Have has ((h, d) ∷ []))
                      (drop_unless_requested platform req sts user pwd)
                      (λ x rest. each-Holds req sts user pwd x rest asked) dbs)
                    (λ w p. p) (λ a w q. q.1) (λ w p. p)

  -- For services that do what they are documented to do, where the databases that the server lists for
  -- the user have names that it takes as they stand: the clean-up after an update, whatever it returns,
  -- drops from no node a database that the request names.
  pub delete_database_if_not_exists-keeps :
      (req : PgRequest) (s : W) (h d : String)
      → AreNames req.user
      → IsRequested req d
      → has s h d
      → has (delete_database_if_not_exists platform req s).0 h d
  delete_database_if_not_exists-keeps req s h d names asked k =
      Post-world h d (delete_database_if_not_exists platform req s)
        ((delete-Holds h d req asked names).run s (k, tt))

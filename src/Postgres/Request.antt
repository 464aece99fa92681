-- ===== src/Postgres/Request.antt =====
-- cmd/middleware/operator/middleware-request/handler_pg.go, and `GetPGClusterAdminUserAndPassword` and
-- `GetDatabaseName` of pkg/workload/citus/helper.go.
pub mod Laws
pub mod Steps
pub mod Create
pub mod Delete
mod DeleteTests
mod Tests
use tapr.Base.{
  ℕ, zero, suc, ◌-◌, String, ◌<>◌, Bool, true, false, not, ◌||◌, Option, none, some, List, [], ◌∷◌,
  if◌then◌else◌, ◌==◌, string_eq, nat_eq, contains, is_empty, map,
}
use tapr.Base.Text.{replace_all}
use tapr.Base.Dict.{Dict}
use tapr.Base.Effect.{
  Error, failure, Result, ok, err, Eff, ◌>>=◌, pure, fail, chain, ignoring, catching, resolve,
  for_each,
}
use tapr.Corefile.Address.{decimal}
use tapr.Backup.Types.{Password, PgCluster}
use tapr.Backup.Services.{read_key, get_var_value}
use tapr.Backup.Pg.{citus_admin_secret_name}
use tapr.Postgres.Client.{
  Connection, connection_to, Driver, switch_database, create_or_update_user,
  create_database_if_not_exists, create_citus, run, create_extensions, execute_script,
  list_database_by_owner, drop, delete_user, set_master_node, add_worker_node,
}

-- `CitusDatabase`; a missing flag is false.
pub record Database : Type 0 where
  pub name : String
  pub extensions : List String
  pub scripts : List String
  pub distributed : Bool

-- What a MiddlewareRequest says of PostgreSQL.
pub record PgRequest : Type 0 where
  pub namespace : String
  pub app_namespace : String
  pub user : String
  pub password : Password
  pub databases : List Database

pub record StatefulSet : Type 0 where
  pub name : String
  pub namespace : String
  pub replicas : ℕ

-- `GetDatabaseName`
unfoldable pub get_database_name : String → String → String
unfolding replace_all
get_database_name namespace db = replace_all (namespace <> "_" <> db) "-" "_"

unfoldable pub real_name : PgRequest → Database → String
unfolding get_database_name
real_name req db = get_database_name req.app_namespace db.name

-- The calls of Kubernetes, and the driver.
pub record Platform (W : Type 0) : Type 0 where
  pub find_sts : String → String → Eff W StatefulSet
  pub find_pg_cluster : String → String → Eff W PgCluster
  pub secret : String → String → Eff W (Dict String String)
  pub driver : Driver W

abbrev pub pg_cluster_namespace : String
pg_cluster_namespace = "os-platform"

abbrev pub pg_cluster_name : String
pg_cluster_name = "citus"

unfoldable pub node_host : StatefulSet → ℕ → String
unfolding decimal
node_host sts i = sts.name <> "-" <> decimal i <> ".citus-headless." <> sts.namespace

module _ {W : Type 0} (platform : Platform W) where
  -- `GetPGClusterAdminUserAndPassword`
  unfoldable pub cluster_admin : String → PgCluster → Eff W (String × String)
  unfolding get_var_value
  cluster_admin namespace cluster =
      if cluster.admin_user == ""
      then (platform.secret namespace citus_admin_secret_name >>= λ entries.
          get_var_value platform.secret namespace
            (record { value = read_key "password" entries; value_from = none })
          >>= λ pwd. pure (read_key "user" entries, pwd))
      else (get_var_value platform.secret namespace cluster.password >>= λ pwd.
          pure (cluster.admin_user, pwd))

  -- `findClusterWorkloadAndAdminuserAndPassword`
  unfoldable pub find_workload : Eff W (StatefulSet × String × String)
  unfolding cluster_admin
  find_workload = platform.find_sts pg_cluster_namespace pg_cluster_name >>= λ sts.
      platform.find_pg_cluster pg_cluster_namespace pg_cluster_name >>= λ cluster.
      cluster_admin pg_cluster_namespace cluster >>= λ (user, pwd). pure (sts, user, pwd)

  -- A loop over the nodes from `i` on, of which `n` are left.
  unfoldable pub each_node : (ℕ → Eff W (Unit {0})) → ℕ → ℕ → Eff W (Unit {0})
  each_node f zero i = pure tt
  each_node f (suc n) i = f i >>= λ u. each_node f n (suc i)

  -- What a database of the request is given on the node it is on, once the client has switched to it.
  unfoldable pub fill_database : PgRequest → Database → ℕ → String → Connection → Eff W (Unit {0})
  unfolding run set_master_node create_extensions execute_script real_name
  fill_database req db i host c =
      (if db.distributed
        then (run platform.driver c create_citus >>= λ u.
            if i == 0 then set_master_node platform.driver c host else pure tt)
        else pure tt)
      >>= λ u.
          (if is_empty db.extensions
            then pure tt
            else create_extensions platform.driver c [] db.extensions)
          >>= λ u.
              if is_empty db.scripts
              then pure tt
              else execute_script platform.driver c (real_name req db) req.user db.scripts

  -- A database that is not distributed is on the first node only. The client stays with the
  -- database that it switched to.
  unfoldable pub database_on : PgRequest → ℕ → String → Connection → Database → Eff W Connection
  unfolding create_database_if_not_exists switch_database fill_database real_name
  database_on req i host c db =
      if db.distributed || i == 0
      then (create_database_if_not_exists platform.driver c (real_name req db) req.user >>= λ u.
          switch_database platform.driver c (real_name req db) >>= λ d.
          fill_database req db i host d >>= λ u. pure d)
      else pure c

  unfoldable pub databases_on :
      PgRequest → ℕ → String → List Database → Connection → Eff W (Unit {0})
  unfolding database_on
  databases_on req i host [] c = pure tt
  databases_on req i host (db ∷ dbs) c =
      database_on req i host c db >>= λ d. databases_on req i host dbs d

  unfoldable pub create_on_node : PgRequest → StatefulSet → String → String → ℕ → Eff W (Unit {0})
  unfolding create_or_update_user databases_on get_var_value node_host
  create_on_node req sts user pwd i =
      platform.driver.connect (connection_to user pwd (node_host sts i)) >>= λ u.
      get_var_value platform.secret req.namespace req.password >>= λ p.
      create_or_update_user platform.driver (connection_to user pwd (node_host sts i)) req.user p
      >>= λ u.
          databases_on req i (node_host sts i) req.databases
            (connection_to user pwd (node_host sts i))

  unfoldable pub add_worker :
      PgRequest → StatefulSet → String → String → ℕ → Database → Eff W (Unit {0})
  unfolding real_name add_worker_node node_host
  add_worker req sts user pwd i db =
      if db.distributed
      then (let c = record (connection_to user pwd (node_host sts 0)) {
        database = real_name req db;
      } in
          platform.driver.connect c >>= λ u. add_worker_node platform.driver c (node_host sts i))
      else pure tt

  -- `addWorkerNode`, from the second node on.
  unfoldable pub add_workers : PgRequest → Eff W (Unit {0})
  unfolding find_workload each_node add_worker
  add_workers req = find_workload >>= λ (sts, user, pwd).
      each_node (λ i. for_each (add_worker req sts user pwd i) req.databases) (sts.replicas - 1) 1

  -- `createOrUpdatePGRequest`
  unfoldable pub create_or_update_pg_request : PgRequest → Eff W (Unit {0})
  unfolding find_workload each_node create_on_node add_workers
  create_or_update_pg_request req = find_workload >>= λ (sts, user, pwd).
      each_node (create_on_node req sts user pwd) sts.replicas 0 >>= λ u. add_workers req

  unfoldable pub drop_on : String → String → String → String → Eff W (Unit {0})
  unfolding drop
  drop_on user pwd db host = platform.driver.connect (connection_to user pwd host) >>= λ u.
      drop platform.driver (connection_to user pwd host) db

  -- A database that the request does not name is dropped on every node.
  unfoldable pub drop_unless_requested :
      PgRequest → StatefulSet → String → String → String → Eff W (Unit {0})
  unfolding each_node drop_on real_name
  drop_unless_requested req sts user pwd db =
      if contains (map (real_name req) req.databases) db
      then pure tt
      else each_node (λ i. drop_on user pwd db (node_host sts i)) sts.replicas 0

  -- `deleteDatabaseIfNotExists`, from the databases of the first node.
  unfoldable pub delete_database_if_not_exists : PgRequest → Eff W (Unit {0})
  unfolding find_workload list_database_by_owner drop_unless_requested
  delete_database_if_not_exists req = find_workload >>= λ (sts, user, pwd).
      platform.driver.connect (connection_to user pwd (node_host sts 0)) >>= λ u.
      list_database_by_owner platform.driver (connection_to user pwd (node_host sts 0)) req.user
      >>= λ dbs. for_each (drop_unless_requested req sts user pwd) dbs

  unfoldable pub drop_requested : PgRequest → ℕ → Connection → Database → Eff W (Unit {0})
  unfolding drop real_name
  drop_requested req i c db =
      if db.distributed || i == 0 then drop platform.driver c (real_name req db) else pure tt

  unfoldable pub delete_on_node : PgRequest → StatefulSet → String → String → ℕ → Eff W (Unit {0})
  unfolding drop_requested list_database_by_owner drop delete_user node_host
  delete_on_node req sts user pwd i =
      let c = connection_to user pwd (node_host sts i) in
      platform.driver.connect c >>= λ u. for_each (drop_requested req i c) req.databases >>= λ u.
      list_database_by_owner platform.driver c req.user >>= λ dbs.
      for_each (drop platform.driver c) dbs >>= λ u. delete_user platform.driver c req.user

  -- `deletePGAll`
  unfoldable pub delete_pg_all : PgRequest → Eff W (Unit {0})
  unfolding find_workload each_node delete_on_node
  delete_pg_all req = find_workload >>= λ (sts, user, pwd).
      each_node (delete_on_node req sts user pwd) sts.replicas 0

  -- `PGClusterRecreated`: every request again; an error is only logged.
  unfoldable pub pg_cluster_recreated : List PgRequest → Eff W (Unit {0})
  unfolding create_or_update_pg_request
  pg_cluster_recreated reqs =
      for_each (λ req. ignoring (create_or_update_pg_request req) (pure tt)) reqs

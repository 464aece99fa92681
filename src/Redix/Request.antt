-- ===== src/Redix/Request.antt =====
-- cmd/middleware/operator/middleware-request/handler_redis.go. `update_proxy_config` stands for
-- `rediscluster.UpdateProxyConfig`.
pub mod Laws
pub mod Steps
pub mod Put
mod Tests
use tapr.Base.{
  ℕ, String, ◌<>◌, Bool, true, false, Option, none, some, List, [], ◌∷◌, if◌then◌else◌, ◌==◌,
  string_eq,
}
use tapr.Base.Dict.{Dict}
use tapr.Base.Effect.{
  Error, failure, Result, ok, err, Eff, ◌>>=◌, pure, fail, chain, ignoring, catching, resolve,
  for_each,
}
use tapr.Backup.Types.{Password, ClusterType, redis_cluster, kv_rocks, other}
use tapr.Backup.Services.{get_var_value}
use tapr.Redix.Client.{
  KvDriver, KvNamespace, add_namespace, update_namespace, delete_namespace, get_namespace,
  list_namespace,
}

-- What a MiddlewareRequest says of Redis.
pub record RedisRequest : Type 0 where
  pub namespace : String
  pub redis_namespace : String
  pub password : Password

pub record RedixCluster : Type 0 where
  pub namespace : String
  pub name : String
  pub kind : ClusterType
  pub password : Password

-- `connect` is `redis.NewClient` with its `Ping`, by service and password.
pub record RedisPlatform (W : Type 0) : Type 0 where
  pub list_redix : String → Eff W (List RedixCluster)
  pub secret : String → String → Eff W (Dict String String)
  pub connect : RedixCluster → String → Eff W (Unit {0})
  pub driver : KvDriver W
  pub update_proxy_config : Eff W (Unit {0})

-- `GetKVRocksNamespaceName`
unfoldable pub get_kvrocks_namespace_name : String → String → String
get_kvrocks_namespace_name namespace db = namespace <> "_" <> db

unfoldable pub namespace_of : RedisRequest → String
unfolding get_kvrocks_namespace_name
namespace_of req = get_kvrocks_namespace_name req.namespace req.redis_namespace

module _ {W : Type 0} (platform : RedisPlatform W) where
  -- `GetKVRocksClient`
  unfoldable pub get_kvrocks_client : RedixCluster → Eff W (Unit {0})
  unfolding get_var_value
  get_kvrocks_client cluster =
      get_var_value platform.secret cluster.namespace cluster.password >>= platform.connect cluster

  -- The failure of a deletion is only logged.
  unfoldable pub delete_if_token : String → KvNamespace → Eff W (Unit {0})
  unfolding delete_namespace
  delete_if_token token n =
      if n.token == token
      then ignoring (delete_namespace platform.driver n.name) (pure tt)
      else pure tt

  unfoldable pub delete_with_token : String → Eff W (Unit {0})
  unfolding list_namespace delete_if_token
  delete_with_token token =
      list_namespace platform.driver >>= λ all. for_each (delete_if_token token) all

  -- A new namespace: an update removes those that have its token first.
  unfoldable pub create_namespace : String → String → Bool → Eff W (Unit {0})
  unfolding delete_with_token add_namespace
  create_namespace name token is_update =
      (if is_update then delete_with_token token else pure tt) >>= λ u.
      add_namespace platform.driver name token

  unfoldable pub put_namespace : String → String → Bool → Option KvNamespace → Eff W (Unit {0})
  unfolding create_namespace update_namespace
  put_namespace name token is_update none = create_namespace name token is_update
  put_namespace name token is_update (some n) = update_namespace platform.driver name token

  -- `createOrUpdateKVRocksRequest`
  unfoldable pub create_or_update_kvrocks_request :
      RedisRequest → RedixCluster → Bool → Eff W (Unit {0})
  unfolding get_kvrocks_client get_var_value get_namespace put_namespace namespace_of
  create_or_update_kvrocks_request req cluster is_update = get_kvrocks_client cluster >>= λ u.
      get_var_value platform.secret req.namespace req.password >>= λ token.
      get_namespace platform.driver (namespace_of req)
      >>= put_namespace (namespace_of req) token is_update

  unfoldable pub drop_namespace : String → Option KvNamespace → Eff W (Unit {0})
  unfolding delete_namespace
  drop_namespace name none = pure tt
  drop_namespace name (some n) = delete_namespace platform.driver name

  -- `deleteKVRocksRequest`
  unfoldable pub delete_kvrocks_request : RedisRequest → RedixCluster → Eff W (Unit {0})
  unfolding get_kvrocks_client get_namespace drop_namespace namespace_of
  delete_kvrocks_request req cluster = get_kvrocks_client cluster >>= λ u.
      get_namespace platform.driver (namespace_of req) >>= drop_namespace (namespace_of req)

  -- The first cluster decides, by its type.
  abbrev pub by_type :
      (RedixCluster → Eff W (Unit {0})) → ClusterType → RedixCluster → Eff W (Unit {0})
  by_type kvrocks redis_cluster cluster = platform.update_proxy_config
  by_type kvrocks kv_rocks cluster = kvrocks cluster
  by_type kvrocks (other text) cluster = pure tt

  abbrev pub on_first : (RedixCluster → Eff W (Unit {0})) → List RedixCluster → Eff W (Unit {0})
  on_first kvrocks [] = pure tt
  on_first kvrocks (cluster ∷ more) = by_type kvrocks cluster.kind cluster

  -- `createOrUpdateRedixRequest`
  unfoldable pub create_or_update_redix_request : RedisRequest → Bool → Eff W (Unit {0})
  unfolding create_or_update_kvrocks_request
  create_or_update_redix_request req is_update =
      platform.list_redix "os-platform"
      >>= on_first (λ cluster. create_or_update_kvrocks_request req cluster is_update)

  -- `deleteRedixRequest`
  unfoldable pub delete_redix_request : RedisRequest → Eff W (Unit {0})
  unfolding delete_kvrocks_request
  delete_redix_request req =
      platform.list_redix "os-platform" >>= on_first (delete_kvrocks_request req)

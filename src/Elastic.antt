-- ===== src/Elastic.antt =====
-- What a MiddlewareRequest for Elasticsearch makes of users, roles and indexes:
-- cmd/middleware/operator/middleware-request/handler_elasticsearch.go, with
-- pkg/workload/elasticsearch/helper.go.
pub mod Laws
pub mod Service
pub mod Create
pub mod Removal
pub mod Delete
mod Tests
mod DeleteTests
use tapr.Base.{
  ℕ, String, ◌<>◌, Bool, true, false, Option, none, some, List, [], ◌∷◌, ◌++◌, ◌<◌, ◌||◌,
  if◌then◌else◌, ◌==◌, nat_eq, string_eq, map, ltb, contains, not, filter,
}
use tapr.Base.Dict.{Dict}
use tapr.Base.Http.{HttpReply}
use tapr.Base.Effect.{
  Error, failure, Result, ok, err, Eff, ◌>>=◌, chain, pure, fail, ignoring, catching, resolve,
  for_each, lift,
}
use tapr.Backup.Types.{Password}
use tapr.Backup.Services.{read_key, get_var_value}
use tapr.Rabbit.{described}

-- What a MiddlewareRequest says of Elasticsearch.
pub record ElasticRequest : Type 0 where
  pub namespace : String
  pub app_namespace : String
  pub user : String
  pub password : Password
  pub indexes : List String
  pub allow_namespace_indexes : Bool

-- The requests to the service, with their bodies as texts, `json.Marshal` of a list of texts, and the
-- verb `%q`. `cat_indices` has the names of its answer's body, or the error of its decoding.
pub record ElasticPlatform (W : Type 0) : Type 0 where
  pub secret : String → String → Eff W (Dict String String)
  pub connect : String → String → String → Eff W (Unit {0})
  pub marshal : List String → Result String
  pub quoted : String → String
  pub put_user : String → String → Eff W (HttpReply (Unit {0}))
  pub delete_user : String → Eff W (HttpReply (Unit {0}))
  pub put_role : String → String → Eff W (HttpReply (Unit {0}))
  pub delete_role : String → Eff W (HttpReply (Unit {0}))
  pub index_exists : String → Eff W (HttpReply (Unit {0}))
  pub create_index : String → Eff W (HttpReply (Unit {0}))
  pub delete_index : String → Eff W (HttpReply (Unit {0}))
  pub cat_indices : String → Eff W (HttpReply (Result (List String)))

-- `GetIndexName`
unfoldable pub get_index_name : String → String → String
get_index_name namespace name = namespace <> "-" <> name

unfoldable pub index_names : ElasticRequest → List String
unfolding get_index_name
index_names req = map (get_index_name req.app_namespace) req.indexes

-- The pattern of the indexes of a namespace.
unfoldable pub namespace_pattern : String → String
namespace_pattern namespace = namespace <> "_*"

unfoldable pub role_name : String → String
role_name user = "role-" <> user

-- The indexes of the user's role.
unfoldable pub role_indices : ElasticRequest → List String
unfolding index_names namespace_pattern
role_indices req =
    index_names req
    ++ (if req.allow_namespace_indexes then namespace_pattern req.app_namespace ∷ [] else [])

-- `IsError` of a response.
unfoldable pub is_error : {A : Type 0} → HttpReply A → Bool
is_error reply = ltb 299 reply.status

unfoldable pub user_body : String → String
user_body password = "{\"password\":\"" <> password <> "\",\"roles\":[]}"

unfoldable pub role_body : String → String
role_body names =
    "{\"cluster\":[\"monitor\"],\"indices\":[{\"names\":" <> names <> ",\"privileges\":[\"all\"]}]}"

abbrev pub elastic_namespace : String
elastic_namespace = "elasticsearch-middleware"

abbrev pub elasticsearch_endpoint : String
elasticsearch_endpoint = "https://elasticsearch-mdit-http.elasticsearch-middleware:9200"

module _ {W : Type 0} where
  unfoldable pub unless_error : {A : Type 0} → String → HttpReply A → Eff W (Unit {0})
  unless_error text reply = if is_error reply then fail (failure (text <> reply.body)) else pure tt

  -- What is not there is deleted.
  unfoldable pub unless_missing : String → HttpReply (Unit {0}) → Eff W (Unit {0})
  unless_missing text reply = if reply.status == 404 then pure tt else unless_error text reply

  unfoldable pub found_index : String → HttpReply (Unit {0}) → Eff W Bool
  found_index index reply =
      if reply.status == 200
      then pure true
      else if is_error reply
      then (if reply.status == 404
          then pure false
          else fail (failure ("check index " <> index <> " exists failed: " <> reply.body)))
      else pure false

  -- The names that are not empty.
  unfoldable pub listed_names : HttpReply (Result (List String)) → Eff W (List String)
  listed_names reply =
      if reply.status == 404
      then pure []
      else if is_error reply
      then fail (failure ("cat indices failed: " <> reply.body))
      else (lift reply.value >>= λ names. pure (filter (λ (n : String). not (n == "")) names))

module _ {W : Type 0} (platform : ElasticPlatform W) where
  -- `FindElasticsearchAdminUser`
  unfoldable pub find_elasticsearch_admin_user : Eff W (String × String)
  find_elasticsearch_admin_user =
      platform.secret elastic_namespace "elasticsearch-mdit-account-elastic" >>= λ entries.
      pure (read_key "username" entries, read_key "password" entries)

  -- `newESClient`
  unfoldable pub new_es_client : String × String → Eff W (Unit {0})
  new_es_client (user, password) =
      described "failed to new esclient " (platform.connect elasticsearch_endpoint user password)

  -- `checkIndexIfExists`
  unfoldable pub check_index_if_exists : String → Eff W Bool
  check_index_if_exists index = platform.index_exists index >>= found_index index

  unfoldable pub create_unless : String → Bool → Eff W (Unit {0})
  create_unless index true = pure tt
  create_unless index false =
      platform.create_index index >>= unless_error ("create index " <> index <> " failed: ")

  -- `esCreateOrUpdateIndex`
  unfoldable pub es_create_or_update_index : String → Eff W (Unit {0})
  es_create_or_update_index index = check_index_if_exists index >>= create_unless index

  -- `esDeleteIndex`
  unfoldable pub es_delete_index : String → Eff W (Unit {0})
  es_delete_index index =
      platform.delete_index index >>= unless_missing ("delete index " <> index <> " failed: ")

  -- `esListIndices`
  unfoldable pub es_list_indices : String → Eff W (List String)
  es_list_indices pattern_text = platform.cat_indices pattern_text >>= listed_names

  -- `esPutRole`
  unfoldable pub es_put_role : String → List String → Eff W (Unit {0})
  es_put_role role indices = lift (platform.marshal indices) >>= λ names.
      platform.put_role role (role_body names) >>= unless_error "put role failed: "

  -- `esDeleteRole`
  unfoldable pub es_delete_role : String → Eff W (Unit {0})
  es_delete_role role =
      platform.delete_role role >>= unless_missing ("delete role " <> role <> " failed: ")

  -- `esPutUser`
  unfoldable pub es_put_user : String → String → Eff W (Unit {0})
  es_put_user user password =
      platform.put_user user (user_body password) >>= unless_error "put user failed: "

  -- `esDeleteUser`
  unfoldable pub es_delete_user : String → Eff W (Unit {0})
  es_delete_user user =
      described "failed to send delete uer req " (platform.delete_user user)
      >>= unless_missing "delete user failed: "

  -- `esPutUserRole`
  unfoldable pub es_put_user_role : String → String → Eff W (Unit {0})
  es_put_user_role user role =
      platform.put_user user ("{\"roles\":[" <> platform.quoted role <> "]}")
      >>= unless_error "assign role failed: "

  unfoldable pub create_named_index : String → Eff W (Unit {0})
  create_named_index name =
      described ("failed to create index " <> name <> " ") (es_create_or_update_index name)

  -- `createOrUpdateElasticsearchRequest`
  unfoldable pub create_or_update_elasticsearch_request : ElasticRequest → Eff W (Unit {0})
  create_or_update_elasticsearch_request req = find_elasticsearch_admin_user >>= λ admin.
      described "failed to get user password "
        (get_var_value platform.secret req.namespace req.password)
      >>= λ password. new_es_client admin >>= λ u.
          described ("failed to put user " <> req.user <> " ") (es_put_user req.user password)
          >>= λ u. for_each create_named_index (index_names req) >>= λ u.
              es_put_role (role_name req.user) (role_indices req) >>= λ u.
              es_put_user_role req.user (role_name req.user)

  unfoldable pub delete_named_index : String → Eff W (Unit {0})
  delete_named_index name = described "failed to delete index " (es_delete_index name)

  -- The names that were listed, each once; a failure is only logged.
  unfoldable pub delete_unseen : List String → List String → Eff W (Unit {0})
  delete_unseen seen [] = pure tt
  delete_unseen seen (name ∷ names) =
      if contains seen name
      then delete_unseen seen names
      else ignoring (es_delete_index name) (delete_unseen (name ∷ seen) names)

  -- The indexes of the namespace, if the request allows them.
  unfoldable pub delete_namespace_indexes : ElasticRequest → Eff W (Unit {0})
  delete_namespace_indexes req =
      if req.allow_namespace_indexes
      then catching (es_list_indices (namespace_pattern req.app_namespace)) (delete_unseen [])
          (λ e. pure tt)
      else pure tt

  unfoldable pub delete_with_es : ElasticRequest → String × String → Eff W (Unit {0})
  delete_with_es req admin = new_es_client admin >>= λ u.
      described ("failed to delete user " <> req.user <> " ") (es_delete_user req.user) >>= λ u.
      described ("failed to delete role " <> role_name req.user <> " ")
        (es_delete_role (role_name req.user))
      >>= λ u. for_each delete_named_index (index_names req) >>= λ u. delete_namespace_indexes req

  -- `deleteElasticsearchRequest`: without the administrator's secret there is nothing to clean up.
  unfoldable pub delete_elasticsearch_request : ElasticRequest → Eff W (Unit {0})
  delete_elasticsearch_request req =
      catching find_elasticsearch_admin_user (delete_with_es req)
        λ e. if e.not_found then pure tt else fail e

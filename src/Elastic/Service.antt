-- ===== src/Elastic/Service.antt =====
-- What Elasticsearch is documented to do, and the rules for the calls.
use tapr.Base.{String, ◌<>◌, Bool, true, false, Option, some, List, [], ◌∷◌, ◌≡◌, ◌≢◌, ◌==◌, nat_eq}
use tapr.Base.Http.{HttpReply}
use tapr.Base.Effect.{
  ok, Eff, ◌>>=◌, Ensures, Ensures->>=, Ensures-pure, Ensures-fail, Ensures-told, Ensures-kept,
  Ensures-if,
}
use tapr.Backup.Types.{Password}
use tapr.Backup.Services.{get_var_value}
use tapr.Requests.Password.{get_var_value-Ensures}
use tapr.Rabbit.Laws.{described_Ensures}
use tapr.Elastic.{
  ElasticPlatform, is_error, user_body, unless_error, elastic_namespace,
  find_elasticsearch_admin_user, new_es_client, elasticsearch_endpoint,
}

-- The indexes that there are, and the password of each user.
pub record Contents : Type 0 where
  pub has_index : String → Bool
  pub password : String → Option String

-- `roles` are the roles of each user, and `role` is the definition of each role.
pub record View (W : Type 0) : Type 0 where
  pub contents : W → Contents
  pub roles : W → String → List String
  pub role : W → String → Option String

-- The body of `esPutUserRole`.
abbrev pub roles_body : {W : Type 0} → ElasticPlatform W → String → String
roles_body platform role = "{\"roles\":[" <> platform.quoted role <> "]}"

-- `IsPlain` are texts that a JSON text may hold as they are.
module _ {W : Type 0} (view : View W) (IsPlain : String → Type 0) where
  abbrev pub Quiet : {A : Type 0} → Eff W A → Type 0
  Quiet m = (w : W) → view.contents (m w).0 ≡ view.contents w

  -- What a request has done if its status is not one of an error.
  abbrev pub Does : Eff W (HttpReply (Unit {0})) → (W → Type 0) → Type 0
  Does m Fact =
      (w t : W) (reply : HttpReply (Unit {0}))
      → m w ≡ (t, ok reply)
      → is_error reply ≡ false
      → Fact t

  pub record IsElastic (platform : ElasticPlatform W) : Type 0 where
    pub secret_quiet : (namespace name : String) → Quiet (platform.secret namespace name)
    pub connect_quiet : (a b c : String) → Quiet (platform.connect a b c)
    pub index_exists_quiet : (i : String) → Quiet (platform.index_exists i)
    pub put_role_quiet : (r b : String) → Quiet (platform.put_role r b)
    pub put_roles_quiet : (u r : String) → Quiet (platform.put_user u (roles_body platform r))
    pub put_user_indexes :
        (u b : String) (w : W)
        → (view.contents (platform.put_user u b w).0).has_index ≡ (view.contents w).has_index
    pub put_user_others :
        (u b n : String) (w : W)
        → n ≢ u
        → (view.contents (platform.put_user u b w).0).password n ≡ (view.contents w).password n
    pub put_user_sets :
        (u p : String)
        → IsPlain p
        → Does (platform.put_user u (user_body p)) (λ t. (view.contents t).password u ≡ some p)
    pub put_roles_sets :
        (u r : String)
        → IsPlain r
        → Does (platform.put_user u (roles_body platform r)) (λ t. view.roles t u ≡ r ∷ [])
    pub put_user_role : (u b : String) (w : W) → view.role (platform.put_user u b w).0 ≡ view.role w
    pub put_role_sets : (r b : String) → Does (platform.put_role r b) (λ t. view.role t r ≡ some b)
    pub create_index_users :
        (i : String) (w : W)
        → (view.contents (platform.create_index i w).0).password ≡ (view.contents w).password
    pub create_index_keeps :
        (i j : String) (w : W)
        → (view.contents w).has_index j ≡ true
        → (view.contents (platform.create_index i w).0).has_index j ≡ true
    pub create_index_makes :
        (i : String) → Does (platform.create_index i) (λ t. (view.contents t).has_index i ≡ true)
    pub index_exists_tells :
        (i : String) (w t : W) (reply : HttpReply (Unit {0}))
        → platform.index_exists i w ≡ (t, ok reply)
        → (reply.status == 200) ≡ true
        → (view.contents w).has_index i ≡ true

-- A request whose status is looked at.
module _ {W : Type 0} (K : W → Type 0) (Fact : W → Type 0) (L : W → Type 0)
    {m : Eff W (HttpReply (Unit {0}))} where
  pub answered_Ensures :
      (text : String)
      → ((w t : W) (reply : HttpReply (Unit {0}))
          → m w ≡ (t, ok reply)
          → is_error reply ≡ false
          → Fact t)
      → ((w : W) → K w → L (m w).0)
      → Ensures K (m >>= unless_error text) (λ u w. Fact w × L w) L
  unfolding unless_error
  answered_Ensures text does kept =
      Ensures->>=
        (Ensures-told {Q = λ reply w. (is_error reply ≡ false → Fact w) × L w}
          (λ w t reply k e. (does w t reply e, rw e at (kept w k))) kept)
        λ reply.
          Ensures-if (is_error reply) (λ bad. Ensures-fail (λ w (f, l). l))
            (λ good. Ensures-pure (λ w (f, l). (f good, l)))

-- A condition on the contents is kept by a call that leaves them.
module _ {W : Type 0} (view : View W) (K : Contents → Type 0) where
  abbrev pub On : W → Type 0
  On w = K (view.contents w)

  module _ {IsPlain : String → Type 0} {platform : ElasticPlatform W}
      (laws : IsElastic view IsPlain platform) where
    quiet : {A : Type 0} {m : Eff W A} → Quiet view IsPlain m → Ensures On m (λ a. On) On
    quiet q = Ensures-kept On (λ w k. rw (q w) k)

    pub get_var_value-On :
        (namespace : String) (p : Password)
        → Ensures On (get_var_value platform.secret namespace p) (λ a. On) On
    get_var_value-On namespace p =
        get_var_value-Ensures On platform.secret namespace p
          (λ name. quiet (laws.secret_quiet namespace name))

    pub find_elasticsearch_admin_user-On :
        Ensures On (find_elasticsearch_admin_user platform) (λ a. On) On
    unfolding find_elasticsearch_admin_user
    find_elasticsearch_admin_user-On =
        Ensures->>=
          (quiet (laws.secret_quiet elastic_namespace "elasticsearch-mdit-account-elastic"))
          (λ d. Ensures-pure (λ s k. k))

    pub new_es_client-On :
        (admin : String × String) → Ensures On (new_es_client platform admin) (λ a. On) On
    unfolding new_es_client
    new_es_client-On (user, password) =
        described_Ensures On _ (quiet (laws.connect_quiet elasticsearch_endpoint user password))

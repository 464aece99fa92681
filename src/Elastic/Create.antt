-- ===== src/Elastic/Create.antt =====
-- What Elasticsearch has after a request was created or updated.
use tapr.Base.{
  ◌<>◌, ◌&&◌, ◌||◌, ◌∙◌, any, map, contains, contains-append, string_eq, if◌then◌else◌, String,
  Bool, true, false, some, List, [], ◌∷◌, ◌≡◌, ◌≢◌, refl, All, ◌==◌, nat_eq, arith,
}
use tapr.Base.Http.{HttpReply}
use tapr.Base.Effect.{
  ok, ◌>>=◌, Post, Ensures, Ensures->>=, Ensures-pure, Ensures-fail, Ensures-told, Ensures-weaken,
  Ensures-with, Ensures-if, for_each, lift_Ensures, Post-state,
}
use tapr.Backup.Services.{get_var_value}
use tapr.Rabbit.Laws.{described_Ensures}
use tapr.Elastic.{
  get_index_name, namespace_pattern, ElasticRequest, ElasticPlatform, index_names, role_name,
  role_indices, is_error, user_body, role_body, found_index, check_index_if_exists, create_unless,
  es_create_or_update_index, es_put_role, es_put_user, es_put_user_role, create_named_index,
  create_or_update_elasticsearch_request,
}
use tapr.Elastic.Service.{
  Contents, View, IsElastic, On, answered_Ensures, roles_body, get_var_value-On,
  find_elasticsearch_admin_user-On, new_es_client-On,
}

-- A condition that more indexes do not spoil.
abbrev Grows : (Contents → Type 0) → Type 0
Grows K =
    (c d : Contents)
    → d.password ≡ c.password
    → ((i : String) → c.has_index i ≡ true → d.has_index i ≡ true)
    → K c
    → K d

abbrev Having : (Contents → Type 0) → List String → Contents → Type 0
Having K is c = K c × All (λ i. c.has_index i ≡ true) is

module _ {W : Type 0} (view : View W) (IsPlain : String → Type 0) (platform : ElasticPlatform W)
    (laws : IsElastic view IsPlain platform) where
  module _ (K : Contents → Type 0) (grows : Grows K) where
    abbrev Found : String → Bool → W → Type 0
    Found i found w = (found ≡ true → (view.contents w).has_index i ≡ true) × On view K w

    found_index-Ensures :
        (i : String) (reply : HttpReply (Unit {0}))
        → Ensures
            (λ w.
              ((reply.status == 200) ≡ true → (view.contents w).has_index i ≡ true) × On view K w)
            (found_index i reply)
            (Found i)
            (On view K)
    unfolding found_index
    found_index-Ensures i reply =
        Ensures-if (reply.status == 200) (λ e. Ensures-pure (λ w (f, k). ((λ t. f e), k)))
          (λ e.
            Ensures-if (is_error reply)
              (λ bad.
                Ensures-if (reply.status == 404) (λ m. missing) (λ m. Ensures-fail (λ w (f, k). k)))
              (λ good. missing))
      where
        missing :
            Ensures
              (λ w.
                ((reply.status == 200) ≡ true → (view.contents w).has_index i ≡ true) × On view K w)
              (λ w. (w, ok false))
              (Found i)
              (On view K)
        missing = Ensures-pure (λ w (f, k). ((λ (t : false ≡ true). ground arith), k))

    check_Ensures :
        (i : String) → Ensures (On view K) (check_index_if_exists platform i) (Found i) (On view K)
    unfolding check_index_if_exists
    check_Ensures i =
        Ensures->>=
          (Ensures-told
            (λ s t reply k e.
              let same : view.contents t ≡ view.contents s =
                rw e at (laws.index_exists_quiet i s) in
              ((λ yes. rw same (laws.index_exists_tells i s t reply e yes)), rw same k))
            (λ s k. rw (laws.index_exists_quiet i s) k))
          (found_index-Ensures i)

    unless-Ensures :
        (i : String) (found : Bool)
        → Ensures
            (Found i found)
            (create_unless platform i found)
            (λ u w. ((view.contents w).has_index i ≡ true) × On view K w)
            (On view K)
    unfolding create_unless
    unless-Ensures i true = Ensures-pure (λ s (f, k). (f refl, k))
    unless-Ensures i false =
        answered_Ensures (Found i false) (λ w. (view.contents w).has_index i ≡ true) (On view K) _
          (laws.create_index_makes i)
          (λ w (f, k).
            grows (view.contents w) (view.contents (platform.create_index i w).0)
              (laws.create_index_users i w) (λ j. laws.create_index_keeps i j w) k)

    index_Ensures :
        (i : String)
        → Ensures
            (On view K)
            (create_named_index platform i)
            (λ u w. ((view.contents w).has_index i ≡ true) × On view K w)
            (On view K)
    unfolding create_named_index es_create_or_update_index
    index_Ensures i =
        described_Ensures (On view K) _ (Ensures->>= (check_Ensures i) (unless-Ensures i))

  -- A loop that makes the indexes.
  make_each :
      (K : Contents → Type 0) (lost : Contents → Type 0)
      → Grows K
      → ((c : Contents) → K c → lost c)
      → (is : List String)
      → Ensures
          (On view K)
          (for_each (create_named_index platform) is)
          (λ u. On view (Having K is))
          (On view lost)
  unfolding for_each
  make_each K lost grows weak [] = Ensures-pure (λ s k. (k, tt))
  make_each K lost grows weak (i ∷ is) =
      Ensures->>=
        (Ensures-weaken (index_Ensures K grows i) (λ s k. k) (λ u s k. k)
          (λ s k. weak (view.contents s) k))
        λ u.
          Ensures-weaken
            (make_each (λ c. (c.has_index i ≡ true) × K c) lost
              (λ c d p f (h, k). (f i h, grows c d p f k)) (λ c (h, k). weak c k) is)
            (λ s k. k) (λ u s ((h, k), all). (k, (h, all))) (λ s k. k)

  module _ (req : ElasticRequest) (s : W) where
    -- No index is lost, and the other users keep their passwords.
    abbrev pub Spared : Contents → Type 0
    Spared c =
        ((i : String) → (view.contents s).has_index i ≡ true → c.has_index i ≡ true)
        × ((n : String) → n ≢ req.user → c.password n ≡ (view.contents s).password n)

    -- The password of the request, as it was read in some world.
    abbrev pub IsPassword : String → Type 0
    IsPassword password =
        (v : W) × (u : W) × (get_var_value platform.secret req.namespace req.password v
          ≡ (u, ok password))

    -- Whatever the password is, and the name of the role, they may stand in JSON as they are.
    abbrev pub ArePlain : Type 0
    ArePlain =
        ((password : String) → IsPassword password → IsPlain password)
        × IsPlain (role_name req.user)

    abbrev HasUser : String → Contents → Type 0
    HasUser password c = (c.password req.user ≡ some password) × Spared c

    -- An index that the request names, or the pattern of its namespace if the request allows it.
    abbrev pub may_use : String → Bool
    may_use i =
        any (λ name. i == req.app_namespace <> "-" <> name) req.indexes
        || (req.allow_namespace_indexes && (i == req.app_namespace <> "_*"))

    -- The role of the request is defined by these, and by no others.
    abbrev pub HasRole : W → Type 0
    HasRole w =
        (indices : List String) × (names : String) × ((i : String) → contains indices i ≡ may_use i)
        × (platform.marshal indices ≡ ok names)
        × (view.role w (role_name req.user) ≡ some (role_body names))

    contains-named :
        (ns i : String) (xs : List String)
        → contains (map (get_index_name ns) xs) i ≡ any (λ name. i == ns <> "-" <> name) xs
    unfolding any get_index_name
    contains-named ns i [] = refl
    contains-named ns i (x ∷ xs) = ground (arith, contains-named ns i xs)

    contains-role_indices : (i : String) → contains (role_indices req) i ≡ may_use i
    unfolding role_indices index_names namespace_pattern
    contains-role_indices i =
        contains-append (map (get_index_name req.app_namespace) req.indexes)
          (if req.allow_namespace_indexes then (req.app_namespace <> "_*") ∷ [] else []) i
        ∙ ground (arith, contains-named req.app_namespace i req.indexes)

    abbrev pub IsServed : W → Type 0
    IsServed w =
        (password : String) × IsPassword password
        × ((view.contents w).password req.user ≡ some password)
        × All (λ i. (view.contents w).has_index i ≡ true) (index_names req)
        × HasRole w
        × (view.roles w req.user ≡ role_name req.user ∷ [])

    HasUser-Grows : (password : String) → Grows (HasUser password)
    HasUser-Grows password c d p f (h, (k, l)) =
        (rw p h, ((λ i e. f i (k i e)), λ n ne. rw p (l n ne)))

    password_Ensures :
        Ensures
          (On view Spared)
          (get_var_value platform.secret req.namespace req.password)
          (λ password w. IsPassword password × On view Spared w)
          (On view Spared)
    password_Ensures = Ensures-told (λ w t password k e. ((w, t, e), rw e at (kept w k))) kept
      where
        kept :
            (w : W)
            → On view Spared w
            → On view Spared (get_var_value platform.secret req.namespace req.password w).0
        kept w k =
            Post-state (On view Spared) (get_var_value platform.secret req.namespace req.password w)
              ((get_var_value-On view Spared laws req.namespace req.password).run w k)

    user_Ensures :
        (password : String)
        → IsPlain password
        → Ensures
            (On view Spared)
            (es_put_user platform req.user password)
            (λ u. On view (HasUser password))
            (On view Spared)
    unfolding es_put_user
    user_Ensures password plain =
        answered_Ensures (On view Spared) (λ w. (view.contents w).password req.user ≡ some password)
          (On view Spared) _ (laws.put_user_sets req.user password plain)
          (λ w (k, l). (
            (λ i e. rw (laws.put_user_indexes req.user (user_body password) w) (k i e)),
            λ n ne. rw (laws.put_user_others req.user (user_body password) n w ne) (l n ne),
          ))

    module _ (K : Contents → Type 0) where
      role_Ensures :
          Ensures
            (On view K)
            (es_put_role platform (role_name req.user) (role_indices req))
            (λ u w. HasRole w × On view K w)
            (On view K)
      unfolding es_put_role
      role_Ensures =
          Ensures->>= (lift_Ensures {P = On view K} (platform.marshal (role_indices req))) λ names.
            Ensures-with λ known.
              Ensures-weaken
                (answered_Ensures (On view K)
                  (λ w. view.role w (role_name req.user) ≡ some (role_body names)) (On view K) _
                  (laws.put_role_sets (role_name req.user) (role_body names))
                  (λ w k. rw (laws.put_role_quiet (role_name req.user) (role_body names) w) k))
                (λ w k. k)
                (λ u w (f, k). ((role_indices req, names, contains-role_indices, known, f), k))
                (λ w k. k)

      roles_Ensures :
          IsPlain (role_name req.user)
          → Ensures
              (λ w. HasRole w × On view K w)
              (es_put_user_role platform req.user (role_name req.user))
              (λ u w. (view.roles w req.user ≡ role_name req.user ∷ []) × (HasRole w × On view K w))
              (λ w. HasRole w × On view K w)
      unfolding es_put_user_role
      roles_Ensures plain =
          answered_Ensures (λ w. HasRole w × On view K w)
            (λ w. view.roles w req.user ≡ role_name req.user ∷ []) (λ w. HasRole w × On view K w) _
            (laws.put_roles_sets req.user (role_name req.user) plain)
            (λ w ((indices, names, exact, known, f), k). (
              (
                indices,
                names,
                exact,
                known,
                rw (laws.put_user_role req.user (roles_body platform (role_name req.user)) w) f,
              ),
              rw (laws.put_roles_quiet req.user (role_name req.user) w) k,
            ))

    create_Ensures :
        ArePlain
        → Ensures
            (On view Spared)
            (create_or_update_elasticsearch_request platform req)
            (λ u w. IsServed w × On view Spared w)
            (On view Spared)
    unfolding create_or_update_elasticsearch_request
    create_Ensures (plain, role_plain) =
        Ensures->>= (find_elasticsearch_admin_user-On view Spared laws) λ admin.
          Ensures->>= (described_Ensures (On view Spared) _ password_Ensures) λ password.
            Ensures-with λ known. Ensures->>= (new_es_client-On view Spared laws admin) λ u.
              Ensures->>=
                (described_Ensures (On view Spared) _
                  (user_Ensures password (plain password known)))
                λ u.
                  Ensures->>=
                    (make_each (HasUser password) Spared (HasUser-Grows password) (λ c h. h.1)
                      (index_names req))
                    λ u.
                      Ensures-weaken (granted_Ensures (Having (HasUser password) (index_names req)))
                        (λ w k. k)
                        (λ u w (r, (role, ((p, spared), all))).
                          ((password, known, p, all, role, r), spared))
                        (λ w ((p, spared), all). spared)
      where
        granted_Ensures :
            (K : Contents → Type 0)
            → Ensures
                (On view K)
                (es_put_role platform (role_name req.user) (role_indices req) >>= λ u.
                  es_put_user_role platform req.user (role_name req.user))
                (λ u w.
                  (view.roles w req.user ≡ role_name req.user ∷ []) × (HasRole w × On view K w))
                (On view K)
        granted_Ensures K =
            Ensures->>= (role_Ensures K) λ u.
              Ensures-weaken (roles_Ensures K role_plain) (λ w k. k) (λ u w k. k) (λ w (r, k). k)

    -- For a Kubernetes and a service that do what they are documented to do, and a password and a user that
    -- JSON holds as they are: after a request to Elasticsearch that returns no error its user has the
    -- password of the request, its indexes are there, its role is defined by exactly these names (and
    -- the pattern of its namespace, if the request allows it), and is the one role of the user.
    -- Whatever it returns, no index is lost, and every other user has the password that it had.
    pub create_or_update_elasticsearch_request-IsServed :
        ArePlain
        → Post
            (λ u w. IsServed w × On view Spared w)
            (On view Spared)
            (create_or_update_elasticsearch_request platform req s)
    create_or_update_elasticsearch_request-IsServed plain =
        (create_Ensures plain).run s ((λ i e. e), λ n ne. refl)

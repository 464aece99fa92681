-- ===== src/Minio/Create.antt =====
-- What MinIO has after a request was created or updated.
use tapr.Base.{String, Bool, true, false, some, List, [], ◌∷◌, ◌≡◌, ◌≢◌, refl, All}
use tapr.Base.Effect.{
  Error, Result, ok, err, Post, Ensures, Ensures->>=, Ensures-catching, Ensures-pure, Ensures-fail,
  Ensures-told, Ensures-weaken, Ensures-with, for_each, lift_Ensures,
}
use tapr.Backup.Services.{get_var_value}
use tapr.Minio.{
  Grant, MinioRequest, MinioPlatform, bucket_names, policy_name, policy_of, make_bucket,
  unless_exists, create_or_update_minio_user, set_bucket_policy_for_user,
  create_or_update_minio_request,
}
use tapr.Minio.Policy.{grants, may, grants-policy_of}
use tapr.Minio.Laws.{
  Contents, View, IsMinio, On, wrapping_Ensures, describing_Ensures, get_var_value-On,
  find_minio_admin_user-On, connect_both-On,
}

-- A condition that more buckets do not spoil.
abbrev pub Grows : (Contents → Type 0) → Type 0
Grows K =
    (c d : Contents)
    → d.password ≡ c.password
    → ((b : String) → c.has_bucket b ≡ true → d.has_bucket b ≡ true)
    → K c
    → K d

abbrev Having : (Contents → Type 0) → List String → Contents → Type 0
Having K bs c = K c × All (λ b. c.has_bucket b ≡ true) bs

All-grows :
    (bs : List String) (c d : Contents)
    → ((b : String) → c.has_bucket b ≡ true → d.has_bucket b ≡ true)
    → All (λ b. c.has_bucket b ≡ true) bs
    → All (λ b. d.has_bucket b ≡ true) bs
All-grows [] c d f h = tt
All-grows (b ∷ bs) c d f h = (f b h.0, All-grows bs c d f h.1)

module _ {W : Type 0} (view : View W) (platform : MinioPlatform W)
    (laws : IsMinio view platform) where
  module _ (K : Contents → Type 0) (grows : Grows K) where
    exists_Ensures :
        (b : String)
        → Ensures
            (On view K)
            (platform.bucket_exists b)
            (λ found w. (found ≡ true → (view.contents w).has_bucket b ≡ true) × On view K w)
            (On view K)
    exists_Ensures b =
        Ensures-told
          (λ s t found k e.
            let same : view.contents t ≡ view.contents s = rw e at (laws.bucket_exists_quiet b s) in
            (λ yes. rw same (laws.bucket_exists_tells b s t (rw (← yes) e)), rw same k))
          (λ s k. rw (laws.bucket_exists_quiet b s) k)

    unless_exists-Ensures :
        (b : String) (e : Error) (found : Bool)
        → Ensures
            (λ w. (found ≡ true → (view.contents w).has_bucket b ≡ true) × On view K w)
            (unless_exists platform b e found)
            (λ u. On view (λ c. K c × (c.has_bucket b ≡ true)))
            (On view K)
    unfolding unless_exists
    unless_exists-Ensures b e true = Ensures-pure (λ s (h, k). (k, h refl))
    unless_exists-Ensures b e false = Ensures-fail (λ s (h, k). k)

    made : (b : String) (w : W) → On view K w → On view K (platform.make_bucket b w).0
    made b w k =
        grows (view.contents w) (view.contents (platform.make_bucket b w).0)
          (laws.make_bucket_users b w) (λ c. laws.make_bucket_keeps b c w) k

    make_bucket-Ensures :
        (b : String)
        → Ensures
            (On view K)
            (make_bucket platform b)
            (λ u. On view (λ c. K c × (c.has_bucket b ≡ true)))
            (On view K)
    unfolding make_bucket
    make_bucket-Ensures b =
        Ensures-catching {Q = λ u. On view (λ c. K c × (c.has_bucket b ≡ true))} {R = On view K}
          (Ensures-told (λ s t u k e. (rw e at (made b s k), laws.make_bucket_makes b s t e))
            (λ s k. made b s k))
          (λ u. Ensures-pure (λ s q. q))
          (λ e. Ensures->>= (wrapping_Ensures _ (exists_Ensures b)) (unless_exists-Ensures b e))

  -- A loop that makes the buckets.
  make_each :
      (K : Contents → Type 0) (lost : Contents → Type 0)
      → Grows K
      → ((c : Contents) → K c → lost c)
      → (bs : List String)
      → Ensures
          (On view K)
          (for_each (make_bucket platform) bs)
          (λ u. On view (Having K bs))
          (On view lost)
  unfolding for_each
  make_each K lost grows weak [] = Ensures-pure (λ s k. (k, tt))
  make_each K lost grows weak (b ∷ bs) =
      Ensures->>=
        (Ensures-weaken (make_bucket-Ensures K grows b) (λ s k. k) (λ u s k. k)
          (λ s k. weak (view.contents s) k))
        λ u.
          Ensures-weaken
            (make_each (λ c. K c × (c.has_bucket b ≡ true)) lost
              (λ c d p f (k, h). (grows c d p f k, f b h)) (λ c (k, h). weak c k) bs)
            (λ s k. k) (λ u s ((k, h), all). (k, (h, all))) (λ s k. k)

  module _ (req : MinioRequest) (s : W) where
    -- No bucket is lost, and the other users keep their passwords.
    abbrev pub Spared : Contents → Type 0
    Spared c =
        ((b : String) → (view.contents s).has_bucket b ≡ true → c.has_bucket b ≡ true)
        × ((n : String) → n ≢ req.user → c.password n ≡ (view.contents s).password n)

    abbrev HasUser : String → Contents → Type 0
    HasUser password c = (c.password req.user ≡ some password) × Spared c

    HasUser-Grows : (password : String) → Grows (HasUser password)
    HasUser-Grows password c d p f (h, (k, l)) =
        (rw p h, ((λ b e. f b (k b e)), λ n ne. rw p (l n ne)))

    user_Ensures :
        (password : String)
        → Ensures
            (On view Spared)
            (create_or_update_minio_user platform req.user password)
            (λ u. On view (HasUser password))
            (On view Spared)
    unfolding create_or_update_minio_user
    user_Ensures password = describing_Ensures _ (
        Ensures-told
          (λ w t u k e. (laws.add_user_sets req.user password w t e, rw e at (spared w k)))
          (λ w k. spared w k))
      where
        spared :
            (w : W) → On view Spared w → On view Spared (platform.add_user req.user password w).0
        spared w (k, l) = (
          (λ b e. rw (laws.add_user_buckets req.user password w) (k b e)),
          λ n ne. rw (laws.add_user_others req.user password n w ne) (l n ne),
        )

    -- The policy of the user is the text of statements that allow what the request says, and no more.
    abbrev pub HasPolicy : W → Type 0
    HasPolicy w =
        (gs : List Grant) × (text : String) × ((a r : String) → grants gs a r ≡ may req a r)
        × (platform.marshal gs ≡ ok text)
        × (view.canned w (policy_name req) ≡ some text)
        × (view.attached w req.user ≡ some (policy_name req))

    policy_Ensures :
        (K : Contents → Type 0)
        → Ensures
            (On view K)
            (set_bucket_policy_for_user platform (bucket_names req) req)
            (λ u w. HasPolicy w × On view K w)
            (On view K)
    unfolding set_bucket_policy_for_user
    policy_Ensures K =
        Ensures->>=
          (wrapping_Ensures _
            (lift_Ensures {P = On view K} (platform.marshal (policy_of req (bucket_names req)))))
          λ text. Ensures-with λ known.
            Ensures->>=
              (wrapping_Ensures _ (
                Ensures-told
                  {Q = λ u w. (view.canned w (policy_name req) ≡ some text) × On view K w}
                  (λ w t u k e. (
                    laws.add_canned_sets (policy_name req) text w t e,
                    rw e at (canned_keeps text w k),
                  ))
                  (λ w k. canned_keeps text w k)))
              λ u. describing_Ensures _ (
                Ensures-told
                  (λ w t u (c, k) e. (
                    (
                      policy_of req (bucket_names req),
                      text,
                      grants-policy_of req,
                      known,
                      rw e at (canned_kept text w c),
                      laws.set_policy_sets (policy_name req) req.user w t e,
                    ),
                    rw e at (set_keeps w k),
                  ))
                  (λ w (c, k). set_keeps w k))
      where
        canned_keeps :
            (text : String) (w : W)
            → On view K w
            → On view K (platform.add_canned_policy (policy_name req) text w).0
        canned_keeps text w k = rw (laws.add_canned_quiet (policy_name req) text w) k

        set_keeps :
            (w : W) → On view K w → On view K (platform.set_policy (policy_name req) req.user w).0
        set_keeps w k = rw (laws.set_policy_quiet (policy_name req) req.user w) k

        canned_kept :
            (text : String) (w : W)
            → view.canned w (policy_name req) ≡ some text
            → view.canned (platform.set_policy (policy_name req) req.user w).0 (policy_name req)
              ≡ some text
        canned_kept text w c = rw (laws.set_policy_keeps (policy_name req) req.user w) c

    -- The password of the request, as it was read in some world.
    abbrev pub IsPassword : String → Type 0
    IsPassword password =
        (v : W) × (u : W) × (get_var_value platform.secret req.namespace req.password v
          ≡ (u, ok password))

    abbrev pub IsServed : W → Type 0
    IsServed w =
        (password : String) × IsPassword password
        × ((view.contents w).password req.user ≡ some password)
        × All (λ b. (view.contents w).has_bucket b ≡ true) (bucket_names req)
        × HasPolicy w

    password_Ensures :
        Ensures
          (On view Spared)
          (get_var_value platform.secret req.namespace req.password)
          (λ password w. IsPassword password × On view Spared w)
          (On view Spared)
    password_Ensures = Ensures-told (λ w t password k e. ((w, t, e), rw e at (kept w k))) kept
      where
        kept :
            (w : W)
            → On view Spared w
            → On view Spared (get_var_value platform.secret req.namespace req.password w).0
        kept w k =
            after (get_var_value platform.secret req.namespace req.password w)
              ((get_var_value-On view Spared laws req.namespace req.password).run w k)
          where
            after :
                (o : W × Result String)
                → Post (λ a. On view Spared) (On view Spared) o
                → On view Spared o.0
            after (t, ok a) h = h
            after (t, err e) h = h

    create_Ensures :
        Ensures
          (On view Spared)
          (create_or_update_minio_request platform req)
          (λ u w. IsServed w × On view Spared w)
          (On view Spared)
    unfolding create_or_update_minio_request
    create_Ensures =
        Ensures->>=
          (Ensures->>= (wrapping_Ensures _ (find_minio_admin_user-On view Spared laws _))
            (connect_both-On view Spared laws))
          λ u. Ensures->>= (wrapping_Ensures _ password_Ensures) λ password. Ensures-with λ known.
            Ensures->>= (wrapping_Ensures _ (user_Ensures password)) λ u.
              Ensures->>=
                (make_each (HasUser password) Spared (HasUser-Grows password) (λ c h. h.1)
                  (bucket_names req))
                λ u.
                  Ensures-weaken
                    (wrapping_Ensures _
                      (policy_Ensures (Having (HasUser password) (bucket_names req))))
                    (λ w k. k)
                    (λ u w (policy, ((p, spared), all)).
                      ((password, known, p, all, policy), spared))
                    (λ w ((p, spared), all). spared)

    -- For a Kubernetes and a MinIO that do what they are documented to do: after a request that returns no
    -- error its user has the password of the request, all its buckets are there, and the user's policy
    -- is the text of statements that allow to list all buckets, everything with the buckets of the
    -- request and, if the request allows it, with those of its namespace's prefix, and no more.
    -- Whatever it returns, no bucket is lost, and every other user has the password that it had.
    pub create_or_update_minio_request-IsServed :
        Post
          (λ u w. IsServed w × On view Spared w)
          (On view Spared)
          (create_or_update_minio_request platform req s)
    create_or_update_minio_request-IsServed = create_Ensures.run s ((λ b e. e), λ n ne. refl)

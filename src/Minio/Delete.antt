-- ===== src/Minio/Delete.antt =====
-- What MinIO has after a request was deleted.
use tapr.Base.{
  String, ◌<>◌, Bool, true, false, ◌&&◌, ◌||◌, none, List, [], ◌∷◌, ◌≡◌, ◌≢◌, refl, sym, ap, ◌∙◌,
  ◌⊎◌, inl, inr, All, All-contains, contains, string_eq, starts_with,
}
use tapr.Base.Effect.{
  failure, Result, ok, err, Eff, pure, ignoring, Post, Ensures, Ensures->>=, Ensures-catching,
  Ensures-pure, Ensures-fail, Ensures-told, Ensures-weaken, Ensures-kept, Ensures-if, for_each,
}
use tapr.Backup.Services.{always, read_key}
use tapr.Requests.Missing.{NotFound, NotFound-pure, missing-Post}
use tapr.Minio.{
  find_minio_admin_user, MinioRequest, MinioPlatform, bucket_names, policy_name, remove_listed,
  remove_all_objects_in_bucket, delete_bucket, delete_if_prefixed, delete_prefixed,
  delete_minio_user, delete_with_admin, delete_minio_request,
}
use tapr.Minio.Laws.{
  Contents, View, IsMinio, On, Quiet-On, wrapping_Ensures, describing_Ensures,
  find_minio_admin_user-On, connect_both-On,
}

-- A bucket that the request names, or that its namespace's prefix claims.
abbrev pub is_target : MinioRequest → String → Bool
is_target req b =
    contains (bucket_names req) b
    || (req.allow_namespace_buckets && starts_with b (req.app_namespace <> "-"))

module _ {W : Type 0} (view : View W) (platform : MinioPlatform W) (laws : IsMinio view platform)
    (req : MinioRequest) (s : W) where
  -- The other buckets are there or not as they were, and other users keep their passwords.
  abbrev pub Spared : Contents → Type 0
  Spared c =
      ((b : String) → is_target req b ≡ false → c.has_bucket b ≡ (view.contents s).has_bucket b)
      × ((n : String) → n ≢ req.user → c.password n ≡ (view.contents s).password n)

  abbrev Keeps : {A : Type 0} → Eff W A → Type 0
  Keeps m = Ensures (On view Spared) m (λ a. On view Spared) (On view Spared)

  is_other : (b c : String) → is_target req b ≡ true → is_target req c ≡ false → c ≢ b
  is_other b c t f e = absurd (false_true (sym f ∙ ap (is_target req) e ∙ t))
    where
      false_true : false ≡ true → ⊥
      false_true h = cc

  removed_Spared :
      (b : String)
      → is_target req b ≡ true
      → (w : W) → On view Spared w
      → On view Spared (platform.remove_bucket b w).0
  removed_Spared b t w (h, k) = (
    (λ c f. rw (laws.remove_bucket_others b c w (is_other b c t f)) (h c f)),
    λ n ne. rw (laws.remove_bucket_users b w) (k n ne),
  )

  ignored :
      {A : Type 0} {m : Eff W A} {n : Eff W (Unit {0})} → Keeps m → Keeps n → Keeps (ignoring m n)
  ignored h k = Ensures-catching h (λ a. k) (λ e. k)

  skip : Keeps (pure tt)
  skip = Ensures-pure (λ w k. k)

  remove_listed-Spared : (b : String) (o : Result String) → Keeps (remove_listed platform b o)
  unfolding remove_listed
  remove_listed-Spared b (ok key) =
      ignored (Quiet-On view Spared (laws.remove_object_quiet b key)) skip
  remove_listed-Spared b (err e) = Ensures-fail (λ w k. k)

  remove_each-Spared :
      (b : String) (os : List (Result String)) → Keeps (for_each (remove_listed platform b) os)
  unfolding for_each
  remove_each-Spared b [] = skip
  remove_each-Spared b (o ∷ os) =
      Ensures->>= (remove_listed-Spared b o) (λ u. remove_each-Spared b os)

  objects_Spared : (b : String) → Keeps (remove_all_objects_in_bucket platform b)
  unfolding remove_all_objects_in_bucket
  objects_Spared b =
      Ensures->>= {m = always (platform.list_objects b)}
        (Ensures-kept (On view Spared) (λ w k. rw (laws.list_objects_quiet b w) k))
        (remove_each-Spared b)

  delete_bucket-Spared : (b : String) → is_target req b ≡ true → Keeps (delete_bucket platform b)
  unfolding delete_bucket
  delete_bucket-Spared b t = ignored (objects_Spared b) (
      ignored {m = platform.remove_bucket b} (Ensures-kept (On view Spared) (removed_Spared b t))
        skip)

  delete_each-Spared :
      (bs : List String)
      → All (λ b. contains (bucket_names req) b ≡ true) bs
      → Keeps (for_each (delete_bucket platform) bs)
  unfolding for_each
  delete_each-Spared [] h = skip
  delete_each-Spared (b ∷ bs) (t, h) =
      Ensures->>= (delete_bucket-Spared b (rw t refl)) (λ u. delete_each-Spared bs h)

  or_true : (x : Bool) → (x || true) ≡ true
  or_true true = refl
  or_true false = refl

  if_prefixed-Spared :
      req.allow_namespace_buckets ≡ true
      → (b : String) → Keeps (delete_if_prefixed platform (req.app_namespace <> "-") b)
  unfolding delete_if_prefixed
  if_prefixed-Spared allowed b =
      Ensures-if (starts_with b (req.app_namespace <> "-"))
        (λ e. delete_bucket-Spared b (targeted e)) (λ e. skip)
    where
      targeted : starts_with b (req.app_namespace <> "-") ≡ true → is_target req b ≡ true
      targeted e = simp (allowed, e) (or_true (contains (bucket_names req) b))

  each_prefixed-Spared :
      req.allow_namespace_buckets ≡ true
      → (bs : List String)
      → Keeps (for_each (delete_if_prefixed platform (req.app_namespace <> "-")) bs)
  unfolding for_each
  each_prefixed-Spared allowed [] = skip
  each_prefixed-Spared allowed (b ∷ bs) =
      Ensures->>= (if_prefixed-Spared allowed b) (λ u. each_prefixed-Spared allowed bs)

  delete_prefixed-Spared : Keeps (delete_prefixed platform req)
  unfolding delete_prefixed
  delete_prefixed-Spared =
      Ensures-if req.allow_namespace_buckets
        (λ allowed.
          Ensures-catching (Quiet-On view Spared laws.list_buckets_quiet)
            (each_prefixed-Spared allowed) (λ e. skip))
        (λ e. skip)

  abbrev pub Gone : W → Type 0
  Gone w = (view.contents w).password req.user ≡ none

  removed_user : (w : W) → On view Spared w → On view Spared (platform.remove_user req.user w).0
  removed_user w (h, k) = (
    (λ c f. rw (laws.remove_user_buckets req.user w) (h c f)),
    λ n ne. rw (laws.remove_user_others req.user n w ne) (k n ne),
  )

  delete_user-Ensures :
      Ensures
        (On view Spared)
        (delete_minio_user platform req.user)
        (λ u w. Gone w × On view Spared w)
        (On view Spared)
  unfolding delete_minio_user
  delete_user-Ensures =
      Ensures->>=
        (describing_Ensures _ (
          Ensures-told
            {Q = λ users w. (contains users req.user ≡ false → Gone w) × On view Spared w}
            (λ w t users k e.
              let same : view.contents t ≡ view.contents w = rw e at (laws.list_users_quiet w) in
              ((λ f. rw same (laws.list_users_tells req.user w t users e f)), rw same k))
            (λ w k. rw (laws.list_users_quiet w) k)))
        λ users.
          Ensures-if (contains users req.user)
            (λ yes. describing_Ensures _ (
              Ensures-told
                (λ w t u (f, k) e.
                  (laws.remove_user_removes req.user w t e, rw e at (removed_user w k)))
                (λ w (f, k). removed_user w k)))
            (λ no. Ensures-pure (λ w (f, k). (f no, k)))

  delete_with_admin-Ensures :
      (admin : String × String)
      → Ensures
          (On view Spared)
          (delete_with_admin platform req admin)
          (λ u w. Gone w × On view Spared w)
          (On view Spared)
  unfolding delete_with_admin
  delete_with_admin-Ensures admin = Ensures->>= (connect_both-On view Spared laws admin) λ u.
      Ensures->>=
        (delete_each-Spared (bucket_names req)
          (All-contains (bucket_names req) (bucket_names req) (λ b e. e)))
        λ u. Ensures->>= delete_prefixed-Spared λ u.
          Ensures->>= (wrapping_Ensures _ delete_user-Ensures) λ u.
            Ensures-catching {m = platform.remove_canned_policy (policy_name req)}
              (Ensures-kept (λ w. Gone w × On view Spared w)
                (λ w (g, k).
                  let same : view.contents (platform.remove_canned_policy (policy_name req) w).0
                      ≡ view.contents w =
                    laws.remove_canned_quiet (policy_name req) w in
                  (rw same g, rw same k)))
              (λ u. Ensures-pure (λ w h. h)) (λ e. Ensures-pure (λ w h. h))

  -- Without the secret of the administrator nothing is done.
  abbrev pub Untouched : W → Type 0
  Untouched w = view.contents w ≡ view.contents s

  untouched : (w : W) → Untouched w → On view Spared w
  untouched w e = rw e ((λ b f. refl), λ n ne. refl)

  -- The secret of the administrator is not there.
  abbrev pub Unserved : Type 0
  Unserved = NotFound (platform.secret "minio-middleware" "minio-minio-account-root") s

  abbrev pub IsDone : W → Type 0
  IsDone w = Gone w ⊎ (Unserved × Untouched w)

  missing_admin : NotFound (find_minio_admin_user platform "minio-middleware") s → Unserved
  unfolding find_minio_admin_user
  missing_admin =
      NotFound-pure (platform.secret "minio-middleware" "minio-minio-account-root")
        (λ entries. (read_key "username" entries, read_key "password" entries)) s

  -- For a Kubernetes and a MinIO that do what they are documented to do: after a deletion that returns no
  -- error the user of the request is gone, or the secret of the administrator was not found, and
  -- then users and buckets are as they were. Whatever it returns, every bucket that the request does
  -- not name is as it was, except those that begin with its namespace and a dash if the request
  -- allows it, and every other user is.
  pub delete_minio_request-spares :
      Post
        (λ u w. IsDone w × On view Spared w)
        (On view Spared)
        (delete_minio_request platform req s)
  unfolding delete_minio_request
  delete_minio_request-spares =
      missing-Post (find_minio_admin_user platform "minio-middleware")
        (delete_with_admin platform req)
        (λ e. failure ("failed to find minio admin credentials: " <> e.text)) Untouched
        (λ w. IsDone w × On view Spared w) (On view Spared) s
        (find_minio_admin_user-On view (λ c. c ≡ view.contents s) laws _) refl
        (λ admin.
          Ensures-weaken (delete_with_admin-Ensures admin) untouched (λ u w (g, k). (inl g, k))
            (λ w k. k))
        (λ n w u. (inr (missing_admin n, u), untouched w u)) untouched

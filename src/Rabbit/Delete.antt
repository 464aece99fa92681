-- ===== src/Rabbit/Delete.antt =====
-- What RabbitMQ has after a request was deleted.
use tapr.Base.{String, Bool, true, List, [], ◌∷◌, ◌≡◌, refl, ◌∙◌, ◌⊎◌, inl, inr, All, nat_eq}
use tapr.Base.Effect.{ok, Post, Ensures, Ensures->>=, Ensures-kept, Ensures-weaken}
use tapr.Requests.Facts.{Holds, Kept, Stable, Kept-Stable, Holds-Stable, each_Ensures, each_Kept}
use tapr.Base.Dict.{Dict}
use tapr.Backup.Services.{read_key}
use tapr.Requests.Missing.{NotFound, NotFound->>=, missing-Post}
use tapr.Rabbit.{
  RabbitRequest, RabbitPlatform, vhost_names, new_rabbit_client, delete_rabbit_permissions,
  delete_rabbit_vhost, delete_rabbit_user, delete_with_permissions, delete_with_client,
  delete_rabbit_request,
}
use tapr.Rabbit.Laws.{
  RabbitFact, account, virtual_host, permission, says_removed, gone, IsRabbit, described_Ensures,
  removed_Ensures, Told-Ensures,
}

module _ {W : Type 0} (holds : W → RabbitFact → Bool) {platform : RabbitPlatform W}
    (laws : IsRabbit holds platform) where
  permissions_Ensures :
      (K : W → Type 0)
      → Stable (gone holds) K
      → (user v : String)
      → Ensures K
          (delete_rabbit_permissions platform user v)
          (λ u w. (gone holds w (permission v user) ≡ true) × K w)
          K
  unfolding delete_rabbit_permissions
  permissions_Ensures K stable user v =
      Ensures->>=
        (described_Ensures K _ (
          Told-Ensures K (gone holds) stable says_removed (permission v user)
            (laws.clear_drops v user).0 (laws.clear_drops v user).1))
        (removed_Ensures K (λ w. gone holds w (permission v user) ≡ true) _)

  vhost_Ensures :
      (K : W → Type 0)
      → Stable (gone holds) K
      → (v : String)
      → Ensures K
          (delete_rabbit_vhost platform v)
          (λ u w. (gone holds w (virtual_host v) ≡ true) × K w)
          K
  unfolding delete_rabbit_vhost
  vhost_Ensures K stable v =
      Ensures->>=
        (described_Ensures K _ (
          Told-Ensures K (gone holds) stable says_removed (virtual_host v)
            (laws.delete_vhost_drops v).0 (laws.delete_vhost_drops v).1))
        (removed_Ensures K (λ w. gone holds w (virtual_host v) ≡ true) _)

  user_Ensures :
      (K : W → Type 0)
      → Stable (gone holds) K
      → (user : String)
      → Ensures K
          (delete_rabbit_user platform user)
          (λ u w. (gone holds w (account user) ≡ true) × K w)
          K
  unfolding delete_rabbit_user
  user_Ensures K stable user =
      Ensures->>=
        (described_Ensures K _ (
          Told-Ensures K (gone holds) stable says_removed (account user)
            (laws.delete_user_drops user).0 (laws.delete_user_drops user).1))
        (removed_Ensures K (λ w. gone holds w (account user) ≡ true) _)

  abbrev pub vhost_facts : String → String → List RabbitFact
  vhost_facts user v = permission v user ∷ virtual_host v ∷ []

  turn :
      (user : String) (K : W → Type 0)
      → Stable (gone holds) K
      → (v : String) → Unit {0}
      → Ensures K
          (delete_with_permissions platform user v)
          (λ u w. Holds (gone holds) (vhost_facts user v) w × K w)
          K
  unfolding delete_with_permissions
  turn user K stable v z = Ensures->>= (permissions_Ensures K stable user v) λ u.
      Ensures-weaken
        (described_Ensures (λ w. Holds (gone holds) (permission v user ∷ []) w × K w) _
          (vhost_Ensures (λ w. Holds (gone holds) (permission v user ∷ []) w × K w)
            (Holds-Stable (gone holds) (permission v user ∷ []) K stable) v))
        (λ w (h, k). ((h, tt), k)) (λ u w (p, ((h, y), k)). ((h, (p, tt)), k)) (λ w ((h, y), k). k)

  module _ (req : RabbitRequest) (s : W) where
    abbrev pub IsGone : W → Type 0
    IsGone w =
        (gone holds w (account req.user) ≡ true)
        × All (λ v. Holds (gone holds) (vhost_facts req.user v) w) (vhost_names req)

    abbrev pub Untouched : W → Type 0
    Untouched w = holds w ≡ holds s

    All-Unit : (vs : List String) → All (λ v. Unit {0}) vs
    All-Unit [] = tt
    All-Unit (v ∷ vs) = (tt, All-Unit vs)

    untouched : (w : W) → Untouched w → Kept (gone holds) s w
    untouched w e f g = rw e g

    client_Ensures : Ensures Untouched (new_rabbit_client platform) (λ a. Untouched) Untouched
    unfolding new_rabbit_client
    client_Ensures =
        Ensures->>= {m = platform.secret "rabbitmq-middleware" "rabbitmq-rabbitmq-account-root"}
          (Ensures-kept Untouched (λ w k. laws.secret_quiet _ _ w ∙ k))
          (λ entries. Ensures-kept Untouched (λ w k. laws.connect_quiet _ _ w ∙ k))

    drop_Ensures :
        Ensures
          (Kept (gone holds) s)
          (delete_with_client platform req)
          (λ u w. IsGone w × Kept (gone holds) s w)
          (Kept (gone holds) s)
    unfolding delete_with_client
    drop_Ensures =
        Ensures->>=
          (each_Ensures (gone holds) (delete_with_permissions platform req.user)
            (vhost_facts req.user) (λ v. Unit {0}) (turn req.user) (Kept (gone holds) s)
            (Kept (gone holds) s) (Kept-Stable (gone holds) s) (λ w k. k) (vhost_names req)
            (All-Unit (vhost_names req)))
          λ u.
            Ensures-weaken (described_Ensures Rest _ (user_Ensures Rest rest_Stable req.user))
              (λ w k. k) (λ u w (h, (all, k)). ((h, all), k)) (λ w (all, k). k)
      where
        Rest : W → Type 0
        Rest w =
            All (λ v. Holds (gone holds) (vhost_facts req.user v) w) (vhost_names req)
            × Kept (gone holds) s w

        rest_Stable : Stable (gone holds) Rest
        rest_Stable v w k (all, l) = (
          each_Kept (gone holds) (vhost_facts req.user) (vhost_names req) v w k all,
          λ f e. k f (l f e),
        )

    -- The secret of the administrator is not there, or the client for it says that something is not.
    abbrev pub Unserved : Type 0
    Unserved =
        NotFound (platform.secret "rabbitmq-middleware" "rabbitmq-rabbitmq-account-root") s
        ⊎ ((v : W) × (entries : Dict String String) × (platform.secret "rabbitmq-middleware"
                "rabbitmq-rabbitmq-account-root" s
              ≡ (v, ok entries))
            × NotFound
                (platform.connect (read_key "username" entries) (read_key "password" entries)) v)

    abbrev pub IsDone : W → Type 0
    IsDone w = IsGone w ⊎ (Unserved × Untouched w)

    missing_admin : NotFound (new_rabbit_client platform) s → Unserved
    unfolding new_rabbit_client
    missing_admin =
        NotFound->>= (platform.secret "rabbitmq-middleware" "rabbitmq-rabbitmq-account-root")
          (λ entries. platform.connect (read_key "username" entries) (read_key "password" entries))
          s

    -- For a Kubernetes and a broker that do what they are documented to do: after a deletion from RabbitMQ
    -- that returns no error the user of the request, its virtual hosts and the user's permissions there
    -- are gone, or the secret of the administrator (or something for its client) was not found, and
    -- then nothing has changed. Whatever it returns, nothing has been added.
    pub delete_rabbit_request-IsGone :
        Post
          (λ u w. IsDone w × Kept (gone holds) s w)
          (Kept (gone holds) s)
          (delete_rabbit_request platform req s)
    unfolding delete_rabbit_request
    delete_rabbit_request-IsGone =
        missing-Post (new_rabbit_client platform) (λ u. delete_with_client platform req) (λ e. e)
          Untouched (λ w. IsDone w × Kept (gone holds) s w) (Kept (gone holds) s) s client_Ensures
          refl (λ u. Ensures-weaken drop_Ensures untouched (λ u w (g, k). (inl g, k)) (λ w k. k))
          (λ n w k. (inr (missing_admin n, k), untouched w k)) untouched

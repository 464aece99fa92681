-- ===== src/Rabbit/Create.antt =====
-- What RabbitMQ has after a request was created or updated.
use tapr.Base.{String, Bool, true, List, [], ◌∷◌, ◌≡◌, All, nat_eq}
use tapr.Base.Effect.{Eff, Post, Ensures, Ensures->>=, Ensures-kept, Ensures-weaken}
use tapr.Requests.Password.{get_var_value-Ensures}
use tapr.Requests.Facts.{Holds, Kept, Stable, Kept-Stable, Holds-Stable, each_Ensures}
use tapr.Rabbit.{
  RabbitRequest, RabbitPlatform, vhost_names, new_rabbit_client, create_or_update_rabbit_user,
  ensure_rabbit_vhost, set_rabbit_permissions, ensure_with_permissions,
  create_or_update_rabbit_request,
}
use tapr.Rabbit.Laws.{
  RabbitFact, account, virtual_host, permission, says_stored, Quiet, IsRabbit, described_Ensures,
  stored_Ensures, Told-Ensures,
}

module _ {W : Type 0} (holds : W → RabbitFact → Bool) {platform : RabbitPlatform W}
    (laws : IsRabbit holds platform) where
  vhost_Ensures :
      (K : W → Type 0)
      → Stable holds K
      → (v : String)
      → Ensures K
          (ensure_rabbit_vhost platform v)
          (λ u w. (holds w (virtual_host v) ≡ true) × K w)
          K
  unfolding ensure_rabbit_vhost
  vhost_Ensures K stable v =
      Ensures->>=
        (described_Ensures K _ (
          Told-Ensures K holds stable says_stored (virtual_host v) (laws.put_vhost_puts v).0
            (laws.put_vhost_puts v).1))
        (stored_Ensures K (λ w. holds w (virtual_host v) ≡ true) _)

  permissions_Ensures :
      (K : W → Type 0)
      → Stable holds K
      → (user v : String)
      → Ensures K
          (set_rabbit_permissions platform user v)
          (λ u w. (holds w (permission v user) ≡ true) × K w)
          K
  unfolding set_rabbit_permissions
  permissions_Ensures K stable user v =
      Ensures->>=
        (described_Ensures K _ (
          Told-Ensures K holds stable says_stored (permission v user)
            (laws.permissions_put v user).0 (laws.permissions_put v user).1))
        (stored_Ensures K (λ w. holds w (permission v user) ≡ true) _)

  user_Ensures :
      (K : W → Type 0)
      → Stable holds K
      → (user password : String)
      → Ensures K
          (create_or_update_rabbit_user platform user password)
          (λ u w. (holds w (account user) ≡ true) × K w)
          K
  unfolding create_or_update_rabbit_user
  user_Ensures K stable user password =
      Ensures->>=
        (Told-Ensures K holds stable says_stored (account user) (laws.put_user_puts user password).0
          (laws.put_user_puts user password).1)
        (stored_Ensures K (λ w. holds w (account user) ≡ true) _)

  abbrev pub vhost_facts : String → String → List RabbitFact
  vhost_facts user v = virtual_host v ∷ permission v user ∷ []

  turn :
      (user : String) (K : W → Type 0)
      → Stable holds K
      → (v : String) → Unit {0}
      → Ensures K
          (ensure_with_permissions platform user v)
          (λ u w. Holds holds (vhost_facts user v) w × K w)
          K
  unfolding ensure_with_permissions
  turn user K stable v z = Ensures->>= (vhost_Ensures K stable v) λ u.
      Ensures-weaken
        (permissions_Ensures (λ w. Holds holds (virtual_host v ∷ []) w × K w)
          (Holds-Stable holds (virtual_host v ∷ []) K stable) user v)
        (λ w (h, k). ((h, tt), k)) (λ u w (p, ((h, y), k)). ((h, (p, tt)), k)) (λ w ((h, y), k). k)

  module _ (req : RabbitRequest) (s : W) where
    abbrev pub IsServed : W → Type 0
    IsServed w =
        (holds w (account req.user) ≡ true)
        × All (λ v. Holds holds (vhost_facts req.user v) w) (vhost_names req)

    Quiet-Ensures :
        {A : Type 0} {m : Eff W A}
        → Quiet holds m
        → Ensures (Kept holds s) m (λ a. Kept holds s) (Kept holds s)
    Quiet-Ensures q = Ensures-kept (Kept holds s) (λ w k. rw (q w) k)

    client_Ensures :
        Ensures (Kept holds s) (new_rabbit_client platform) (λ a. Kept holds s) (Kept holds s)
    unfolding new_rabbit_client
    client_Ensures =
        Ensures->>= (Quiet-Ensures (laws.secret_quiet _ _))
          (λ entries. Quiet-Ensures (laws.connect_quiet _ _))

    All-Unit : (vs : List String) → All (λ v. Unit {0}) vs
    All-Unit [] = tt
    All-Unit (v ∷ vs) = (tt, All-Unit vs)

    create_Ensures :
        Ensures
          (Kept holds s)
          (create_or_update_rabbit_request platform req)
          (λ u w. IsServed w × Kept holds s w)
          (Kept holds s)
    unfolding create_or_update_rabbit_request
    create_Ensures = Ensures->>= client_Ensures λ u.
        Ensures->>=
          (get_var_value-Ensures (Kept holds s) platform.secret req.namespace req.password
            (λ name. Quiet-Ensures (laws.secret_quiet req.namespace name)))
          λ password.
            Ensures->>= (user_Ensures (Kept holds s) (Kept-Stable holds s) req.user password) λ u.
              Ensures-weaken
                (each_Ensures holds (ensure_with_permissions platform req.user)
                  (vhost_facts req.user) (λ v. Unit {0}) (turn req.user)
                  (λ w. (holds w (account req.user) ≡ true) × Kept holds s w) (Kept holds s)
                  (λ v w k (h, l). (k (account req.user) h, λ f e. k f (l f e))) (λ w (h, k). k)
                  (vhost_names req) (All-Unit (vhost_names req)))
                (λ w k. k) (λ u w (all, (h, k)). ((h, all), k)) (λ w k. k)

    -- For a Kubernetes and a broker that do what they are documented to do: after a request to RabbitMQ that
    -- returns no error its user, its virtual hosts and the user's permissions in each of them are there.
    -- Whatever it returns, nothing is lost.
    pub create_or_update_rabbit_request-IsServed :
        Post
          (λ u w. IsServed w × Kept holds s w)
          (Kept holds s)
          (create_or_update_rabbit_request platform req s)
    create_or_update_rabbit_request-IsServed = create_Ensures.run s (λ f e. e)

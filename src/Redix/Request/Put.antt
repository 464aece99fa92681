-- ===== src/Redix/Request/Put.antt =====
-- `createOrUpdateKVRocksRequest` against the table of namespaces.
use tapr.Base.{String, Bool, some, ◌≡◌, refl, ◌⊎◌, inl, inr}
use tapr.Base.Effect.{
  Result, ok, err, Eff, Post, Ensures, Ensures-weaken, Ensures-with, Ensures->>=,
}
use tapr.Backup.Services.{get_var_value}
use tapr.Redix.Request.{
  RedisRequest, RedixCluster, RedisPlatform, namespace_of, create_or_update_kvrocks_request,
}
use tapr.Redix.Request.Laws.{
  Table, IsKvRocks, Others, Same, get_var_value-Same, get_kvrocks_client-Same, get_namespace-Same,
}
use tapr.Redix.Request.Steps.{put_namespace-IsPut}

module _ {W : Type 0} (table : Table W) (platform : RedisPlatform W) where
  -- A value that the password of the request is read as, in a world that is left open.
  abbrev pub IsToken : RedisRequest → String → Type 0
  IsToken req token =
      (v : W) × (u : W) × (get_var_value platform.secret req.namespace req.password v
        ≡ (u, ok token))

  -- The request's namespace has the request's token, and the others are spared.
  abbrev pub IsServed : RedisRequest → Bool → W → W → Type 0
  IsServed req is_update s w =
      (token : String) × IsToken req token
      × (table w (namespace_of req) ≡ some token)
      × Others table (namespace_of req) token is_update s w

  -- A request that failed may have removed what it would have replaced.
  abbrev pub IsBroken : RedisRequest → Bool → W → W → Type 0
  IsBroken req is_update s w =
      Same table s w
      ⊎ ((token : String) × IsToken req token × Others table (namespace_of req) token is_update s w)

  module _ (kv : IsKvRocks table platform) (req : RedisRequest) (is_update : Bool) (s : W) where
    token-Post :
        (w u : W) (o : Result String)
        → get_var_value platform.secret req.namespace req.password w ≡ (u, o)
        → Post (λ token. Same table s) (Same table s) (u, o)
        → Post (λ token v. IsToken req token × Same table s v) (IsBroken req is_update s) (u, o)
    token-Post w u (ok token) e h = ((w, u, e), h)
    token-Post w u (err x) e h = inl h

    token-Ensures :
        Ensures
          (Same table s)
          (get_var_value platform.secret req.namespace req.password)
          (λ token v. IsToken req token × Same table s v)
          (IsBroken req is_update s)
    token-Ensures = record {
      run = λ w h.
          token-Post w (get_var_value platform.secret req.namespace req.password w).0
            (get_var_value platform.secret req.namespace req.password w).1 refl
            ((get_var_value-Same table platform kv s req.namespace req.password).run w h);
    }

    early :
        {A : Type 0} {P : W → Type 0} {Q : A → W → Type 0} {m : Eff W A}
        → Ensures P m Q (Same table s)
        → Ensures P m Q (IsBroken req is_update s)
    early h = Ensures-weaken h (λ w p. p) (λ a w q. q) (λ w r. inl r)

    create_or_update-Ensures :
        (cluster : RedixCluster)
        → Ensures
            (Same table s)
            (create_or_update_kvrocks_request platform req cluster is_update)
            (λ u. IsServed req is_update s)
            (IsBroken req is_update s)
    unfolding create_or_update_kvrocks_request
    create_or_update-Ensures cluster =
        Ensures->>= (early (get_kvrocks_client-Same table platform kv s cluster)) λ u.
          Ensures->>= token-Ensures λ token. Ensures-with λ known.
            Ensures->>= (early (get_namespace-Same table platform kv s (namespace_of req))) λ o.
              Ensures-weaken
                (put_namespace-IsPut table platform kv s (namespace_of req) token is_update o)
                (λ w h. h) (λ u w q. (token, known, q.0, q.1)) (λ w r. inr (token, known, r))

    -- For a KVRocks and a Kubernetes that do what they are documented to do: after a request that returns no
    -- error, its namespace has a token that its password is read as (in some world), and any other
    -- namespace is as it was, or was removed by an update since it had that token. After a failure, the
    -- table is as it was, or at most such namespaces were removed besides what befell the request's own.
    pub create_or_update_kvrocks_request-IsServed :
        (cluster : RedixCluster)
        → Post
            (λ u. IsServed req is_update s)
            (IsBroken req is_update s)
            (create_or_update_kvrocks_request platform req cluster is_update s)
    create_or_update_kvrocks_request-IsServed cluster =
        (create_or_update-Ensures cluster).run s refl

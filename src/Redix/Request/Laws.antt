-- ===== src/Redix/Request/Laws.antt =====
-- What a request leaves in the table of namespaces, against what KVRocks is documented to do.
use tapr.Base.{
  String, Bool, true, not, Option, none, some, List, ◌≡◌, ◌≢◌, ◌∙◌, ◌⊎◌, All, ◌==◌, string_eq,
  arith,
}
use tapr.Base.Effect.{
  Result, ok, err, Eff, Post, Ensures, Ensures-pure, Ensures-fail, Ensures-if, Ensures->>=,
}
use tapr.Backup.Types.{Password}
use tapr.Backup.Services.{read_from, get_var_value}
use tapr.Redix.Client.{KvNamespace, add_of, set_of, get_of, del_of, pairs_of, get_namespace}
use tapr.Redix.Request.{RedixCluster, RedisPlatform, get_kvrocks_client}

-- The token of each namespace.
abbrev pub Table : Type 0 → Type 0
Table W = W → String → Option String

pub same_text : (a b : String) → (a == b) ≡ true → a ≡ b
same_text a b h = ground arith

module _ {W : Type 0} (table : Table W) where
  abbrev pub Quiet : {A : Type 0} → Eff W A → Type 0
  Quiet m = (w : W) → table (m w).0 ≡ table w

  abbrev pub Spares : String → {A : Type 0} → Eff W A → Type 0
  Spares name m = (w : W) (n : String) → n ≢ name → table (m w).0 n ≡ table w n

  -- A command may also fail after it was carried out.
  pub record IsKvRocks (platform : RedisPlatform W) : Type 0 where
    pub secret_quiet : (a b : String) → Quiet (platform.secret a b)
    pub connect_quiet : (c : RedixCluster) (p : String) → Quiet (platform.connect c p)
    pub rewrite_quiet : Quiet platform.driver.config_rewrite
    pub get_quiet : (name : String) → Quiet (platform.driver.command (get_of name))
    pub list_pairs :
        (w u : W) (values : List String) (ns : List KvNamespace)
        → platform.driver.command (get_of "*") w ≡ (u, ok (some values))
        → pairs_of values ≡ some ns
        → All (λ n. table w n.name ≡ some n.token) ns
    pub add_spares :
        (name token : String) → Spares name (platform.driver.command (add_of name token))
    pub add_puts :
        (name token : String) (w u : W) (values : List String)
        → platform.driver.command (add_of name token) w ≡ (u, ok (some values))
        → table u name ≡ some token
    pub set_spares :
        (name token : String) → Spares name (platform.driver.command (set_of name token))
    pub set_puts :
        (name token : String) (w u : W) (values : List String)
        → platform.driver.command (set_of name token) w ≡ (u, ok (some values))
        → table u name ≡ some token
    pub del_spares : (name : String) → Spares name (platform.driver.command (del_of name))
    pub del_removes :
        (name : String) (w : W)
        → (table (platform.driver.command (del_of name) w).0 name ≡ table w name)
          ⊎ (table (platform.driver.command (del_of name) w).0 name ≡ none)

  -- Another namespace is as it was, or an update has removed it, since it had the same token.
  abbrev pub Others : String → String → Bool → W → W → Type 0
  Others name token is_update s w =
      (n : String)
      → n ≢ name
      → (table w n ≡ table s n)
        ⊎ ((table w n ≡ none) × (table s n ≡ some token) × (is_update ≡ true))

  abbrev pub Same : W → W → Type 0
  Same s w = table w ≡ table s

  module _ (platform : RedisPlatform W) (kv : IsKvRocks platform) (s : W) where
    pub Post-any : {A : Type 0} (P : W → Type 0) (o : W × Result A) → P o.0 → Post (λ a. P) P o
    Post-any P (w, ok a) h = h
    Post-any P (w, err e) h = h

    Quiet-Same : {A : Type 0} (m : Eff W A) → Quiet m → Ensures (Same s) m (λ a. Same s) (Same s)
    Quiet-Same m q = record { run = λ w h. Post-any (Same s) (m w) (q w ∙ h) }

    read_from-Same :
        (namespace : String) (o : Option (String × String))
        → Ensures (Same s) (read_from platform.secret namespace o) (λ a. Same s) (Same s)
    unfolding read_from
    read_from-Same namespace none = Ensures-fail (λ w h. h)
    read_from-Same namespace (some (name, key)) =
        Ensures->>= (Quiet-Same _ (kv.secret_quiet namespace name))
          λ entries. Ensures-pure (λ w h. h)

    pub get_var_value-Same :
        (namespace : String) (v : Password)
        → Ensures (Same s) (get_var_value platform.secret namespace v) (λ a. Same s) (Same s)
    unfolding get_var_value
    get_var_value-Same namespace v =
        Ensures-if (not (v.value == "")) (λ h. Ensures-pure (λ w k. k))
          λ h. read_from-Same namespace v.value_from

    pub get_kvrocks_client-Same :
        (cluster : RedixCluster)
        → Ensures (Same s) (get_kvrocks_client platform cluster) (λ a. Same s) (Same s)
    unfolding get_kvrocks_client
    get_kvrocks_client-Same cluster =
        Ensures->>= (get_var_value-Same cluster.namespace cluster.password)
          λ p. Quiet-Same _ (kv.connect_quiet cluster p)

    pub get_namespace-Same :
        (name : String)
        → Ensures (Same s) (get_namespace platform.driver name) (λ a. Same s) (Same s)
    unfolding get_namespace
    get_namespace-Same name =
        Ensures->>= (Quiet-Same _ (kv.get_quiet name)) λ r. Ensures-pure (λ w h. h)

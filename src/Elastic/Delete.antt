-- ===== src/Elastic/Delete.antt =====
-- What Elasticsearch has after a request was deleted.
use tapr.Base.{
  String, Bool, true, false, ◌&&◌, ◌||◌, ◌≡◌, ◌≢◌, ◌⊎◌, All, nat_eq, string_eq, contains,
}
use tapr.Base.Effect.{Eff, Ensures}
use tapr.Requests.Missing.{NotFound}
use tapr.Elastic.{
  elastic_namespace, ElasticRequest, ElasticPlatform, index_names, role_name, namespace_pattern,
}
use tapr.Elastic.Service.{Contents, View, IsElastic, On}
use tapr.Elastic.Removal.{account, index, definition, gone, IsDeleting}

-- An index that the request names, or that the pattern of its namespace claims.
abbrev pub is_target : (String → String → Bool) → ElasticRequest → String → Bool
is_target matches req i =
    contains (index_names req) i
    || (req.allow_namespace_indexes && matches (namespace_pattern req.app_namespace) i)

module _ {W : Type 0} (view : View W) {IsPlain : String → Type 0} {platform : ElasticPlatform W}
    (laws : IsElastic view IsPlain platform) (matches : String → String → Bool)
    (deleting : IsDeleting view matches platform) (req : ElasticRequest) where
  abbrev pub IsGone : W → Type 0
  IsGone w =
      (gone view w (account req.user) ≡ true)
      × (gone view w (definition (role_name req.user)) ≡ true)
      × All (λ i. gone view w (index i) ≡ true) (index_names req)

  abbrev Any : W → Type 0
  Any w = Unit

  HasGone : W → Type 0
  HasGone w =
      (gone view w (account req.user) ≡ true)
      × (gone view w (definition (role_name req.user)) ≡ true)

  module _ (s : W) where
    -- The other indexes are there or not as they were, and other users keep their passwords.
    abbrev pub Spared : Contents → Type 0
    Spared c =
        ((i : String)
          → is_target matches req i ≡ false
          → c.has_index i ≡ (view.contents s).has_index i)
        × ((n : String) → n ≢ req.user → c.password n ≡ (view.contents s).password n)

    abbrev Keeps : {A : Type 0} → Eff W A → Type 0
    Keeps m = Ensures (On view Spared) m (λ a. On view Spared) (On view Spared)

    -- Without the secret of the administrator nothing is done.
    abbrev pub Untouched : W → Type 0
    Untouched w = view.contents w ≡ view.contents s

    -- The secret of the administrator is not there.
    abbrev pub Unserved : Type 0
    Unserved = NotFound (platform.secret elastic_namespace "elasticsearch-mdit-account-elastic") s

    abbrev pub IsDone : W → Type 0
    IsDone w = IsGone w ⊎ (Unserved × Untouched w)

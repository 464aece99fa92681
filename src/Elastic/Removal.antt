-- ===== src/Elastic/Removal.antt =====
-- What deletions from Elasticsearch are documented to do, and the rules for them.
use tapr.Base.{
  String, Bool, true, false, not, ◌||◌, Option, none, some, List, [], ◌∷◌, ◌≡◌, ◌≢◌, refl, ap, ◌∙◌,
  All, ◌==◌, nat_eq, string_eq, contains, All-filter,
}
use tapr.Base.Http.{HttpReply}
use tapr.Base.Effect.{
  Result, ok, Eff, ◌>>=◌, Ensures, Ensures->>=, Ensures-catching, Ensures-pure, Ensures-fail,
  Ensures-told, Ensures-weaken, Ensures-with, Ensures-if, for_each, lift_Ensures,
}
use tapr.Requests.Facts.{Grows}
use tapr.Rabbit.Laws.{described_Ensures}
use tapr.Elastic.{
  ElasticRequest, ElasticPlatform, namespace_pattern, is_error, unless_error, unless_missing,
  listed_names, es_delete_index, es_list_indices, delete_named_index, delete_unseen,
  delete_namespace_indexes,
}
use tapr.Elastic.Service.{View}

-- What may be gone.
pub data ElasticFact : Type 0 where
  account : String → ElasticFact
  index : String → ElasticFact
  definition : String → ElasticFact

abbrev pub is_missing : {A : Type 0} → Option A → Bool
is_missing none = true
is_missing (some a) = false

abbrev pub says_removed : HttpReply (Unit {0}) → Bool
says_removed reply = reply.status == 404 || not (is_error reply)

module _ {W : Type 0} (view : View W) where
  abbrev pub gone : W → ElasticFact → Bool
  gone w (account u) = is_missing ((view.contents w).password u)
  gone w (index i) = not ((view.contents w).has_index i)
  gone w (definition r) = is_missing (view.role w r)

  -- A call that brings nothing back, and has removed something if it is answered so.
  abbrev pub Drops : Eff W (HttpReply (Unit {0})) → ElasticFact → Type 0
  Drops m f =
      Grows gone m
      × ((w t : W) (reply : HttpReply (Unit {0}))
          → m w ≡ (t, ok reply)
          → says_removed reply ≡ true
          → gone t f ≡ true)

  -- What deletions are documented to do; `matches` says whether a pattern fits a name.
  pub record IsDeleting (matches : String → String → Bool) (platform : ElasticPlatform W)
      : Type 0 where
    pub user_drops : (u : String) → Drops (platform.delete_user u) (account u)
    pub role_drops : (r : String) → Drops (platform.delete_role r) (definition r)
    pub index_drops : (i : String) → Drops (platform.delete_index i) (index i)
    pub cat_grows : (p : String) → Grows gone (platform.cat_indices p)
    pub cat_quiet :
        (p : String) (w : W) → view.contents (platform.cat_indices p w).0 ≡ view.contents w
    pub cat_tells :
        (p : String) (w t : W) (reply : HttpReply (Result (List String))) (names : List String)
        → platform.cat_indices p w ≡ (t, ok reply)
        → reply.value ≡ ok names
        → All (λ n. matches p n ≡ true) names
    pub role_quiet :
        (r : String) (w : W) → view.contents (platform.delete_role r w).0 ≡ view.contents w
    pub user_indexes :
        (u : String) (w : W)
        → (view.contents (platform.delete_user u w).0).has_index ≡ (view.contents w).has_index
    pub user_others :
        (u n : String) (w : W)
        → n ≢ u
        → (view.contents (platform.delete_user u w).0).password n ≡ (view.contents w).password n
    pub index_users :
        (i : String) (w : W)
        → (view.contents (platform.delete_index i w).0).password ≡ (view.contents w).password
    pub index_others :
        (i j : String) (w : W)
        → j ≢ i
        → (view.contents (platform.delete_index i w).0).has_index j ≡ (view.contents w).has_index j

pub or_second : (a : Bool) → (a || true) ≡ true
or_second true = refl
or_second false = refl

-- A deletion whose status is looked at.
abbrev pub Told : {W : Type 0} → (W → Type 0) → (W → Type 0) → HttpReply (Unit {0}) → W → Type 0
Told Fact L reply w = (says_removed reply ≡ true → Fact w) × L w

module _ {W : Type 0} (K Fact L : W → Type 0) {m : Eff W (HttpReply (Unit {0}))} where
  pub Told-Ensures :
      ((w t : W) (reply : HttpReply (Unit {0}))
        → m w ≡ (t, ok reply)
        → says_removed reply ≡ true
        → Fact t)
      → ((w : W) → K w → L (m w).0)
      → Ensures K m (Told Fact L) L
  Told-Ensures tells kept =
      Ensures-told (λ w t reply k e. (tells w t reply e, rw e at (kept w k))) kept

  pub deleted_Ensures :
      (text : String)
      → Ensures K m (Told Fact L) L
      → Ensures K (m >>= unless_missing text) (λ u w. Fact w × L w) L
  unfolding unless_missing unless_error
  deleted_Ensures text told = Ensures->>= told λ reply.
      Ensures-if (reply.status == 404)
        (λ e. Ensures-pure (λ w (f, l). (f (ap (λ b. b || not (is_error reply)) e), l)))
        (λ e.
          Ensures-if (is_error reply) (λ bad. Ensures-fail (λ w (f, l). l))
            (λ good. Ensures-pure (λ w (f, l). (
              f (ap (λ b. (reply.status == 404) || not b) good ∙ or_second (reply.status == 404)),
              l,
            ))))

-- The loops over the indexes keep what the deletion of one index keeps.
module _ {W : Type 0} (platform : ElasticPlatform W) (K : W → Type 0) (P : String → Type 0)
    (turn : (i : String) → P i → Ensures K (es_delete_index platform i) (λ u. K) K) where
  unseen_Ensures :
      (seen names : List String)
      → All P names
      → Ensures K (delete_unseen platform seen names) (λ u. K) K
  unfolding delete_unseen
  unseen_Ensures seen [] h = Ensures-pure (λ w k. k)
  unseen_Ensures seen (n ∷ ns) (p, h) =
      Ensures-if (contains seen n) (λ e. unseen_Ensures seen ns h)
        (λ e.
          Ensures-catching (turn n p) (λ u. unseen_Ensures (n ∷ seen) ns h)
            (λ x. unseen_Ensures (n ∷ seen) ns h))

  pub named_Ensures :
      (names : List String)
      → All P names
      → Ensures K (for_each (delete_named_index platform) names) (λ u. K) K
  unfolding for_each delete_named_index
  named_Ensures [] h = Ensures-pure (λ w k. k)
  named_Ensures (n ∷ ns) (p, h) =
      Ensures->>= (described_Ensures K _ (turn n p)) (λ u. named_Ensures ns h)

  -- The listing, if all that it lists is `P`.
  pub namespace_Ensures :
      (req : ElasticRequest)
      → ((w : W) → K w → K (platform.cat_indices (namespace_pattern req.app_namespace) w).0)
      → ((w t : W) (reply : HttpReply (Result (List String))) (names : List String)
          → platform.cat_indices (namespace_pattern req.app_namespace) w ≡ (t, ok reply)
          → reply.value ≡ ok names
          → req.allow_namespace_indexes ≡ true
          → All P names)
      → Ensures K (delete_namespace_indexes platform req) (λ u. K) K
  unfolding delete_namespace_indexes es_list_indices listed_names
  namespace_Ensures req kept tells =
      Ensures-if req.allow_namespace_indexes
        (λ allowed.
          Ensures-catching (listing allowed) (λ names. Ensures-with (unseen_Ensures [] names))
            (λ e. Ensures-pure (λ w k. k)))
        (λ e. Ensures-pure (λ w k. k))
    where
      Listed : HttpReply (Result (List String)) → Type 0
      Listed reply = (names : List String) → reply.value ≡ ok names → All P names

      listing :
          req.allow_namespace_indexes ≡ true
          → Ensures K
              (es_list_indices platform (namespace_pattern req.app_namespace))
              (λ names w. All P names × K w)
              K
      listing allowed =
          Ensures->>=
            (Ensures-told {Q = λ reply w. Listed reply × K w}
              (λ w t reply k e.
                ((λ names v. tells w t reply names e v allowed), rw e at (kept w k)))
              kept)
            λ reply.
              Ensures-if (reply.status == 404) (λ e. Ensures-pure (λ w (l, k). (tt, k)))
                (λ e.
                  Ensures-if (is_error reply) (λ bad. Ensures-fail (λ w (l, k). k))
                    (λ good.
                      Ensures->>=
                        (Ensures-weaken (lift_Ensures {P = λ w. Listed reply × K w} reply.value)
                          (λ w k. k) (λ names w h. h) (λ w (l, k). k))
                        λ names.
                          Ensures-pure (λ w (v, (l, k)). (All-filter P _ names (l names v), k))))

-- ===== src/Redix/Request/Steps.antt =====
-- What the commands of a request leave in the table of namespaces.
use tapr.Base.{
  String, Bool, true, Option, none, some, List, [], ◌∷◌, ◌≡◌, refl, ap, ◌∙◌, inl, inr, All, ◌==◌,
  string_eq,
}
use tapr.Base.Effect.{
  Result, ok, err, Eff, chain, Post, Ensures, Ensures-weaken, Ensures-pure, Ensures-fail,
  Ensures-if, Ensures-with, Ensures-catching, Ensures->>=, for_each,
}
use tapr.Redix.Client.{
  KvNamespace, add_of, set_of, get_of, del_of, pairs_of, is_reply, all_pairs, from_listing, checked,
  rewriting, add_namespace, update_namespace, delete_namespace, list_namespace,
}
use tapr.Redix.Request.{
  RedisPlatform, delete_if_token, delete_with_token, create_namespace, put_namespace,
}
use tapr.Redix.Request.Laws.{Table, Quiet, Spares, IsKvRocks, Others, Same, Post-any, same_text}

module _ {W : Type 0} (table : Table W) (platform : RedisPlatform W) (kv : IsKvRocks table platform)
    (s : W) (name token : String) (is_update : Bool) where
  abbrev pub Left : W → Type 0
  Left = Others table name token is_update s

  Quiet-Left : {A : Type 0} (m : Eff W A) → Quiet table m → Ensures Left m (λ a. Left) Left
  Quiet-Left m q = record {
    run = λ w h. Post-any table platform kv s Left (m w) (λ n ne. rw (q w) (h n ne));
  }

  -- A command that puts the token, where its reply is not nil.
  abbrev PutsBy : List String → Type 0
  PutsBy args =
      Spares table name (platform.driver.command args)
      × ((w u : W) (values : List String)
          → platform.driver.command args w ≡ (u, ok (some values))
          → table u name ≡ some token)

  abbrev pub IsPut : W → Type 0
  IsPut w = (table w name ≡ some token) × Left w

  abbrev Replied : Option (List String) → W → Type 0
  Replied none w = Left w
  Replied (some values) w = IsPut w

  puts-Post :
      (args : List String) (w u : W) (o : Result (Option (List String)))
      → PutsBy args
      → platform.driver.command args w ≡ (u, o)
      → Left u
      → Post Replied Left (u, o)
  puts-Post args w u (ok none) p e h = h
  puts-Post args w u (ok (some values)) p e h = (p.1 w u values e, h)
  puts-Post args w u (err x) p e h = h

  puts-Replied :
      (args : List String) → PutsBy args → Ensures Left (platform.driver.command args) Replied Left
  puts-Replied args p = record {
    run = λ w h.
        puts-Post args w (platform.driver.command args w).0 (platform.driver.command args w).1 p
          refl (λ n ne. rw (p.0 w n ne) (h n ne));
  }

  reply-IsPut : (r : Option (List String)) → Ensures (Replied r) (is_reply r) (λ u. IsPut) Left
  reply-IsPut none = Ensures-fail (λ w h. h)
  reply-IsPut (some values) = Ensures-pure (λ w h. h)

  rewrite-IsPut : Ensures IsPut platform.driver.config_rewrite (λ u. IsPut) Left
  rewrite-IsPut = record {
    run = λ w h.
        Post-put (platform.driver.config_rewrite w) (rw (kv.rewrite_quiet w) h.0)
          (λ n ne. rw (kv.rewrite_quiet w) (h.1 n ne));
  }
    where
      Post-put :
          (o : W × Result (Unit {0}))
          → table o.0 name ≡ some token
          → Left o.0
          → Post (λ u. IsPut) Left o
      Post-put (w, ok u) a b = (a, b)
      Post-put (w, err x) a b = b

  rewriting-IsPut :
      (args : List String)
      → PutsBy args
      → Ensures Left (rewriting platform.driver args) (λ u. IsPut) Left
  unfolding rewriting checked
  rewriting-IsPut args p =
      Ensures->>= (Ensures->>= (puts-Replied args p) reply-IsPut) (λ u. rewrite-IsPut)

  -- The removal of a namespace that has the token.
  removed-Left :
      (m : String) (w : W)
      → is_update ≡ true
      → table s m ≡ some token
      → Left w
      → Left (platform.driver.command (del_of m) w).0
  removed-Left m w up t h n ne = elim (string_eq.dec n m) [
    | yes p ↦ elim (kv.del_removes m w) [
      | inl same ↦ rw p (rw same (rw p at (h n ne)))
      | inr gone ↦ inr (rw p gone, rw p t, up)
    ]
    | no p ↦ rw (kv.del_spares m w n p) (h n ne)
  ]

  reply-Left : (r : Option (List String)) → Ensures Left (is_reply r) (λ u. Left) Left
  reply-Left none = Ensures-fail (λ w h. h)
  reply-Left (some values) = Ensures-pure (λ w h. h)

  delete_namespace-Left :
      (m : String)
      → is_update ≡ true
      → table s m ≡ some token
      → Ensures Left (delete_namespace platform.driver m) (λ u. Left) Left
  unfolding delete_namespace rewriting checked
  delete_namespace-Left m up t =
      Ensures->>=
        (Ensures->>=
          (record {
            run = λ w h.
                Post-any table platform kv s Left (platform.driver.command (del_of m) w)
                  (removed-Left m w up t h);
          })
          reply-Left)
        λ u. Quiet-Left platform.driver.config_rewrite kv.rewrite_quiet

  abbrev Known : List KvNamespace → Type 0
  Known ns = All (λ n. table s n.name ≡ some n.token) ns

  delete_if_token-Left :
      (n : KvNamespace)
      → is_update ≡ true
      → table s n.name ≡ some n.token
      → Ensures Left (delete_if_token platform token n) (λ u. Left) Left
  unfolding delete_if_token
  delete_if_token-Left n up t =
      Ensures-if (n.token == token)
        (λ e.
          Ensures-catching
            (delete_namespace-Left n.name up (t ∙ ap some (same_text n.token token e)))
            (λ u. Ensures-pure (λ w h. h)) λ x. Ensures-pure (λ w h. h))
        λ e. Ensures-pure (λ w h. h)

  delete_each-Left :
      (ns : List KvNamespace)
      → is_update ≡ true
      → Known ns
      → Ensures Left (for_each (delete_if_token platform token) ns) (λ u. Left) Left
  unfolding for_each
  delete_each-Left [] up k = Ensures-pure (λ w h. h)
  delete_each-Left (n ∷ ns) up k =
      Ensures->>= (delete_if_token-Left n up k.0) (λ u. delete_each-Left ns up k.1)

  pairs-Post :
      (w u : W) (values : List String) (o : Option (List KvNamespace))
      → pairs_of values ≡ o
      → platform.driver.command (get_of "*") w ≡ (u, ok (some values))
      → Same table s w
      → Same table s u
      → Post (λ ns v. Known ns × Same table s v) (Same table s) (all_pairs o u)
  pairs-Post w u values none p e h k = k
  pairs-Post w u values (some ns) p e h k = (rw h at (kv.list_pairs w u values ns e p), k)

  from_listing-Post :
      (w u : W) (o : Result (Option (List String)))
      → platform.driver.command (get_of "*") w ≡ (u, o)
      → Same table s w
      → Same table s u
      → Post (λ ns v. Known ns × Same table s v) (Same table s) (chain (u, o) (λ r. from_listing r))
  from_listing-Post w u (err x) e h k = k
  from_listing-Post w u (ok none) e h k = (tt, k)
  from_listing-Post w u (ok (some values)) e h k =
      pairs-Post w u values (pairs_of values) refl e h k

  list_namespace-Known :
      Ensures
        (Same table s)
        (list_namespace platform.driver)
        (λ ns v. Known ns × Same table s v)
        (Same table s)
  unfolding list_namespace
  list_namespace-Known = record {
    run = λ w h.
        from_listing-Post w (platform.driver.command (get_of "*") w).0
          (platform.driver.command (get_of "*") w).1 refl h (kv.get_quiet "*" w ∙ h);
  }

  Same-Left : (w : W) → Same table s w → Left w
  Same-Left w h n ne = inl (rw h refl)

  -- Where a failure has changed nothing.
  loosely :
      {A : Type 0} {P : W → Type 0} {Q : A → W → Type 0} {m : Eff W A}
      → Ensures P m Q (Same table s)
      → Ensures P m Q Left
  loosely h = Ensures-weaken h (λ w p. p) (λ a w q. q) Same-Left

  delete_with_token-Left :
      is_update ≡ true → Ensures (Same table s) (delete_with_token platform token) (λ u. Left) Left
  unfolding delete_with_token
  delete_with_token-Left up = Ensures->>= (loosely list_namespace-Known) λ ns.
      Ensures-with
        λ known. Ensures-weaken (delete_each-Left ns up known) Same-Left (λ u w q. q) (λ w r. r)

  add_namespace-IsPut : Ensures Left (add_namespace platform.driver name token) (λ u. IsPut) Left
  unfolding add_namespace
  add_namespace-IsPut =
      rewriting-IsPut (add_of name token) (kv.add_spares name token, kv.add_puts name token)

  pub put_namespace-IsPut :
      (o : Option KvNamespace)
      → Ensures (Same table s) (put_namespace platform name token is_update o) (λ u. IsPut) Left
  unfolding put_namespace create_namespace update_namespace
  put_namespace-IsPut none =
      Ensures->>= (Ensures-if is_update delete_with_token-Left (λ e. Ensures-pure Same-Left))
        λ u. add_namespace-IsPut
  put_namespace-IsPut (some n) =
      Ensures-weaken
        (rewriting-IsPut (set_of name token) (kv.set_spares name token, kv.set_puts name token))
        Same-Left (λ u w q. q) (λ w r. r)

-- ===== src/Rabbit/Laws.antt =====
-- What RabbitMQ is documented to do, and what it has after a request.
use tapr.Base.{String, Bool, true, false, not, ◌||◌, ◌≡◌, refl, ap, ◌∙◌, ◌==◌, nat_eq}
use tapr.Base.Http.{HttpReply}
use tapr.Base.Effect.{
  ok, Eff, Ensures, Ensures-catching, Ensures-pure, Ensures-fail, Ensures-told, Ensures-if,
}
use tapr.Requests.Facts.{Grows, Stable}
use tapr.Rabbit.{RabbitPlatform, stored, removed, described}

-- What there may be in a broker.
pub data RabbitFact : Type 0 where
  account : String → RabbitFact
  virtual_host : String → RabbitFact
  permission : String → String → RabbitFact

-- The statuses by which the broker says that something is there, or gone.
abbrev pub says_stored : HttpReply (Unit {0}) → Bool
says_stored reply = reply.status == 201 || reply.status == 204

abbrev pub says_removed : HttpReply (Unit {0}) → Bool
says_removed reply = reply.status == 404 || reply.status == 204

module _ {W : Type 0} (holds : W → RabbitFact → Bool) where
  abbrev pub gone : W → RabbitFact → Bool
  gone w f = not (holds w f)

  abbrev pub Quiet : {A : Type 0} → Eff W A → Type 0
  Quiet m = (w : W) → holds (m w).0 ≡ holds w

  -- What a request has done if it is answered with a status of success.
  abbrev pub Puts : Eff W (HttpReply (Unit {0})) → RabbitFact → Type 0
  Puts m f =
      Grows holds m
      × ((w t : W) (reply : HttpReply (Unit {0}))
          → m w ≡ (t, ok reply)
          → says_stored reply ≡ true
          → holds t f ≡ true)

  abbrev pub Drops : Eff W (HttpReply (Unit {0})) → RabbitFact → Type 0
  Drops m f =
      Grows gone m
      × ((w t : W) (reply : HttpReply (Unit {0}))
          → m w ≡ (t, ok reply)
          → says_removed reply ≡ true
          → gone t f ≡ true)

  pub record IsRabbit (platform : RabbitPlatform W) : Type 0 where
    pub secret_quiet : (namespace name : String) → Quiet (platform.secret namespace name)
    pub connect_quiet : (user password : String) → Quiet (platform.connect user password)
    pub put_user_puts : (u p : String) → Puts (platform.put_user u p) (account u)
    pub put_vhost_puts : (v : String) → Puts (platform.put_vhost v) (virtual_host v)
    pub permissions_put : (v u : String) → Puts (platform.update_permissions v u) (permission v u)
    pub clear_drops : (v u : String) → Drops (platform.clear_permissions v u) (permission v u)
    pub delete_user_drops : (u : String) → Drops (platform.delete_user u) (account u)
    pub delete_vhost_drops : (v : String) → Drops (platform.delete_vhost v) (virtual_host v)

or_second : (a : Bool) → (a || true) ≡ true
or_second true = refl
or_second false = refl

-- A request whose status is looked at.
module _ {W : Type 0} (K : W → Type 0) where
  pub described_Ensures :
      {A : Type 0} {Q : A → W → Type 0} {R : W → Type 0} {m : Eff W A} (text : String)
      → Ensures K m Q R
      → Ensures K (described text m) Q R
  unfolding described
  described_Ensures text h =
      Ensures-catching h (λ a. Ensures-pure (λ s q. q)) (λ e. Ensures-fail (λ s r. r))

  abbrev pub Told : (HttpReply (Unit {0}) → Bool) → (W → Type 0) → HttpReply (Unit {0}) → W → Type 0
  Told says Fact reply w = (says reply ≡ true → Fact w) × K w

  pub stored_Ensures :
      (Fact : W → Type 0) (text : String) (reply : HttpReply (Unit {0}))
      → Ensures (Told says_stored Fact reply) (stored text reply) (λ u w. Fact w × K w) K
  unfolding stored
  stored_Ensures Fact text reply =
      Ensures-if (says_stored reply) (λ e. Ensures-pure (λ w (f, k). (f e, k)))
        (λ e. Ensures-fail (λ w (f, k). k))

  pub removed_Ensures :
      (Fact : W → Type 0) (text : String) (reply : HttpReply (Unit {0}))
      → Ensures (Told says_removed Fact reply) (removed text reply) (λ u w. Fact w × K w) K
  unfolding removed
  removed_Ensures Fact text reply =
      Ensures-if (reply.status == 404)
        (λ e. Ensures-pure (λ w (f, k). (f (ap (λ b. b || (reply.status == 204)) e), k)))
        (λ e.
          Ensures-if (reply.status == 204)
            (λ e'. Ensures-pure (λ w (f, k).
              (f (ap (λ b. (reply.status == 404) || b) e' ∙ or_second (reply.status == 404)), k)))
            (λ e'. Ensures-fail (λ w (f, k). k)))

  -- The request, where a condition stays that its facts do not spoil.
  module _ (holds : W → RabbitFact → Bool) (stable : Stable holds K)
      {m : Eff W (HttpReply (Unit {0}))} (says : HttpReply (Unit {0}) → Bool) (f : RabbitFact)
      (grows : Grows holds m)
      (makes : (w t : W) (reply : HttpReply (Unit {0}))
        → m w ≡ (t, ok reply)
        → says reply ≡ true
        → holds t f ≡ true) where
    pub Told-Ensures : Ensures K m (Told says (λ w. holds w f ≡ true)) K
    Told-Ensures =
        Ensures-told (λ w t reply k e. (makes w t reply e, rw e at (stable w (m w).0 (grows w) k)))
          (λ w k. stable w (m w).0 (grows w) k)

-- ===== src/Minio/Laws.antt =====
-- What MinIO is documented to do, and the rules for the calls.
use tapr.Base.{String, Bool, true, false, Option, none, some, List, ◌≡◌, ◌≢◌, contains, string_eq}
use tapr.Base.Effect.{
  ok, Eff, Ensures, Ensures->>=, Ensures-catching, Ensures-pure, Ensures-fail, Ensures-kept,
}
use tapr.Backup.Types.{Password}
use tapr.Backup.Services.{get_var_value}
use tapr.Requests.Password.{get_var_value-Ensures}
use tapr.Minio.{MinioPlatform, find_minio_admin_user, connect_both, wrapping, describing}

-- The buckets that there are, and the password of each user.
pub record Contents : Type 0 where
  pub has_bucket : String → Bool
  pub password : String → Option String

-- `canned` is the text of each policy, and `attached` the policy of each user.
pub record View (W : Type 0) : Type 0 where
  pub contents : W → Contents
  pub canned : W → String → Option String
  pub attached : W → String → Option String

module _ {W : Type 0} (view : View W) where
  abbrev pub Quiet : {A : Type 0} → Eff W A → Type 0
  Quiet m = (w : W) → view.contents (m w).0 ≡ view.contents w

  pub record IsMinio (platform : MinioPlatform W) : Type 0 where
    pub secret_quiet : (namespace name : String) → Quiet (platform.secret namespace name)
    pub connect_quiet : (a b c : String) → Quiet (platform.connect a b c)
    pub connect_admin_quiet : (a b c : String) → Quiet (platform.connect_admin a b c)
    pub list_users_quiet : Quiet platform.list_users
    pub bucket_exists_quiet : (b : String) → Quiet (platform.bucket_exists b)
    pub list_buckets_quiet : Quiet platform.list_buckets
    pub list_objects_quiet :
        (b : String) (w : W) → view.contents (platform.list_objects b w).0 ≡ view.contents w
    pub remove_object_quiet : (b key : String) → Quiet (platform.remove_object b key)
    pub add_canned_quiet : (n text : String) → Quiet (platform.add_canned_policy n text)
    pub set_policy_quiet : (n u : String) → Quiet (platform.set_policy n u)
    pub remove_canned_quiet : (n : String) → Quiet (platform.remove_canned_policy n)
    pub add_user_buckets :
        (u p : String) (w : W)
        → (view.contents (platform.add_user u p w).0).has_bucket ≡ (view.contents w).has_bucket
    pub add_user_others :
        (u p n : String) (w : W)
        → n ≢ u
        → (view.contents (platform.add_user u p w).0).password n ≡ (view.contents w).password n
    pub add_user_sets :
        (u p : String) (w t : W)
        → platform.add_user u p w ≡ (t, ok tt)
        → (view.contents t).password u ≡ some p
    pub make_bucket_users :
        (b : String) (w : W)
        → (view.contents (platform.make_bucket b w).0).password ≡ (view.contents w).password
    pub make_bucket_keeps :
        (b c : String) (w : W)
        → (view.contents w).has_bucket c ≡ true
        → (view.contents (platform.make_bucket b w).0).has_bucket c ≡ true
    pub make_bucket_makes :
        (b : String) (w t : W)
        → platform.make_bucket b w ≡ (t, ok tt)
        → (view.contents t).has_bucket b ≡ true
    pub bucket_exists_tells :
        (b : String) (w t : W)
        → platform.bucket_exists b w ≡ (t, ok true)
        → (view.contents w).has_bucket b ≡ true
    pub remove_bucket_users :
        (b : String) (w : W)
        → (view.contents (platform.remove_bucket b w).0).password ≡ (view.contents w).password
    pub remove_bucket_others :
        (b c : String) (w : W)
        → c ≢ b
        → (view.contents (platform.remove_bucket b w).0).has_bucket c
          ≡ (view.contents w).has_bucket c
    pub list_users_tells :
        (u : String) (w t : W) (users : List String)
        → platform.list_users w ≡ (t, ok users)
        → contains users u ≡ false
        → (view.contents w).password u ≡ none
    pub remove_user_buckets :
        (u : String) (w : W)
        → (view.contents (platform.remove_user u w).0).has_bucket ≡ (view.contents w).has_bucket
    pub remove_user_others :
        (u n : String) (w : W)
        → n ≢ u
        → (view.contents (platform.remove_user u w).0).password n ≡ (view.contents w).password n
    pub remove_user_removes :
        (u : String) (w t : W)
        → platform.remove_user u w ≡ (t, ok tt)
        → (view.contents t).password u ≡ none
    pub add_canned_sets :
        (n text : String) (w t : W)
        → platform.add_canned_policy n text w ≡ (t, ok tt)
        → view.canned t n ≡ some text
    pub set_policy_keeps :
        (n u : String) (w : W) → view.canned (platform.set_policy n u w).0 ≡ view.canned w
    pub set_policy_sets :
        (n u : String) (w t : W)
        → platform.set_policy n u w ≡ (t, ok tt)
        → view.attached t u ≡ some n

-- An error that is wrapped is still an error.
module _ {W A : Type 0} {P : W → Type 0} {Q : A → W → Type 0} {R : W → Type 0} {m : Eff W A}
    (text : String) (h : Ensures P m Q R) where
  pub wrapping_Ensures : Ensures P (wrapping text m) Q R
  unfolding wrapping
  wrapping_Ensures =
      Ensures-catching h (λ a. Ensures-pure (λ s q. q)) (λ e. Ensures-fail (λ s r. r))

  pub describing_Ensures : Ensures P (describing text m) Q R
  unfolding describing
  describing_Ensures =
      Ensures-catching h (λ a. Ensures-pure (λ s q. q)) (λ e. Ensures-fail (λ s r. r))

-- A condition on the contents is kept by a call that leaves them.
module _ {W : Type 0} (view : View W) (K : Contents → Type 0) where
  abbrev pub On : W → Type 0
  On w = K (view.contents w)

  pub Quiet-On : {A : Type 0} {m : Eff W A} → Quiet view m → Ensures On m (λ a. On) On
  Quiet-On q = Ensures-kept On (λ w k. rw (q w) k)

  module _ {platform : MinioPlatform W} (laws : IsMinio view platform) where
    pub get_var_value-On :
        (namespace : String) (p : Password)
        → Ensures On (get_var_value platform.secret namespace p) (λ a. On) On
    get_var_value-On namespace p =
        get_var_value-Ensures On platform.secret namespace p
          (λ name. Quiet-On (laws.secret_quiet namespace name))

    pub find_minio_admin_user-On :
        (namespace : String) → Ensures On (find_minio_admin_user platform namespace) (λ a. On) On
    unfolding find_minio_admin_user
    find_minio_admin_user-On namespace =
        Ensures->>= (Quiet-On (laws.secret_quiet namespace "minio-minio-account-root"))
          (λ d. Ensures-pure (λ s k. k))

    pub connect_both-On :
        (admin : String × String) → Ensures On (connect_both platform admin) (λ a. On) On
    unfolding connect_both
    connect_both-On (user, password) =
        Ensures->>= (wrapping_Ensures _ (Quiet-On (laws.connect_quiet _ user password)))
          (λ u. describing_Ensures _ (Quiet-On (laws.connect_admin_quiet _ user password)))

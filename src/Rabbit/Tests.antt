-- ===== src/Rabbit/Tests.antt =====
-- A broker that keeps a table of what there is, and the theorems at requests to it.
use tapr.Base.{
  Bool, true, false, not, ◌||◌, ◌&&◌, none, [], ◌∷◌, ◌≡◌, refl, sym, ap, ◌==◌, ==_refl, nat_eq,
  string_eq, arith,
}
use tapr.Base.Http.{HttpReply}
use tapr.Base.Effect.{Result, ok, Post}
use tapr.Requests.Facts.{Kept}
use tapr.Rabbit.{
  RabbitRequest, RabbitPlatform, create_or_update_rabbit_request, delete_rabbit_request,
}
use tapr.Rabbit.Laws.{
  RabbitFact, account, virtual_host, permission, gone, says_stored, says_removed, IsRabbit,
}
use tapr.Rabbit.Create
use tapr.Rabbit.Create.{create_or_update_rabbit_request-IsServed}
use tapr.Rabbit.Delete
use tapr.Rabbit.Delete.{delete_rabbit_request-IsGone}

abbrev World : Type 0
World = RabbitFact → Bool

abbrev holds : World → RabbitFact → Bool
holds w f = w f

abbrev same : RabbitFact → RabbitFact → Bool
same (account u) (account v) = u == v
same (virtual_host u) (virtual_host v) = u == v
same (permission u a) (permission v b) = (u == v) && (a == b)
same (account u) (virtual_host v) = false
same (account u) (permission v b) = false
same (virtual_host u) (account v) = false
same (virtual_host u) (permission v b) = false
same (permission u a) (account v) = false
same (permission u a) (virtual_host v) = false

same_refl : (f : RabbitFact) → same f f ≡ true
same_refl (account u) = ==_refl u
same_refl (virtual_host u) = ==_refl u
same_refl (permission u a) = rw (==_refl u) (==_refl a)

abbrev reply : Bool → HttpReply (Unit {0})
reply true = record { status = 204; body = ""; value = tt }
reply false = record { status = 404; body = "not found"; value = tt }

abbrev put : RabbitFact → World → World × Result (HttpReply (Unit {0}))
put f w = ((λ g. same f g || w g), ok (reply true))

abbrev drop : RabbitFact → World → World × Result (HttpReply (Unit {0}))
drop f w = ((λ g. not (same f g) && w g), ok (reply (w f)))

abbrev platform : RabbitPlatform World
platform = record {
  secret = λ namespace name w. (w, ok (("username", "root") ∷ ("password", "root") ∷ []));
  connect = λ user password w. (w, ok tt);
  put_user = λ u p. put (account u);
  put_vhost = λ v. put (virtual_host v);
  update_permissions = λ v u. put (permission v u);
  clear_permissions = λ v u. drop (permission v u);
  delete_user = λ u. drop (account u);
  delete_vhost = λ v. drop (virtual_host v);
}

or_right_true : (a b : Bool) → b ≡ true → (a || b) ≡ true
or_right_true a b e = ground arith

put_puts :
    (f : RabbitFact) (w t : World) (r : HttpReply (Unit {0}))
    → put f w ≡ (t, ok r)
    → says_stored r ≡ true
    → t f ≡ true
put_puts f w t r e good =
    let written : t ≡ (λ g. same f g || w g) =
      ap (λ (x : World × Result (HttpReply (Unit {0}))). x.0) (sym e) in
    rw written (rw (same_refl f) refl)

not_and : (a b : Bool) → not b ≡ true → not (not a && b) ≡ true
not_and a b e = ground arith

drop_drops :
    (f : RabbitFact) (w t : World) (r : HttpReply (Unit {0}))
    → drop f w ≡ (t, ok r)
    → says_removed r ≡ true
    → not (t f) ≡ true
drop_drops f w t r e good =
    let written : t ≡ (λ g. not (same f g) && w g) =
      ap (λ (x : World × Result (HttpReply (Unit {0}))). x.0) (sym e) in
    rw written (rw (same_refl f) refl)

laws : IsRabbit holds platform
laws = record {
  secret_quiet = λ namespace name w. refl;
  connect_quiet = λ user password w. refl;
  put_user_puts =
      λ u p. ((λ w f e. or_right_true (same (account u) f) (w f) e), put_puts (account u));
  put_vhost_puts =
      λ v. ((λ w f e. or_right_true (same (virtual_host v) f) (w f) e), put_puts (virtual_host v));
  permissions_put = λ v u.
      ((λ w f e. or_right_true (same (permission v u) f) (w f) e), put_puts (permission v u));
  clear_drops =
      λ v u. ((λ w f e. not_and (same (permission v u) f) (w f) e), drop_drops (permission v u));
  delete_user_drops =
      λ u. ((λ w f e. not_and (same (account u) f) (w f) e), drop_drops (account u));
  delete_vhost_drops =
      λ v. ((λ w f e. not_and (same (virtual_host v) f) (w f) e), drop_drops (virtual_host v));
}

abbrev request : RabbitRequest
request = record {
  namespace = "user-space-a";
  app_namespace = "app";
  user = "alice";
  password = record { value = "secret"; value_from = none };
  vhosts = "a" ∷ "b" ∷ [];
}

abbrev empty : World
empty f = false

create_or_update_rabbit_request-IsServed_example :
    Post
      (λ u w. Create.IsServed holds laws request empty w × Kept holds empty w)
      (Kept holds empty)
      (create_or_update_rabbit_request platform request empty)
create_or_update_rabbit_request-IsServed_example =
    create_or_update_rabbit_request-IsServed holds laws request empty

abbrev full : World
full f = true

delete_rabbit_request-IsGone_example :
    Post
      (λ u w. Delete.IsDone holds laws request full w × Kept (gone holds) full w)
      (Kept (gone holds) full)
      (delete_rabbit_request platform request full)
delete_rabbit_request-IsGone_example = delete_rabbit_request-IsGone holds laws request full

-- ===== src/Minio/Tests.antt =====
-- A MinIO with tables of buckets, users and policies, and the theorems at requests to it.
use tapr.Base.{
  String, Bool, true, false, Option, none, some, [], ◌∷◌, ◌≡◌, refl, ap, string_eq, contains, arith,
}
use tapr.Base.Dict.{
  Dict, keys, lookup, insert, erase, lookup-insert, lookup-insert_self, lookup-insert_other,
  lookup-erase_self, lookup-erase_other,
}
use tapr.Base.Effect.{failure, Result, ok, err, Post}
use tapr.Minio.{MinioRequest, MinioPlatform, create_or_update_minio_request, delete_minio_request}
use tapr.Minio.Laws.{View, IsMinio, On}
use tapr.Minio.Create
use tapr.Minio.Create.{create_or_update_minio_request-IsServed, IsServed}
use tapr.Minio.Delete
use tapr.Minio.Delete.{delete_minio_request-spares, IsDone}

record World : Type 0 where
  buckets : Dict String String
  users : Dict String String
  canned : Dict String String
  attached : Dict String String

abbrev is_there : Option String → Bool
is_there none = false
is_there (some v) = true

abbrev view : View World
view = record {
  contents = λ w. record {
    has_bucket = λ b. is_there (lookup b w.buckets);
    password = λ n. lookup n w.users;
  };
  canned = λ w n. lookup n w.canned;
  attached = λ w n. lookup n w.attached;
}

abbrev made : String → World → Option String → World × Result (Unit {0})
made b w none = (record w { buckets = insert b "" w.buckets }, ok tt)
made b w (some v) = (w, err (failure "BucketAlreadyOwnedByYou"))

abbrev platform : MinioPlatform World
platform = record {
  secret = λ namespace name w. (w, ok (("username", "root") ∷ ("password", "root") ∷ []));
  connect = λ a b c w. (w, ok tt);
  connect_admin = λ a b c w. (w, ok tt);
  add_user = λ u p w. (record w { users = insert u p w.users }, ok tt);
  list_users = λ w. (w, ok (keys w.users));
  remove_user = λ u w. (record w { users = erase u w.users }, ok tt);
  make_bucket = λ b w. made b w (lookup b w.buckets);
  bucket_exists = λ b w. (w, ok (is_there (lookup b w.buckets)));
  list_buckets = λ w. (w, ok (keys w.buckets));
  remove_bucket = λ b w. (record w { buckets = erase b w.buckets }, ok tt);
  list_objects = λ b w. (w, ok "object" ∷ []);
  remove_object = λ b key w. (w, err (failure "AccessDenied"));
  marshal = λ grants. ok "policy";
  add_canned_policy = λ n text w. (record w { canned = insert n text w.canned }, ok tt);
  set_policy = λ n u w. (record w { attached = insert u n w.attached }, ok tt);
  remove_canned_policy = λ n w. (record w { canned = erase n w.canned }, ok tt);
}

insert_there :
    (k j v : String) (d : Dict String String)
    → is_there (lookup j d) ≡ true
    → is_there (lookup j (insert k v d)) ≡ true
insert_there k j v d h = ground (arith, lookup-insert j k v d)

no_key : (u : String) (d : Dict String String) → contains (keys d) u ≡ false → lookup u d ≡ none
unfolding lookup
no_key u [] h = refl
no_key u ((k, v) ∷ d) h = ground (arith, no_key u d)

made_users : (b : String) (w : World) (o : Option String) → (made b w o).0.users ≡ w.users
made_users b w none = refl
made_users b w (some v) = refl

made_keeps :
    (b c : String) (w : World) (o : Option String)
    → is_there (lookup c w.buckets) ≡ true
    → is_there (lookup c (made b w o).0.buckets) ≡ true
made_keeps b c w none h = insert_there b c "" w.buckets h
made_keeps b c w (some v) h = h

made_makes :
    (b : String) (w t : World) (o : Option String)
    → made b w o ≡ (t, ok tt)
    → is_there (lookup b t.buckets) ≡ true
made_makes b w t none e = ground (arith, lookup-insert_self b "" w.buckets)
made_makes b w t (some v) e = ground arith

laws : IsMinio view platform
laws = record {
  secret_quiet = λ namespace name w. refl;
  connect_quiet = λ a b c w. refl;
  connect_admin_quiet = λ a b c w. refl;
  list_users_quiet = λ w. refl;
  bucket_exists_quiet = λ b w. refl;
  list_buckets_quiet = λ w. refl;
  list_objects_quiet = λ b w. refl;
  remove_object_quiet = λ b key w. refl;
  add_canned_quiet = λ n text w. refl;
  set_policy_quiet = λ n u w. refl;
  remove_canned_quiet = λ n w. refl;
  add_user_buckets = λ u p w. refl;
  add_user_others = λ u p n w ne. lookup-insert_other u n p w.users ne;
  add_user_sets = λ u p w t e. ground (arith, lookup-insert_self u p w.users);
  make_bucket_users = λ b w. ap (λ d n. lookup n d) (made_users b w (lookup b w.buckets));
  make_bucket_keeps = λ b c w. made_keeps b c w (lookup b w.buckets);
  make_bucket_makes = λ b w t. made_makes b w t (lookup b w.buckets);
  bucket_exists_tells = λ b w t e. ground arith;
  remove_bucket_users = λ b w. refl;
  remove_bucket_others = λ b c w ne. ap is_there (lookup-erase_other b c w.buckets ne);
  list_users_tells = λ u w t users e f. no_key u w.users (ground arith);
  remove_user_buckets = λ u w. refl;
  remove_user_others = λ u n w ne. lookup-erase_other u n w.users ne;
  remove_user_removes = λ u w t e. ground (arith, lookup-erase_self u w.users);
  add_canned_sets = λ n text w t e. ground (arith, lookup-insert_self n text w.canned);
  set_policy_keeps = λ n u w. refl;
  set_policy_sets = λ n u w t e. ground (arith, lookup-insert_self u n w.attached);
}

-- The bucket "app-old" is there already, and "app-x-data" belongs to the namespace "app-x".
abbrev start : World
start = record {
  buckets = ("app-old", "") ∷ ("app-x-data", "") ∷ [];
  users = ("other", "p") ∷ [];
  canned = [];
  attached = [];
}

abbrev request : MinioRequest
request = record {
  namespace = "user-space-a";
  app_namespace = "app";
  user = "alice";
  password = record { value = "secret"; value_from = none };
  buckets = "old" ∷ "new" ∷ [];
  allow_namespace_buckets = true;
}

create_or_update_minio_request-IsServed_example :
    Post
      (λ u w.
        IsServed view platform laws request start w
        × On view (Create.Spared view platform laws request start) w)
      (On view (Create.Spared view platform laws request start))
      (create_or_update_minio_request platform request start)
create_or_update_minio_request-IsServed_example =
    create_or_update_minio_request-IsServed view platform laws request start

delete_minio_request-spares_example :
    Post
      (λ u w.
        IsDone view platform laws request start w
        × On view (Delete.Spared view platform laws request start) w)
      (On view (Delete.Spared view platform laws request start))
      (delete_minio_request platform request start)
delete_minio_request-spares_example = delete_minio_request-spares view platform laws request start

-- ===== src/Backup/Tasks/Tests.antt =====
-- A server that keeps tasks by namespace and name, and the theorems at it.
use tapr.Base.{
  List, ◌≢◌, ==_refl, String, Bool, true, false, ◌&&◌, Option, none, some, [], ◌∷◌, if◌then◌else◌,
  ◌==◌, string_eq, ◌≡◌, refl, sym, ap, arith,
}
use tapr.Base.Effect.{
  for_each, Error, failure, Result, ok, err, Eff, Post, IsPoll, Polled, done, failed, again,
  timeout,
}
use tapr.Backup.Types.{State, new, ready, Task}
use tapr.Backup.Tasks.{Resource, force_create_backup, force_create_restore, wait_for_all}
use tapr.Backup.Tasks.Laws.{Settled, wait_for_all-Settled}
use tapr.Backup.Watcher.{Source, Storage, backup_postgres}
use tapr.Backup.Watcher.Created.{Apart, IsQuiet, Listed, IsBackedUp, backup_postgres-IsBackedUp}
use tapr.Backup.Tasks.Replace.{IsServer, IsReplaced, Others, blank, force_create-replaces}

abbrev World : Type 0
World = String → String → Option Task

abbrev put : String → String → Option Task → World → World
put namespace name o w a b = if a == namespace && b == name then o else w a b

abbrev task : String → State → Task
task name state = record {
  namespace = "os";
  name = name;
  cluster_name = "citus";
  backup_name = "";
  volume = none;
  status = record {
    state = state;
    error = "";
    backup_path = "";
    start_at = none;
    completed_at = none;
  };
}

abbrev answer : World → Option Task → World × Result Task
answer w (some t) = (w, ok t)
answer w none = (w, err (record { not_found = true; text = "not found" }))

abbrev insert_new : Task → World → Option Task → World × Result (Unit {0})
insert_new t w (some old) = (w, err (failure "already exists"))
insert_new t w none = (put t.namespace t.name (some (blank t)) w, ok tt)

-- The status of a task is not seen.
abbrev stripped : Option Task → Option Task
stripped none = none
stripped (some t) = some (blank t)

abbrev seen : World → World
seen w a b = stripped (w a b)

abbrev server : Resource World
server = record {
  find = λ namespace name w. answer w (w namespace name);
  remove = λ namespace name w. (put namespace name none w, ok tt);
  create = λ t w. insert_new t w (w t.namespace t.name);
  list_all = λ w. (w, ok (task "a" ready ∷ task "b" ready ∷ []));
  aggregate = λ ms. failure "failed";
}

answer-world : (w : World) (o : Option Task) → (answer w o).0 ≡ w
answer-world w (some t) = refl
answer-world w none = refl

put-elsewhere :
    (namespace name : String) (o : Option Task) (w : World) (a b : String)
    → ¬ ((a ≡ namespace) × (b ≡ name))
    → put namespace name o w a b ≡ w a b
put-elsewhere namespace name o w a b h = elim (string_eq.dec a namespace) [
  | yes p ↦ elim (string_eq.dec b name) [ yes q ↦ absurd (h (p, q)) | no q ↦ ground arith ]
  | no p ↦ ground arith
]

put-here :
    (namespace name : String) (o : Option Task) (w : World)
    → put namespace name o w namespace name ≡ o
put-here namespace name o w = ground arith

insert_new-elsewhere :
    (t : Task) (w : World) (o : Option Task) (a b : String)
    → ¬ ((a ≡ t.namespace) × (b ≡ t.name))
    → (insert_new t w o).0 a b ≡ w a b
insert_new-elsewhere t w (some old) a b h = refl
insert_new-elsewhere t w none a b h = put-elsewhere t.namespace t.name (some (blank t)) w a b h

insert_new-found :
    (t : Task) (w u : World) (o : Option Task)
    → insert_new t w o ≡ (u, ok tt)
    → u t.namespace t.name ≡ some (blank t)
insert_new-found t w u (some old) e = absurd (refused e)
  where
    refused :
        {x : World} {y : Unit {0}} {z : Error}
        → ◌≡◌ {A = World × Result (Unit {0})} (x, err z) (u, ok y)
        → ⊥
    refused e = cc
insert_new-found t w u none e =
    rw (sym (ap (λ (r : World × Result (Unit {0})). r.0) e))
      (put-here t.namespace t.name (some (blank t)) w)

server-IsServer : IsServer server seen
server-IsServer = record {
  find_same = λ namespace name w. ap seen (answer-world w (w namespace name));
  remove_elsewhere =
      λ namespace name w a b h. ap stripped (put-elsewhere namespace name none w a b h);
  create_elsewhere =
      λ t w a b h. ap stripped (insert_new-elsewhere t w (w t.namespace t.name) a b h);
  create_some = λ t w u e. ap stripped (insert_new-found t w u (w t.namespace t.name) e);
}

-- A poll that asks once.
module _ {S : Type 0} where
  abbrev once_of : S × Result Bool → S × Result (Unit {0})
  once_of (t, ok true) = (t, ok tt)
  once_of (t, ok false) = (t, err (failure "timed out"))
  once_of (t, err e) = (t, err e)

  once_of-Polled :
      (check : Eff S Bool) (s : S) (o : S × Result Bool)
      → check s ≡ o
      → Polled check s (once_of o).0 (once_of o).1
  once_of-Polled check s (t, ok true) e = done s t e
  once_of-Polled check s (t, ok false) e =
      again s t t (err (failure "timed out")) e (timeout t (failure "timed out"))
  once_of-Polled check s (t, err x) e = failed s t x e

  abbrev once : Eff S Bool → Eff S (Unit {0})
  once check s = once_of (check s)

  once-IsPoll : (check : Eff S Bool) → IsPoll check (once check)
  once-IsPoll check s = once_of-Polled check s (check s) refl

-- A backup "a" that is ready, and nothing else.
abbrev one_ready : World
one_ready a b = if b == "a" then some (task "a" ready) else none

force_create-replaces_example :
    Post
      (λ v. IsReplaced server seen (task "a" new) one_ready)
      (Others seen (task "a" new) one_ready)
      (force_create_backup server once "duplicate" (task "a" new) one_ready)
    × Post
        (λ v. IsReplaced server seen (task "a" new) one_ready)
        (Others seen (task "a" new) one_ready)
        (force_create_restore server "duplicate" (task "a" new) one_ready)
force_create-replaces_example =
    force_create-replaces server seen server-IsServer once once-IsPoll "duplicate" (task "a" new)
      one_ready

wait_run : wait_for_all server once "backup" one_ready ≡ (one_ready, ok tt)
unfolding wait_for_all
wait_run = refl

wait_for_all-Settled_example : Settled server one_ready
wait_for_all-Settled_example =
    wait_for_all-Settled server once "backup" once-IsPoll one_ready one_ready wait_run

-- Two clusters, in namespaces of their own.
abbrev clusters : List Source
clusters =
    record { namespace = "os"; owner = "system"; backup_storage = "" }
    ∷ record { namespace = "user-space-bob"; owner = "bob"; backup_storage = "/disk" }
    ∷ []

abbrev storage : Storage World
storage = record {
  list_clusters = λ w. (w, ok clusters);
  annotations = λ namespace name w. (w, ok []);
  find_claim = λ namespace name w. (w, ok "pv");
  find_volume = λ name w. (w, ok "/data");
}

storage-IsQuiet : IsQuiet seen storage
storage-IsQuiet = record {
  clusters_quiet = λ w. refl;
  annotations_quiet = λ a b w. refl;
  claim_quiet = λ a b w. refl;
  volume_quiet = λ a w. refl;
}

abbrev equals_os : String → Bool
equals_os n = n == "os"

os_differs : equals_os "user-space-bob" ≡ false
unfolding string_eq
os_differs = refl

clusters-Apart : Apart clusters []
clusters-Apart = (tt, ((differs, tt), tt))
  where
    differs : ◌≢◌ {A = String} "os" "user-space-bob"
    differs p = cc (os_differs, ==_refl {A = String} "os", ap equals_os p)

listed_clusters :
    (u : World) (cs : List Source) → storage.list_clusters one_ready ≡ (u, ok cs) → cs ≡ clusters
listed_clusters u cs e = cc

listed-Apart : (cs : List Source) → Listed storage one_ready cs → Apart cs []
listed-Apart cs (u, e) = rw (listed_clusters u cs e) clusters-Apart

abbrev backed_up : World
backed_up = (backup_postgres storage server once once one_ready).0

backup_postgres_run : backup_postgres storage server once once one_ready ≡ (backed_up, ok tt)
unfolding backup_postgres string_eq for_each force_create_backup wait_for_all
backup_postgres_run = refl

backup_postgres-IsBackedUp_example : IsBackedUp seen storage server once one_ready backed_up
backup_postgres-IsBackedUp_example =
    backup_postgres-IsBackedUp seen storage storage-IsQuiet server server-IsServer once once
      once-IsPoll once-IsPoll one_ready backed_up listed-Apart backup_postgres_run

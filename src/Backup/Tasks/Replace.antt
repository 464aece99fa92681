-- ===== src/Backup/Tasks/Replace.antt =====
-- The creation of a task in the place of an old one, against what the API server is documented to do.
use tapr.Base.{String, Bool, false, if◌then◌else◌, Option, none, some, ◌≡◌, refl, ap, ◌∙◌}
use tapr.Base.Effect.{
  Error, failure, Result, ok, err, Eff, ◌>>=◌, pure, fail, resolve, ignoring, Post, Ensures,
  Ensures-pure, Ensures-fail, Ensures-if, Ensures-catching, Ensures->>=, IsPoll, Answer,
  Ensures-poll,
}
use tapr.Backup.Types.{new, Task}
use tapr.Backup.Status.{is_running}
use tapr.Backup.Tasks.{
  Resource, force_create, check_removed, force_create_backup, force_create_restore,
}

-- What the API server is documented to do, for the objects of one kind. `view` shows them without their
-- statuses, which the server drops from an object that is created (they are a subresource) and the
-- controllers write later. A read changes nothing, a removal, which finalizers may delay, and a creation
-- change no other object.
abbrev pub View : Type 0 → Type 0
View W = W → String → String → Option Task

-- The task without its status.
abbrev pub blank : Task → Task
blank t = record t {
  status = record {
    state = new;
    error = "";
    backup_path = "";
    start_at = none;
    completed_at = none;
  };
}

module _ {W : Type 0} where
  abbrev pub Elsewhere : View W → String → String → W → W → Type 0
  Elsewhere view namespace name s t =
      (a b : String) → ¬ ((a ≡ namespace) × (b ≡ name)) → view t a b ≡ view s a b

  pub record IsServer (resource : Resource W) (view : View W) : Type 0 where
    pub find_same :
        (namespace name : String) (s : W) → view (resource.find namespace name s).0 ≡ view s
    pub remove_elsewhere :
        (namespace name : String) (s : W)
        → Elsewhere view namespace name s (resource.remove namespace name s).0
    pub create_elsewhere :
        (t : Task) (s : W) → Elsewhere view t.namespace t.name s (resource.create t s).0
    pub create_some :
        (t : Task) (s u : W)
        → resource.create t s ≡ (u, ok tt)
        → view u t.namespace t.name ≡ some (blank t)

-- The task that is created.
abbrev renewed : Task → Task
renewed t = record t { status = record t.status { state = new } }

module _ {W : Type 0} (view : View W) where
  abbrev pub Others : Task → W → W → Type 0
  Others t s u = Elsewhere view t.namespace t.name s u

module _ {W : Type 0} (resource : Resource W) (view : View W) where
  -- What the server tells of the old task in the world `s` is not that it runs.
  abbrev pub Idle : Task → W → Type 0
  Idle t s =
      (r : W) (old : Task)
      → resource.find t.namespace t.name s ≡ (r, ok old)
      → is_running old.status.state ≡ false

  abbrev pub IsReplaced : Task → W → W → Type 0
  IsReplaced t s u = Others view t s u × (view u t.namespace t.name ≡ some (blank t)) × Idle t s

module _ {W : Type 0} (resource : Resource W) (view : View W)
    (server : IsServer resource view) where
  module _ (t : Task) (s : W) where
    then-Others : (r u : W) → Others view t s r → Others view t r u → Others view t s u
    then-Others r u h k a b n = k a b n ∙ h a b n

    create-Post :
        (r u : W) (o : Result (Unit {0}))
        → resource.create (renewed t) r ≡ (u, o)
        → Idle resource view t s
        → Others view t s r
        → Others view t r u
        → Post (λ v. IsReplaced resource view t s) (Others view t s) (u, o)
    create-Post r u (ok v) e idle h k =
        (then-Others r u h k, server.create_some (renewed t) r u e, idle)
    create-Post r u (err x) e idle h k = then-Others r u h k

    create-Ensures :
        Idle resource view t s
        → Ensures
            (Others view t s)
            (resource.create (renewed t))
            (λ v. IsReplaced resource view t s)
            (Others view t s)
    create-Ensures idle = record {
      run = λ r h.
          create-Post r (resource.create (renewed t) r).0 (resource.create (renewed t) r).1 refl
            idle h (server.create_elsewhere (renewed t) r);
    }

    abbrev Same : W → Type 0
    Same r = view r ≡ view s

    Same-Others : (r : W) → Same r → Others view t s r
    Same-Others r e a b n = rw e refl

    remove-Post :
        (r u : W) (o : Result (Unit {0}))
        → Others view t s r
        → Others view t r u
        → Post (λ v. Others view t s) (Others view t s) (u, o)
    remove-Post r u (ok v) h k = then-Others r u h k
    remove-Post r u (err e) h k = then-Others r u h k

    remove-Ensures :
        Ensures
          (Others view t s)
          (resource.remove t.namespace t.name)
          (λ v. Others view t s)
          (Others view t s)
    remove-Ensures = record {
      run = λ r h.
          remove-Post r (resource.remove t.namespace t.name r).0
            (resource.remove t.namespace t.name r).1 h
            (server.remove_elsewhere t.namespace t.name r);
    }

    find_later-Post :
        (r u : W) (o : Result Task)
        → Others view t s r
        → view u ≡ view r
        → Post (λ old. Others view t s) (Others view t s) (u, o)
    find_later-Post r u (ok old) h e =
        λ a b n. ap (λ (f : String → String → Option Task). f a b) e ∙ h a b n
    find_later-Post r u (err x) h e =
        λ a b n. ap (λ (f : String → String → Option Task). f a b) e ∙ h a b n

    find_later-Ensures :
        Ensures
          (Others view t s)
          (resource.find t.namespace t.name)
          (λ old. Others view t s)
          (Others view t s)
    find_later-Ensures = record {
      run = λ r h.
          find_later-Post r (resource.find t.namespace t.name r).0
            (resource.find t.namespace t.name r).1 h (server.find_same t.namespace t.name r);
    }

    same_old :
        {r v : W} {old old' : Task} {o : W × Result Task}
        → o ≡ (v, ok old)
        → o ≡ (r, ok old')
        → old' ≡ old
    same_old e f = cc

    not_both :
        {r v : W} {old : Task} {x : Error} {o : W × Result Task}
        → o ≡ (v, err x)
        → o ≡ (r, ok old)
        → ⊥
    not_both e f = cc

    module _ (after_removal : Task → Eff W (Unit {0})) (duplicate : String)
        (after : Ensures
          (Others view t s)
          (after_removal t)
          (λ v. Others view t s)
          (Others view t s)) where
      found-Post :
          (o : W × Result Task)
          → resource.find t.namespace t.name s ≡ o
          → Same o.0
          → Post
              (λ v. IsReplaced resource view t s)
              (Others view t s)
              (resolve
                (λ old.
                  if is_running old.status.state
                  then fail (failure duplicate)
                  else (resource.remove t.namespace t.name >>= λ u.
                      after_removal t >>= λ u. resource.create (renewed t)))
                (λ e. if e.not_found then resource.create (renewed t) else fail e)
                o)
      found-Post (v, ok old) e same =
          (Ensures-if (is_running old.status.state) (λ b. Ensures-fail (λ r h. h))
              (λ idle. Ensures->>= remove-Ensures λ u. Ensures->>= after λ w.
                create-Ensures (λ r old' f.
                  ap (λ (x : Task). is_running x.status.state) (same_old e f) ∙ idle))).run
            v (Same-Others v same)
      found-Post (v, err x) e same =
          (Ensures-if x.not_found (λ b. create-Ensures (λ r old f. absurd (not_both e f)))
              (λ b. Ensures-fail (λ r h. h))).run
            v (Same-Others v same)

      force_create-Post :
          Post
            (λ v. IsReplaced resource view t s)
            (Others view t s)
            (force_create resource after_removal duplicate t s)
      unfolding force_create
      force_create-Post =
          found-Post (resource.find t.namespace t.name s) refl
            (server.find_same t.namespace t.name s)

    check_removed-Ensures :
        Ensures
          (Others view t s)
          (check_removed resource t)
          (Answer (Others view t s) (Others view t s))
          (Others view t s)
    unfolding check_removed
    check_removed-Ensures =
        Ensures-catching find_later-Ensures (λ old. Ensures-pure (λ r h. h))
          λ e. Ensures-if e.not_found (λ b. Ensures-pure (λ r h. h)) (λ b. Ensures-fail (λ r h. h))

  -- For a server that does what it is documented to do and a poll that keeps calling its condition: a forced
  -- creation, of a backup or of a restore, that reports no error has put the task, without a status, in
  -- the place of one of which the server told that it was not running, or of none; whatever it
  -- reports, it left every other task as it was, apart from the statuses.
  pub force_create-replaces :
      (poll : Eff W Bool → Eff W (Unit {0}))
      → ((check : Eff W Bool) → IsPoll check (poll check))
      → (duplicate : String) (t : Task) (s : W)
      → Post
          (λ v. IsReplaced resource view t s)
          (Others view t s)
          (force_create_backup resource poll duplicate t s)
        × Post
            (λ v. IsReplaced resource view t s)
            (Others view t s)
            (force_create_restore resource duplicate t s)
  unfolding force_create_backup force_create_restore
  force_create-replaces poll polls duplicate t s = (
    force_create-Post t s (λ x. ignoring (poll (check_removed resource x)) (pure tt)) duplicate
        (Ensures-catching
          (Ensures-poll (Others view t s) (Others view t s) (Others view t s)
            (polls (check_removed resource t)) (check_removed-Ensures t s) (λ r h. h))
          (λ u. Ensures-pure (λ r h. h)) λ e. Ensures-pure (λ r h. h)),
    force_create-Post t s (λ x. pure tt) duplicate (Ensures-pure (λ r h. h)),
  )

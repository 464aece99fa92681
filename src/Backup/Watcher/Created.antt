-- ===== src/Backup/Watcher/Created.antt =====
-- The backups that `backupPostgres` creates and waits for.
use tapr.Base.{
  String, ◌<>◌, Bool, not, Option, none, some, List, [], ◌∷◌, ◌≡◌, ◌≢◌, refl, ◌∙◌, All, ◌==◌,
  string_eq,
}
use tapr.Base.Dict.{lookup}
use tapr.Base.Effect.{
  Result, ok, err, Eff, Post, Ensures, Ensures-weaken, Ensures-pure, Ensures-fail, Ensures-if,
  Ensures-with, Ensures->>=, IsPoll, for_each,
}
use tapr.Backup.Tasks.{Resource, force_create_backup, wait_for_all}
use tapr.Backup.Tasks.Laws.{Settled, wait_for_all-Settled}
use tapr.Backup.Tasks.Replace.{View, IsServer, IsReplaced, Others, blank, force_create-replaces}
use tapr.Backup.Watcher.{
  Source, Storage, cluster_backup, annotation, get_user_db_pvc_name, claim_path, backup_path_of,
  create_backup_of, backup_postgres,
}

-- Each namespace differs from those before it, and from those in `before`.
abbrev pub Apart : List Source → List Source → Type 0
Apart [] before = Unit
Apart (c ∷ cs) before = All (λ d. d.namespace ≢ c.namespace) before × Apart cs (c ∷ before)

module _ {W : Type 0} (view : View W) where
  -- The calls about storage change no backup.
  abbrev pub Quiet : {A : Type 0} → Eff W A → Type 0
  Quiet m = (w : W) → view (m w).0 ≡ view w

  pub record IsQuiet (storage : Storage W) : Type 0 where
    pub clusters_quiet : Quiet storage.list_clusters
    pub annotations_quiet : (a b : String) → Quiet (storage.annotations a b)
    pub claim_quiet : (a b : String) → Quiet (storage.find_claim a b)
    pub volume_quiet : (a : String) → Quiet (storage.find_volume a)

  abbrev pub HasBackup : Source → W → Type 0
  HasBackup c w =
      (path : String) × (view w c.namespace "citus-backup"
        ≡ some (blank (cluster_backup c.namespace path)))

  abbrev pub AllHave : List Source → W → Type 0
  AllHave cs w = All (λ c. HasBackup c w) cs

  abbrev pub Any : W → Type 0
  Any w = Unit {0}

  module _ (cs : List Source) where
    quiet-Post : {A : Type 0} (o : W × Result A) → AllHave cs o.0 → Post (λ a. AllHave cs) Any o
    quiet-Post (w, ok a) h = h
    quiet-Post (w, err e) h = tt

    Quiet-AllHave :
        {A : Type 0} (m : Eff W A) → Quiet m → Ensures (AllHave cs) m (λ a. AllHave cs) Any
    Quiet-AllHave m q = record { run = λ w h. quiet-Post (m w) (rw (q w) h) }

    module _ (storage : Storage W) (quiet : IsQuiet storage) where
      annotation-AllHave :
          (key : String) (o : Option String)
          → Ensures (AllHave cs) (annotation storage key o) (λ a. AllHave cs) Any
      annotation-AllHave key none = Ensures-fail (λ w h. tt)
      annotation-AllHave key (some pvc) = Ensures-pure (λ w h. h)

      user_pvc-AllHave :
          (namespace : String)
          → Ensures (AllHave cs) (get_user_db_pvc_name storage namespace) (λ a. AllHave cs) Any
      unfolding get_user_db_pvc_name
      user_pvc-AllHave namespace =
          Ensures->>= (Quiet-AllHave _ (quiet.annotations_quiet namespace "bfl"))
            λ entries. annotation-AllHave "dbdata_hostpath" (lookup "dbdata_hostpath" entries)

      claim_path-AllHave :
          (c : Source) → Ensures (AllHave cs) (claim_path storage c) (λ a. AllHave cs) Any
      unfolding claim_path
      claim_path-AllHave c =
          Ensures-if (c.owner == "system")
            (λ h.
              Ensures->>= (Quiet-AllHave _ (quiet.claim_quiet c.namespace "citus-data-pvc"))
                λ v. Quiet-AllHave _ (quiet.volume_quiet v))
            λ h. user_pvc-AllHave ("user-space-" <> c.owner)

      backup_path_of-AllHave :
          (c : Source) → Ensures (AllHave cs) (backup_path_of storage c) (λ a. AllHave cs) Any
      unfolding backup_path_of
      backup_path_of-AllHave c =
          Ensures-if (not (c.backup_storage == "")) (λ h. Ensures-pure (λ w k. k))
            λ h. Ensures->>= (claim_path-AllHave c) (λ pvc. Ensures-pure (λ w k. k))

abbrev pub Listed : {W : Type 0} → Storage W → W → List Source → Type 0
Listed {W} storage s cs = (u : W) × (storage.list_clusters s ≡ (u, ok cs))

module _ {W : Type 0} (view : View W) (storage : Storage W) (backups : Resource W)
    (poll : Eff W Bool → Eff W (Unit {0})) where
  -- In some world every cluster had its backup on the server, from there the wait was made, and in the end the
  -- server listed no backup that waits, runs, was rejected or failed.
  abbrev pub IsBackedUp : W → W → Type 0
  IsBackedUp s t =
      (v : W) × (cs : List Source) × Listed storage s cs
      × AllHave view cs v
      × (wait_for_all backups poll "backup pg failed" v ≡ (t, ok tt))
      × Settled backups t

module _ {W : Type 0} (view : View W) (storage : Storage W) (quiet : IsQuiet view storage)
    (backups : Resource W) (server : IsServer backups view)
    (poll poll_immediate : Eff W Bool → Eff W (Unit {0}))
    (polls : (check : Eff W Bool) → IsPoll check (poll check))
    (polls_immediate : (check : Eff W Bool) → IsPoll check (poll_immediate check)) where
  still-AllHave :
      (done : List Source) (c : Source) (path : String) (s w : W)
      → All (λ d. d.namespace ≢ c.namespace) done
      → Others view (cluster_backup c.namespace path) s w
      → AllHave view done s
      → AllHave view done w
  still-AllHave [] c path s w ne others h = tt
  still-AllHave (d ∷ done) c path s w ne others h = (
    (h.0.0, others d.namespace "citus-backup" (λ p. ne.0 p.0) ∙ h.0.1),
    still-AllHave done c path s w ne.1 others h.1,
  )

  created-Post :
      (done : List Source) (c : Source) (path : String) (s : W) (o : W × Result (Unit {0}))
      → All (λ d. d.namespace ≢ c.namespace) done
      → AllHave view done s
      → Post
          (λ v. IsReplaced backups view (cluster_backup c.namespace path) s)
          (Others view (cluster_backup c.namespace path) s)
          o
      → Post (λ v. AllHave view (c ∷ done)) (Any view) o
  created-Post done c path s (w, ok v) ne h p =
      ((path, p.1), still-AllHave done c path s w ne p.0 h)
  created-Post done c path s (w, err e) ne h p = tt

  create_backup_of-AllHave :
      (done : List Source) (c : Source)
      → All (λ d. d.namespace ≢ c.namespace) done
      → Ensures
          (AllHave view done)
          (create_backup_of storage backups poll poll_immediate c)
          (λ u. AllHave view (c ∷ done))
          (Any view)
  unfolding create_backup_of
  create_backup_of-AllHave done c ne =
      Ensures->>= (backup_path_of-AllHave view done storage quiet c) λ path. record {
        run = λ w h.
            created-Post done c path w
              (force_create_backup backups poll_immediate "duplicate pg backup job"
                (cluster_backup c.namespace path) w)
              ne h
              (force_create-replaces backups view server poll_immediate polls_immediate
                "duplicate pg backup job" (cluster_backup c.namespace path) w).0;
      }

  create_each-AllHave :
      (cs done : List Source)
      → Apart cs done
      → Ensures
          (AllHave view done)
          (for_each (create_backup_of storage backups poll poll_immediate) cs)
          (λ u w. AllHave view cs w × AllHave view done w)
          (Any view)
  unfolding for_each
  create_each-AllHave [] done a = Ensures-pure (λ w h. (tt, h))
  create_each-AllHave (c ∷ cs) done a = Ensures->>= (create_backup_of-AllHave done c a.0) λ u.
      Ensures-weaken (create_each-AllHave cs (c ∷ done) a.1) (λ w h. h)
        (λ v w q. ((q.1.0, q.0), q.1.1)) (λ w r. r)

  abbrev Created : W → W → Type 0
  Created s v = (cs : List Source) × Listed storage s cs × AllHave view cs v

  waited-Post :
      (s v : W) (o : W × Result (Unit {0}))
      → wait_for_all backups poll "backup pg failed" v ≡ o
      → Created s v
      → Post (λ u. IsBackedUp view storage backups poll s) (Any view) o
  waited-Post s v (t, ok u) e h =
      (v, h.0, h.1, h.2, e, wait_for_all-Settled backups poll "backup pg failed" polls v t e)
  waited-Post s v (t, err x) e h = tt

  listed-Post :
      (s : W) (o : W × Result (List Source))
      → storage.list_clusters s ≡ o
      → Post (λ cs w. Listed storage s cs × AllHave view [] w) (Any view) o
  listed-Post s (u, ok cs) e = ((u, e), tt)
  listed-Post s (u, err x) e = tt

  list-Ensures :
      (s : W)
      → Ensures
          (λ w. w ≡ s)
          storage.list_clusters
          (λ cs w. Listed storage s cs × AllHave view [] w)
          (Any view)
  list-Ensures s = record { run = λ w e. rw e (listed-Post s (storage.list_clusters s) refl) }

  backup_postgres-Ensures :
      (s : W)
      → ((cs : List Source) → Listed storage s cs → Apart cs [])
      → Ensures
          (λ w. w ≡ s)
          (backup_postgres storage backups poll poll_immediate)
          (λ u. IsBackedUp view storage backups poll s)
          (Any view)
  unfolding backup_postgres
  backup_postgres-Ensures s apart = Ensures->>= (list-Ensures s) λ cs. Ensures-with λ listed.
      Ensures->>=
        (Ensures-weaken (create_each-AllHave cs [] (apart cs listed)) (λ w h. h)
          (λ u w q. (cs, listed, q.0)) (λ w r. r))
        λ u. record {
          run = λ v h. waited-Post s v (wait_for_all backups poll "backup pg failed" v) refl h;
        }

  -- For a server and a storage that do what they are documented to do, polls that keep calling their
  -- condition, and clusters in namespaces of their own: after `backupPostgres` has returned no error,
  -- every cluster that was listed had its backup, of some path, on the server when the wait began, and
  -- the wait ended with a list of backups of which none waits, runs, was rejected or failed.
  pub backup_postgres-IsBackedUp :
      (s t : W)
      → ((cs : List Source) → Listed storage s cs → Apart cs [])
      → backup_postgres storage backups poll poll_immediate s ≡ (t, ok tt)
      → IsBackedUp view storage backups poll s t
  backup_postgres-IsBackedUp s t apart e = rw e at ((backup_postgres-Ensures s apart).run s refl)

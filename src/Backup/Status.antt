-- ===== src/Backup/Status.antt =====
-- `updateStatus`, which the four controllers share word for word.
use tapr.Base.{ℕ, String, Bool, true, false, Option, none, some, if◌then◌else◌}
use tapr.Base.Effect.{Eff, ◌>>=◌, pure}
use tapr.Backup.Types.{State, running, is_finished, Status, Task}
use tapr.Backup.Services.{Services, Run, stored, always, call, note, set_object}

abbrev pub is_running : State → Bool
is_running running = true
is_running State.new = false
is_running State.waiting = false
is_running State.requested = false
is_running State.rejected = false
is_running State.failed = false
is_running State.ready = false

-- The status that is written: a message replaces the old one, a time is set by the state.
abbrev pub new_status : State → Option String → ℕ → Status → Status
new_status state message now s = record s {
  state = state;
  error = elim message [ none ↦ s.error | some text ↦ text ];
  start_at = if is_running state then some now else s.start_at;
  completed_at = if is_finished state then some now else s.completed_at;
}

module _ {W : Type 0} (services : Services W) where
  -- A status that the server takes is noted.
  unfoldable pub store : Task → Eff (Run W) Task
  store t = call (services.update_status t) >>= λ u. note (stored t.status) >>= λ _. pure u

  -- On an object that nothing else holds.
  unfoldable pub update_copy : Task → State → Option String → Eff (Run W) Task
  unfolding store
  update_copy t state message = call (always services.now) >>= λ now.
      store (record t { status = new_status state message now t.status })

  -- On the object of the queue, which is changed before the server is asked.
  unfoldable pub update_object : State → Option String → Eff (Run W) Task
  unfolding store
  update_object state message = call (always services.now) >>= λ now s.
      let t = record s.object { status = new_status state message now s.object.status } in
      (set_object t >>= λ _. store t) s

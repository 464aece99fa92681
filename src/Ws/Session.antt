-- ===== src/Ws/Session.antt =====
-- pkg/ws/client.go: the reading loop of one connection, from `noticeConnected` to its end.
use tapr.Base.{
  ℕ, suc, ◌≤◌, String, Bool, false, Option, none, some, List, [], ◌∷◌, ◌++◌, ◌≡◌, refl,
  if◌then◌else◌, ◌==◌, string_eq, arith, Bool-cases, inl, inr, ap,
}
use tapr.Ws.Types.{ReadMessage, Conn}

-- What one round of the loop meets: a cancelled context, a read that fails or has no type, a frame.
pub data Event : Type 0 where
  done : Event
  failed : Event
  frame : String → Event

pub data Effect (J : Type 0) : Type 0 where
  read : ReadMessage J → Effect J
  pong : String → Effect J
  refresh : String → Effect J
  request_close : String → Effect J
  shut : Effect J

abbrev pub action_open : String
action_open = "open"

abbrev pub action_close : String
action_close = "close"

abbrev pub action_message : String
action_message = "message"

-- `decode` is `json.Unmarshal` into a map where it succeeds, `filled` the map that it leaves behind
-- in any case, `event` the text under "event", and `empty` the value `struct{}{}`.
pub record Json (J : Type 0) : Type 0 where
  pub decode : String → Option J
  pub filled : String → J
  pub event : J → Option String
  pub empty : J

module _ {J : Type 0} where
  -- The actions that the application is told, in order.
  unfoldable pub actions : List (Effect J) → List String
  actions [] = []
  actions (read m ∷ es) = m.action ∷ actions es
  actions (pong id ∷ es) = actions es
  actions (refresh id ∷ es) = actions es
  actions (request_close id ∷ es) = actions es
  actions (shut ∷ es) = actions es

  -- How often the close handler is asked to remove the connection.
  unfoldable pub close_requests : List (Effect J) → ℕ
  close_requests [] = 0
  close_requests (read m ∷ es) = close_requests es
  close_requests (pong id ∷ es) = close_requests es
  close_requests (refresh id ∷ es) = close_requests es
  close_requests (request_close id ∷ es) = suc (close_requests es)
  close_requests (shut ∷ es) = close_requests es

unfoldable pub count_of : String → List String → ℕ
count_of a [] = 0
count_of a (b ∷ bs) = let rest = count_of a bs in if a == b then suc rest else rest

module _ {J : Type 0} (json : Json J) where
  unfoldable pub check_ping_message : String → Bool
  check_ping_message msg = elim (json.decode msg) [
    | none ↦ false
    | some d ↦ elim (json.event d) [ none ↦ false | some e ↦ e == "ping" ]
  ]

  abbrev pub message_of : Conn → J → String → ReadMessage J
  message_of k data_ action = record {
    payload = data_;
    action = action;
    cookie = k.cookie;
    user_name = k.user;
    conn_id = k.conn_id;
    token = k.token_original;
    access_public = k.access_public;
  }

  unfoldable pub notice_connected : Conn → List (Effect J)
  notice_connected k = read (message_of k json.empty action_open) ∷ []

  unfoldable pub on_frame : Conn → String → List (Effect J)
  unfolding check_ping_message
  on_frame k msg =
      if check_ping_message msg
      then pong k.conn_id ∷ refresh k.conn_id ∷ []
      else read (message_of k (json.filled msg) action_message) ∷ []

  -- The loop over the rounds; with no further event it waits in `ReadMessage`.
  unfoldable pub on_connection : Conn → List Event → List (Effect J)
  unfolding on_frame
  on_connection k [] = []
  on_connection k (done ∷ events) = shut ∷ []
  on_connection k (failed ∷ events) =
      read (message_of k json.empty action_close) ∷ request_close k.conn_id ∷ []
  on_connection k (frame msg ∷ events) = on_frame k msg ++ on_connection k events

  unfoldable pub session : Conn → List Event → List (Effect J)
  unfolding notice_connected on_connection
  session k events = notice_connected k ++ on_connection k events

  -- The same from the events: one message for each frame that is no ping, and at the end a close
  -- if the first event that is no frame is a failure.
  unfoldable pub told : List Event → List String
  told [] = []
  told (done ∷ events) = []
  told (failed ∷ events) = action_close ∷ []
  told (frame msg ∷ events) =
      let rest = told events in if check_ping_message msg then rest else action_message ∷ rest

  actions-on_connection :
      (k : Conn) (events : List Event) → actions (on_connection k events) ≡ told events
  unfolding actions told on_connection
  actions-on_connection k [] = refl
  actions-on_connection k (done ∷ events) = refl
  actions-on_connection k (failed ∷ events) = refl
  actions-on_connection k (frame msg ∷ events) = ground (arith, actions-on_connection k events)

  -- A session tells the application "open" first, then one "message" for each frame before its end
  -- that is no ping, and "close" at the end exactly when a read failed before the context was done.
  pub actions-session :
      (k : Conn) (events : List Event) → actions (session k events) ≡ action_open ∷ told events
  unfolding actions session
  actions-session k events = ap (◌∷◌ action_open) (actions-on_connection k events)

  closes-on_connection :
      (k : Conn) (events : List Event)
      → (close_requests (on_connection k events) ≡ count_of action_close (told events))
        × (close_requests (on_connection k events) ≤ 1)
  unfolding on_connection close_requests told count_of string_eq
  closes-on_connection k [] = (refl, omega arith)
  closes-on_connection k (done ∷ events) = (refl, omega arith)
  closes-on_connection k (failed ∷ events) = (refl, omega arith)
  closes-on_connection k (frame msg ∷ events) =
      let (same, bound) = closes-on_connection k events in
      elim (Bool-cases (check_ping_message msg)) [
        | inl ping ↦ rw (ping, on_connection, told) (same, bound)
        | inr other ↦ rw (other, on_connection, told) (same, bound)
      ]

  -- The close handler is asked to remove the connection exactly as often as the application is told
  -- "close", which is at most once.
  pub close_requests-session :
      (k : Conn) (events : List Event)
      → (close_requests (session k events) ≡ count_of action_close (actions (session k events)))
        × (close_requests (session k events) ≤ 1)
  unfolding session close_requests count_of string_eq
  close_requests-session k events = rw actions-session (closes-on_connection k events)

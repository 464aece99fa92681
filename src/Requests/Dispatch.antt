-- ===== src/Requests/Dispatch.antt =====
-- `handler` of cmd/middleware/operator/middleware-request/handler.go. The methods that it calls are a
-- parameter: each changes the state of the services `S`, and returns an error or none.
use tapr.Base.{Bool, true, false, Option, none, some, ◌≡◌, refl, Option-cases, inl, inr}

pub data Action : Type 0 where
  unknown add update delete : Action

pub data Middleware : Type 0 where
  postgres mongodb redis zinc nats minio rabbitmq elasticsearch mariadb mysql : Middleware

-- The methods of the controller, by the middleware that they serve.
pub data Call : Type 0 where
  create_or_update : Middleware → Call
  delete_request : Middleware → Call
  create_or_update_redix : Bool → Call
  delete_database_if_not_exists : Call

module _ {S E : Type 0} where
  -- `if err := …; err != nil { return err }`
  abbrev pub and_then : S × Option E → (S → S × Option E) → S × Option E
  and_then (s, none) f = f s
  and_then (s, some e) f = (s, some e)

  module _ (run : Call → S → S × Option E) where
    abbrev pub either : Middleware → Action → S → S × Option E
    either m unknown s = (s, none)
    either m add s = run (create_or_update m) s
    either m update s = run (create_or_update m) s
    either m delete s = run (delete_request m) s

    unfoldable pub dispatch : Action → Middleware → S → S × Option E
    dispatch unknown m s = (s, none)
    dispatch add postgres s = run (create_or_update postgres) s
    dispatch update postgres s =
        and_then (run (create_or_update postgres) s) (run delete_database_if_not_exists)
    dispatch delete postgres s = run (delete_request postgres) s
    dispatch add redis s = run (create_or_update_redix false) s
    dispatch update redis s = run (create_or_update_redix true) s
    dispatch delete redis s = run (delete_request redis) s
    dispatch add mongodb s = either mongodb add s
    dispatch add nats s = either nats add s
    dispatch add minio s = either minio add s
    dispatch add rabbitmq s = either rabbitmq add s
    dispatch add elasticsearch s = either elasticsearch add s
    dispatch add mariadb s = either mariadb add s
    dispatch add mysql s = either mysql add s
    dispatch add zinc s = (s, none)
    dispatch update mongodb s = either mongodb update s
    dispatch update nats s = either nats update s
    dispatch update minio s = either minio update s
    dispatch update rabbitmq s = either rabbitmq update s
    dispatch update elasticsearch s = either elasticsearch update s
    dispatch update mariadb s = either mariadb update s
    dispatch update mysql s = either mysql update s
    dispatch update zinc s = (s, none)
    dispatch delete mongodb s = either mongodb delete s
    dispatch delete nats s = either nats delete s
    dispatch delete minio s = either minio delete s
    dispatch delete rabbitmq s = either rabbitmq delete s
    dispatch delete elasticsearch s = either elasticsearch delete s
    dispatch delete mariadb s = either mariadb delete s
    dispatch delete mysql s = either mysql delete s
    dispatch delete zinc s = (s, none)

    -- The object of the queue, of which only the middleware decides: `none` for one that is no request.
    unfoldable pub handler : E → Action → Option Middleware → S → S × Option E
    unfolding dispatch
    handler invalid action none s = (s, some invalid)
    handler invalid action (some m) s = dispatch action m s

-- The middleware that a method serves.
abbrev pub serves : Call → Middleware
serves (create_or_update m) = m
serves (delete_request m) = m
serves (create_or_update_redix update') = redis
serves delete_database_if_not_exists = postgres

module _ {ℓ} {S E : Type 0} (run : Call → S → S × Option E) (P : S → Type ℓ) (m : Middleware)
    (keep : (c : Call) → serves c ≡ m → (s : S) → P s → P (run c s).0) where
  either-keeps : (action : Action) (s : S) → P s → P (either run m action s).0
  either-keeps unknown s p = p
  either-keeps add s p = keep (create_or_update m) refl s p
  either-keeps update s p = keep (create_or_update m) refl s p
  either-keeps delete s p = keep (delete_request m) refl s p

dispatch-keeps {ℓ} :
    {S E : Type 0} (run : Call → S → S × Option E) (P : S → Type ℓ) (m : Middleware)
    (action : Action) (s : S)
    → ((c : Call) → serves c ≡ m → (s : S) → P s → P (run c s).0)
    → P s
    → P (dispatch run action m s).0
unfolding dispatch
dispatch-keeps run P m unknown s keep p = p
dispatch-keeps run P mongodb add s keep p = either-keeps run P mongodb keep add s p
dispatch-keeps run P nats add s keep p = either-keeps run P nats keep add s p
dispatch-keeps run P minio add s keep p = either-keeps run P minio keep add s p
dispatch-keeps run P rabbitmq add s keep p = either-keeps run P rabbitmq keep add s p
dispatch-keeps run P elasticsearch add s keep p = either-keeps run P elasticsearch keep add s p
dispatch-keeps run P mariadb add s keep p = either-keeps run P mariadb keep add s p
dispatch-keeps run P mysql add s keep p = either-keeps run P mysql keep add s p
dispatch-keeps run P zinc add s keep p = p
dispatch-keeps run P mongodb update s keep p = either-keeps run P mongodb keep update s p
dispatch-keeps run P nats update s keep p = either-keeps run P nats keep update s p
dispatch-keeps run P minio update s keep p = either-keeps run P minio keep update s p
dispatch-keeps run P rabbitmq update s keep p = either-keeps run P rabbitmq keep update s p
dispatch-keeps run P elasticsearch update s keep p =
    either-keeps run P elasticsearch keep update s p
dispatch-keeps run P mariadb update s keep p = either-keeps run P mariadb keep update s p
dispatch-keeps run P mysql update s keep p = either-keeps run P mysql keep update s p
dispatch-keeps run P zinc update s keep p = p
dispatch-keeps run P mongodb delete s keep p = either-keeps run P mongodb keep delete s p
dispatch-keeps run P nats delete s keep p = either-keeps run P nats keep delete s p
dispatch-keeps run P minio delete s keep p = either-keeps run P minio keep delete s p
dispatch-keeps run P rabbitmq delete s keep p = either-keeps run P rabbitmq keep delete s p
dispatch-keeps run P elasticsearch delete s keep p =
    either-keeps run P elasticsearch keep delete s p
dispatch-keeps run P mariadb delete s keep p = either-keeps run P mariadb keep delete s p
dispatch-keeps run P mysql delete s keep p = either-keeps run P mysql keep delete s p
dispatch-keeps run P zinc delete s keep p = p
dispatch-keeps run P redis add s keep p = keep (create_or_update_redix false) refl s p
dispatch-keeps run P redis update s keep p = keep (create_or_update_redix true) refl s p
dispatch-keeps run P redis delete s keep p = keep (delete_request redis) refl s p
dispatch-keeps run P postgres add s keep p = keep (create_or_update postgres) refl s p
dispatch-keeps run P postgres delete s keep p = keep (delete_request postgres) refl s p
dispatch-keeps run P postgres update s keep p =
    elim (Option-cases (run (create_or_update postgres) s).1) [
      | inl ok ↦
          rw (ok, dispatch)
            (keep delete_database_if_not_exists refl _ (keep (create_or_update postgres) refl s p))
      | inr (e, failed) ↦ rw (failed, dispatch) (keep (create_or_update postgres) refl s p)
    ]

-- A request only reaches the methods of its own middleware: what all of these keep is kept by the
-- handler, for every action, also where a method fails. An object that is no request reaches none.
pub handler-keeps {ℓ} :
    {S E : Type 0} (invalid : E) (run : Call → S → S × Option E) (P : S → Type ℓ)
    (object : Option Middleware) (action : Action) (s : S)
    → ((m : Middleware)
        → object ≡ some m
        → (c : Call) → serves c ≡ m
        → (s : S) → P s
        → P (run c s).0)
    → P s
    → P (handler run invalid action object s).0
unfolding handler
handler-keeps invalid run P none action s keep p = p
handler-keeps invalid run P (some m) action s keep p =
    dispatch-keeps run P m action s (keep m refl) p

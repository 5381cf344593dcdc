-- ===== src/ChatServer/Ws/System.antt =====
-- crates/chat-server/src/ws.rs at the grain of its locks: every connection is a task, and between
-- two steps of one task any other may move. A step takes the locks that the code holds together, or
-- uses a channel, and the lock of `auth` is held from a denial until the socket has taken the
-- rejection. Task `i` is the connection whose handle is `i`.
pub mod Changes
pub mod Ownership
pub mod Race
pub mod Alone
pub mod Authorizing
pub mod Resting
pub mod Progress
use e2e_chat_rs.Prelude.{
  ℕ, ◌≡◌, Bool, true, false, Option, none, some, List, [], ◌∷◌, ok, err, ◌==◌, ℕ_eq, if◌then◌else◌,
}
use e2e_chat_rs.Prelude.Maps
use e2e_chat_rs.ChatCore.Types.{ClientId, ClientId_eq}
use e2e_chat_rs.ChatCore.Event.{WireEvent}
use e2e_chat_rs.ChatCore.Service.{AuthError, RouterError, MessageRouter, EventHook, AuthProvider}
use e2e_chat_rs.ChatServer.Ws.{
  Channels, ServerState, OutboxDelivery, collect, delivery_targets, should_report_routing_error,
}
use e2e_chat_rs.ChatServer.Ws.Socket.{Incoming, read_client_hello, routing_failed}

-- Where a task stands in `handle_socket`, with the identity that it serves and what it has to do.
pub data Pc : Type 0 where
  reading : Pc
  authorizing : (id : ClientId) → Pc
  refusing : (id : ClientId) (reason : AuthError) → Pc  -- `reject_connection`
  connecting inserting announcing : (id : ClientId) → Pc  -- `register_client`
  looping : (id : ClientId) → Pc
  routing accepted : (id : ClientId) (event : WireEvent) → Pc
  rejected reporting : (id : ClientId) (event : WireEvent) (reason : RouterError) → Pc
  flushing : (id : ClientId) (targets : List ClientId) → Pc
  delivering : (id : ClientId) (deliveries : List (OutboxDelivery ℕ)) → Pc
  dropping : (id slow : ClientId) (deliveries : List (OutboxDelivery ℕ)) → Pc
  leaving disconnecting departing : (id : ClientId) → Pc  -- `unregister_client`
  ended : Pc

abbrev delivery : ℕ → ClientId → List WireEvent → OutboxDelivery ℕ
delivery h id events = record { handle = h; client_id = id; events = events }

abbrev pub after_rejection : ClientId → WireEvent → RouterError → Pc
after_rejection id event e =
    if should_report_routing_error event e then reporting id event e else looping id

-- The task's writer has been spawned.
abbrev pub has_writer : Pc → Bool
has_writer reading = false
has_writer (authorizing id) = false
has_writer (refusing id reason) = false
has_writer (connecting id) = false
has_writer (inserting id) = false
has_writer (announcing id) = false
has_writer _ = true

-- The whole relay: what the tasks share, and where each of them stands.
pub record World (R H A S : Type 0) : Type 0 where
  pub shared : ServerState R H A S ℕ
  pub pc : ℕ → Pc

abbrev pub update : (ℕ → Pc) → ℕ → Pc → ℕ → Pc
update pc i p j = if i == j then p else pc j

module _ {R H A S : Type 0} (m : MessageRouter R) (hook : EventHook H) (auth : AuthProvider A)
    (channels : Channels S ℕ) (from_str : List ℕ → Option WireEvent) where
  -- A step of task `i`. What the socket yields, and when the loop is told to close, is left open.
  pub data Move (i : ℕ) (s : ServerState R H A S ℕ) : Pc → ServerState R H A S ℕ → Pc → Type 0 where
    reads_hello :
        (ms : List Incoming) (id : ClientId)
        → (read_client_hello from_str ms).0 ≡ some id
        → Move i s reading s (authorizing id)
    hangs_up :
        (ms : List Incoming) → (read_client_hello from_str ms).0 ≡ none → Move i s reading s ended
    authorizes :
        (id : ClientId)
        → s.auth_locked ≡ false
        → (auth.authorize_connect s.auth id).0 ≡ ok tt
        → Move i s
            (authorizing id)
            (record s { auth = (auth.authorize_connect s.auth id).1 })
            (connecting id)
    denies :
        (id : ClientId) (e : AuthError)
        → s.auth_locked ≡ false
        → (auth.authorize_connect s.auth id).0 ≡ err e
        → Move i s
            (authorizing id)
            (record s { auth = (auth.authorize_connect s.auth id).1; auth_locked = true })
            (refusing id e)
    -- The socket has taken the rejection, or has failed.
    refuses :
        (id : ClientId) (e : AuthError)
        → Move i s (refusing id e) (record s { auth_locked = false }) ended
    connects :
        (id : ClientId)
        → (m.connect s.router id).0 ≡ ok tt
        → Move i s (connecting id) (record s { router = (m.connect s.router id).1 }) (inserting id)
    turns_away :
        (id : ClientId) (e : RouterError)
        → (m.connect s.router id).0 ≡ err e
        → Move i s (connecting id) (record s { router = (m.connect s.router id).1 }) ended
    inserts :
        (id : ClientId)
        → Move i s
            (inserting id)
            (record s { connections = Maps.insert s.connections id i })
            (announcing id)
    announces :
        (id : ClientId)
        → Move i s (announcing id) (record s { hook = hook.on_connect s.hook id }) (looping id)
    hears : (id : ClientId) (event : WireEvent) → Move i s (looping id) s (routing id event)
    ignores : (id : ClientId) → Move i s (looping id) s (looping id)
    stops : (id : ClientId) → Move i s (looping id) s (leaving id)
    routes :
        (id : ClientId) (event : WireEvent)
        → (m.route s.router id event).0 ≡ ok tt
        → Move i s
            (routing id event)
            (record s { router = (m.route s.router id event).1 })
            (accepted id event)
    misroutes :
        (id : ClientId) (event : WireEvent) (e : RouterError)
        → (m.route s.router id event).0 ≡ err e
        → Move i s
            (routing id event)
            (record s { router = (m.route s.router id event).1 })
            (rejected id event e)
    accepts :
        (id : ClientId) (event : WireEvent)
        → Move i s
            (accepted id event)
            (record s { hook = hook.on_route_accepted s.hook id event })
            (flushing id (delivery_targets id event))
    rejects :
        (id : ClientId) (event : WireEvent) (e : RouterError)
        → Move i s
            (rejected id event e)
            (record s { hook = hook.on_route_rejected s.hook id event e })
            (after_rejection id event e)
    reports :
        (id : ClientId) (event : WireEvent) (e : RouterError)
        → Move i s
            (reporting id event e)
            (record s { channels = (channels.try_send i (routing_failed e) s.channels).1 })
            (looping id)
    collects :
        (id : ClientId) (targets : List ClientId)
        → Move i s
            (flushing id targets)
            (record s { router = (collect m s.connections targets s.router).1 })
            (delivering id (collect m s.connections targets s.router).0)
    finishes : (id : ClientId) → Move i s (delivering id []) s (looping id)
    moves_on :
        (id : ClientId) (h : ℕ) (to : ClientId) (ds : List (OutboxDelivery ℕ))
        → Move i s (delivering id (delivery h to [] ∷ ds)) s (delivering id ds)
    sends :
        (id : ClientId) (h : ℕ) (to : ClientId) (event : WireEvent) (events : List WireEvent)
        (ds : List (OutboxDelivery ℕ))
        → (channels.try_send h event s.channels).0 ≡ true
        → Move i s
            (delivering id (delivery h to (event ∷ events) ∷ ds))
            (record s { channels = (channels.try_send h event s.channels).1 })
            (delivering id (delivery h to events ∷ ds))
    overflows :
        (id : ClientId) (h : ℕ) (to : ClientId) (event : WireEvent) (events : List WireEvent)
        (ds : List (OutboxDelivery ℕ))
        → (channels.try_send h event s.channels).0 ≡ false
        → Move i s
            (delivering id (delivery h to (event ∷ events) ∷ ds))
            (record s { channels = channels.send_close h (channels.try_send h event s.channels).1 })
            (dropping id to ds)
    drops :
        (id slow : ClientId) (ds : List (OutboxDelivery ℕ))
        → Move i s
            (dropping id slow ds)
            (record s { connections = Maps.remove s.connections slow })
            (delivering id ds)
    leaves :
        (id : ClientId)
        → Move i s
            (leaving id)
            (record s { connections = Maps.remove s.connections id })
            (disconnecting id)
    disconnects :
        (id : ClientId)
        → (m.disconnect s.router id).0 ≡ ok tt
        → Move i s
            (disconnecting id)
            (record s { router = (m.disconnect s.router id).1 })
            (departing id)
    was_gone :
        (id : ClientId) (e : RouterError)
        → (m.disconnect s.router id).0 ≡ err e
        → Move i s (disconnecting id) (record s { router = (m.disconnect s.router id).1 }) ended
    departs :
        (id : ClientId)
        → Move i s (departing id) (record s { hook = hook.on_disconnect s.hook id }) ended

  pub data Step (w : World R H A S) : World R H A S → Type 0 where
    moves :
        (i : ℕ) {s : ServerState R H A S ℕ} {p : Pc}
        → Move i w.shared (w.pc i) s p
        → Step w (record { shared = s; pc = update w.pc i p })
    -- The writer of task `i` takes the next event of its channel.
    writes :
        (i : ℕ) (event : WireEvent)
        → has_writer (w.pc i) ≡ true
        → (channels.recv i w.shared.channels).0 ≡ some event
        → Step w (record w {
          shared = record (w.shared) { channels = (channels.recv i w.shared.channels).1 };
        })
    -- The writer of task `i` ends, because its socket has failed or it is aborted.
    loses_writer :
        (i : ℕ)
        → has_writer (w.pc i) ≡ true
        → Step w (record w {
          shared = record (w.shared) { channels = channels.drop_receiver i w.shared.channels };
        })

  -- From a state where no connection has been read, in any order of steps.
  pub data Reach (start : ServerState R H A S ℕ) : World R H A S → Type 0 where
    begins : Reach start (record { shared = start; pc = λ _. reading })
    later : {w x : World R H A S} → Reach start w → Step w x → Reach start x

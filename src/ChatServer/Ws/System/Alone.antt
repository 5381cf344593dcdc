-- ===== src/ChatServer/Ws/System/Alone.antt =====
-- The functions of ws.rs as runs of one task that no other interrupts.
use e2e_chat_rs.Prelude.{
  if◌then◌else◌, ℕ, ◌≡◌, refl, Option, none, some, List, [], ◌∷◌, ok, arith, subst, Bool-cases, inl,
  inr, Result-cases, Option-cases,
}
use e2e_chat_rs.ChatCore.Types.{ClientId}
use e2e_chat_rs.ChatCore.Event.{WireEvent}
use e2e_chat_rs.ChatCore.Service.{MessageRouter, EventHook, AuthProvider}
use e2e_chat_rs.ChatServer.Ws.{
  Channels, ServerState, OutboxDelivery, collect, send_events, deliver_all, flush_outboxes,
  register_client, unregister_client, route_and_flush, delivery_targets,
  should_report_routing_error, false,
}
use e2e_chat_rs.ChatServer.Ws.Socket.{
  Incoming, text_message, other_message, protocol_error, Wake, received, close_received, Opening,
  open_connection, on_event, turn, routing_failed, refused, read_client_hello, serving,
}
use e2e_chat_rs.ChatServer.Ws.Socket
use e2e_chat_rs.ChatServer.Ws.System

module _ {R H A S : Type 0} (m : MessageRouter R) (hook : EventHook H) (auth : AuthProvider A)
    (channels : Channels S ℕ) (from_str : List ℕ → Option WireEvent) (i : ℕ) where
  -- Steps of task `i` alone.
  pub data Runs (s : ServerState R H A S ℕ) (p : System.Pc)
      : ServerState R H A S ℕ → System.Pc → Type 0 where
    here : Runs s p s p
    after :
        {t u : ServerState R H A S ℕ} {q r : System.Pc}
        → Runs s p t q
        → System.Move m hook auth channels from_str i t q u r
        → Runs s p u r

  pub Runs-trans :
      {s t : ServerState R H A S ℕ} {p q : System.Pc} {u : ServerState R H A S ℕ} {r : System.Pc}
      → Runs s p t q
      → Runs t q u r
      → Runs s p u r
  Runs-trans a here = a
  Runs-trans a (after b mv) = after (Runs-trans a b) mv

  pub lands :
      {s t u : ServerState R H A S ℕ} {p q r : System.Pc}
      → Runs s p t q
      → t ≡ u
      → q ≡ r
      → Runs s p u r
  lands {s} {t} {u} {p} {q} {r} run to at =
      subst (λ o. Runs s p u o) at (subst (λ o. Runs s p o q) to run)

  send_events-Runs :
      (id : ClientId) (h : ℕ) (to : ClientId) (events : List WireEvent)
      (ds : List (OutboxDelivery ℕ)) (s : ServerState R H A S ℕ)
      → Runs s
          (System.delivering id (record { handle = h; client_id = to; events = events } ∷ ds))
          (send_events channels h to events s)
          (System.delivering id ds)
  unfolding send_events
  send_events-Runs id h to [] ds s = after here (System.moves_on id h to ds)
  send_events-Runs id h to (event ∷ events) ds s =
      elim (Bool-cases (channels.try_send h event s.channels).0) [
        | inl room ↦
            lands
              (Runs-trans (after here (System.sends id h to event events ds room)) (
                send_events-Runs id h to events ds
                  (record s { channels = (channels.try_send h event s.channels).1 })))
              (ground arith) refl
        | inr full ↦
            lands
              (after (after here (System.overflows id h to event events ds full))
                (System.drops id to ds))
              (ground arith) refl
      ]

  pub deliver_all-Runs :
      (id : ClientId) (ds : List (OutboxDelivery ℕ)) (s : ServerState R H A S ℕ)
      → Runs s (System.delivering id ds) (deliver_all channels ds s) (System.looping id)
  unfolding deliver_all
  deliver_all-Runs id [] s = after here (System.finishes id)
  deliver_all-Runs id (d ∷ ds) s =
      Runs-trans (send_events-Runs id d.handle d.client_id d.events ds s)
        (deliver_all-Runs id ds (send_events channels d.handle d.client_id d.events s))

  flush_outboxes-Runs :
      (id : ClientId) (targets : List ClientId) (s : ServerState R H A S ℕ)
      → Runs s
          (System.flushing id targets)
          (flush_outboxes m hook channels targets s)
          (System.looping id)
  unfolding flush_outboxes
  flush_outboxes-Runs id targets s = Runs-trans (after here (System.collects id targets)) (
      deliver_all-Runs id (collect m s.connections targets s.router).0
        (record s { router = (collect m s.connections targets s.router).1 }))

  register_client-Runs :
      (id : ClientId) (s : ServerState R H A S ℕ)
      → (register_client m hook id i s).0 ≡ ok tt
      → Runs s (System.connecting id) (register_client m hook id i s).1 (System.looping id)
  unfolding register_client
  register_client-Runs id s h = elim (Result-cases (m.connect s.router id).0) [
    | inl (u, e) ↦
        lands
          (after (after (after here (System.connects id e)) (System.inserts id))
            (System.announces id))
          (ground arith) refl
    | inr (x, e) ↦ absurd (ground arith)
  ]

  unregister_client-Runs :
      (id : ClientId) (s : ServerState R H A S ℕ)
      → Runs s (System.leaving id) (unregister_client m hook id s) System.ended
  unfolding unregister_client
  unregister_client-Runs id s = elim (Result-cases (m.disconnect s.router id).0) [
    | inl (u, e) ↦
        lands
          (after (after (after here (System.leaves id)) (System.disconnects id e))
            (System.departs id))
          (ground arith) refl
    | inr (x, e) ↦
        lands (after (after here (System.leaves id)) (System.was_gone id x e)) (ground arith) refl
  ]

  pub on_event-Runs :
      (id : ClientId) (event : WireEvent) (s : ServerState R H A S ℕ)
      → Runs s
          (System.looping id)
          (on_event m hook channels from_str id i event s)
          (System.looping id)
  unfolding on_event route_and_flush
  on_event-Runs id event s = elim (Result-cases (m.route s.router id event).0) [
    | inl (u, e) ↦
        lands
          (Runs-trans
            (after (after (after here (System.hears id event)) (System.routes id event e))
              (System.accepts id event))
            (flush_outboxes-Runs id (delivery_targets id event) _))
          (ground arith) refl
    | inr (x, e) ↦
        let refused =
          after (after (after here (System.hears id event)) (System.misroutes id event x e))
            (System.rejects id event x) in
        elim (Bool-cases (should_report_routing_error event x)) [
          | inl yes_report ↦
              lands (after (lands refused refl (ground arith)) (System.reports id event x))
                (ground arith) refl
          | inr no_report ↦ lands refused (ground arith) (ground arith)
        ]
  ]

  -- Where a connection stands once it has been opened.
  abbrev pub opened : Opening → System.Pc
  opened Socket.ended = System.ended
  opened (refused answer) = System.ended
  opened (serving id) = System.looping id

  open_connection-Runs :
      (ms : List Incoming) (s : ServerState R H A S ℕ)
      → s.auth_locked ≡ false
      → let start = open_connection m hook auth (read_client_hello from_str ms).0 i s in
        Runs s System.reading start.1 (opened start.0)
  unfolding open_connection register_client
  open_connection-Runs ms s free = elim (Option-cases (read_client_hello from_str ms).0) [
    | inl silent ↦ lands (after here (System.hangs_up ms silent)) (ground arith) (ground arith)
    | inr (id, said) ↦ elim (Result-cases (auth.authorize_connect s.auth id).0) [
      | inr (x, e) ↦
          lands
            (after (after (after here (System.reads_hello ms id said)) (System.denies id x free e))
              (System.refuses id x))
            (ground arith) (ground arith)
      | inl (u, e) ↦
          let allowed : ServerState R H A S ℕ = record s {
            auth = (auth.authorize_connect s.auth id).1;
          } in
          let asked =
            after (after here (System.reads_hello ms id said)) (System.authorizes id free e) in
          elim (Result-cases (m.connect s.router id).0) [
            | inr (x, no_place) ↦
                lands (after asked (System.turns_away id x no_place)) (ground arith) (ground arith)
            | inl (v, placed) ↦
                lands (Runs-trans asked (register_client-Runs id allowed (ground arith)))
                  (ground arith) (ground arith)
          ]
    ]
  ]

  turn-Runs :
      (id : ClientId) (wake : Wake) (s : ServerState R H A S ℕ)
      → let woken = turn m hook channels from_str id i wake s in
        Runs s (System.looping id) woken.1 (if woken.0 then System.looping id else System.ended)
  unfolding turn
  turn-Runs id (received (some (text_message raw))) s = elim (Option-cases (from_str raw)) [
    | inl e ↦ lands (after here (System.ignores id)) (ground arith) (ground arith)
    | inr (event, e) ↦ lands (on_event-Runs id event s) (ground arith) (ground arith)
  ]
  turn-Runs id (received (some other_message)) s = after here (System.ignores id)
  turn-Runs id (received (some protocol_error)) s =
      Runs-trans (after here (System.stops id)) (unregister_client-Runs id s)
  turn-Runs id (received none) s =
      Runs-trans (after here (System.stops id)) (unregister_client-Runs id s)
  turn-Runs id close_received s =
      Runs-trans (after here (System.stops id)) (unregister_client-Runs id s)

  -- The start of a connection and each turn of its loop, as functions on the shared state, are
  -- uninterrupted runs of the steps of its task, from where the task stands before to where it
  -- stands afterwards, whatever the socket yields, and errors included. The
  -- lock of the authorization is free at first.
  connection-Runs :
      (s : ServerState R H A S ℕ)
      → s.auth_locked ≡ false
      → ((ms : List Incoming)
          → let start = open_connection m hook auth (read_client_hello from_str ms).0 i s in
            Runs s System.reading start.1 (opened start.0))
        × ((id : ClientId) (wake : Wake)
            → let woken = turn m hook channels from_str id i wake s in
              Runs s
                (System.looping id)
                woken.1
                (if woken.0 then System.looping id else System.ended))
  connection-Runs s free = (λ ms. open_connection-Runs ms s free, λ id wake. turn-Runs id wake s)

-- ===== src/ChatServer/Ws/Overtaking.antt =====
-- Runs of one task of ws.rs after another, where their order matters: two that flush for one client,
-- and one that flushes for a client that is about to be entered in the connection map.
pub mod Turns
pub mod Stages
pub mod Reordered
pub mod Stranded
use e2e_chat_rs.ChatServer.Ws.Socket.{on_event}
use e2e_chat_rs.ChatServer.Ws.{
  send_events, deliver_all, flush_outboxes, ClientId, OutboxDelivery, route_and_flush, collect,
  delivery_targets, MessageRouter, EventHook, AuthProvider, Channels, ServerState,
}
use e2e_chat_rs.Prelude.{
  ℕ, ◌≡◌, ◌≢◌, refl, Option, none, some, List, [], ◌∷◌, ◌++◌, ok, arith, inl, inr, ◌+◌, ◌≤◌, length,
  subst, ◌∙◌, sym,
}
use e2e_chat_rs.Prelude.Maps
use e2e_chat_rs.ChatCore.Event.{WireEvent, EncryptedEnvelope, encrypted_message, ack}
use e2e_chat_rs.ChatServer.Ws.Bounded.{IsBounded, send_events-Fits}
use e2e_chat_rs.ChatServer.Ws.Delivering.{
  Connected, routed, drained, message_of, ack_of, message_delivered,
}
use e2e_chat_rs.ChatServer.Ws.System.Alone.{Runs, here, after}
use e2e_chat_rs.ChatServer.Ws.System.{
  Pc, looping, accepted, delivering, flushing, hears, routes, accepts, collects, finishes, Reach,
  later, moves, World, update, Move,
}

module _ {R H A S : Type 0} (m : MessageRouter R) (hook : EventHook H) (auth : AuthProvider A)
    (channels : Channels S ℕ) (from_str : List ℕ → Option WireEvent)
    (start : ServerState R H A S ℕ) where
  -- Task `i` has run from `w` to the state `t` and the place `q`, and the others stand where they
  -- stood.
  pub record Ran (w : World R H A S) (i : ℕ) (t : ServerState R H A S ℕ) (q : Pc) : Type 0 where
    pub world : World R H A S
    pub reach : Reach m hook auth channels from_str start world
    pub shared : world.shared ≡ t
    pub there : world.pc i ≡ q
    pub others : (j : ℕ) → i ≢ j → world.pc j ≡ w.pc j

  pub run_in :
      (w : World R H A S) (i : ℕ) {s : ServerState R H A S ℕ} {p : Pc} {t : ServerState R H A S ℕ}
      {q : Pc}
      → Runs m hook auth channels from_str i s p t q
      → w.shared ≡ s
      → w.pc i ≡ p
      → Reach m hook auth channels from_str start w
      → Ran w i t q
  run_in w i here same at r = record {
    world = w;
    reach = r;
    shared = same;
    there = at;
    others = λ j ne. refl;
  }
  run_in w i (after {t} {u} {q} {r = p} run mv) same at r =
      let mid = run_in w i run same at r in
      record {
        world = record { shared = u; pc = update mid.world.pc i p };
        reach = later mid.reach (
            moves i (
              subst (λ a. Move m hook auth channels from_str i a (mid.world.pc i) u p)
                (sym mid.shared)
                (subst (λ a. Move m hook auth channels from_str i t a u p) (sym mid.there) mv)));
        shared = refl;
        there = ground arith;
        others = λ j ne. ground (arith, mid.others j ne, ne);
      }

module _ {R H A S Handle : Type 0} (m : MessageRouter R) (hook : EventHook H)
    (channels : Channels S Handle) where
  send_events-hook :
      (h : Handle) (id : ClientId) (events : List WireEvent) (s : ServerState R H A S Handle)
      → (send_events channels h id events s).hook ≡ s.hook
  unfolding send_events
  send_events-hook h id [] s = refl
  send_events-hook h id (event ∷ events) s = ground (
    arith,
    send_events-hook h id events (record s { channels = (channels.try_send h event s.channels).1 }),
  )

  pub deliver_all-hook :
      (ds : List (OutboxDelivery Handle)) (s : ServerState R H A S Handle)
      → (deliver_all channels ds s).hook ≡ s.hook
  unfolding deliver_all
  deliver_all-hook [] s = refl
  deliver_all-hook (d ∷ ds) s =
      deliver_all-hook ds (send_events channels d.handle d.client_id d.events s)
      ∙ send_events-hook d.handle d.client_id d.events s

  flush_outboxes-hook :
      (targets : List ClientId) (s : ServerState R H A S Handle)
      → (flush_outboxes m hook channels targets s).hook ≡ s.hook
  unfolding flush_outboxes
  flush_outboxes-hook targets s =
      deliver_all-hook (collect m s.connections targets s.router).0
        (record s { router = (collect m s.connections targets s.router).1 })

  -- What the hook is told of an event that is accepted.
  pub on_event-hook :
      (from_str : List ℕ → Option WireEvent) (id : ClientId) (h : Handle) (event : WireEvent)
      (s : ServerState R H A S Handle)
      → (m.route s.router id event).0 ≡ ok tt
      → (on_event m hook channels from_str id h event s).hook
        ≡ hook.on_route_accepted s.hook id event
  unfolding on_event route_and_flush
  on_event-hook from_str id h event s routed = ground (
    arith,
    flush_outboxes-hook (delivery_targets id event) (record s {
      router = (m.route s.router id event).1;
      hook = hook.on_route_accepted s.hook id event;
    }),
  )

-- ===== src/ChatServer/Ws/Bounded.antt =====
-- The channels of ws.rs as bounded queues, and what fits into them.
use e2e_chat_rs.Prelude.{
  ◌+◌, ◌≤◌, ◌<◌, ◌≡◌, ◌≢◌, refl, sym, true, some, List, [], ◌∷◌, ◌++◌, arith, length, length-append,
}
use mathlib.Core.List.{append-nil, append_assoc}
use e2e_chat_rs.ChatCore.Types.{ClientId, ClientId_eq}
use e2e_chat_rs.ChatCore.Event.{WireEvent}
use e2e_chat_rs.ChatServer.Ws.{Channels, ServerState, outbox_capacity, send_events}
use e2e_chat_rs.ChatServer.Ws.Slow.{IsQueue}

-- The queues of `mpsc::channel(OUTBOX_CAPACITY)`, while their receivers are there: a queue takes an
-- event unless it is full, and leaves the others alone.
pub record IsBounded {S Handle : Type 0} (channels : Channels S Handle)
    (queue : S → Handle → List WireEvent) : Type 0 where
  pub is_queue : IsQueue channels queue
  pub accepts :
      (h : Handle) (event : WireEvent) (s : S)
      → length (queue s h) < outbox_capacity
      → (channels.try_send h event s).0 ≡ true
  pub others :
      (h j : Handle) (event : WireEvent) (s : S)
      → h ≢ j
      → queue (channels.try_send h event s).1 j ≡ queue s j

-- Queues that leave each other alone. They may be full, or closed because their receivers have gone.
pub record IsPerHandle {S Handle : Type 0} (channels : Channels S Handle)
    (queue : S → Handle → List WireEvent) : Type 0 where
  pub is_queue : IsQueue channels queue
  pub others :
      (h j : Handle) (event : WireEvent) (s : S)
      → h ≢ j
      → queue (channels.try_send h event s).1 j ≡ queue s j

-- What is received is the first of the queue, and the other queues are left alone. A queue that
-- loses its receiver is emptied.
pub record IsReceived {S Handle : Type 0} (channels : Channels S Handle)
    (queue : S → Handle → List WireEvent) : Type 0 where
  pub takes :
      (h : Handle) (event : WireEvent) (s : S)
      → (channels.recv h s).0 ≡ some event
      → queue s h ≡ event ∷ queue (channels.recv h s).1 h
  pub keeps : (h j : Handle) (s : S) → h ≢ j → queue (channels.recv h s).1 j ≡ queue s j
  pub empties : (h : Handle) (s : S) → queue (channels.drop_receiver h s) h ≡ []
  pub drop_keeps : (h j : Handle) (s : S) → h ≢ j → queue (channels.drop_receiver h s) j ≡ queue s j

module _ {R H A S Handle : Type 0} (channels : Channels S Handle)
    (queue : S → Handle → List WireEvent) (law : IsBounded channels queue) where
  -- All events fit.
  pub record Fits (h : Handle) (events : List WireEvent) (s t : ServerState R H A S Handle)
      : Type 0 where
    pub same : t ≡ record s { channels = t.channels }
    pub got : queue t.channels h ≡ queue s.channels h ++ events
    pub others : (j : Handle) → h ≢ j → queue t.channels j ≡ queue s.channels j

  pub send_events-Fits :
      (h : Handle) (id : ClientId) (events : List WireEvent) (s : ServerState R H A S Handle)
      → length (queue s.channels h) + length events ≤ outbox_capacity
      → Fits h events s (send_events channels h id events s)
  unfolding send_events
  send_events-Fits h id [] s fits = record {
    same = refl;
    got = sym (append-nil _);
    others = λ j ne. refl;
  }
  send_events-Fits h id (event ∷ events) s fits =
      let tried = channels.try_send h event s.channels in
      let next : ServerState R H A S Handle = record s { channels = tried.1 } in
      let room = law.accepts h event s.channels (omega arith) in
      let got = law.is_queue.sends h event s.channels room in
      let rest =
        send_events-Fits h id events next
          (ground (arith, got, length-append (queue s.channels h) (event ∷ []))) in
      record {
        same = ground (arith, room, rest.same);
        got =
            ground
              (arith, room, rest.got, got, append_assoc (queue s.channels h) (event ∷ []) events);
        others = λ j ne. ground (arith, room, rest.others j ne, law.others h j event s.channels ne);
      }

-- ===== src/ChatServer/Ws/Slow.antt =====
-- What a client's queue gets of its outbox, and what happens to a client that is too slow.
use e2e_chat_rs.Prelude.{
  ◌≡◌, refl, sym, ap, ◌⊎◌, inl, inr, true, false, none, List, [], ◌∷◌, ◌++◌, arith, ◌≢◌, Bool-cases,
}
use mathlib.Core.List.{append-nil, append_assoc}
use e2e_chat_rs.Prelude.Maps
use e2e_chat_rs.ChatCore.Types.{ClientId, ClientId_eq}
use e2e_chat_rs.ChatCore.Event.{WireEvent}
use e2e_chat_rs.ChatServer.Ws.{Channels, ServerState, send_events}

-- A bounded `mpsc` channel: a sent event goes to the end of its queue, an event for which there is
-- no room changes nothing, and closing leaves the queues alone.
pub record IsQueue {S Handle : Type 0} (channels : Channels S Handle)
    (queue : S → Handle → List WireEvent) : Type 0 where
  pub sends :
      (h : Handle) (event : WireEvent) (s : S)
      → (channels.try_send h event s).0 ≡ true
      → queue (channels.try_send h event s).1 h ≡ queue s h ++ event ∷ []
  pub refuses :
      (h : Handle) (event : WireEvent) (s : S)
      → (channels.try_send h event s).0 ≡ false
      → queue (channels.try_send h event s).1 h ≡ queue s h
  pub closes : (h j : Handle) (s : S) → queue (channels.send_close h s) j ≡ queue s j

module _ {R H A S Handle : Type 0} (channels : Channels S Handle)
    (queue : S → Handle → List WireEvent) (law : IsQueue channels queue) where
  -- What a flush sends to a client is split in two: the first part is in its queue, in order,
  -- behind what was there, and the second is dropped. Either nothing is dropped and the connection
  -- map is as it was, or something is dropped and the client has left the map. The channels are
  -- bounded queues.
  pub send_events-queue :
      (h : Handle) (id : ClientId) (events : List WireEvent) (s : ServerState R H A S Handle)
      → (sent : List WireEvent) × (dropped : List WireEvent) × (events ≡ sent ++ dropped)
        × (queue (send_events channels h id events s).channels h ≡ queue s.channels h ++ sent)
        × (((dropped ≡ []) × ((send_events channels h id events s).connections ≡ s.connections))
            ⊎ ((dropped ≢ [])
                × (Maps.get (send_events channels h id events s).connections id ≡ none)))
  unfolding send_events
  send_events-queue h id [] s = ([], [], refl, sym (append-nil _), inl (refl, refl))
  send_events-queue h id (event ∷ events) s =
      elim (Bool-cases (channels.try_send h event s.channels).0) [
        | inl room ↦
            let next : ServerState R H A S Handle = record s {
              channels = (channels.try_send h event s.channels).1;
            } in
            let (sent, dropped, whole, got, how) = send_events-queue h id events next in
            (
              event ∷ sent,
              dropped,
              ap (λ (es : List WireEvent). event ∷ es) whole,
              ground (
                arith,
                got,
                law.sends h event s.channels,
                append_assoc (queue s.channels h) (event ∷ []) sent,
              ),
              ground (arith, how),
            )
        | inr full ↦ (
          [],
          event ∷ events,
          refl,
          ground (
            arith,
            law.refuses h event s.channels,
            law.closes h h (channels.try_send h event s.channels).1,
            append-nil (queue s.channels h),
          ),
          inr (λ e. cc, ground (arith, Maps.get-remove s.connections id id)),
        )
      ]

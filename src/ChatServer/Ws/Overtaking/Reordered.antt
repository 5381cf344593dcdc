-- ===== src/ChatServer/Ws/Overtaking/Reordered.antt =====
-- Two messages of one client to another in ws.rs, of which the second comes first.
use e2e_chat_rs.ChatServer.Ws.System.Alone.{on_event-Runs, deliver_all-Runs}
use e2e_chat_rs.ChatServer.Ws.Overtaking.Turns.{first_Runs, second_Runs, third_Runs}
use e2e_chat_rs.ChatServer.Ws.Overtaking.{run_in}
use e2e_chat_rs.ChatServer.Ws.{
  deliver_all, MessageRouter, EventHook, AuthProvider, Channels, ServerState,
}
use e2e_chat_rs.ChatServer.Ws.Overtaking.Stages.{
  turns_third, turns_fourth, turns_second, collected_first, Chat, turns_first, Ready, fourth-Passed,
  third_Connected, fifth-Sent, second_Connected, second_idle,
}
use e2e_chat_rs.ChatServer.Router.Contract.{View, Implements}
use e2e_chat_rs.Prelude.{ℕ, ◌≡◌, ◌≢◌, refl, Option, List, [], ◌∷◌, ◌++◌, arith, length-append}
use mathlib.Core.List.{append_assoc}
use e2e_chat_rs.ChatServer.Ws.System.{looping, World, Reach}
use e2e_chat_rs.ChatCore.Event.{WireEvent, EncryptedEnvelope, encrypted_message, ack}
use e2e_chat_rs.ChatServer.Ws.Bounded.{IsBounded}

module _ {R H A S : Type 0} (m : MessageRouter R) (hook : EventHook H) (auth : AuthProvider A)
    (channels : Channels S ℕ) (from_str : List ℕ → Option WireEvent) (view : R → View)
    (law : Implements m view) (queue : S → ℕ → List WireEvent) (bounded : IsBounded channels queue)
    (i j : ℕ) (e next f : EncryptedEnvelope) where
  -- The state before the second message, after it, and after all that was collected is sent.
  abbrev answered : ServerState R H A S ℕ → ServerState R H A S ℕ
  answered s = turns_third m hook auth channels from_str view law queue bounded i j e next f (
      turns_second m hook auth channels from_str view law queue bounded i j e next f
        (turns_first m hook auth channels from_str view law queue bounded i j e next f s))

  abbrev passed_by : ServerState R H A S ℕ → ServerState R H A S ℕ
  passed_by s =
      turns_fourth m hook auth channels from_str view law queue bounded i j e next f (answered s)

  abbrev sent_last : ServerState R H A S ℕ → ServerState R H A S ℕ
  sent_last s =
      deliver_all channels
        (collected_first m hook auth channels from_str view law queue bounded i j e next f)
        (passed_by s)

  -- The two tasks, in turn, from one state to the other.
  record AllRan (start : ServerState R H A S ℕ) (s : ServerState R H A S ℕ) : Type 0 where
    world : World R H A S
    reach : Reach m hook auth channels from_str start world
    shared : world.shared ≡ sent_last s
    at_i : world.pc i ≡ looping e.sender
    at_j : world.pc j ≡ looping e.recipient

  all_ran :
      (start : ServerState R H A S ℕ) (w : World R H A S)
      → Reach m hook auth channels from_str start w
      → w.pc i ≡ looping e.sender
      → w.pc j ≡ looping e.recipient
      → i ≢ j
      → Chat e next f
      → Ready m hook channels view law queue bounded i j e w.shared
      → AllRan start w.shared
  all_ran start w r at_i at_j apart chat ready =
      let run1 =
        run_in m hook auth channels from_str start w i
          (first_Runs m hook auth channels from_str view law queue bounded i j e f w.shared
            ready.connected)
          refl at_i r in
      let run2 =
        run_in m hook auth channels from_str start run1.world j
          (second_Runs m hook auth channels from_str view law queue bounded i j e f
            (turns_first m hook auth channels from_str view law queue bounded i j e next f w.shared)
            (ack e.message_id ∷ []) (encrypted_message e ∷ [])
            (second_Connected m hook auth channels from_str view law queue bounded i j e next f
              w.shared chat ready))
          run1.shared (ground (arith, run1.others j apart, at_j, chat)) run1.reach in
      let run3 =
        run_in m hook auth channels from_str start run2.world i
          (third_Runs m hook auth channels from_str view law queue bounded i j e f
            (turns_second m hook auth channels from_str view law queue bounded i j e next f (
              turns_first m hook auth channels from_str view law queue bounded i j e next f
                w.shared))
            ready.connected.a_there ready.connected.b_there
            (second_idle m hook auth channels from_str view law queue bounded i j e next f w.shared
              chat ready).0
            (second_idle m hook auth channels from_str view law queue bounded i j e next f w.shared
              chat ready).1)
          run2.shared (ground (arith, run2.others i, run1.there, apart)) run2.reach in
      let run4 =
        run_in m hook auth channels from_str start run3.world i
          (on_event-Runs m hook auth channels from_str i next.sender (encrypted_message next)
            (answered w.shared))
          run3.shared (ground (arith, run3.there, chat)) run3.reach in
      let run5 =
        run_in m hook auth channels from_str start run4.world j
          (deliver_all-Runs m hook auth channels from_str j f.sender
            (collected_first m hook auth channels from_str view law queue bounded i j e next f)
            (passed_by w.shared))
          run4.shared (ground (arith, run4.others j apart, run3.others j apart, run2.there))
          run4.reach in
      record {
        world = run5.world;
        reach = run5.reach;
        shared = run5.shared;
        at_i = ground (arith, run5.others i, run4.there, chat, apart);
        at_j = ground (arith, run5.there, chat);
      }

  -- The hook after the two messages, the answer first.
  abbrev pub told_in_order : H → H
  told_in_order h =
      hook.on_route_accepted
        (hook.on_route_accepted (hook.on_route_accepted h e.recipient (encrypted_message f))
          e.sender (encrypted_message e))
        e.sender (encrypted_message next)

  -- When two clients stand in their loops, connected through different channels with room and with
  -- empty outboxes, and one has two messages for the other and the other one for the first, there
  -- are further steps after which both are back in their loops, no connection is lost, the hook
  -- has been told of the first message before the second, and the second stands before the first
  -- in the channel of their recipient. The state is any that is reached, the router implements the
  -- specification, and the channels are bounded queues.
  pub messages_reordered :
      (start : ServerState R H A S ℕ) (w : World R H A S)
      → Reach m hook auth channels from_str start w
      → w.pc i ≡ looping e.sender
      → w.pc j ≡ looping e.recipient
      → i ≢ j
      → Chat e next f
      → Ready m hook channels view law queue bounded i j e w.shared
      → (x : World R H A S) × Reach m hook auth channels from_str start x
        × (x.pc i ≡ looping e.sender)
        × (x.pc j ≡ looping e.recipient)
        × (x.shared.connections ≡ w.shared.connections)
        × (x.shared.hook ≡ told_in_order w.shared.hook)
        × (queue x.shared.channels j
            ≡ queue w.shared.channels j
              ++ encrypted_message next ∷ encrypted_message e ∷ ack f.message_id ∷ [])
  messages_reordered start w r at_i at_j apart chat ready =
      let s = w.shared in
      let ran = all_ran start w r at_i at_j apart chat ready in
      let passed =
        fourth-Passed m hook auth channels from_str view law queue bounded i j e next f (answered s)
          (third_Connected m hook auth channels from_str view law queue bounded i j e next f s chat
            ready) in
      let sent =
        fifth-Sent m hook auth channels from_str view law queue bounded i j e next f (passed_by s)
          ready.connected.handles_apart
          (ground (
            arith,
            ready.a_room,
            passed.to_a,
            length-append (queue s.channels i) (ack next.message_id ∷ []),
          ))
          (ground (
            arith,
            ready.b_room,
            passed.to_b,
            length-append (queue s.channels j) (encrypted_message next ∷ []),
          )) in
      (
        ran.world,
        ran.reach,
        ran.at_i,
        ran.at_j,
        ground (arith, ran.shared, sent.connections, passed.connections),
        ground (arith, ran.shared, sent.told, passed.told, chat),
        ground (
          arith,
          ran.shared,
          sent.to_b,
          passed.to_b,
          append_assoc (queue s.channels j) (encrypted_message next ∷ [])
              (encrypted_message e ∷ ack f.message_id ∷ []),
        ),
      )

-- ===== src/ControlPlane/Clients.antt =====
-- include/chronosx/control_plane.hpp: what ControlPlaneServer does with the bytes that its clients send,
-- and its event loop. What `recv`, `send` and `epoll_wait` return is an argument. The loop over a client's messages is on fuel;
-- none is that this ran out, or that `send_all` waits for another result of `send`. Termination says when
-- neither happens.
use chronos_x.Base.{
  ℕ, zero, suc, ◌+◌, ◌-◌, List, [], ◌∷◌, Bool, true, false, not, ◌||◌, Option, none, some, ltb,
  ◌==◌, ◌!=◌, if◌then◌else◌, length, replicate, take, get_or, set, u64,
}
use chronos_x.Types.{StatUpdate}
use chronos_x.ChaosEngine.{ChaosRule}
use chronos_x.Control.{Layout}
use chronos_x.ControlPlane.{
  ControlPlaneStatus, ok, epoll_create_failed, shutdown_requested, not_initialized,
  ConnectionBuffer, new_buffer, append, readable, consume, has_complete_message,
  next_message_length, ControlPlaneCore, control_response_buffer_bytes, handle_request,
}
use chronos_x.ControlPlane.Server.{
  Fd, ControlPlaneServer, is_fd, find_slot, remove_connection, handle_accept,
}

-- What `send` returns: an interruption, another error or nothing sent, or a number of bytes.
pub data SendResult : Type 0 where
  interrupted refused : SendResult
  sent : ℕ → SendResult

-- `send_all` of `remaining` bytes over the results of its calls; none while it waits for another.
unfoldable pub send_all : List SendResult → ℕ → Option Bool
send_all results zero = some true
send_all [] (suc remaining) = none
send_all (interrupted ∷ results) (suc remaining) = send_all results (suc remaining)
send_all (refused ∷ results) (suc remaining) = some false
send_all (sent n ∷ results) (suc remaining) =
    let rest = send_all results (suc remaining - n) in if n == 0 then some false else rest

-- What `recv` returns: nothing to read yet, an end or an error, or bytes.
pub data Received : Type 0 where
  would_block ended : Received
  bytes_read : List ℕ → Received

-- An event's descriptor, and what the calls made for it return.
pub record Event : Type 0 where
  pub fd : ℕ
  pub client : Fd
  pub added : Bool
  pub received : Received

-- What `epoll_wait` returns.
pub data Polled : Type 0 where
  poll_interrupted poll_failed : Polled
  events : List Event → Polled

-- The core, the buffer, the count of messages, and whether the connection stays.
pub record Served : Type 0 where
  pub core : ControlPlaneCore
  pub buffer : ConnectionBuffer
  pub messages_handled : ℕ
  pub kept : Bool

-- `status == ControlPlaneStatus::ShutdownRequested`
unfoldable pub is_shutdown : ControlPlaneStatus → Bool
is_shutdown shutdown_requested = true
is_shutdown status = false

-- How a round of the loop ends: with the loop, with the core and the buffer of the next round, or not,
-- where `send_all` waits for another result of `send`.
pub data Round : Type 0 where
  stops : Served → Round
  goes_on : ControlPlaneCore → ConnectionBuffer → Round
  waits : Round

-- The end of a round, by the answer of `send_all`.
unfoldable pub round_after : Option Bool → ControlPlaneCore → ConnectionBuffer → ℕ → Round
round_after none core b handled = waits
round_after (some true) core b handled = goes_on core b
round_after (some false) core b handled =
    stops (record { core = core; buffer = b; messages_handled = handled; kept = false })

-- The server after the loop: the connection is removed at the places where the loop returns.
unfoldable pub served_at : ControlPlaneServer → ℕ → Option Served → Option ControlPlaneServer
unfolding remove_connection
served_at s slot none = none
served_at s slot (some r) =
    let s : ControlPlaneServer = record s {
      core = r.core;
      buffers = set s.buffers slot r.buffer;
      messages_handled = r.messages_handled;
    } in
    some (if r.kept then s else remove_connection s slot)

module _ (rule_layout : Layout ChaosRule) (stats_layout : Layout StatUpdate) (max_rules : ℕ) where
  -- `results` is what the calls of `send` return for a response, by the count of messages handled before it.
  module _ (results : ℕ → List ℕ → List SendResult) where
    -- A round of the loop of `handle_client` over the complete messages of the buffer.
    unfoldable pub message_round : ControlPlaneCore → ConnectionBuffer → ℕ → Round
    unfolding handle_request has_complete_message next_message_length consume send_all round_after
    message_round core b handled =
        if not (has_complete_message b)
        then stops (record { core = core; buffer = b; messages_handled = handled; kept = true })
        else let msg_len = next_message_length b in
          if msg_len == 0 || ltb b.write_pos msg_len
          then stops (record { core = core; buffer = b; messages_handled = handled; kept = false })
          else let msg_data = take msg_len (readable b) in
            let (reply, core) =
              handle_request rule_layout stats_layout max_rules core msg_data
                (replicate control_response_buffer_bytes 0) in
            let b = consume b msg_len in
            let response = take reply.0.bytes_written reply.1 in
            round_after
              (if ltb 0 reply.0.bytes_written
                then send_all (results handled response) (length response)
                else some true)
              core b handled

    unfoldable pub message_loop : ℕ → ControlPlaneCore → ConnectionBuffer → ℕ → Option Served
    unfolding message_round
    message_loop zero core b handled = none
    message_loop (suc fuel) core b handled = elim (message_round core b handled) [
      | stops r ↦ some r
      | goes_on core b ↦ message_loop fuel core b (u64 (handled + 1))
      | waits ↦ none
    ]

    -- `handle_client` on the bytes that `recv` read, at the slot of the connection.
    unfoldable pub receive_bytes : ControlPlaneServer → ℕ → List ℕ → Option ControlPlaneServer
    unfolding append message_loop remove_connection served_at
    receive_bytes s slot data' =
        let (appended, b) = append (get_or s.buffers slot new_buffer) data' in
        let s : ControlPlaneServer = record s { buffers = set s.buffers slot b } in
        if appended != length data' || b.overflowed
        then some (remove_connection s slot)
        else served_at s slot (message_loop (suc b.write_pos) s.core b s.messages_handled)

    unfoldable pub handle_client : ControlPlaneServer → ℕ → Received → Option ControlPlaneServer
    unfolding find_slot remove_connection receive_bytes
    handle_client s fd received =
        let slot = find_slot s fd in
        if slot == s.connection_count then some s else elim received [
          | would_block ↦ some s
          | ended ↦ some (remove_connection s slot)
          | bytes_read data' ↦ receive_bytes s slot data'
        ]

    -- The loop of `run_once` over the events.
    unfoldable pub handle_events :
        List Event → ControlPlaneServer → Option (ControlPlaneStatus × ControlPlaneServer)
    unfolding handle_accept handle_client is_fd
    handle_events [] s = some (ok, s)
    handle_events (e ∷ es) s =
        let accepted = handle_events es (handle_accept s e.client e.added) in
        if is_fd s.event_fd e.fd
        then some (shutdown_requested, s)
        else if is_fd s.listen_fd e.fd
        then accepted
        else elim (handle_client s e.fd e.received) [ none ↦ none | some s' ↦ handle_events es s' ]

    unfoldable pub run_once :
        Polled → ControlPlaneServer → Option (ControlPlaneStatus × ControlPlaneServer)
    unfolding handle_events
    run_once polled s = if not s.initialized then some (not_initialized, s) else elim polled [
      | poll_interrupted ↦ some (ok, s)
      | poll_failed ↦ some (epoll_create_failed, s)
      | events es ↦ handle_events es s
    ]

    -- `run`, over what `epoll_wait` returns in the rounds before `running` is false.
    unfoldable pub run : List Polled → ControlPlaneServer → Option ControlPlaneServer
    unfolding run_once is_shutdown
    run [] s = some s
    run (polled ∷ rounds) s = elim (run_once polled s) [
      | none ↦ none
      | some r ↦ let rest = run rounds r.1 in if is_shutdown r.0 then some r.1 else rest
    ]

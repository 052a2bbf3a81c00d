-- ===== src/ControlPlane/Termination.antt =====
-- include/chronosx/control_plane.hpp: whether the loops over what `send` returns, over a client's messages and over
-- the events end.
use chronos_x.Base.{
  ℕ, zero, suc, ◌+◌, ◌-◌, ◌<◌, ◌≤◌, ◌≡◌, ◌⊎◌, refl, ap, List, [], ◌∷◌, Bool, true, false, not, ◌||◌,
  Option, none, some, arith, ltb, ◌==◌, ◌!=◌, if◌then◌else◌, length, replicate, take, u64, get_or,
  set, Bool-cases, inl, inr,
}
use mathlib.Core.Option.{none-ne-some}
use chronos_x.Types.{StatUpdate}
use chronos_x.ChaosEngine.{ChaosRule}
use chronos_x.Control.{Layout}
use chronos_x.ControlPlane.{
  ControlPlaneCore, ConnectionBuffer, readable, append, consume, new_buffer, has_complete_message,
  next_message_length, handle_request, control_response_buffer_bytes, ok, not_initialized,
  epoll_create_failed,
}
use chronos_x.ControlPlane.Server.{
  ControlPlaneServer, find_slot, remove_connection, handle_accept, is_fd,
}
use chronos_x.ControlPlane.Clients.{
  SendResult, interrupted, refused, sent, send_all, Served, Round, stops, goes_on, waits,
  round_after, message_round, message_loop, served_at, receive_bytes, Received, would_block, ended,
  bytes_read, handle_client, Event, Polled, handle_events, poll_interrupted, poll_failed, events,
  run_once, run, is_shutdown,
}

-- A result, where there is one at all.
pub record IsResult {A : Type 0} (o : Option A) : Type 0 where
  pub value : A
  pub returned : o ≡ some value

pub result : {A : Type 0} (a : A) → IsResult (some a)
result a = record { value = a; returned = refl }

consume-write_pos : (b : ConnectionBuffer) (n : ℕ) → (consume b n).write_pos ≡ b.write_pos - n
unfolding consume
consume-write_pos b n = ground arith

if_results :
    {A : Type 0} (t : Bool) (o o' : Option A)
    → IsResult o
    → IsResult o'
    → IsResult (if t then o else o')
if_results true o o' h h' = h
if_results false o o' h h' = h'

pub Round-cases :
    (r : Round)
    → ((t : Served) × (r ≡ stops t))
      ⊎ (((core : ControlPlaneCore) × (b : ConnectionBuffer) × (r ≡ goes_on core b)) ⊎ (r ≡ waits))
Round-cases (stops t) = inl (t, refl)
Round-cases (goes_on core b) = inr (inl (core, b, refl))
Round-cases waits = inr (inr refl)

-- A message of at least a byte leaves less of the buffer.
progress :
    (b : ConnectionBuffer) (n : ℕ) (b' : ConnectionBuffer)
    → (n == 0 || ltb b.write_pos n) ≡ false
    → consume b n ≡ b'
    → b'.write_pos < b.write_pos
progress b n b' q e = ground (arith, consume-write_pos b n, ap (λ c. c.write_pos) e)

-- What a round that goes on has passed.
goes_on_lem :
    (t t' : Bool) (o : Option Bool) (r r' : Served) (core core' : ControlPlaneCore)
    (b b' : ConnectionBuffer) (handled : ℕ)
    → (if t then stops r else if t' then stops r' else round_after o core b handled)
      ≡ goes_on core' b'
    → (t' ≡ false) × (b ≡ b')
unfolding round_after
goes_on_lem t t' none r r' core core' b b' handled h = ground arith
goes_on_lem t t' (some true) r r' core core' b b' handled h = ground arith
goes_on_lem t t' (some false) r r' core core' b b' handled h = ground arith

-- A round does not wait where `send_all` returns.
waits_lem :
    (t t' : Bool) (o : Option Bool) (r r' : Served) (core : ControlPlaneCore) (b : ConnectionBuffer)
    (handled : ℕ)
    → IsResult o
    → ¬ ((if t then stops r else if t' then stops r' else round_after o core b handled) ≡ waits)
unfolding round_after
waits_lem t t' none r r' core b handled q h = none-ne-some q.value q.returned
waits_lem t t' (some true) r r' core b handled q h = ground arith
waits_lem t t' (some false) r r' core b handled q h = ground arith

-- How many of the results are not interruptions.
unfoldable pub uninterrupted : List SendResult → ℕ
uninterrupted [] = 0
uninterrupted (interrupted ∷ results) = uninterrupted results
uninterrupted (refused ∷ results) = suc (uninterrupted results)
uninterrupted (sent n ∷ results) = suc (uninterrupted results)

-- Each of them ends the loop of `send_all` or takes a byte off what is left.
send_all-IsResult :
    (results : List SendResult) (remaining : ℕ)
    → remaining ≤ uninterrupted results
    → IsResult (send_all results remaining)
unfolding send_all uninterrupted
send_all-IsResult results zero h = result true
send_all-IsResult [] (suc remaining) h = absurd (omega (arith, h))
send_all-IsResult (interrupted ∷ results) (suc remaining) h =
    send_all-IsResult results (suc remaining) h
send_all-IsResult (refused ∷ results) (suc remaining) h = result false
send_all-IsResult (sent n ∷ results) (suc remaining) h = elim (Bool-cases (n == 0)) [
  | inl none_sent ↦ rw (none_sent, send_all) (result false)
  | inr some_sent ↦
      rw (some_sent, send_all)
        (send_all-IsResult results (suc remaining - n) (ground (arith, h, some_sent)))
]

module _ (rule_layout : Layout ChaosRule) (stats_layout : Layout StatUpdate) (max_rules : ℕ) where
  module _ (results : ℕ → List ℕ → List SendResult)
      (returns : (n : ℕ) (bytes : List ℕ)
        → IsResult (send_all (results n bytes) (length bytes))) where
    -- A round that goes on takes at least a byte out of the buffer.
    message_round_progress :
        (core core' : ControlPlaneCore) (b b' : ConnectionBuffer) (handled : ℕ)
        → message_round rule_layout stats_layout max_rules results core b handled ≡ goes_on core' b'
        → b'.write_pos < b.write_pos
    unfolding message_round
    message_round_progress core core' b b' handled h =
        let n : ℕ = next_message_length b in
        let (reply, next) =
          handle_request rule_layout stats_layout max_rules core (take n (readable b))
            (replicate control_response_buffer_bytes 0) in
        let response : List ℕ = take reply.0.bytes_written reply.1 in
        let answer : Option Bool =
          if ltb 0 reply.0.bytes_written
          then send_all (results handled response) (length response)
          else some true in
        let (sized, left) =
          goes_on_lem (not (has_complete_message b)) (n == 0 || ltb b.write_pos n) answer _ _ next
            core' (consume b n) b' handled h in
        progress b n b' sized left

    message_round_returns :
        (core : ControlPlaneCore) (b : ConnectionBuffer) (handled : ℕ)
        → ¬ (message_round rule_layout stats_layout max_rules results core b handled ≡ waits)
    unfolding message_round
    message_round_returns core b handled =
        let n : ℕ = next_message_length b in
        let (reply, next) =
          handle_request rule_layout stats_layout max_rules core (take n (readable b))
            (replicate control_response_buffer_bytes 0) in
        let response : List ℕ = take reply.0.bytes_written reply.1 in
        waits_lem (not (has_complete_message b)) (n == 0 || ltb b.write_pos n) _ _ _ next
          (consume b n) handled
          (if_results (ltb 0 reply.0.bytes_written) _ _ (returns handled response) (result true))

    pub message_loop-IsResult :
        (fuel : ℕ) (core : ControlPlaneCore) (b : ConnectionBuffer) (handled : ℕ)
        → b.write_pos < fuel
        → IsResult (message_loop rule_layout stats_layout max_rules results fuel core b handled)
    unfolding message_loop
    message_loop-IsResult zero core b handled h = absurd (omega arith)
    message_loop-IsResult (suc fuel) core b handled h =
        elim (Round-cases
          (message_round rule_layout stats_layout max_rules results core b handled)) [
            | inl (r, e) ↦ rw (e, message_loop) (result r)
            | inr (inr e) ↦ absurd (message_round_returns core b handled e)
            | inr (inl (core', b', e)) ↦
                rw (e, message_loop)
                  (message_loop-IsResult fuel core' b' (u64 (handled + 1))
                    (omega (arith, message_round_progress core core' b b' handled e)))
          ]

    served_at-IsResult :
        (s : ControlPlaneServer) (slot : ℕ) (o : Option Served)
        → IsResult o
        → IsResult (served_at s slot o)
    unfolding served_at
    served_at-IsResult s slot none h = absurd (none-ne-some h.value h.returned)
    served_at-IsResult s slot (some r) h = result _

    receive_bytes-IsResult :
        (s : ControlPlaneServer) (slot : ℕ) (data' : List ℕ)
        → IsResult (receive_bytes rule_layout stats_layout max_rules results s slot data')
    unfolding receive_bytes
    receive_bytes-IsResult s slot data' =
        let b : ConnectionBuffer = (append (get_or s.buffers slot new_buffer) data').1 in
        let s' : ControlPlaneServer = record s { buffers = set s.buffers slot b } in
        let loop =
          message_loop-IsResult (suc b.write_pos) s.core b s.messages_handled (omega arith) in
        if_results
          ((append (get_or s.buffers slot new_buffer) data').0 != length data' || b.overflowed)
          (some (remove_connection s' slot)) _ (result _) (served_at-IsResult s' slot _ loop)

    pub handle_client-IsResult :
        (s : ControlPlaneServer) (fd : ℕ) (received : Received)
        → IsResult (handle_client rule_layout stats_layout max_rules results s fd received)
    unfolding handle_client
    handle_client-IsResult s fd would_block =
        if_results (find_slot s fd == s.connection_count) (some s) (some s) (result _) (result _)
    handle_client-IsResult s fd ended =
        if_results (find_slot s fd == s.connection_count) (some s)
          (some (remove_connection s (find_slot s fd))) (result _) (result _)
    handle_client-IsResult s fd (bytes_read data') =
        if_results (find_slot s fd == s.connection_count) (some s)
          (receive_bytes rule_layout stats_layout max_rules results s (find_slot s fd) data')
          (result _) (receive_bytes-IsResult s (find_slot s fd) data')

    handle_events-IsResult :
        (es : List Event) (s : ControlPlaneServer)
        → IsResult (handle_events rule_layout stats_layout max_rules results es s)
    unfolding handle_events
    handle_events-IsResult [] s = result _
    handle_events-IsResult (e ∷ es) s = elim (Bool-cases (is_fd s.event_fd e.fd)) [
      | inl shut ↦ rw (shut, handle_events) (result _)
      | inr other ↦ elim (Bool-cases (is_fd s.listen_fd e.fd)) [
        | inl new ↦
            rw (other, new, handle_events)
              (handle_events-IsResult es (handle_accept s e.client e.added))
        | inr old ↦
            let served = handle_client-IsResult s e.fd e.received in
            rw (other, old, served.returned, handle_events) (handle_events-IsResult es served.value)
      ]
    ]

    pub run_once-IsResult :
        (polled : Polled) (s : ControlPlaneServer)
        → IsResult (run_once rule_layout stats_layout max_rules results polled s)
    unfolding run_once
    run_once-IsResult poll_interrupted s =
        if_results (not s.initialized) (some (not_initialized, s)) (some (ok, s)) (result _)
          (result _)
    run_once-IsResult poll_failed s =
        if_results (not s.initialized) (some (not_initialized, s)) (some (epoll_create_failed, s))
          (result _) (result _)
    run_once-IsResult (events es) s =
        if_results (not s.initialized) (some (not_initialized, s))
          (handle_events rule_layout stats_layout max_rules results es s) (result _)
          (handle_events-IsResult es s)

    run-IsResult :
        (rounds : List Polled) (s : ControlPlaneServer)
        → IsResult (run rule_layout stats_layout max_rules results rounds s)
    unfolding run
    run-IsResult [] s = result s
    run-IsResult (polled ∷ rounds) s =
        let once = run_once-IsResult polled s in
        rw (once.returned, run)
          (if_results (is_shutdown once.value.0) _ _ (result once.value.1)
            (run-IsResult rounds once.value.1))

  -- The event loop gets through any number of rounds, whatever the calls in them return and whatever bytes the
  -- clients send, provided that the calls of `send` for a response are not interrupted without end: that as
  -- many of them as the response has bytes are not. Then the loop of `send_all` ends, and so does the
  -- loop over a client's complete messages, since each round of it takes at least one byte out of the
  -- buffer, so that the fuel given to it, one more than the bytes in the buffer, is enough.
  pub run_ends :
      (results : ℕ → List ℕ → List SendResult)
      → ((n : ℕ) (bytes : List ℕ) → length bytes ≤ uninterrupted (results n bytes))
      → (rounds : List Polled) (s : ControlPlaneServer)
      → IsResult (run rule_layout stats_layout max_rules results rounds s)
  run_ends results enough rounds s =
      run-IsResult results
        (λ n bytes. send_all-IsResult (results n bytes) (length bytes) (enough n bytes)) rounds s

-- ===== src/ControlPlane/History.antt =====
-- include/chronosx/control_plane.hpp: any history of ControlPlaneServer, from its construction to `shutdown`.
use mathlib.Core.Option.{none-ne-some, some-injective}
use mathlib.Core.Path.{subst}
use chronos_x.Base.{
  ℕ, suc, ◌+◌, ◌≡◌, refl, List, [], ◌∷◌, Bool, true, false, ◌||◌, Option, none, some, arith, ◌==◌,
  ◌!=◌, not, if◌then◌else◌, length, get_or, set, Bool-cases, inl, inr,
}
use chronos_x.Types.{StatUpdate}
use chronos_x.ChaosEngine.{ChaosRule}
use chronos_x.Control.{Layout}
use chronos_x.ControlPlane.{
  ControlPlaneCore, ControlPlaneConfig, ControlPlaneStatus, ok, not_initialized, shutdown_requested,
  epoll_create_failed, ConnectionBuffer, new_buffer, append,
}
use chronos_x.ControlPlane.Server.{
  ControlPlaneServer, InitCalls, new_server, is_fd, init, shutdown, find_slot, remove_connection,
  handle_accept,
}
use chronos_x.ControlPlane.Clients.{
  SendResult, send_all, Served, message_loop, served_at, receive_bytes, Received, would_block,
  ended, bytes_read, handle_client, Event, Polled, poll_interrupted, poll_failed, events,
  handle_events, run_once,
}
use chronos_x.ControlPlane.Descriptors.{
  count, one, slots, held, Idle, Balanced, remove_connection-Balanced,
}
use chronos_x.ControlPlane.Leaks.{handle_accept-Balanced, shutdown-Balanced}
use chronos_x.ControlPlane.Startup.{init-Balanced}
use chronos_x.ControlPlane.Termination.{IsResult, handle_client-IsResult, run_once-IsResult}

pub data Operation : Type 0 where
  inits : ControlPlaneConfig → ControlPlaneCore → InitCalls → Operation
  runs : Polled → Operation
  shuts : Operation

new_server-Balanced : (core : ControlPlaneCore) → Balanced (new_server core)
unfolding Balanced Idle held count slots one
new_server-Balanced core = (
  record { fds = refl; room = omega arith; limit = omega arith },
  λ h. (refl, refl, refl),
  λ d. refl,
)

-- What a call that returns a server leaves behind is in order.
LeavesBalanced : Option ControlPlaneServer → Type 0
LeavesBalanced o = (s : ControlPlaneServer) → o ≡ some s → Balanced s

leaves : (s : ControlPlaneServer) → Balanced s → LeavesBalanced (some s)
unfolding LeavesBalanced
leaves s b t e = subst Balanced (some-injective s t e) b

if_leaves :
    (t : Bool) (o o' : Option ControlPlaneServer)
    → LeavesBalanced o
    → LeavesBalanced o'
    → LeavesBalanced (if t then o else o')
if_leaves true o o' h h' = h
if_leaves false o o' h h' = h'

-- The connections' contents do not matter.
Balanced-contents :
    (s : ControlPlaneServer) (core : ControlPlaneCore) (buffers : List ConnectionBuffer)
    (handled : ℕ)
    → Balanced s
    → Balanced (record s { core = core; buffers = buffers; messages_handled = handled })
unfolding Balanced Idle held
Balanced-contents s core buffers handled (sane, idle, balance) =
    (record { fds = sane.fds; room = sane.room; limit = sane.limit }, idle, balance)

served_at-leaves :
    (s : ControlPlaneServer) (slot : ℕ) (o : Option Served)
    → Balanced s
    → LeavesBalanced (served_at s slot o)
unfolding served_at LeavesBalanced
served_at-leaves s slot none b = λ t e. absurd (none-ne-some t e)
served_at-leaves s slot (some r) b =
    let s' : ControlPlaneServer = record s {
      core = r.core;
      buffers = set s.buffers slot r.buffer;
      messages_handled = r.messages_handled;
    } in
    let b' = Balanced-contents s r.core (set s.buffers slot r.buffer) r.messages_handled b in
    leaves (if r.kept then s' else remove_connection s' slot)
      (kept r.kept s' (remove_connection s' slot) b' (remove_connection-Balanced s' slot b'))
  where
    kept :
        (t : Bool) (x y : ControlPlaneServer)
        → Balanced x
        → Balanced y
        → Balanced (if t then x else y)
    kept true x y p q = p
    kept false x y p q = q

-- The same, for a call that returns a status as well.
AnswersBalanced : Option (ControlPlaneStatus × ControlPlaneServer) → Type 0
AnswersBalanced o = (r : ControlPlaneStatus × ControlPlaneServer) → o ≡ some r → Balanced r.1

answers : (r : ControlPlaneStatus × ControlPlaneServer) → Balanced r.1 → AnswersBalanced (some r)
unfolding AnswersBalanced
answers r b t e = subst (λ x. Balanced x.1) (some-injective r t e) b

if_answers :
    (t : Bool) (o o' : Option (ControlPlaneStatus × ControlPlaneServer))
    → AnswersBalanced o
    → AnswersBalanced o'
    → AnswersBalanced (if t then o else o')
if_answers true o o' h h' = h
if_answers false o o' h h' = h'

module _ (rule_layout : Layout ChaosRule) (stats_layout : Layout StatUpdate) (max_rules : ℕ) where
  module _ (results : ℕ → List ℕ → List SendResult) where
    unfoldable pub run_operations : List Operation → ControlPlaneServer → Option ControlPlaneServer
    run_operations [] s = some s
    run_operations (inits config core calls ∷ ops) s =
        run_operations ops (init config core calls s).1
    run_operations (shuts ∷ ops) s = run_operations ops (shutdown s)
    run_operations (runs polled ∷ ops) s =
        elim (run_once rule_layout stats_layout max_rules results polled s) [
          | none ↦ none
          | some r ↦ run_operations ops r.1
        ]

  module _ (results : ℕ → List ℕ → List SendResult)
      (returns : (n : ℕ) (bytes : List ℕ)
        → IsResult (send_all (results n bytes) (length bytes))) where
    receive_bytes-leaves :
        (s : ControlPlaneServer) (slot : ℕ) (data' : List ℕ)
        → Balanced s
        → LeavesBalanced (receive_bytes rule_layout stats_layout max_rules results s slot data')
    unfolding receive_bytes
    receive_bytes-leaves s slot data' b =
        let (appended, buffer) = append (get_or s.buffers slot new_buffer) data' in
        let s' : ControlPlaneServer = record s { buffers = set s.buffers slot buffer } in
        let b' = Balanced-contents s s.core (set s.buffers slot buffer) s.messages_handled b in
        if_leaves (appended != length data' || buffer.overflowed) _ _
          (leaves _ (remove_connection-Balanced s' slot b'))
          (served_at-leaves s' slot
            (message_loop rule_layout stats_layout max_rules results (suc buffer.write_pos) s.core
              buffer s.messages_handled)
            b')

    handle_client-leaves :
        (s : ControlPlaneServer) (fd : ℕ) (received : Received)
        → Balanced s
        → LeavesBalanced (handle_client rule_layout stats_layout max_rules results s fd received)
    unfolding handle_client
    handle_client-leaves s fd would_block b =
        if_leaves (find_slot s fd == s.connection_count) _ _ (leaves s b) (leaves s b)
    handle_client-leaves s fd ended b =
        if_leaves (find_slot s fd == s.connection_count) _ _ (leaves s b)
          (leaves _ (remove_connection-Balanced s (find_slot s fd) b))
    handle_client-leaves s fd (bytes_read data') b =
        if_leaves (find_slot s fd == s.connection_count) _ _ (leaves s b)
          (receive_bytes-leaves s (find_slot s fd) data' b)

    handle_events-answers :
        (es : List Event) (s : ControlPlaneServer)
        → Balanced s
        → AnswersBalanced (handle_events rule_layout stats_layout max_rules results es s)
    unfolding handle_events LeavesBalanced
    handle_events-answers [] s b = answers (ok, s) b
    handle_events-answers (e ∷ es) s b = elim (Bool-cases (is_fd s.event_fd e.fd)) [
      | inl shut ↦ rw (shut, handle_events) (answers (shutdown_requested, s) b)
      | inr other ↦ elim (Bool-cases (is_fd s.listen_fd e.fd)) [
        | inl new ↦
            rw (other, new, handle_events)
              (handle_events-answers es (handle_accept s e.client e.added)
                (handle_accept-Balanced s e.client e.added b))
        | inr old ↦
            let served =
              handle_client-IsResult rule_layout stats_layout max_rules results returns s e.fd
                e.received in
            rw (other, old, served.returned, handle_events)
              (handle_events-answers es served.value
                (handle_client-leaves s e.fd e.received b served.value served.returned))
      ]
    ]

    run_once-answers :
        (polled : Polled) (s : ControlPlaneServer)
        → Balanced s
        → AnswersBalanced (run_once rule_layout stats_layout max_rules results polled s)
    unfolding run_once
    run_once-answers poll_interrupted s b =
        if_answers (not s.initialized) _ _ (answers (not_initialized, s) b) (answers (ok, s) b)
    run_once-answers poll_failed s b =
        if_answers (not s.initialized) _ _ (answers (not_initialized, s) b)
          (answers (epoll_create_failed, s) b)
    run_once-answers (events es) s b =
        if_answers (not s.initialized) _ _ (answers (not_initialized, s) b)
          (handle_events-answers es s b)

    run_operations-Balanced :
        (ops : List Operation) (s : ControlPlaneServer)
        → Balanced s
        → (s' : ControlPlaneServer) × (run_operations results ops s ≡ some s') × Balanced s'
    unfolding run_operations AnswersBalanced
    run_operations-Balanced [] s b = (s, refl, b)
    run_operations-Balanced (inits config core calls ∷ ops) s b =
        run_operations-Balanced ops (init config core calls s).1
          (init-Balanced config core calls s b)
    run_operations-Balanced (shuts ∷ ops) s b =
        run_operations-Balanced ops (shutdown s) (shutdown-Balanced s b).0
    run_operations-Balanced (runs polled ∷ ops) s b =
        let once = run_once-IsResult rule_layout stats_layout max_rules results returns polled s in
        let (s', e, b') =
          run_operations-Balanced ops once.value.1
            (run_once-answers polled s b once.value once.returned) in
        (s', rw (once.returned, run_operations) e, b')

    -- After any history of `init`, `run_once` and `shutdown` on a new server, with any results of the system calls in them with
    -- which `send_all` returns, at any moment each descriptor was opened as often as it was closed or is held, in a slot of the connections in use
    -- or as the server's own; and `shutdown` then closes all that is open, each once.
    pub no_descriptor_leaks :
        (ops : List Operation) (core : ControlPlaneCore)
        → (s : ControlPlaneServer) × (run_operations results ops (new_server core) ≡ some s)
          × (((d : ℕ) → count d s.opened ≡ count d s.closed + held d s)
              × ((d : ℕ) → count d (shutdown s).opened ≡ count d (shutdown s).closed))
    unfolding Balanced
    no_descriptor_leaks ops core =
        let (s, e, b) = run_operations-Balanced ops (new_server core) (new_server-Balanced core) in
        let (after, nothing) = shutdown-Balanced s b in
        (s, e, (b.2, λ d. omega (arith, after.2 d, nothing d)))

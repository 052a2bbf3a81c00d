-- ===== src/ControlPlane/Tests.antt =====
-- The control plane at concrete streams, histories and requests.
use chronos_x.Base.{
  ℕ, zero, suc, ◌-◌, ◌==◌, ap, replicate, ◌≤◌, ◌+◌, ◌≡◌, refl, List, [], ◌∷◌, All, arith, true,
  false, none, some, take, drop, length,
}
use chronos_x.Control.Samples.{request, add_request, calls}
use chronos_x.Control.{ping, clear_rules}
use chronos_x.Control.LittleEndian.{rule_layout, stats_layout}
use chronos_x.Control.Requests.{rules_after_all}
use chronos_x.Protocol.Codec.{read_u32_be}
use chronos_x.ControlPlane.{
  ConnectionBuffer, ControlPlaneCore, new_control_plane_core, rules, valid,
}
use chronos_x.ControlPlane.Buffer.{Holds}
use chronos_x.ControlPlane.Messages.{IsMessage, concat}
use chronos_x.ControlPlane.Snapshot.{request_all, request_all_publishes}
use chronos_x.ControlPlane.Server.{
  ControlPlaneServer, InitCalls, new_server, init, default_config, handle_accept, find_slot,
  shutdown,
}
use chronos_x.ControlPlane.Clients.{
  SendResult, Event, events, bytes_read, run, send_all, sent, interrupted, refused,
}
use chronos_x.ControlPlane.Loop.{count_after, serve}
use chronos_x.ControlPlane.Stream.{client_reads, client_reads-serve}
use chronos_x.ControlPlane.Connection.{Connected, served_server, IsRead}
use chronos_x.ControlPlane.Termination.{IsResult, uninterrupted, run_ends}
use chronos_x.ControlPlane.Descriptors.{count, held}
use chronos_x.ControlPlane.History.{
  Operation, inits, runs, shuts, run_operations, no_descriptor_leaks,
}

abbrev core : ControlPlaneCore
core = new_control_plane_core rule_layout stats_layout 128

-- Each reply is sent after an interruption, by a call for all of it and calls that are not needed.
abbrev all_sent : ℕ → List ℕ → List SendResult
all_sent n bytes = interrupted ∷ sent (length bytes) ∷ replicate (length bytes) (sent 1)

all_sent-delivered :
    (n : ℕ) (bytes : List ℕ) → send_all (all_sent n bytes) (length bytes) ≡ some true
unfolding send_all
all_sent-delivered n [] = refl
all_sent-delivered n (x ∷ bytes) =
    rw
      (
        let e : suc (length bytes) - suc (length bytes) ≡ 0 = omega arith in e,
        let e : (suc (length bytes) == 0) ≡ false = ground arith in e,
        send_all,
      )
      refl

all_sent-returns : (n : ℕ) (bytes : List ℕ) → IsResult (send_all (all_sent n bytes) (length bytes))
all_sent-returns n bytes = record { value = true; returned = all_sent-delivered n bytes }

uninterrupted-replicate : (n : ℕ) → uninterrupted (replicate n (sent 1)) ≡ n
unfolding uninterrupted
uninterrupted-replicate zero = refl
uninterrupted-replicate (suc n) = ap suc (uninterrupted-replicate n)

all_sent-enough : (n : ℕ) (bytes : List ℕ) → length bytes ≤ uninterrupted (all_sent n bytes)
unfolding uninterrupted
all_sent-enough n bytes = omega (arith, uninterrupted-replicate (length bytes))

request_all_publishes_example :
    let p =
      request_all rule_layout stats_layout 2
        (new_control_plane_core rule_layout stats_layout 2)
        calls in
    (p.rule_snapshot ≡ rules p) × (p.rule_snapshot ≡ rules_after_all rule_layout 2 calls [])
request_all_publishes_example =
    request_all_publishes rule_layout stats_layout 2 calls
      (omega arith, (omega arith, (omega arith, (omega arith, tt))))

abbrev good_calls : InitCalls
good_calls = record {
  socket = some 3;
  bound = true;
  listening = true;
  epoll = some 4;
  event = some 5;
  listener_added = true;
  event_added = true;
}

abbrev started : ControlPlaneServer
started = (init default_config core good_calls (new_server core)).1

abbrev connected : ControlPlaneServer
connected = handle_accept started (some 7) true

abbrev a_read : Event
a_read = record { fd = 7; client = none; added = false; received = bytes_read (request ping []) }

run_ends_example :
    IsResult (run rule_layout stats_layout 128 all_sent (events (a_read ∷ []) ∷ []) connected)
run_ends_example =
    run_ends rule_layout stats_layout 128 all_sent all_sent-enough (events (a_read ∷ []) ∷ [])
      connected

connected_7 : Connected connected 7 0 []
unfolding init handle_accept find_slot valid
connected_7 = record {
  found = refl;
  counted = omega arith;
  stored = omega arith;
  size = refl;
  holds = record { bounded = omega arith; clean = refl; content = refl };
}

abbrev messages : List (List ℕ)
messages = request ping [] ∷ add_request ∷ request clear_rules [] ∷ []

-- The stream in reads of 30, 50 and 32 bytes, none of which ends with a message.
abbrev stream : List ℕ
stream = concat messages

abbrev reads : List (List ℕ)
reads = take 30 stream ∷ take 50 (drop 30 stream) ∷ drop 80 stream ∷ []

are_messages : All IsMessage messages
unfolding request add_request rule_layout read_u32_be
are_messages = (
  record { header = omega arith; whole = refl; small = omega arith },
  (
    record { header = omega arith; whole = refl; small = omega arith },
    (record { header = omega arith; whole = refl; small = omega arith }, tt),
  ),
)

are_reads : All IsRead reads
unfolding request add_request rule_layout
are_reads = (omega arith, (omega arith, (omega arith, tt)))

same_stream : concat reads ≡ concat messages
unfolding request add_request rule_layout
same_stream = refl

client_reads-serve_example :
    (b : ConnectionBuffer) × (client_reads rule_layout stats_layout 128 all_sent all_sent-delivered
        reads connected 7
      ≡ some (
          served_server connected 0 b
            (serve rule_layout stats_layout 128 connected.core messages)
            (count_after 3 connected.messages_handled)))
    × Holds b []
    × (length b.buffer ≡ 8192)
client_reads-serve_example =
    client_reads-serve rule_layout stats_layout 128 all_sent all_sent-delivered reads messages
      connected 7 0 connected_7 are_messages are_reads same_stream

-- A client connects, sends a request and goes on; the server is shut down and started again.
abbrev operations : List Operation
operations =
    inits default_config core good_calls
    ∷ runs (events (record a_read { fd = 3; client = some 7; added = true } ∷ a_read ∷ []))
    ∷ shuts
    ∷ inits default_config core (record good_calls { listening = false })
    ∷ []

no_descriptor_leaks_example :
    (s : ControlPlaneServer) × (run_operations rule_layout stats_layout 128 all_sent operations
        (new_server core)
      ≡ some s)
    × (((d : ℕ) → count d s.opened ≡ count d s.closed + held d s)
        × ((d : ℕ) → count d (shutdown s).opened ≡ count d (shutdown s).closed))
no_descriptor_leaks_example =
    no_descriptor_leaks rule_layout stats_layout 128 all_sent all_sent-returns operations core

sent_in_parts : send_all (sent 10 ∷ interrupted ∷ sent 14 ∷ []) 24 ≡ some true
unfolding send_all
sent_in_parts = refl

sent_in_part : send_all (sent 10 ∷ refused ∷ []) 24 ≡ some false
unfolding send_all
sent_in_part = refl

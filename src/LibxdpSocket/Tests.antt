-- ===== src/LibxdpSocket/Tests.antt =====
-- The socket over libxdp at concrete calls, with rings that are lists.
use chronos_x.Base.{ℕ, ◌≡◌, refl, List, [], ◌∷◌, true, none, some, arith, length, get_or}
use chronos_x.Types.{is_power_of_two}
use chronos_x.SocketManager.{UmemConfig, SocketConfig, umem_config_valid, socket_config_valid}
use chronos_x.LibxdpSocket.{Acquire, new_socket, shutdown, init, read_loop, send_to, take_from}
use chronos_x.LibxdpSocket.ListRing.{ListRing, rings, write, producer, consumer, ring}
use chronos_x.LibxdpSocket.Lifecycle.{
  Call, inits, shuts, run, Holds, IsEmpty, Answers, run-new_socket-Holds,
}
use chronos_x.LibxdpSocket.Rings.{Sent, Taken, send_to-Sent, take_from-Taken}

send_to-Sent_example :
    Sent rings producer
      (2 ∷ 3 ∷ [])
      ring
      (send_to rings write (2 ∷ 3 ∷ []) ring).0
      (send_to rings write (2 ∷ 3 ∷ []) ring).1
send_to-Sent_example = send_to-Sent rings producer (2 ∷ 3 ∷ []) ring (omega arith)

take_from-Taken_example :
    Taken rings consumer 2
      (7 ∷ 8 ∷ 9 ∷ [])
      (take_from rings (λ r i. get_or r i 0) 2 (7 ∷ 8 ∷ 9 ∷ [])).0
      (take_from rings (λ r i. get_or r i 0) 2 (7 ∷ 8 ∷ 9 ∷ [])).1
      (take_from rings (λ r i. get_or r i 0) 2 (7 ∷ 8 ∷ 9 ∷ [])).2
take_from-Taken_example = take_from-Taken rings consumer 2 (7 ∷ 8 ∷ 9 ∷ []) (omega arith)

-- Across the end of the 32-bit indices.
sent_queue : (send_to rings write (2 ∷ 3 ∷ []) ring).1.queue ≡ 1 ∷ 2 ∷ 3 ∷ []
unfolding send_to read_loop
sent_queue = refl

-- Four items where three have room.
none_sent : (send_to rings write (2 ∷ 3 ∷ 4 ∷ 5 ∷ []) ring).0.count ≡ 0
unfolding send_to
none_sent = refl

abbrev good_umem : UmemConfig
good_umem = record {
  frame_size = 4096;
  frame_count = 4096;
  fill_ring_size = 2048;
  completion_ring_size = 2048;
}

abbrev good_config : SocketConfig
good_config = record {
  queue_id = 0;
  xdp_flags = 0;
  rx_ring_size = 2048;
  tx_ring_size = 2048;
  interface_index = 0;
  bind_flags = 0;
}

-- A first attempt at which the socket is refused, and one that succeeds.
abbrev refused : Acquire ListRing (List ℕ)
refused = record {
  mmap = λ size. some 4096;
  umem_create = λ a size c. (some 1, ring, []);
  socket_create = λ q h c. (none, [], ring);
}

abbrev granted : Acquire ListRing (List ℕ)
granted = record refused { socket_create = λ q h c. (some 2, [], ring) }

abbrev history : List (Call ListRing (List ℕ))
history =
    inits refused true good_umem good_config ∷ inits granted true good_umem good_config ∷ shuts ∷ []

run-new_socket-Holds_example :
    Holds (run history (new_socket ring []))
    × IsEmpty (shutdown (run history (new_socket ring [])))
    × Answers
        (run history (new_socket ring []))
        (init granted true good_umem good_config (run history (new_socket ring [])))
run-new_socket-Holds_example =
    run-new_socket-Holds ring [] history granted true good_umem good_config

logged : length (run history (new_socket ring [])).log ≡ 10
unfolding run is_power_of_two umem_config_valid socket_config_valid
logged = refl

-- ===== src/Main/Tests.antt =====
-- The live mode and the packets of the demonstrations at concrete inputs.
use chronos_x.Base.{ℕ, ◌≡◌, refl, List, [], ◌∷◌, ◌++◌, true, Option, some, none, arith, replicate}
use chronos_x.PacketParser.{parse_packet}
use chronos_x.PacketParser.Frames.{sent_view}
use chronos_x.FrameAllocator
use chronos_x.FrameAllocator.{FrameAllocator, allocate, fill_ring, handle_from_address, owner_of}
use chronos_x.FrameAllocator.Init.{init-IsValid}
use chronos_x.FrameAllocator.Methods.{allocate-IsValid}
use chronos_x.TimingWheel
use chronos_x.LibxdpSocket.{LibxdpSocket, new_socket, drain_completions, consume_rx}
use chronos_x.LibxdpSocket.ListRing.{ListRing, rings, ring}
use chronos_x.Runtime.{no_processed}
use chronos_x.Runtime.Custody.{Keeps, is_free_address}
use chronos_x.Runtime.Moves.{fill_used}
use chronos_x.Main.{build_test_packet}
use chronos_x.Main.Packet.{test_sent, parse_packet-build_test_packet}
use chronos_x.Control.LittleEndian.{rule_layout, stats_layout}
use chronos_x.ControlPlane
use chronos_x.ControlPlane.{new_control_plane_core}
use chronos_x.ChaosEngine.{ChaosRule}
use chronos_x.Umem.{PacketDescriptor}
use chronos_x.DataPlane.{Batch, new_batch, is_valid, process_packet, process_packet_batch}
use chronos_x.Main.Demo.{drop_rule, delay_rule}
use chronos_x.Main.Demo.Installed.{install_all, install_all_publishes}
use chronos_x.Main.Demo.Blocked.{blocks, drop_rules, ports_of, process_packet-blocks}
use chronos_x.Main.Live.{LiveState, complete, live_round}
use chronos_x.Main.Live.Rounds.{here, next, LiveRun-Keeps}

abbrev blank : List ℕ
blank = replicate 64 255

parse_packet-build_test_packet_example :
    parse_packet (some (build_test_packet blank 8080 8)) 62
    ≡ sent_view (test_sent 8080 8) (build_test_packet blank 8080 8) 62 6 20
parse_packet-build_test_packet_example =
    parse_packet-build_test_packet blank 8080 8 62 (omega arith) (omega arith) (omega arith)
      (omega arith)

abbrev socket : LibxdpSocket ListRing (List ℕ)
socket = new_socket ring []

abbrev pool : FrameAllocator
pool = FrameAllocator.init 4 64

abbrev used_pool : FrameAllocator
used_pool = (allocate 4 64 pool fill_ring).1

abbrev live : LiveState ListRing (List ℕ)
live = record {
  socket = record socket { rx_ring = 0 ∷ []; umem_area = some 4096; umem_size = 256 };
  allocator = used_pool;
  timing_wheel = TimingWheel.init 4 4;
  memory = replicate 256 0;
  tx = replicate 64 no_processed;
  recycle = replicate 64 no_processed;
  packets_seen = 0;
  packets_dropped = 0;
  tx_submitted = 0;
  completed = 0;
}

LiveRun-Keeps_example :
    Keeps 4 64 used_pool (live_round rings 4 64 4 4 1000 (λ i. none) live).allocator
unfolding FrameAllocator.init allocate is_free_address handle_from_address owner_of
    drain_completions complete consume_rx
LiveRun-Keeps_example =
    LiveRun-Keeps rings 4 64 4 4 1000 live
      (allocate-IsValid 4 64 pool fill_ring fill_used (init-IsValid 4 64 (omega arith)))
      (next live.socket live.memory (λ i. none) here (refl, tt))

-- The frame that was received is given back to the fill ring, since it holds no packet.
after_round : (live_round rings 4 64 4 4 1000 (λ i. none) live).packets_seen ≡ 1
unfolding FrameAllocator.init allocate live_round
after_round = refl

-- The ring has no room for a round's four frames: none is put, and all four are gone from the pool.
abbrev outcome : Option (ℕ × FrameAllocator × LibxdpSocket ListRing (List ℕ)) → ℕ × ℕ
outcome none = (0, 0)
outcome (some (filled, a, s)) = (filled, a.free_count)

-- The two rules of run_demo.
abbrev demo_rules : List ChaosRule
demo_rules = drop_rule 0xbeef 1 8080 ∷ delay_rule ∷ []

install_all_publishes_example :
    let c =
      install_all rule_layout stats_layout 128
        (new_control_plane_core rule_layout stats_layout 128)
        demo_rules in
    (ControlPlane.rules c ≡ demo_rules) × (c.rule_snapshot ≡ demo_rules)
unfolding rule_layout
install_all_publishes_example =
    install_all_publishes rule_layout stats_layout 128 demo_rules (omega arith)
      (
        record { sized = refl; same = refl; numbered = omega arith },
        (record { sized = refl; same = refl; numbered = omega arith }, tt),
      )
      (omega arith)

abbrev http : List ℕ
http = build_test_packet (replicate 64 0) 8080 8

abbrev http_batch : Batch
http_batch =
    new_batch http (TimingWheel.init 4 4) (replicate 2 no_processed) (replicate 2 no_processed)

abbrev http_descriptor : PacketDescriptor
http_descriptor = record { frame_address = 0; frame_length = 62; options = 0 }

-- The rule of run_runtime_demo.
process_packet-blocks_example :
    let s =
      (process_packet true 64
        (drop_rules ((0xd00d, 100, 8080) ∷ []))
        1000
        4
        4
        http_descriptor
        http_batch).result.stats in
    (s.packets_dropped ≡ 1) × (s.tx_frames ≡ 0)
unfolding blocks ports_of is_valid
process_packet-blocks_example =
    process_packet-blocks 64 1000 4 4 ((0xd00d, 100, 8080) ∷ []) http_descriptor http_batch
      (replicate 64 0) 8080 8 refl refl (omega arith) (omega arith) (omega arith) (omega arith)
      (omega arith)

-- run_demo on packets to its four ports: what is seen, dropped, delayed and sent.
abbrev demo_umem : List ℕ
demo_umem =
    build_test_packet (replicate 86 0) 8080 32
    ++ build_test_packet (replicate 86 0) 9090 32
    ++ build_test_packet (replicate 86 0) 443 32
    ++ build_test_packet (replicate 86 0) 8080 32

abbrev demo_descriptor : ℕ → PacketDescriptor
demo_descriptor address = record { frame_address = address; frame_length = 86; options = 0 }

abbrev demo_batch : Batch
demo_batch =
    process_packet_batch true 344 demo_rules 1000 64 16 demo_umem
      (demo_descriptor 0 ∷ demo_descriptor 86 ∷ demo_descriptor 172 ∷ demo_descriptor 258 ∷ [])
      (TimingWheel.init 64 16) (replicate 4 no_processed) (replicate 4 no_processed)

demo_outcome :
    (demo_batch.result.stats.packets_seen ≡ 4)
    × (demo_batch.result.stats.packets_dropped ≡ 2)
    × (demo_batch.result.stats.recycle_frames ≡ 2)
unfolding process_packet_batch build_test_packet
demo_outcome = (refl, refl, refl)

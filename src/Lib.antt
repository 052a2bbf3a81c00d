-- ===== src/Lib.antt =====
-- Chronos-X, a network chaos tool on AF_XDP: packets are received into frames of a shared memory
-- (UMEM), parsed, matched against rules, and passed, dropped, delayed or corrupted, then sent back or
-- recycled. The components modelled are the headers of include/chronosx that carry this logic.
--
-- * types.hpp -> Types: `is_power_of_two`, `PacketAction`, `StatUpdate`.
-- * spsc_queue.hpp -> SpscQueue: the ring between the planes. `try_push`, `try_pop` and the size
--   queries are functions on the ring's record. SpscQueue/Fifo is the queue that specifies it,
--   SpscQueue/Refine relates the two. SpscQueue/Threads is the ring with its two threads as a step
--   relation on single shared accesses; a load of the other side's counter may be out of date.
-- * timing_wheel.hpp -> TimingWheel: `schedule` and `tick` on slots of delayed frames.
--   TimingWheel/Agenda gives each future tick its list of frames, the wheel's specification.
-- * frame_allocator.hpp -> FrameAllocator: the pool's free stack and owners, with `allocate`,
--   `allocate_batch`, `transition`, `release`, `release_batch` and `handle_from_address`.
--   FrameAllocator/History runs sequences of calls.
-- * packet_parser.hpp -> PacketParser: `parse_packet`, in stages named for its parts. PacketParser/Frames
--   builds frames from the formats.
-- * chaos_engine.hpp -> ChaosEngine: `rule_matches_packet`, the FNV-1a hashes, `avalanche64`,
--   `decide_packet` and `decide_packet_fast`.
-- * data_plane.hpp -> DataPlane: `process_packet_batch`, which calls the parser, the engine and the
--   wheel for each descriptor and fills two output spans; its parts are functions on the record Batch.
--   Umem has the functions on descriptors, delays and bytes that it calls.
-- * protocol.hpp -> Protocol, the class RuleTable: `add`, `remove_at` and `clear`; Protocol/Edits has
--   the list that specifies the table. Protocol/Codec has the checksum, `encode_message` and
--   `decode_message`.
-- * protocol.hpp -> Control, the class ControlCore: `handle` and its commands over the rule table.
--   Control/Requests reads a request as an edit of a list of rules. The object representations of rules
--   and statistics are a parameter; Control/LittleEndian has an instance.
-- * control_plane.hpp -> ControlPlane: ConnectionBuffer, and ControlPlaneCore, which publishes the rules.
--   ControlPlane/Server and ControlPlane/Clients are the class ControlPlaneServer, with the results of its
--   system calls as arguments and a log of the descriptors opened and closed.
-- * socket_manager.hpp -> SocketManager: the configurations, SimulatedRing with `produce` and `consume`,
--   and the operations of SimulatedXskSocket on its four rings.
-- * af_xdp_runtime.hpp -> Runtime: AfXdpRuntimeAdapter with that socket, `init` and `poll_once`, which
--   join the pool, the rings, the data plane and the wheel. Runtime/Custody and Runtime/Moves follow
--   the pool through what a poll calls.
-- * tui.hpp -> Tui: LatencyHistogram, Sparkline, DashboardState and `drain_stats_queue`. The loop is on fuel;
--   one round more than the ring has elements is enough. Tui/Summary says what a histogram counts.
-- * libxdp_socket.hpp -> LibxdpSocket: `init`, `shutdown` and the calls on the four rings. The results of system
--   calls and the rings of libxdp are parameters; LibxdpSocket/Contract states what is assumed of the rings and
--   LibxdpSocket/ListRing is an instance. LibxdpSocket/Lifecycle follows what is acquired and given back.
-- * src/main.cpp -> Main: `build_test_packet`. Main/Demo has the rules and the lambda `install_rule` of
--   run_demo. Main/Live is `run_live` behind the socket's init: the first fill, on fuel for one round more
--   than the pool has frames, which is enough, and the rounds of its loop, with what the kernel does
--   before each as a parameter.
-- * the tables of names in these headers -> Names.
--
-- Base holds what the parts share: arrays as lists of their full size with `get_or` and `set`, the
-- Boolean tests, machine words with their wrap-around written out, and laws of the bit operations.
-- Window is the stretch of a ring between two counters.
--
-- Machine integers are natural numbers below their modulus. Counters that the code lets wrap wrap here
-- too; an increment behind a test against an array's size is written plainly. Loops recurse on the list
-- or the number of rounds that bounds them; the server's loop over a client's messages is on fuel,
-- one more than the bytes in the buffer, which is enough since a round takes at least one of them.
-- `send_all` recurses on what its calls of send return; without an end to interruptions it gives no answer.
-- Template parameters (capacity, slots, frames per slot, pool size) are parameters of the definitions.
--
-- Not modelled: the drawing of tui.hpp on a terminal; in src/main.cpp the rest of the demonstrations, which are
-- fixed runs that print, the start of the server and the arguments; the BPF program and the Python client, which are
-- not C++; the memory layout of types, but for those that go over the wire.
pub mod Base
pub mod Types
pub mod Window
pub mod SpscQueue
pub mod TimingWheel
pub mod FrameAllocator
pub mod PacketParser
pub mod ChaosEngine
pub mod Umem
pub mod DataPlane
pub mod Protocol
pub mod Names
pub mod Control
pub mod ControlPlane
pub mod SocketManager
pub mod Runtime
pub mod Tui
pub mod LibxdpSocket
pub mod Main

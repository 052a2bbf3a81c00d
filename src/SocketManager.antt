-- ===== src/SocketManager.antt =====
-- include/chronosx/socket_manager.hpp: the configuration, the simulated rings and the simulated socket.
-- A ring's counters are `std::size_t` and wrap. A span that is filled is its size, and the call
-- returns the elements that it writes to the front of it.
pub mod Refine
mod Tests
use Prim.Native.String.{String}
use chronos_x.Base.{
  ℕ, zero, suc, ◌-◌, ◌*◌, Bool, ◌&&◌, List, [], ◌∷◌, bit_and, add64, sub64, mul64, ltb, leb, ◌==◌,
  if◌then◌else◌, get_or, set, replicate, length,
}
use chronos_x.Types.{is_power_of_two}

abbrev pub min_xdp_frame_size_bytes : ℕ
min_xdp_frame_size_bytes = 2048

pub record UmemConfig : Type 0 where
  pub frame_size : ℕ
  pub frame_count : ℕ
  pub fill_ring_size : ℕ
  pub completion_ring_size : ℕ

unfoldable pub total_bytes : UmemConfig → ℕ
total_bytes c = mul64 c.frame_size c.frame_count

unfoldable pub umem_config_valid : UmemConfig → Bool
unfolding is_power_of_two
umem_config_valid c =
    is_power_of_two c.frame_size
    && leb min_xdp_frame_size_bytes c.frame_size
    && ltb 0 c.frame_count
    && is_power_of_two c.fill_ring_size
    && is_power_of_two c.completion_ring_size

pub record SocketConfig : Type 0 where
  pub queue_id : ℕ
  pub xdp_flags : ℕ
  pub rx_ring_size : ℕ
  pub tx_ring_size : ℕ
  pub interface_index : ℕ
  pub bind_flags : ℕ

unfoldable pub socket_config_valid : SocketConfig → Bool
unfolding is_power_of_two
socket_config_valid c = is_power_of_two c.rx_ring_size && is_power_of_two c.tx_ring_size

pub data SocketStatus : Type 0 where
  ok invalid_config umem_allocation_failed umem_create_failed socket_create_failed bind_failed
        not_initialized already_initialized kick_failed ring_full_status ring_empty_status :
      SocketStatus

unfoldable pub socket_status_name : SocketStatus → String
socket_status_name SocketStatus.ok = "Ok"
socket_status_name SocketStatus.invalid_config = "InvalidConfig"
socket_status_name SocketStatus.umem_allocation_failed = "UmemAllocationFailed"
socket_status_name SocketStatus.umem_create_failed = "UmemCreateFailed"
socket_status_name SocketStatus.socket_create_failed = "SocketCreateFailed"
socket_status_name SocketStatus.bind_failed = "BindFailed"
socket_status_name SocketStatus.not_initialized = "NotInitialized"
socket_status_name SocketStatus.already_initialized = "AlreadyInitialized"
socket_status_name SocketStatus.kick_failed = "KickFailed"
socket_status_name SocketStatus.ring_full_status = "RingFull"
socket_status_name SocketStatus.ring_empty_status = "RingEmpty"

-- `RxDescriptor` and `TxDescriptor` have the same members.
pub record RxDescriptor : Type 0 where
  pub address : ℕ
  pub length : ℕ
  pub options : ℕ

pub record TxDescriptor : Type 0 where
  pub address : ℕ
  pub length : ℕ
  pub options : ℕ

-- `RxBatchResult`, `TxBatchResult`, `FillResult` and `CompletionResult`
pub record BatchResult : Type 0 where
  pub count : ℕ
  pub status : SocketStatus

pub record SimulatedRing {ℓ} (A : Type ℓ) : Type ℓ where
  pub buffer : List A
  pub producer : ℕ
  pub consumer : ℕ

unfoldable pub available_consume {ℓ} : {A : Type ℓ} → SimulatedRing A → ℕ
available_consume r = sub64 r.producer r.consumer

unfoldable pub ring_empty {ℓ} : {A : Type ℓ} → SimulatedRing A → Bool
ring_empty r = r.producer == r.consumer

module _ {ℓ} {A : Type ℓ} (capacity : ℕ) (d : A) where
  unfoldable pub new_ring : SimulatedRing A
  new_ring = record { buffer = replicate capacity d; producer = 0; consumer = 0 }

  unfoldable pub available_produce : SimulatedRing A → ℕ
  available_produce r = sub64 capacity (sub64 r.producer r.consumer)

  unfoldable pub ring_full : SimulatedRing A → Bool
  unfolding available_produce
  ring_full r = available_produce r == 0

  -- The rounds of the loop of `produce`, with the count that it returns.
  unfoldable pub produce : SimulatedRing A → List A → ℕ × SimulatedRing A
  unfolding available_produce
  produce r [] = (0, r)
  produce r (item ∷ items) =
      let r' : SimulatedRing A = record r {
        buffer = set r.buffer (bit_and r.producer (capacity - 1)) item;
        producer = add64 r.producer 1;
      } in
      let (produced, after) = produce r' items in
      if ltb 0 (available_produce r) then (suc produced, after) else (0, r)

  -- The rounds of the loop of `consume` into a span of a size, with the elements that it writes.
  unfoldable pub consume : SimulatedRing A → ℕ → List A × SimulatedRing A
  unfolding available_consume
  consume r zero = ([], r)
  consume r (suc size) =
      let r' : SimulatedRing A = record r { consumer = add64 r.consumer 1 } in
      let (items, after) = consume r' size in
      if ltb 0 (available_consume r)
      then (get_or r.buffer (bit_and r.consumer (capacity - 1)) d ∷ items, after)
      else ([], r)

-- `count == size ? SocketStatus::Ok : other`
unfoldable pub result_of : ℕ → ℕ → SocketStatus → BatchResult
result_of count size other = record { count = count; status = if count == size then ok else other }

pub record SimulatedXskSocket : Type 0 where
  pub fill_ring : SimulatedRing ℕ
  pub completion_ring : SimulatedRing ℕ
  pub rx_ring : SimulatedRing RxDescriptor
  pub tx_ring : SimulatedRing TxDescriptor
  pub tx_kick_count : ℕ

abbrev pub no_rx : RxDescriptor
no_rx = record { address = 0; length = 0; options = 0 }

abbrev pub no_tx : TxDescriptor
no_tx = record { address = 0; length = 0; options = 0 }

unfoldable pub kick_tx : SimulatedXskSocket → SocketStatus × SimulatedXskSocket
kick_tx s = (ok, record s { tx_kick_count = add64 s.tx_kick_count 1 })

module _ (fill_size comp_size rx_size tx_size : ℕ) where
  unfoldable pub new_socket : SimulatedXskSocket
  unfolding new_ring
  new_socket = record {
    fill_ring = new_ring fill_size 0;
    completion_ring = new_ring comp_size 0;
    rx_ring = new_ring rx_size no_rx;
    tx_ring = new_ring tx_size no_tx;
    tx_kick_count = 0;
  }

  unfoldable pub refill : SimulatedXskSocket → List ℕ → BatchResult × SimulatedXskSocket
  unfolding produce result_of
  refill s addresses =
      let (count, ring) = produce fill_size 0 s.fill_ring addresses in
      (result_of count (length addresses) ring_full_status, record s { fill_ring = ring })

  unfoldable pub drain_completions :
      SimulatedXskSocket → ℕ → BatchResult × List ℕ × SimulatedXskSocket
  unfolding consume result_of
  drain_completions s size =
      let (output, ring) = consume comp_size 0 s.completion_ring size in
      (
        result_of (length output) size ring_empty_status,
        output,
        record s { completion_ring = ring },
      )

  unfoldable pub consume_rx :
      SimulatedXskSocket → ℕ → BatchResult × List RxDescriptor × SimulatedXskSocket
  unfolding consume result_of
  consume_rx s size =
      let (output, ring) = consume rx_size no_rx s.rx_ring size in
      (result_of (length output) size ring_empty_status, output, record s { rx_ring = ring })

  unfoldable pub submit_tx :
      SimulatedXskSocket → List TxDescriptor → BatchResult × SimulatedXskSocket
  unfolding produce result_of
  submit_tx s descriptors =
      let (count, ring) = produce tx_size no_tx s.tx_ring descriptors in
      (result_of count (length descriptors) ring_full_status, record s { tx_ring = ring })

  unfoldable pub inject_rx : SimulatedXskSocket → List RxDescriptor → ℕ × SimulatedXskSocket
  unfolding produce
  inject_rx s descriptors =
      let (count, ring) = produce rx_size no_rx s.rx_ring descriptors in
      (count, record s { rx_ring = ring })

  unfoldable pub complete_tx : SimulatedXskSocket → List ℕ → ℕ × SimulatedXskSocket
  unfolding produce
  complete_tx s addresses =
      let (count, ring) = produce comp_size 0 s.completion_ring addresses in
      (count, record s { completion_ring = ring })

  unfoldable pub consume_fill : SimulatedXskSocket → ℕ → List ℕ × SimulatedXskSocket
  unfolding consume
  consume_fill s size =
      let (output, ring) = consume fill_size 0 s.fill_ring size in
      (output, record s { fill_ring = ring })

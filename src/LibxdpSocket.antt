-- ===== src/LibxdpSocket.antt =====
-- include/chronosx/libxdp_socket.hpp: the socket over libxdp. The library's rings are a parameter with the
-- calls made on them, and so are the results of the calls that acquire something; `log` records what
-- is acquired and given back, the newest first. A pointer is none where it is null, and a call that fails
-- leaves the pointer that it would set alone.
pub mod Events
pub mod Lifecycle
pub mod Contract
pub mod Rings
pub mod ListRing
mod Tests
use chronos_x.Base.{
  ℕ, zero, suc, ◌+◌, Bool, true, false, not, ◌&&◌, ◌||◌, Option, none, some, List, [], ◌∷◌, u16,
  u32, add64, ltb, ◌==◌, if◌then◌else◌, length, take,
}
use chronos_x.SocketManager.{
  UmemConfig, SocketConfig, total_bytes, umem_config_valid, socket_config_valid, SocketStatus, ok,
  invalid_config, umem_allocation_failed, umem_create_failed, socket_create_failed, not_initialized,
  already_initialized, kick_failed, ring_full_status, ring_empty_status, RxDescriptor, TxDescriptor,
  BatchResult, result_of,
}

-- What the class acquires: the mapped area with its size, and two objects of libxdp.
pub data Resource : Type 0 where
  area : ℕ → ℕ → Resource
  umem : ℕ → Resource
  socket : ℕ → Resource

pub data Event : Type 0 where
  acquired : Resource → Event
  released : Resource → Event

pub record XskUmemConfig : Type 0 where
  pub fill_size : ℕ
  pub comp_size : ℕ
  pub frame_size : ℕ
  pub frame_headroom : ℕ
  pub flags : ℕ

pub record XskSocketConfig : Type 0 where
  pub rx_size : ℕ
  pub tx_size : ℕ
  pub libxdp_flags : ℕ
  pub xdp_flags : ℕ
  pub bind_flags : ℕ

-- `errno` behind a `sendto` that fails.
pub data SendError : Type 0 where
  again busy no_buffers other_error : SendError

abbrev pub is_temporary : SendError → Bool
is_temporary again = true
is_temporary busy = true
is_temporary no_buffers = true
is_temporary other_error = false

module _ (P C : Type 0) where
  pub record LibxdpSocket : Type 0 where
    pub fill_ring : P
    pub completion_ring : C
    pub rx_ring : C
    pub tx_ring : P
    pub umem_pointer : Option ℕ
    pub socket_pointer : Option ℕ
    pub umem_area : Option ℕ
    pub umem_size : ℕ
    pub tx_kick_count : ℕ
    pub initialized : Bool
    pub log : List Event

  -- `mmap`, `xsk_umem__create` and `xsk_socket__create`, with the rings that the latter two set up.
  pub record Acquire : Type 0 where
    pub mmap : ℕ → Option ℕ
    pub umem_create : ℕ → ℕ → XskUmemConfig → Option ℕ × P × C
    pub socket_create : ℕ → ℕ → XskSocketConfig → Option ℕ × C × P

  -- The inline functions of libxdp on rings.
  pub record XskRings : Type 0 where
    pub reserve : P → ℕ → ℕ × ℕ × P
    pub submit : P → ℕ → P
    pub write_fill_addr : P → ℕ → ℕ → P
    pub write_tx_desc : P → ℕ → TxDescriptor → P
    pub peek : C → ℕ → ℕ × ℕ × C
    pub release : C → ℕ → C
    pub comp_addr : C → ℕ → ℕ
    pub rx_desc : C → ℕ → RxDescriptor

abbrev pub umem_config_of : UmemConfig → XskUmemConfig
umem_config_of c = record {
  fill_size = u32 c.fill_ring_size;
  comp_size = u32 c.completion_ring_size;
  frame_size = u32 c.frame_size;
  frame_headroom = 0;
  flags = 0;
}

abbrev pub socket_config_of : SocketConfig → XskSocketConfig
socket_config_of c = record {
  rx_size = u32 c.rx_ring_size;
  tx_size = u32 c.tx_ring_size;
  libxdp_flags = 0;
  xdp_flags = c.xdp_flags;
  bind_flags = u16 c.bind_flags;
}

module _ {P C : Type 0} where
  abbrev pub new_socket : P → C → LibxdpSocket P C
  new_socket p c = record {
    fill_ring = p;
    completion_ring = c;
    rx_ring = c;
    tx_ring = p;
    umem_pointer = none;
    socket_pointer = none;
    umem_area = none;
    umem_size = 0;
    tx_kick_count = 0;
    initialized = false;
    log = [];
  }

  -- The three parts of `shutdown`.
  abbrev pub delete_socket : LibxdpSocket P C → LibxdpSocket P C
  delete_socket s = elim s.socket_pointer [
    | none ↦ s
    | some h ↦ record s { socket_pointer = none; log = released (socket h) ∷ s.log }
  ]

  abbrev pub delete_umem : LibxdpSocket P C → LibxdpSocket P C
  delete_umem s = elim s.umem_pointer [
    | none ↦ s
    | some h ↦ record s { umem_pointer = none; log = released (umem h) ∷ s.log }
  ]

  abbrev pub unmap_area : LibxdpSocket P C → LibxdpSocket P C
  unmap_area s = elim s.umem_area [
    | none ↦ s
    | some a ↦ record s {
      umem_area = none;
      umem_size = 0;
      log = released (area a s.umem_size) ∷ s.log;
    }
  ]

  unfoldable pub shutdown : LibxdpSocket P C → LibxdpSocket P C
  shutdown s = record (unmap_area (delete_umem (delete_socket s))) { initialized = false }

  -- `init` from the call of xsk_socket__create on, and from that of xsk_umem__create on.
  unfoldable pub init_socket :
      Acquire P C → SocketConfig → ℕ → LibxdpSocket P C → SocketStatus × LibxdpSocket P C
  unfolding shutdown
  init_socket calls socket_config h s =
      let (created, rx, tx) =
        calls.socket_create socket_config.queue_id h (socket_config_of socket_config) in
      let s = record s { rx_ring = rx; tx_ring = tx } in
      elim created [
        | none ↦ (socket_create_failed, shutdown s)
        | some k ↦ (
          ok,
          record s {
            socket_pointer = some k;
            initialized = true;
            log = acquired (socket k) ∷ s.log;
          },
        )
      ]

  unfoldable pub init_umem :
      Acquire P C
      → UmemConfig
      → SocketConfig
      → ℕ
      → LibxdpSocket P C
      → SocketStatus × LibxdpSocket P C
  unfolding shutdown init_socket
  init_umem calls umem_config socket_config a s =
      let (created, fill, completion) =
        calls.umem_create a s.umem_size (umem_config_of umem_config) in
      let s = record s { fill_ring = fill; completion_ring = completion } in
      elim created [
        | none ↦ (umem_create_failed, shutdown s)
        | some h ↦
            init_socket calls socket_config h
              (record s { umem_pointer = some h; log = acquired (umem h) ∷ s.log })
      ]

  unfoldable pub init :
      Acquire P C
      → Bool
      → UmemConfig
      → SocketConfig
      → LibxdpSocket P C
      → SocketStatus × LibxdpSocket P C
  unfolding init_umem
  init calls has_name umem_config socket_config s =
      if s.initialized
      then (already_initialized, s)
      else if not has_name
          || not (umem_config_valid umem_config)
          || not (socket_config_valid socket_config)
      then (invalid_config, s)
      else let s = record s { umem_size = total_bytes umem_config } in
        elim (calls.mmap s.umem_size) [
          | none ↦ (umem_allocation_failed, record s { umem_area = none })
          | some a ↦
              init_umem calls umem_config socket_config a
                (record s { umem_area = some a; log = acquired (area a s.umem_size) ∷ s.log })
        ]

  -- The result of the call of `sendto`, if it is made.
  unfoldable pub kick_tx : Option SendError → LibxdpSocket P C → SocketStatus × LibxdpSocket P C
  kick_tx sent s = elim s.socket_pointer [
    | none ↦ (not_initialized, s)
    | some h ↦
        if elim sent [ none ↦ false | some e ↦ not (is_temporary e) ]
        then (kick_failed, s)
        else (ok, record s { tx_kick_count = add64 s.tx_kick_count 1 })
  ]

-- The loops that fill the entries reserved in a ring from an index on, and that read those available.
module _ {P E : Type 0} (write : P → ℕ → E → P) (index : ℕ) where
  unfoldable pub write_loop : List E → ℕ → P → P
  write_loop [] offset ring = ring
  write_loop (x ∷ xs) offset ring = write_loop xs (suc offset) (write ring (u32 (index + offset)) x)

module _ {C E : Type 0} (read : C → ℕ → E) (index : ℕ) (ring : C) where
  unfoldable pub read_loop : ℕ → ℕ → List E
  read_loop zero offset = []
  read_loop (suc n) offset = read ring (u32 (index + offset)) ∷ read_loop n (suc offset)

-- What `refill` and `submit_tx` do to their ring, and `drain_completions` and `consume_rx` to theirs.
module _ {P C : Type 0} (rings : XskRings P C) where
  unfoldable pub send_to : {E : Type 0} → (P → ℕ → E → P) → List E → P → BatchResult × P
  unfolding write_loop result_of
  send_to write items ring =
      let requested = u32 (length items) in
      let (reserved, index, ring) = rings.reserve ring requested in
      let ring = write_loop write index (take reserved items) 0 ring in
      (
        result_of reserved requested ring_full_status,
        if ltb 0 reserved then rings.submit ring reserved else ring,
      )

  unfoldable pub take_from : {E : Type 0} → (C → ℕ → E) → ℕ → C → BatchResult × List E × C
  unfolding read_loop result_of
  take_from read size ring =
      let (available, index, ring) = rings.peek ring (u32 size) in
      (
        result_of available size ring_empty_status,
        read_loop read index ring available 0,
        if ltb 0 available then rings.release ring available else ring,
      )

  unfoldable pub refill : LibxdpSocket P C → List ℕ → BatchResult × LibxdpSocket P C
  unfolding send_to
  refill s addresses =
      let (result, ring) = send_to rings.write_fill_addr addresses s.fill_ring in
      (result, record s { fill_ring = ring })

  unfoldable pub submit_tx : LibxdpSocket P C → List TxDescriptor → BatchResult × LibxdpSocket P C
  unfolding send_to
  submit_tx s descriptors =
      let (result, ring) = send_to rings.write_tx_desc descriptors s.tx_ring in
      (result, record s { tx_ring = ring })

  unfoldable pub drain_completions : LibxdpSocket P C → ℕ → BatchResult × List ℕ × LibxdpSocket P C
  unfolding take_from
  drain_completions s size =
      let (result, output, ring) = take_from rings.comp_addr size s.completion_ring in
      (result, output, record s { completion_ring = ring })

  unfoldable pub consume_rx :
      LibxdpSocket P C → ℕ → BatchResult × List RxDescriptor × LibxdpSocket P C
  unfolding take_from
  consume_rx s size =
      let (result, output, ring) = take_from rings.rx_desc size s.rx_ring in
      (result, output, record s { rx_ring = ring })

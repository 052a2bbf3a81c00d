-- ===== src/LibxdpSocket/Lifecycle.antt =====
-- include/chronosx/libxdp_socket.hpp: what the socket holds over any calls of `init` and `shutdown`.
use mathlib.Core.Bool.{true≢false}
use chronos_x.Base.{
  ℕ, ◌≡◌, refl, sym, ◌∙◌, Bool, true, false, not, ◌&&◌, ◌||◌, none, some, List, [], ◌∷◌, Bool-cases,
  Option-cases, inl, inr,
}
use chronos_x.SocketManager.{
  UmemConfig, SocketConfig, SocketStatus, ok, umem_create_failed, socket_create_failed,
  umem_config_valid, socket_config_valid, total_bytes,
}
use chronos_x.LibxdpSocket.{
  area, umem, socket, acquired, LibxdpSocket, Acquire, new_socket, shutdown, init_socket, init_umem,
  init, umem_config_of, socket_config_of,
}
use chronos_x.LibxdpSocket.Events.{replay, replay-acquired, replay-released}

abbrev pub is_socket_ok : SocketStatus → Bool
is_socket_ok ok = true
is_socket_ok _ = false

-- The calls on one socket; the destructor is a call of `shutdown`.
pub data Call (P C : Type 0) : Type 0 where
  inits : Acquire P C → Bool → UmemConfig → SocketConfig → Call P C
  shuts : Call P C

module _ {P C : Type 0} where
  -- A socket that is initialised holds all three, and one that is not holds nothing; the log keeps to the
  -- discipline and leaves exactly what is held.
  pub data Holds (s : LibxdpSocket P C) : Type 0 where
    nothing :
        s.initialized ≡ false
        → s.umem_area ≡ none
        → s.umem_pointer ≡ none
        → s.socket_pointer ≡ none
        → replay s.log ≡ some []
        → Holds s
    everything :
        (a h k : ℕ)
        → s.initialized ≡ true
        → s.umem_area ≡ some a
        → s.umem_pointer ≡ some h
        → s.socket_pointer ≡ some k
        → replay s.log ≡ some (socket k ∷ umem h ∷ area a s.umem_size ∷ [])
        → Holds s

  new_socket-Holds : (p : P) (c : C) → Holds (new_socket p c)
  unfolding replay
  new_socket-Holds p c = nothing refl refl refl refl refl

  -- What `shutdown` leaves of a socket with the pointers given.
  shutdown_all :
      (s : LibxdpSocket P C) (a h k : ℕ)
      → s.umem_area ≡ some a
      → s.umem_pointer ≡ some h
      → s.socket_pointer ≡ some k
      → replay s.log ≡ some (socket k ∷ umem h ∷ area a s.umem_size ∷ [])
      → Holds (shutdown s)
  unfolding shutdown
  shutdown_all s a h k ea eh ek e =
      let first = replay-released (socket k) s.log (umem h ∷ area a s.umem_size ∷ []) e in
      let second = replay-released (umem h) _ (area a s.umem_size ∷ []) first in
      let third = replay-released (area a s.umem_size) _ [] second in
      rw (ek, eh, ea) (nothing refl refl refl refl third)

  shutdown-Holds : (s : LibxdpSocket P C) → Holds s → Holds (shutdown s)
  unfolding shutdown
  shutdown-Holds s (nothing i a h k e) = rw (k, h, a) (nothing refl refl refl refl e)
  shutdown-Holds s (everything a h k i ea eh ek e) = shutdown_all s a h k ea eh ek e

  -- The call holds all or nothing behind it, and answers ok exactly if it initialised the socket.
  pub record Answers (before : LibxdpSocket P C) (r : SocketStatus × LibxdpSocket P C)
      : Type 0 where
    pub holds : Holds r.1
    pub status : is_socket_ok r.0 ≡ (r.1.initialized && not before.initialized)

  failed :
      (s t : LibxdpSocket P C) (status : SocketStatus)
      → is_socket_ok status ≡ false
      → Holds (shutdown t)
      → Answers s (status, shutdown t)
  unfolding shutdown
  failed s t status e h = record { holds = h; status = e }

  shutdown_umem :
      (s : LibxdpSocket P C) (a h : ℕ)
      → s.umem_area ≡ some a
      → s.umem_pointer ≡ some h
      → s.socket_pointer ≡ none
      → replay s.log ≡ some (umem h ∷ area a s.umem_size ∷ [])
      → Holds (shutdown s)
  unfolding shutdown
  shutdown_umem s a h ea eh ek e =
      let first = replay-released (umem h) s.log (area a s.umem_size ∷ []) e in
      let second = replay-released (area a s.umem_size) _ [] first in
      rw (ek, eh, ea) (nothing refl refl refl refl second)

  shutdown_area :
      (s : LibxdpSocket P C) (a : ℕ)
      → s.umem_area ≡ some a
      → s.umem_pointer ≡ none
      → s.socket_pointer ≡ none
      → replay s.log ≡ some (area a s.umem_size ∷ [])
      → Holds (shutdown s)
  unfolding shutdown
  shutdown_area s a ea eh ek e =
      let first = replay-released (area a s.umem_size) s.log [] e in
      rw (ek, eh, ea) (nothing refl refl refl refl first)

  init_socket-Answers :
      (calls : Acquire P C) (c : SocketConfig) (before s : LibxdpSocket P C) (a h : ℕ)
      → before.initialized ≡ false
      → s.umem_area ≡ some a
      → s.umem_pointer ≡ some h
      → s.socket_pointer ≡ none
      → replay s.log ≡ some (umem h ∷ area a s.umem_size ∷ [])
      → Answers before (init_socket calls c h s)
  unfolding init_socket
  init_socket-Answers calls c before s a h i ea eh ek e =
      let (created, rx, tx) = calls.socket_create c.queue_id h (socket_config_of c) in
      elim (Option-cases created) [
        | inl none_made ↦
            rw (none_made, init_socket)
              (failed before (record s { rx_ring = rx; tx_ring = tx }) socket_create_failed refl
                (shutdown_umem (record s { rx_ring = rx; tx_ring = tx }) a h ea eh ek e))
        | inr (k, made) ↦
            rw (made, init_socket)
              (record {
                holds = everything a h k refl ea eh refl (replay-acquired (socket k) s.log _ e);
                status = rw i refl;
              })
      ]

  init_umem-Answers :
      (calls : Acquire P C) (uc : UmemConfig) (c : SocketConfig) (before s : LibxdpSocket P C)
      (a : ℕ)
      → before.initialized ≡ false
      → s.umem_area ≡ some a
      → s.umem_pointer ≡ none
      → s.socket_pointer ≡ none
      → replay s.log ≡ some (area a s.umem_size ∷ [])
      → Answers before (init_umem calls uc c a s)
  unfolding init_umem
  init_umem-Answers calls uc c before s a i ea eh ek e =
      let (created, fill, completion) = calls.umem_create a s.umem_size (umem_config_of uc) in
      let s' : LibxdpSocket P C = record s { fill_ring = fill; completion_ring = completion } in
      elim (Option-cases created) [
        | inl none_made ↦
            rw (none_made, init_umem)
              (failed before s' umem_create_failed refl (shutdown_area s' a ea eh ek e))
        | inr (h, made) ↦
            rw (made, init_umem)
              (init_socket-Answers calls c before
                (record s' { umem_pointer = some h; log = acquired (umem h) ∷ s.log }) a h i ea refl
                ek (replay-acquired (umem h) s.log _ e))
      ]

  init-Answers :
      (calls : Acquire P C) (has_name : Bool) (uc : UmemConfig) (c : SocketConfig)
      (s : LibxdpSocket P C)
      → Holds s
      → Answers s (init calls has_name uc c s)
  unfolding init
  init-Answers calls has_name uc c s (everything a h k i ea eh ek e) =
      rw (i, init) (record { holds = everything a h k refl ea eh ek e; status = refl })
  init-Answers calls has_name uc c s (nothing i ea eh ek e) =
      let size = total_bytes uc in
      elim (Bool-cases
        (not has_name || not (umem_config_valid uc) || not (socket_config_valid c))) [
          | inl bad ↦ rw (i, bad, init) (record { holds = nothing refl ea eh ek e; status = refl })
          | inr good ↦ elim (Option-cases (calls.mmap size)) [
            | inl unmapped ↦
                rw (i, good, unmapped, init)
                  (record { holds = nothing i refl eh ek e; status = rw i refl })
            | inr (a, mapped) ↦
                rw (i, good, mapped, init)
                  (init_umem-Answers calls uc c _
                    (record s {
                      umem_area = some a;
                      umem_size = size;
                      log = acquired (area a size) ∷ s.log;
                    })
                    a refl refl eh ek (replay-acquired (area a size) s.log _ e))
          ]
        ]

  unfoldable pub run : List (Call P C) → LibxdpSocket P C → LibxdpSocket P C
  unfolding init shutdown
  run [] s = s
  run (inits calls has_name uc c ∷ rest) s = run rest (init calls has_name uc c s).1
  run (shuts ∷ rest) s = run rest (shutdown s)

  run-Holds : (calls : List (Call P C)) (s : LibxdpSocket P C) → Holds s → Holds (run calls s)
  unfolding run
  run-Holds [] s h = h
  run-Holds (inits calls has_name uc c ∷ rest) s h =
      run-Holds rest (init calls has_name uc c s).1 (init-Answers calls has_name uc c s h).holds
  run-Holds (shuts ∷ rest) s h = run-Holds rest (shutdown s) (shutdown-Holds s h)

  -- A socket that holds nothing, with every resource given back.
  pub record IsEmpty (s : LibxdpSocket P C) : Type 0 where
    pub off : s.initialized ≡ false
    pub no_area : s.umem_area ≡ none
    pub no_umem : s.umem_pointer ≡ none
    pub no_socket : s.socket_pointer ≡ none
    pub all_released : replay s.log ≡ some []

  off-IsEmpty : (s : LibxdpSocket P C) → Holds s → s.initialized ≡ false → IsEmpty s
  off-IsEmpty s (nothing i a h k e) off = record {
    off = off;
    no_area = a;
    no_umem = h;
    no_socket = k;
    all_released = e;
  }
  off-IsEmpty s (everything a h k i ea eh ek e) off = absurd (true≢false (sym i ∙ off))

  -- Over any calls on a new socket, whatever the calls of the system and of libxdp return: the socket holds
  -- the area, the umem and the socket of libxdp if it is initialised, and nothing if not; each
  -- is given back once, with the size it was mapped with and behind all that was acquired
  -- after it; `shutdown` gives all of it back; and a further `init` answers ok exactly if it initialises a socket that was
  -- not.
  pub run-new_socket-Holds :
      (p : P) (c : C) (history : List (Call P C)) (calls : Acquire P C) (has_name : Bool)
      (uc : UmemConfig) (sc : SocketConfig)
      → let s = run history (new_socket p c) in
        Holds s × IsEmpty (shutdown s) × Answers s (init calls has_name uc sc s)
  unfolding shutdown
  run-new_socket-Holds p c history calls has_name uc sc =
      let s = run history (new_socket p c) in
      let h : Holds s = run-Holds history (new_socket p c) (new_socket-Holds p c) in
      (h, off-IsEmpty (shutdown s) (shutdown-Holds s h) refl, init-Answers calls has_name uc sc s h)

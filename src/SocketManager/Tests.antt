-- ===== src/SocketManager/Tests.antt =====
-- A simulated ring and a socket at concrete calls.
use chronos_x.Base.{ℕ, ◌≡◌, refl, List, [], ◌∷◌, true, arith}
use chronos_x.Types.{is_power_of_two}
use chronos_x.SocketManager.{new_ring, new_socket, refill, umem_config_valid, ring_full_status}
use chronos_x.SocketManager.Refine.{
  Call, produces, consumes, produced, consumed, ring_calls, list_calls, ring_calls_refine,
}

-- Three items into a ring of two, one out, and two more in.
abbrev calls : List (Call ℕ)
calls = produces (7 ∷ 8 ∷ 9 ∷ []) ∷ consumes 1 ∷ produces (1 ∷ 2 ∷ []) ∷ consumes 5 ∷ []

ring_calls_refine_example : ring_calls 2 0 calls (new_ring 2 0) ≡ list_calls 2 calls []
unfolding is_power_of_two
ring_calls_refine_example = ring_calls_refine 2 0 calls refl (omega arith)

ring_answers :
    ring_calls 2 0 calls (new_ring 2 0)
    ≡ produced 2 ∷ consumed (7 ∷ []) ∷ produced 1 ∷ consumed (8 ∷ 1 ∷ []) ∷ []
unfolding ring_calls new_ring
ring_answers = refl

refill_too_many : (refill 2 2 2 2 (new_socket 2 2 2 2) (1 ∷ 2 ∷ 3 ∷ [])).0.status ≡ ring_full_status
unfolding refill new_socket
refill_too_many = refl

-- A 4 KiB frame, and rings of 2048.
good_umem :
    umem_config_valid (record {
      frame_size = 4096;
      frame_count = 4096;
      fill_ring_size = 2048;
      completion_ring_size = 2048;
    })
    ≡ true
unfolding umem_config_valid
good_umem = refl

-- ===== src/LibxdpSocket/Events.antt =====
-- include/chronosx/libxdp_socket.hpp: the log of resources acquired and given back, replayed.
use chronos_x.Base.{
  ◌≡◌, refl, Bool, true, false, ◌&&◌, Option, none, some, List, [], ◌∷◌, arith, ◌==◌, if◌then◌else◌,
}
use chronos_x.LibxdpSocket.{Resource, area, umem, socket, Event, acquired, released}

unfoldable pub same_resource : Resource → Resource → Bool
same_resource (area a n) (area b m) = a == b && n == m
same_resource (umem h) (umem k) = h == k
same_resource (socket h) (socket k) = h == k
same_resource _ _ = false

same_resource_self : (r : Resource) → same_resource r r ≡ true
unfolding same_resource
same_resource_self (area a n) = ground arith
same_resource_self (umem h) = ground arith
same_resource_self (socket h) = ground arith

-- The discipline of a stack: what is given back is what was acquired last and not given back yet.
unfoldable pub replay_event : Event → List Resource → Option (List Resource)
unfolding same_resource
replay_event (acquired r) held = some (r ∷ held)
replay_event (released r) [] = none
replay_event (released r) (h ∷ held) = if same_resource r h then some held else none

-- What a log, the newest event first, leaves; none if it breaks the discipline.
unfoldable pub replay : List Event → Option (List Resource)
unfolding replay_event
replay [] = some []
replay (e ∷ log) = elim (replay log) [ none ↦ none | some held ↦ replay_event e held ]

pub replay-acquired :
    (r : Resource) (log : List Event) (held : List Resource)
    → replay log ≡ some held
    → replay (acquired r ∷ log) ≡ some (r ∷ held)
unfolding replay
replay-acquired r log held e = rw e refl

pub replay-released :
    (r : Resource) (log : List Event) (held : List Resource)
    → replay log ≡ some (r ∷ held)
    → replay (released r ∷ log) ≡ some held
unfolding replay replay_event
replay-released r log held e = rw (e, same_resource_self r) refl

-- ===== src/ControlPlane/Descriptors.antt =====
-- include/chronosx/control_plane.hpp: the descriptors that the server holds, against those it was
-- handed and those it closed.
use chronos_x.Base.{
  ℕ, zero, suc, ◌+◌, ◌-◌, ◌≤◌, ◌<◌, ◌≡◌, refl, ap, ◌∙◌, List, [], ◌∷◌, false, none, some, arith,
  ltb, leb, lt→ltb, le→ltb, ◌==◌, if◌then◌else◌, length, length-set, get_or, set, get_or-set_self,
  get_or-set_ne, Bool-cases, inl, inr, dec_lt, ℕ_discrete,
}
use chronos_x.ControlPlane.Server.{Fd, ControlPlaneServer, close_fd, open_fd, remove_connection}

-- How often a descriptor is on a list, in a field, and in the first `n` slots.
unfoldable pub count : ℕ → List ℕ → ℕ
count d [] = 0
count d (x ∷ xs) = (if x == d then 1 else 0) + count d xs

unfoldable pub one : ℕ → Fd → ℕ
one d none = 0
one d (some x) = if x == d then 1 else 0

unfoldable pub slots : ℕ → ℕ → List Fd → ℕ
slots d zero fds = 0
slots d (suc n) fds = slots d n fds + one d (get_or fds n none)

-- How often the server holds a descriptor.
unfoldable pub held : ℕ → ControlPlaneServer → ℕ
held d s =
    slots d s.connection_count s.client_fds
    + one d s.listen_fd
    + one d s.epoll_fd
    + one d s.event_fd

pub count-close_fd :
    (d : ℕ) (fd : Fd) (xs : List ℕ) → count d (close_fd fd xs) ≡ one d fd + count d xs
unfolding count one close_fd
count-close_fd d none xs = omega arith
count-close_fd d (some x) xs = refl

pub count-open_fd :
    (d : ℕ) (fd : Fd) (xs : List ℕ) → count d (open_fd fd xs) ≡ one d fd + count d xs
unfolding count one open_fd
count-open_fd d none xs = omega arith
count-open_fd d (some x) xs = refl

pub slots-set_beyond :
    (d n : ℕ) (fds : List Fd) (k : ℕ) (v : Fd) → n ≤ k → slots d n (set fds k v) ≡ slots d n fds
unfolding slots
slots-set_beyond d zero fds k v h = refl
slots-set_beyond d (suc n) fds k v h = omega (
  arith,
  slots-set_beyond d n fds k v (omega arith),
  ap (one d) (get_or-set_ne fds k n v none (omega arith)),
)

-- A write into a slot trades the descriptor there for the new one.
pub slots-set :
    (d n : ℕ) (fds : List Fd) (k : ℕ) (v : Fd)
    → k < n
    → k < length fds
    → slots d n (set fds k v) + one d (get_or fds k none) ≡ slots d n fds + one d v
unfolding slots
slots-set d zero fds k v h l = absurd (omega arith)
slots-set d (suc n) fds k v h l = elim (ℕ_discrete k n) [
  | yes e ↦ rw (← e) (
      omega (
        arith,
        slots-set_beyond d k fds k v (omega arith),
        ap (one d) (get_or-set_self fds k v none l),
      ))
  | no ne ↦
      omega
        (arith, slots-set d n fds k v (omega arith) l, ap (one d) (get_or-set_ne fds k n v none ne))
]

-- The server's arrays and limits.
pub record IsSane (s : ControlPlaneServer) : Type 0 where
  pub fds : length s.client_fds ≡ 16
  pub room : s.connection_count ≤ 16
  pub limit : s.config.max_connections ≤ 16

-- Before `init` and after `shutdown` the server's own descriptors are closed.
unfoldable pub Idle : ControlPlaneServer → Type 0
Idle s = s.initialized ≡ false → (s.listen_fd ≡ none) × (s.epoll_fd ≡ none) × (s.event_fd ≡ none)

-- What was opened is closed or held, as often.
unfoldable pub Balanced : ControlPlaneServer → Type 0
Balanced s = IsSane s × Idle s × ((d : ℕ) → count d s.opened ≡ count d s.closed + held d s)

-- The slots after the last connection took the place of the removed one.
remove_slots :
    (d last : ℕ) (fds : List Fd) (slot : ℕ)
    → slot ≤ last
    → last < length fds
    → slots d last (
          if ltb slot last
          then set (set fds slot none) slot (get_or (set fds slot none) last none)
          else set fds slot none)
        + one d (get_or fds slot none)
      ≡ slots d (suc last) fds
unfolding slots one
remove_slots d last fds slot h l = elim (dec_lt slot last) [
  | yes lt ↦ rw (lt→ltb slot last lt) (
      omega (
        arith,
        slots-set d last (set fds slot none) slot (get_or (set fds slot none) last none) lt
            (omega (arith, length-set fds slot none)),
        slots-set d last fds slot none lt (omega arith),
        ap (one d) (get_or-set_self fds slot none none (omega arith)),
        ap (one d) (get_or-set_ne fds slot last none none (omega arith)),
      ))
  | no ge ↦
      let e : slot ≡ last = omega (arith, ge) in
      rw (le→ltb slot last (omega (arith, ge)), e)
        (omega (arith, slots-set_beyond d last fds last none (omega arith)))
]

pub remove_connection-Balanced :
    (s : ControlPlaneServer) (slot : ℕ) → Balanced s → Balanced (remove_connection s slot)
unfolding Balanced Idle remove_connection held
remove_connection-Balanced s slot (sane, idle, balance) =
    elim (Bool-cases (leb s.connection_count slot)) [
      | inl out ↦ rw out (sane, idle, balance)
      | inr inside ↦ rw inside (
        record {
          fds = same_length s.client_fds slot (s.connection_count - 1) ∙ sane.fds;
          room = omega (arith, sane.room);
          limit = sane.limit;
        },
        idle,
        λ d. ground (
          arith,
          balance d,
          count-close_fd d (get_or s.client_fds slot none) s.closed,
          remove_slots d (s.connection_count - 1) s.client_fds slot (ground arith)
              (ground (arith, sane.fds, sane.room)),
          last_slot s.connection_count slot (ground arith),
        ),
      )
    ]
  where
    same_length :
        (fds : List Fd) (k last : ℕ)
        → length (
            if ltb k last
            then set (set fds k none) k (get_or (set fds k none) last none)
            else set fds k none)
          ≡ length fds
    same_length fds k last = ground (
      arith,
      length-set fds k none,
      length-set (set fds k none) k (get_or (set fds k none) last none),
    )

    last_slot : (n slot : ℕ) → slot < n → suc (n - 1) ≡ n
    last_slot n slot h = omega arith

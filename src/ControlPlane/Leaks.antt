-- ===== src/ControlPlane/Leaks.antt =====
-- include/chronosx/control_plane.hpp: every operation of ControlPlaneServer accounts for its descriptors.
use chronos_x.Base.{
  ℕ, zero, suc, ◌+◌, ◌≤◌, ◌≡◌, refl, ap, ◌∙◌, List, Bool, none, some, arith, leb, length,
  length-set, get_or, set, get_or-set_self, get_or-set_ne, Bool-cases, inl, inr,
}
use chronos_x.ControlPlane.Server.{
  Fd, ControlPlaneServer, close_fd, close_clients, shutdown, handle_accept,
}
use chronos_x.ControlPlane.Descriptors.{
  count, one, slots, held, count-close_fd, slots-set_beyond, Idle, Balanced,
}

pub handle_accept-Balanced :
    (s : ControlPlaneServer) (client : Fd) (added : Bool)
    → Balanced s
    → Balanced (handle_accept s client added)
unfolding Balanced Idle handle_accept held count one slots
handle_accept-Balanced s none added b = b
handle_accept-Balanced s (some client) added (sane, idle, balance) =
    elim (Bool-cases (leb s.config.max_connections s.connection_count)) [
      | inl full ↦ rw full (
        record { fds = sane.fds; room = sane.room; limit = sane.limit },
        idle,
        λ d. omega (arith, balance d),
      )
      | inr room ↦ elim (Bool-cases added) [
        | inl e ↦
            rw (room, e)
              (
                record {
                  fds = length-set s.client_fds s.connection_count (some client) ∙ sane.fds;
                  room = ground (arith, sane.limit);
                  limit = sane.limit;
                },
                idle,
                λ d. omega (
                  arith,
                  balance d,
                  slots-set_beyond d s.connection_count s.client_fds s.connection_count
                      (some client) (omega arith),
                  ap (one d) (
                      get_or-set_self s.client_fds s.connection_count (some client) none
                        (ground (arith, sane.limit, sane.fds))),
                ),
              )
        | inr e ↦
            rw (room, e)
              (
                record { fds = sane.fds; room = sane.room; limit = sane.limit },
                idle,
                λ d. omega (arith, balance d),
              )
      ]
    ]

-- The slots and the list of the closed after the loop of `shutdown`.
cleared : ℕ → List Fd → List Fd
cleared zero fds = fds
cleared (suc n) fds = set (cleared n fds) n none

closed_after : ℕ → List Fd → List ℕ → List ℕ
closed_after zero fds closed = closed
closed_after (suc n) fds closed =
    close_fd (get_or (cleared n fds) n none) (closed_after n fds closed)

close_clients_lem :
    (n : ℕ) (s : ControlPlaneServer)
    → close_clients n s ≡ record s {
      closed = closed_after n s.client_fds s.closed;
      client_fds = cleared n s.client_fds;
    }
unfolding close_clients cleared closed_after
close_clients_lem zero s = refl
close_clients_lem (suc n) s =
    ap
      (λ (t : ControlPlaneServer). record t {
        closed = close_fd (get_or t.client_fds n none) t.closed;
        client_fds = set t.client_fds n none;
      })
      (close_clients_lem n s)

length-cleared : (n : ℕ) (fds : List Fd) → length (cleared n fds) ≡ length fds
unfolding cleared
length-cleared zero fds = refl
length-cleared (suc n) fds = length-set (cleared n fds) n none ∙ length-cleared n fds

get_or-cleared :
    (n : ℕ) (fds : List Fd) (i : ℕ) → n ≤ i → get_or (cleared n fds) i none ≡ get_or fds i none
unfolding cleared
get_or-cleared zero fds i h = refl
get_or-cleared (suc n) fds i h =
    get_or-set_ne (cleared n fds) n i none none (omega arith) ∙ get_or-cleared n fds i (omega arith)

count-closed_after :
    (d n : ℕ) (fds : List Fd) (closed : List ℕ)
    → count d (closed_after n fds closed) ≡ slots d n fds + count d closed
unfolding closed_after slots
count-closed_after d zero fds closed = omega arith
count-closed_after d (suc n) fds closed = omega (
  arith,
  count-close_fd d (get_or (cleared n fds) n none) (closed_after n fds closed),
  ap (one d) (get_or-cleared n fds n (omega arith)),
  count-closed_after d n fds closed,
)

-- After `shutdown` the server holds nothing.
pub shutdown-Balanced :
    (s : ControlPlaneServer)
    → Balanced s
    → Balanced (shutdown s) × ((d : ℕ) → held d (shutdown s) ≡ 0)
unfolding Balanced Idle shutdown held one slots
shutdown-Balanced s (sane, idle, balance) =
    rw (close_clients_lem s.connection_count s, shutdown)
      (
        (
          record {
            fds = length-cleared s.connection_count s.client_fds ∙ sane.fds;
            room = omega arith;
            limit = sane.limit;
          },
          λ h. (refl, refl, refl),
          λ d. omega (
            arith,
            balance d,
            count-close_fd d s.listen_fd (
                close_fd s.epoll_fd
                  (close_fd s.event_fd (closed_after s.connection_count s.client_fds s.closed))),
            count-close_fd d s.epoll_fd
                (close_fd s.event_fd (closed_after s.connection_count s.client_fds s.closed)),
            count-close_fd d s.event_fd (closed_after s.connection_count s.client_fds s.closed),
            count-closed_after d s.connection_count s.client_fds s.closed,
          ),
        ),
        λ d. refl,
      )

-- ===== src/ControlPlane/Startup.antt =====
-- include/chronosx/control_plane.hpp: `init` of ControlPlaneServer accounts for its descriptors.
use mathlib.Core.Bool.{true≢false}
use chronos_x.Base.{
  ℕ, ◌+◌, ◌≤◌, ◌≡◌, refl, sym, ap, ◌∙◌, Bool, true, false, not, none, some, arith, if◌then◌else◌,
  length,
}
use chronos_x.ControlPlane.{ControlPlaneStatus, ControlPlaneConfig, valid, ControlPlaneCore}
use chronos_x.ControlPlane.Server.{
  Fd, ControlPlaneServer, InitCalls, close_fd, open_fd, is_open, init, init_epoll, close_listener,
}
use chronos_x.ControlPlane.Descriptors.{
  count, one, held, count-close_fd, count-open_fd, IsSane, Idle, Balanced,
}

-- A descriptor that is none is held nowhere.
one-none : (d : ℕ) (fd : Fd) → fd ≡ none → one d fd ≡ 0
unfolding one
one-none d fd h = ap (one d) h

init_epoll-balance :
    (d : ℕ) (calls : InitCalls) (s : ControlPlaneServer)
    → s.epoll_fd ≡ none
    → s.event_fd ≡ none
    → count d s.opened ≡ count d s.closed + held d s
    → let s' = (init_epoll calls s).1 in count d s'.opened ≡ count d s'.closed + held d s'
unfolding init_epoll held one
init_epoll-balance d calls s p q balance = ground (
  arith,
  balance,
  one-none d s.epoll_fd p,
  one-none d s.event_fd q,
  count-open_fd d calls.epoll s.opened,
  count-open_fd d calls.event (open_fd calls.epoll s.opened),
  count-close_fd d s.listen_fd s.closed,
  count-close_fd d s.listen_fd (close_fd calls.epoll s.closed),
  count-close_fd d calls.epoll s.closed,
  count-close_fd d s.listen_fd (close_fd calls.epoll (close_fd calls.event s.closed)),
  count-close_fd d calls.epoll (close_fd calls.event s.closed),
  count-close_fd d calls.event s.closed,
)

init_epoll-Idle :
    (calls : InitCalls) (s : ControlPlaneServer) → s.event_fd ≡ none → Idle (init_epoll calls s).1
unfolding init_epoll Idle is_open
init_epoll-Idle calls s h = ground arith

init_epoll_keeps :
    (calls : InitCalls) (s : ControlPlaneServer)
    → let s' = (init_epoll calls s).1 in
      (s'.client_fds ≡ s.client_fds)
      × (s'.connection_count ≡ s.connection_count)
      × (s'.config.max_connections ≡ s.config.max_connections)
unfolding init_epoll
init_epoll_keeps calls s = ground arith

-- `init` up to the listening socket, and how it ends where that fails.
abbrev listening_server :
    ControlPlaneConfig → ControlPlaneCore → InitCalls → ControlPlaneServer → ControlPlaneServer
listening_server config core calls s = record s {
  config = config;
  core = core;
  listen_fd = calls.socket;
  opened = open_fd calls.socket s.opened;
}

valid_limit : (config : ControlPlaneConfig) → valid config ≡ true → config.max_connections ≤ 16
unfolding valid
valid_limit config h = ground arith

-- The status and the server, where its descriptors are in order.
abbrev pub BalancedAfter : ControlPlaneStatus × ControlPlaneServer → Type 0
BalancedAfter r = Balanced r.1

init_epoll-Balanced :
    (calls : InitCalls) (s : ControlPlaneServer)
    → s.epoll_fd ≡ none
    → s.event_fd ≡ none
    → IsSane s
    → ((d : ℕ) → count d s.opened ≡ count d s.closed + held d s)
    → Balanced (init_epoll calls s).1
unfolding Balanced
init_epoll-Balanced calls s p q sane balance =
    let (fds, count', limit) = init_epoll_keeps calls s in
    (
      record {
        fds = ap length fds ∙ sane.fds;
        room = omega (arith, count', sane.room);
        limit = omega (arith, limit, sane.limit);
      },
      init_epoll-Idle calls s q,
      λ d. init_epoll-balance d calls s p q (balance d),
    )

listening_balance :
    (config : ControlPlaneConfig) (core : ControlPlaneCore) (calls : InitCalls)
    (s : ControlPlaneServer) (d : ℕ)
    → s.listen_fd ≡ none
    → count d s.opened ≡ count d s.closed + held d s
    → let s' = listening_server config core calls s in
      count d s'.opened ≡ count d s'.closed + held d s'
unfolding held
listening_balance config core calls s d no_listener balance =
    omega
      (arith, balance, count-open_fd d calls.socket s.opened, one-none d s.listen_fd no_listener)

close_listener-Balanced :
    (s : ControlPlaneServer)
    → s.epoll_fd ≡ none
    → s.event_fd ≡ none
    → IsSane s
    → ((d : ℕ) → count d s.opened ≡ count d s.closed + held d s)
    → Balanced (close_listener s)
unfolding Balanced held Idle one
close_listener-Balanced s p q sane balance = (
  record { fds = sane.fds; room = sane.room; limit = sane.limit },
  λ h. (refl, p, q),
  λ d. omega (arith, balance d, count-close_fd d s.listen_fd s.closed),
)

if_balanced :
    (t : Bool) (a b : ControlPlaneStatus × ControlPlaneServer)
    → (t ≡ true → BalancedAfter a)
    → (t ≡ false → BalancedAfter b)
    → BalancedAfter (if t then a else b)
if_balanced true a b h k = h refl
if_balanced false a b h k = k refl

closed_none : (fd : Fd) → not (is_open fd) ≡ true → fd ≡ none
unfolding is_open
closed_none none h = refl
closed_none (some fd) h = absurd (true≢false (sym h))

not-false : (t : Bool) → not t ≡ false → t ≡ true
not-false t h = ground arith

pub init-Balanced :
    (config : ControlPlaneConfig) (core : ControlPlaneCore) (calls : InitCalls)
    (s : ControlPlaneServer)
    → Balanced s
    → BalancedAfter (init config core calls s)
unfolding init Balanced Idle
init-Balanced config core calls s (sane, idle, balance) =
    if_balanced s.initialized _ _ (λ on. (sane, idle, balance))
      λ off.
        if_balanced (not (valid config)) _ _ (λ bad. (sane, idle, balance))
          λ good.
            let (no_listener, no_epoll, no_event) = idle off in
            let s' : ControlPlaneServer = listening_server config core calls s in
            let sane' : IsSane s' = record {
              fds = sane.fds;
              room = sane.room;
              limit = valid_limit config (not-false _ good);
            } in
            let balance' : (d : ℕ) → count d s'.opened ≡ count d s'.closed + held d s' =
              λ d. listening_balance config core calls s d no_listener (balance d) in
            if_balanced (not (is_open calls.socket)) _ _
              (λ failed.
                (sane', λ h. (closed_none calls.socket failed, no_epoll, no_event), balance'))
              λ opened.
                if_balanced (not calls.bound) _ _
                  (λ failed. close_listener-Balanced s' no_epoll no_event sane' balance')
                  λ bound.
                    if_balanced (not calls.listening) _ _
                      (λ failed. close_listener-Balanced s' no_epoll no_event sane' balance')
                      λ listening. init_epoll-Balanced calls s' no_epoll no_event sane' balance'

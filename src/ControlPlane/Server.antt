-- ===== src/ControlPlane/Server.antt =====
-- include/chronosx/control_plane.hpp, its class ControlPlaneServer. What a system call returns is an
-- argument; a file descriptor is none where the code has -1. `opened` and `closed` are the system's side:
-- the descriptors that the calls have handed out, and those that `close` has taken, latest first.
use chronos_x.Base.{
  ℕ, zero, suc, ◌-◌, List, [], ◌∷◌, Bool, true, false, not, ◌||◌, Option, none, some, ltb, leb,
  ◌==◌, if◌then◌else◌, replicate, get_or, set,
}
use chronos_x.ControlPlane.{
  ControlPlaneStatus, ok, bind_failed, listen_failed, epoll_create_failed, event_fd_failed,
  invalid_message, already_initialized, ConnectionBuffer, new_buffer, reset, ControlPlaneConfig,
  valid, ControlPlaneCore, default_control_port, max_control_connections,
}

abbrev pub Fd : Type 0
Fd = Option ℕ

pub record ControlPlaneServer : Type 0 where
  pub config : ControlPlaneConfig
  pub core : ControlPlaneCore
  pub listen_fd : Fd
  pub epoll_fd : Fd
  pub event_fd : Fd
  pub initialized : Bool
  pub client_fds : List Fd
  pub buffers : List ConnectionBuffer
  pub connection_count : ℕ
  pub messages_handled : ℕ
  pub opened : List ℕ
  pub closed : List ℕ

abbrev pub default_config : ControlPlaneConfig
default_config = record {
  port = default_control_port;
  max_connections = max_control_connections;
  listen_backlog = 8;
}

-- A new server; `core_`, a null pointer before `init`, is the core that `init` will be given.
abbrev pub new_server : ControlPlaneCore → ControlPlaneServer
new_server core = record {
  config = default_config;
  core = core;
  listen_fd = none;
  epoll_fd = none;
  event_fd = none;
  initialized = false;
  client_fds = replicate max_control_connections (some 0);
  buffers = replicate max_control_connections new_buffer;
  connection_count = 0;
  messages_handled = 0;
  opened = [];
  closed = [];
}

-- `close_fd`, which leaves -1 behind, on the list of the closed.
unfoldable pub close_fd : Fd → List ℕ → List ℕ
close_fd none closed = closed
close_fd (some fd) closed = fd ∷ closed

-- A descriptor that a call returned, on the list of the opened.
unfoldable pub open_fd : Fd → List ℕ → List ℕ
open_fd none opened = opened
open_fd (some fd) opened = fd ∷ opened

unfoldable pub is_open : Fd → Bool
is_open none = false
is_open (some fd) = true

-- `client_fds_[index] == fd`
unfoldable pub is_fd : Fd → ℕ → Bool
is_fd none fd = false
is_fd (some x) fd = x == fd

-- What the calls in `init` return.
pub record InitCalls : Type 0 where
  pub socket : Fd
  pub bound : Bool
  pub listening : Bool
  pub epoll : Fd
  pub event : Fd
  pub listener_added : Bool
  pub event_added : Bool

abbrev pub close_listener : ControlPlaneServer → ControlPlaneServer
close_listener s = record s { closed = close_fd s.listen_fd s.closed; listen_fd = none }

abbrev close_epoll : ControlPlaneServer → ControlPlaneServer
close_epoll s = record s { closed = close_fd s.epoll_fd s.closed; epoll_fd = none }

abbrev close_event : ControlPlaneServer → ControlPlaneServer
close_event s = record s { closed = close_fd s.event_fd s.closed; event_fd = none }

-- The second half of `init`, from `epoll_create1` on.
unfoldable pub init_epoll : InitCalls → ControlPlaneServer → ControlPlaneStatus × ControlPlaneServer
unfolding close_fd open_fd is_open
init_epoll calls s =
    let s : ControlPlaneServer = record s {
      epoll_fd = calls.epoll;
      opened = open_fd calls.epoll s.opened;
    } in
    if not (is_open s.epoll_fd)
    then (epoll_create_failed, close_listener s)
    else let s : ControlPlaneServer = record s {
      event_fd = calls.event;
      opened = open_fd calls.event s.opened;
    } in
      if not (is_open s.event_fd)
      then (event_fd_failed, close_listener (close_epoll s))
      else if not calls.listener_added || not calls.event_added
      then (epoll_create_failed, close_listener (close_epoll (close_event s)))
      else (ok, record s { initialized = true })

unfoldable pub init :
    ControlPlaneConfig
    → ControlPlaneCore
    → InitCalls
    → ControlPlaneServer
    → ControlPlaneStatus × ControlPlaneServer
unfolding init_epoll valid
init config core calls s =
    if s.initialized
    then (already_initialized, s)
    else if not (valid config)
    then (invalid_message, s)
    else let s : ControlPlaneServer = record s {
      config = config;
      core = core;
      listen_fd = calls.socket;
      opened = open_fd calls.socket s.opened;
    } in
      if not (is_open s.listen_fd)
      then (bind_failed, s)
      else if not calls.bound
      then (bind_failed, close_listener s)
      else if not calls.listening
      then (listen_failed, close_listener s)
      else init_epoll calls s

-- The loop of `shutdown` over the first `n` clients.
unfoldable pub close_clients : ℕ → ControlPlaneServer → ControlPlaneServer
unfolding close_fd
close_clients zero s = s
close_clients (suc n) s =
    let s = close_clients n s in
    record s {
      closed = close_fd (get_or s.client_fds n none) s.closed;
      client_fds = set s.client_fds n none;
    }

unfoldable pub shutdown : ControlPlaneServer → ControlPlaneServer
unfolding close_clients
shutdown s =
    let s : ControlPlaneServer = record (close_clients s.connection_count s) {
      connection_count = 0;
    } in
    record (close_listener (close_epoll (close_event s))) { initialized = false }

-- `find_slot`, `n` rounds from `index` on.
unfoldable pub find_loop : ℕ → ℕ → List Fd → ℕ → ℕ
unfolding is_fd
find_loop zero index fds fd = index
find_loop (suc n) index fds fd =
    let rest = find_loop n (suc index) fds fd in
    if is_fd (get_or fds index none) fd then index else rest

unfoldable pub find_slot : ControlPlaneServer → ℕ → ℕ
unfolding find_loop
find_slot s fd = find_loop s.connection_count 0 s.client_fds fd

unfoldable pub remove_connection : ControlPlaneServer → ℕ → ControlPlaneServer
unfolding close_fd
remove_connection s slot =
    if leb s.connection_count slot
    then s
    else let last = s.connection_count - 1 in
      let closed = close_fd (get_or s.client_fds slot none) s.closed in
      let fds = set s.client_fds slot none in
      record s {
        closed = closed;
        client_fds = if ltb slot last then set fds slot (get_or fds last none) else fds;
        buffers =
            if ltb slot last
            then set s.buffers slot (get_or s.buffers last new_buffer)
            else s.buffers;
        connection_count = last;
      }

-- `client` is what `accept4` returns, and `added` whether it joins the epoll set.
unfoldable pub handle_accept : ControlPlaneServer → Fd → Bool → ControlPlaneServer
unfolding reset
handle_accept s none added = s
handle_accept s (some client) added =
    let s : ControlPlaneServer = record s { opened = client ∷ s.opened } in
    if leb s.config.max_connections s.connection_count
    then record s { closed = client ∷ s.closed }
    else if not added
    then record s { closed = client ∷ s.closed }
    else record s {
      client_fds = set s.client_fds s.connection_count (some client);
      buffers =
          set s.buffers s.connection_count (reset (get_or s.buffers s.connection_count new_buffer));
      connection_count = suc s.connection_count;
    }

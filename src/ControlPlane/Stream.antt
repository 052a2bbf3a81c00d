-- ===== src/ControlPlane/Stream.antt =====
-- include/chronosx/control_plane.hpp: a client's messages are served one after the other, however the
-- stream of their bytes is cut into reads.
use mathlib.Core.List.{append_assoc}
use mathlib.Core.Path.{subst}
use chronos_x.Base.{
  ℕ, suc, ◌≤◌, ◌<◌, ◌≡◌, refl, sym, ap, ◌∙◌, List, [], ◌∷◌, ◌++◌, All, true, false, ◌||◌, Option,
  none, some, arith, ◌==◌, ◌!=◌, length, get_or, set, ==-ne,
}
use chronos_x.Types.{StatUpdate}
use chronos_x.ChaosEngine.{ChaosRule}
use chronos_x.Control.{Layout}
use chronos_x.ControlPlane.{ControlPlaneCore, ConnectionBuffer, new_buffer, append}
use chronos_x.ControlPlane.Buffer.{Holds, append-Holds}
use chronos_x.ControlPlane.Messages.{
  IsMessage, concat, Shorter, Split, messages_within, Shorter-IsPartial,
}
use chronos_x.ControlPlane.Server.{ControlPlaneServer, find_slot}
use chronos_x.ControlPlane.Clients.{
  SendResult, send_all, message_loop, served_at, receive_bytes, bytes_read, handle_client,
}
use chronos_x.ControlPlane.Loop.{count_after, request_once, serve, loop_serves}
use chronos_x.ControlPlane.Connection.{
  Connected, served_server, set-set, set-get_or, no_message, Shorter-small, All-split,
  count_after-append, if_false, served_at_lem, IsRead, Connected-served_server, enough,
  nothing_left,
}

module _ (rule_layout : Layout ChaosRule) (stats_layout : Layout StatUpdate) (max_rules : ℕ) where
  serve-append :
      (xs ys : List (List ℕ)) (core : ControlPlaneCore)
      → serve rule_layout stats_layout max_rules
          (serve rule_layout stats_layout max_rules core xs)
          ys
        ≡ serve rule_layout stats_layout max_rules core (xs ++ ys)
  unfolding serve
  serve-append [] ys core = refl
  serve-append (x ∷ xs) ys core =
      serve-append xs ys (request_once rule_layout stats_layout max_rules core x)

  module _ (results : ℕ → List ℕ → List SendResult)
      (delivered : (n : ℕ) (bytes : List ℕ)
        → send_all (results n bytes) (length bytes) ≡ some true) where
    handle_client_lem :
        (s : ControlPlaneServer) (fd slot : ℕ) (data' : List ℕ)
        → find_slot s fd ≡ slot
        → slot < s.connection_count
        → handle_client rule_layout stats_layout max_rules results s fd (bytes_read data')
          ≡ receive_bytes rule_layout stats_layout max_rules results s slot data'
    unfolding handle_client
    handle_client_lem s fd slot data' found counted =
        if_false (find_slot s fd == s.connection_count) _ _ (==-ne _ _ (ground (arith, found)))
        ∙ ap (λ k. receive_bytes rule_layout stats_layout max_rules results s k data') found

    receive_bytes_lem :
        (s : ControlPlaneServer) (slot : ℕ) (data' : List ℕ)
        → let (appended, b) = append (get_or s.buffers slot new_buffer) data' in
          appended ≡ length data'
          → b.overflowed ≡ false
          → receive_bytes rule_layout stats_layout max_rules results s slot data'
            ≡ served_at
                (record s { buffers = set s.buffers slot b })
                slot
                (message_loop rule_layout stats_layout max_rules results
                  (suc b.write_pos)
                  s.core
                  b
                  s.messages_handled)
    unfolding receive_bytes
    receive_bytes_lem s slot data' whole clean =
        let (appended, b) = append (get_or s.buffers slot new_buffer) data' in
        if_false (appended != length data' || b.overflowed) _ _ (ground (arith, whole, clean))

    -- One read: the messages that are now complete are served, and the rest waits in the buffer.
    read_serves :
        (s : ControlPlaneServer) (fd slot : ℕ) (p data' ys : List ℕ) (ms : List (List ℕ))
        → Connected s fd slot p
        → All IsMessage ms
        → length p ≤ 4096
        → length data' ≤ 4096
        → (split : Split (p ++ data') ys ms)
        → (b : ConnectionBuffer) × (handle_client rule_layout stats_layout max_rules results s fd
              (bytes_read data')
            ≡ some (
                served_server s slot b
                  (serve rule_layout stats_layout max_rules s.core split.passed)
                  (count_after (length split.passed) s.messages_handled)))
          × Holds b split.left
          × (length b.buffer ≡ 8192)
    read_serves s fd slot p data' ys ms c is short shorter split =
        let b : ConnectionBuffer = get_or s.buffers slot new_buffer in
        let (whole, held, size) = append-Holds b p data' c.holds (omega (arith, c.size)) in
        let b1 : ConnectionBuffer = (append b data').1 in
        let (done, ahead) =
          All-split split.passed split.ahead (subst (All IsMessage) split.all is) in
        let part = Shorter-IsPartial split.left ys split.ahead ahead split.last split.shorter in
        let holds : Holds b1 (concat split.passed ++ split.left) =
          subst (Holds b1) split.first held in
        let (b', loop, holds', size') =
          loop_serves rule_layout stats_layout max_rules results delivered split.passed split.left
            (suc b1.write_pos) s.core b1 s.messages_handled done part holds
            (enough b1 split.passed split.left done holds) in
        (
          b',
          handle_client_lem s fd slot data' c.found c.counted
              ∙ receive_bytes_lem s slot data' whole held.clean
              ∙ ap (served_at (record s { buffers = set s.buffers slot b1 }) slot) loop
              ∙ served_at_lem s slot b1 b'
                  (serve rule_layout stats_layout max_rules s.core split.passed)
                  (count_after (length split.passed) s.messages_handled),
          holds',
          size' ∙ size ∙ c.size,
        )

    -- Messages served one after the other are served together.
    then_served :
        (s : ControlPlaneServer) (slot : ℕ) (b b' : ConnectionBuffer) (xs ys ms : List (List ℕ))
        → ms ≡ xs ++ ys
        → let served = serve rule_layout stats_layout max_rules in
          let s1 : ControlPlaneServer =
            served_server s slot b
              (served s.core xs)
              (count_after (length xs) s.messages_handled) in
          some (
            served_server s1 slot b'
              (served s1.core ys)
              (count_after (length ys) s1.messages_handled))
          ≡ some (
              served_server s slot b'
                (served s.core ms)
                (count_after (length ms) s.messages_handled))
    then_served s slot b b' xs ys ms e = λ i. some (record s {
      core =
          (serve-append xs ys s.core ∙ ap (serve rule_layout stats_layout max_rules s.core) (sym e))
            i;
      buffers = set-set s.buffers slot b b' i;
      messages_handled =
          (count_after-append xs ys s.messages_handled
              ∙ ap (λ l. count_after (length l) s.messages_handled) (sym e))
            i;
    })

    -- Reads of one descriptor, one after the other.
    unfoldable pub client_reads : List (List ℕ) → ControlPlaneServer → ℕ → Option ControlPlaneServer
    client_reads [] s fd = some s
    client_reads (data' ∷ reads) s fd =
        elim (handle_client rule_layout stats_layout max_rules results s fd (bytes_read data')) [
          | none ↦ none
          | some s' ↦ client_reads reads s' fd
        ]

    reads_serve :
        (reads : List (List ℕ)) (s : ControlPlaneServer) (fd slot : ℕ) (p : List ℕ)
        (ms : List (List ℕ))
        → Connected s fd slot p
        → All IsMessage ms
        → All IsRead reads
        → Shorter p ms
        → p ++ concat reads ≡ concat ms
        → (b : ConnectionBuffer) × (client_reads reads s fd
            ≡ some (
                served_server s slot b
                  (serve rule_layout stats_layout max_rules s.core ms)
                  (count_after (length ms) s.messages_handled)))
          × Holds b []
          × (length b.buffer ≡ 8192)
    unfolding client_reads serve count_after
    reads_serve [] s fd slot p ms c is small short e =
        let (no_bytes, no_messages) = no_message p ms is e short in
        (
          get_or s.buffers slot new_buffer,
          ap (λ bs. some (record s { buffers = bs })) (sym (set-get_or s.buffers slot new_buffer))
              ∙ ap
                  (λ l. some (
                    served_server s slot (get_or s.buffers slot new_buffer)
                      (serve rule_layout stats_layout max_rules s.core l)
                      (count_after (length l) s.messages_handled)))
                  (sym no_messages),
          subst (Holds (get_or s.buffers slot new_buffer)) no_bytes c.holds,
          c.size,
        )
    reads_serve (data' ∷ reads) s fd slot p ms c is (small, smalls) short e =
        let split =
          messages_within (p ++ data') (concat reads) ms
            (append_assoc p data' (concat reads) ∙ e) in
        let (b, read, holds, size) =
          read_serves s fd slot p data' (concat reads) ms c is (Shorter-small p ms is short) small
            split in
        let core : ControlPlaneCore =
          serve rule_layout stats_layout max_rules s.core split.passed in
        let handled : ℕ = count_after (length split.passed) s.messages_handled in
        let s1 : ControlPlaneServer = served_server s slot b core handled in
        let ahead = (All-split split.passed split.ahead (subst (All IsMessage) split.all is)).1 in
        let (b', rest, holds', size') =
          reads_serve reads s1 fd slot split.left split.ahead
            (Connected-served_server s fd slot p b split.left core handled c holds size) ahead
            smalls split.shorter split.last in
        (
          b',
          rw (read, client_reads)
              (rest ∙ then_served s slot b b' split.passed split.ahead ms split.all),
          holds',
          size',
        )

    -- Where a connection's buffer is empty, its client sends messages of at most 4096 bytes with truthful
    -- length fields, and the replies are delivered, the server handles those messages, in their order,
    -- each once, and then waits with an empty buffer and the connection open, however the stream is
    -- cut into reads of at most 4096 bytes: within messages, or several messages at once.
    pub client_reads-serve :
        (reads ms : List (List ℕ)) (s : ControlPlaneServer) (fd slot : ℕ)
        → Connected s fd slot []
        → All IsMessage ms
        → All IsRead reads
        → concat reads ≡ concat ms
        → (b : ConnectionBuffer) × (client_reads reads s fd
            ≡ some (
                served_server s slot b
                  (serve rule_layout stats_layout max_rules s.core ms)
                  (count_after (length ms) s.messages_handled)))
          × Holds b []
          × (length b.buffer ≡ 8192)
    client_reads-serve reads ms s fd slot c is small e =
        reads_serve reads s fd slot [] ms c is small (nothing_left ms is) e

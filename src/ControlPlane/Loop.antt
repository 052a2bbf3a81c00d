-- ===== src/ControlPlane/Loop.antt =====
-- include/chronosx/control_plane.hpp: the loop over a client's messages serves the messages that the buffer
-- holds, in order, and leaves the bytes behind them.
use mathlib.Core.List.{append_assoc}
use mathlib.Core.Path.{subst}
use chronos_x.Base.{
  ℕ, zero, suc, ◌+◌, ◌≤◌, ◌<◌, ◌≡◌, refl, ap, ap₂, ◌∙◌, List, [], ◌∷◌, ◌++◌, All, Bool, true, false,
  not, ◌||◌, Option, some, arith, ltb, ◌==◌, if◌then◌else◌, length, length-append, replicate, take,
  u64,
}
use chronos_x.Types.{StatUpdate}
use chronos_x.ChaosEngine.{ChaosRule}
use chronos_x.Control.{Layout}
use chronos_x.Protocol.Peel.{take_append}
use chronos_x.ControlPlane.{
  ControlPlaneCore, ConnectionBuffer, readable, consume, has_complete_message, next_message_length,
  handle_request, control_response_buffer_bytes,
}
use chronos_x.ControlPlane.Buffer.{Holds, write_pos-length, consume-Holds}
use chronos_x.ControlPlane.Messages.{IsMessage, IsPartial, concat, message_first, partial_first}
use chronos_x.ControlPlane.Clients.{
  SendResult, send_all, round_after, Served, stops, goes_on, message_round, message_loop,
}

-- The count after `n` more messages, which wraps.
unfoldable pub count_after : ℕ → ℕ → ℕ
count_after zero handled = handled
count_after (suc n) handled = count_after n (u64 (handled + 1))

pub length-concat : (ms : List (List ℕ)) → All IsMessage ms → length ms ≤ length (concat ms)
length-concat [] i = omega arith
length-concat (m ∷ ms) (i, is) =
    omega (arith, length-append m (concat ms), length-concat ms is, i.header)

goes_on_lem :
    (t t' : Bool) (o : Option Bool) (r r' : Served) (core : ControlPlaneCore) (b : ConnectionBuffer)
    (handled : ℕ)
    → t ≡ false
    → t' ≡ false
    → o ≡ some true
    → (if t then stops r else if t' then stops r' else round_after o core b handled)
      ≡ goes_on core b
unfolding round_after
goes_on_lem t t' o r r' core b handled p q s = rw (p, q, s) refl

sent_lem : (t : Bool) (o : Option Bool) → o ≡ some true → (if t then o else some true) ≡ some true
sent_lem true o h = h
sent_lem false o h = refl

module _ (rule_layout : Layout ChaosRule) (stats_layout : Layout StatUpdate) (max_rules : ℕ) where
  -- The core after a request, and after requests in order, each with a cleared response.
  abbrev pub request_once : ControlPlaneCore → List ℕ → ControlPlaneCore
  request_once core m =
      (handle_request rule_layout stats_layout max_rules core m
        (replicate control_response_buffer_bytes 0)).1

  unfoldable pub serve : ControlPlaneCore → List (List ℕ) → ControlPlaneCore
  serve core [] = core
  serve core (m ∷ ms) = serve (request_once core m) ms

  module _ (results : ℕ → List ℕ → List SendResult)
      (delivered : (n : ℕ) (bytes : List ℕ)
        → send_all (results n bytes) (length bytes) ≡ some true) where
    round_serves :
        (core : ControlPlaneCore) (b : ConnectionBuffer) (handled : ℕ) (m rest : List ℕ)
        → Holds b (m ++ rest)
        → IsMessage m
        → message_round rule_layout stats_layout max_rules results core b handled
          ≡ goes_on (request_once core m) (consume b (length m))
    unfolding message_round
    round_serves core b handled m rest h i =
        let n : ℕ = next_message_length b in
        let (has, is) = message_first b m rest h i in
        let next : ControlPlaneCore = request_once core (take n (readable b)) in
        let (reply, c) =
          handle_request rule_layout stats_layout max_rules core (take n (readable b))
            (replicate control_response_buffer_bytes 0) in
        let response : List ℕ = take reply.0.bytes_written reply.1 in
        let answer : Option Bool =
          if ltb 0 reply.0.bytes_written
          then send_all (results handled response) (length response)
          else some true in
        let first : take n (readable b) ≡ m =
          ap₂ take is h.content ∙ take_append m rest (length m) refl in
        let fits : (n == 0 || ltb b.write_pos n) ≡ false =
          ground (arith, is, i.header, write_pos-length b (m ++ rest) h, length-append m rest) in
        goes_on_lem (not (has_complete_message b)) (n == 0 || ltb b.write_pos n) answer _ _ next
          (consume b n) handled (ap not has) fits (sent_lem _ _ (delivered handled response))
        ∙ ap₂ (λ xs k. goes_on (request_once core xs) (consume b k)) first is

    round_stops :
        (core : ControlPlaneCore) (b : ConnectionBuffer) (handled : ℕ) (p : List ℕ)
        → Holds b p
        → IsPartial p
        → message_round rule_layout stats_layout max_rules results core b handled
          ≡ stops (record { core = core; buffer = b; messages_handled = handled; kept = true })
    unfolding message_round
    round_stops core b handled p h i = rw (partial_first b p h i) refl

    -- The messages in front of bytes that end before their message does.
    pub loop_serves :
        (ms : List (List ℕ)) (p : List ℕ) (fuel : ℕ) (core : ControlPlaneCore)
        (b : ConnectionBuffer) (handled : ℕ)
        → All IsMessage ms
        → IsPartial p
        → Holds b (concat ms ++ p)
        → length ms < fuel
        → (b' : ConnectionBuffer) × (message_loop rule_layout stats_layout max_rules results fuel
              core b handled
            ≡ some (record {
              core = serve core ms;
              buffer = b';
              messages_handled = count_after (length ms) handled;
              kept = true;
            }))
          × Holds b' p
          × (length b'.buffer ≡ length b.buffer)
    unfolding message_loop serve count_after
    loop_serves ms p zero core b handled is part h lt = absurd (omega arith)
    loop_serves [] p (suc fuel) core b handled is part h lt =
        (b, rw (round_stops core b handled p h part, message_loop) refl, h, refl)
    loop_serves (m ∷ ms) p (suc fuel) core b handled (i, is) part h lt =
        let held : Holds b (m ++ (concat ms ++ p)) =
          subst (Holds b) (append_assoc m (concat ms) p) h in
        let (left, size) = consume-Holds b m (concat ms ++ p) held in
        let (b', e, h', size') =
          loop_serves ms p fuel (request_once core m) (consume b (length m)) (u64 (handled + 1)) is
            part left (omega arith) in
        (
          b',
          rw (round_serves core b handled m (concat ms ++ p) held i, message_loop) e,
          h',
          size' ∙ size,
        )

-- ===== src/ChaosEngine/Sensitivity.antt =====
-- include/chronosx/chaos_engine.hpp: the packet hash sees each byte of the payload.
use chronos_x.Base.{
  ℕ, zero, suc, ◌<◌, List, [], ◌∷◌, ◌++◌, Option, none, some, ◌≡◌, ◌≢◌, ap, ap₂, sym, ◌∙◌, arith,
  u64_mod, length, All, drop,
}
use chronos_x.PacketParser.{PacketView, payload_data}
use chronos_x.ChaosEngine.{
  ChaosRule, fnv1a_byte, hash_payload, hash_pointer, packet_state, flow_state, stable_packet_hash,
  fnv1a_u64, fnv1a_u32,
}
use chronos_x.ChaosEngine.Bijection.{
  avalanche64-injective, fnv1a_byte-lt, fnv1a_byte-same_byte, fnv1a_byte-same_state,
}
use chronos_x.ChaosEngine.Flow.{SameFlow, flow_state-SameFlow}

abbrev pub IsByte : ℕ → Type 0
IsByte x = x < 256

hash_payload-lt : (n : ℕ) (xs : List ℕ) (h : ℕ) → h < u64_mod → hash_payload n xs h < u64_mod
unfolding hash_payload
hash_payload-lt zero xs h p = p
hash_payload-lt (suc n) xs h p = hash_payload-lt n (drop 1 xs) _ (fnv1a_byte-lt _ _)

-- The same bytes after two different states leave them different.
hash_payload-injective :
    (n : ℕ) (xs : List ℕ) (h k : ℕ)
    → All IsByte xs
    → h < u64_mod
    → k < u64_mod
    → hash_payload n xs h ≡ hash_payload n xs k
    → h ≡ k
unfolding hash_payload
hash_payload-injective zero xs h k a p q e = e
hash_payload-injective (suc n) [] h k a p q e =
    fnv1a_byte-same_byte h k 0 p q (omega arith)
      (hash_payload-injective n [] _ _ a (fnv1a_byte-lt _ _) (fnv1a_byte-lt _ _) e)
hash_payload-injective (suc n) (x ∷ xs) h k a p q e =
    fnv1a_byte-same_byte h k x p q a.0
      (hash_payload-injective n xs _ _ a.1 (fnv1a_byte-lt _ _) (fnv1a_byte-lt _ _) e)

-- One byte changed.
hash_payload-changed :
    (before after : List ℕ) (x y n h : ℕ)
    → All IsByte before
    → All IsByte after
    → x < 256
    → y < 256
    → h < u64_mod
    → length before < n
    → hash_payload n (before ++ (x ∷ after)) h ≡ hash_payload n (before ++ (y ∷ after)) h
    → x ≡ y
unfolding hash_payload
hash_payload-changed before after x y zero h ab aa p q r l e = absurd (omega arith)
hash_payload-changed [] after x y (suc n) h ab aa p q r l e =
    fnv1a_byte-same_state h x y r p q
      (hash_payload-injective n after _ _ aa (fnv1a_byte-lt _ _) (fnv1a_byte-lt _ _) e)
hash_payload-changed (z ∷ before) after x y (suc n) h ab aa p q r l e =
    hash_payload-changed before after x y n (fnv1a_byte h z) ab.1 aa p q (fnv1a_byte-lt _ _)
      (omega arith) e

flow_state-lt : (r : ChaosRule) (p : PacketView) → flow_state r p < u64_mod
unfolding flow_state fnv1a_u64 fnv1a_u32
flow_state-lt r p = fnv1a_byte-lt _ _

hash_pointer-lt :
    (pointer : Option (List ℕ)) (n h : ℕ) → h < u64_mod → hash_pointer pointer n h < u64_mod
unfolding hash_pointer
hash_pointer-lt none n h p = p
hash_pointer-lt (some xs) n h p = hash_payload-lt n xs h p

packet_state-lt : (r : ChaosRule) (p : PacketView) → packet_state r p < u64_mod
unfolding packet_state
packet_state-lt r p =
    hash_pointer-lt (payload_data p) p.payload_length (flow_state r p) (flow_state-lt r p)

packet_state_at :
    (r : ChaosRule) (p : PacketView) (xs : List ℕ)
    → payload_data p ≡ some xs
    → packet_state r p ≡ hash_payload p.payload_length xs (flow_state r p)
unfolding packet_state hash_pointer
packet_state_at r p xs e = ap (λ t. hash_pointer t p.payload_length (flow_state r p)) e

-- Two packets of one flow whose payloads differ in one byte, and in no other, have different hashes under each rule:
-- the packet hash never ignores a byte.
pub stable_packet_hash-changed :
    (r : ChaosRule) (p q : PacketView) (before after : List ℕ) (x y : ℕ)
    → SameFlow p q
    → payload_data p ≡ some (before ++ (x ∷ after))
    → payload_data q ≡ some (before ++ (y ∷ after))
    → All IsByte before
    → All IsByte after
    → x < 256
    → y < 256
    → length before < p.payload_length
    → x ≢ y
    → stable_packet_hash r p ≢ stable_packet_hash r q
unfolding stable_packet_hash
stable_packet_hash-changed r p q before after x y s xs_of ys_of ab aa px py inside ne e = ne (
    hash_payload-changed before after x y p.payload_length (flow_state r p) ab aa px py
      (flow_state-lt r p) inside (sym left ∙ same ∙ right))
  where
    left : packet_state r p ≡ hash_payload p.payload_length (before ++ (x ∷ after)) (flow_state r p)
    left = packet_state_at r p _ xs_of

    right :
        packet_state r q ≡ hash_payload p.payload_length (before ++ (y ∷ after)) (flow_state r p)
    right =
        packet_state_at r q _ ys_of
        ∙ ap₂ (λ n h. hash_payload n (before ++ (y ∷ after)) h) (sym s.same_length)
            (sym (flow_state-SameFlow r p q s))

    same : packet_state r p ≡ packet_state r q
    same =
        avalanche64-injective (packet_state r p) (packet_state r q) (packet_state-lt r p)
          (packet_state-lt r q) e

-- ===== src/Protocol/Peel.antt =====
-- include/chronosx/protocol.hpp: what `encode_message` writes, as a list: the header's bytes, the payload,
-- and the rest of the span.
use mathlib.Core.List.{append_assoc}
use chronos_x.Base.{
  ℕ, zero, suc, ◌≤◌, ◌≡◌, refl, sym, ap, ap₂, ◌∙◌, List, [], ◌∷◌, ◌++◌, arith, get_or, set, take,
  drop, length, length-append, u8, u32, bit_and, ◌>>◌,
}
use chronos_x.Protocol.Codec.{MessageHeader, write_header_without_crc, write_u32_be, copy_to}

-- The bytes of a field of four.
abbrev pub be32 : ℕ → List ℕ → List ℕ
be32 v rest =
    u8 (bit_and (v >> 24) 0xff)
    ∷ u8 (bit_and (v >> 16) 0xff)
    ∷ u8 (bit_and (v >> 8) 0xff)
    ∷ u8 (bit_and v 0xff)
    ∷ rest

abbrev pub be16 : ℕ → List ℕ → List ℕ
be16 v rest = u8 (bit_and (v >> 8) 0xff) ∷ u8 (bit_and v 0xff) ∷ rest

abbrev pub be64 : ℕ → List ℕ → List ℕ
be64 v rest = be32 (u32 (bit_and (v >> 32) 0xffffffff)) (be32 (u32 (bit_and v 0xffffffff)) rest)

-- The bytes of a header with a checksum, in front of a list.
unfoldable pub header_bytes : MessageHeader → ℕ → List ℕ → List ℕ
header_bytes h crc rest = be16 h.magic (
    h.version
    ∷ h.opcode
    ∷ be32 h.sequence (be32 h.payload_length (be32 crc (be64 h.timestamp_ns rest))))

module _ {ℓ} {A : Type ℓ} where
  -- The first `n` elements of an array, in front of the rest.
  abbrev peel : ℕ → A → List A → List A → List A
  peel zero d xs rest = rest
  peel (suc n) d xs rest = get_or xs 0 d ∷ peel n d (drop 1 xs) rest

  pub peel-drop : (n : ℕ) (d : A) (xs : List A) → n ≤ length xs → peel n d xs (drop n xs) ≡ xs
  peel-drop zero d xs h = refl
  peel-drop (suc n) d [] h = absurd (omega arith)
  peel-drop (suc n) d (x ∷ xs) h = ap (◌∷◌ x) (peel-drop n d xs (omega arith))

write_header_peel :
    (h : MessageHeader) (xs rest : List ℕ)
    → write_header_without_crc h (peel 24 0 xs rest) ≡ header_bytes h 0 rest
unfolding write_header_without_crc header_bytes
write_header_peel h xs rest = refl

pub write_header_lem :
    (h : MessageHeader) (output : List ℕ)
    → 24 ≤ length output
    → write_header_without_crc h output ≡ header_bytes h 0 (drop 24 output)
write_header_lem h output le =
    ap (write_header_without_crc h) (sym (peel-drop 24 0 output le))
    ∙ write_header_peel h output (drop 24 output)

pub write_crc_lem :
    (h : MessageHeader) (crc : ℕ) (rest : List ℕ)
    → write_u32_be (header_bytes h 0 rest) 12 crc ≡ header_bytes h crc rest
unfolding write_u32_be header_bytes
write_crc_lem h crc rest = refl

set-append :
    (pre rest : List ℕ) (y b : ℕ) → set (pre ++ y ∷ rest) (length pre) b ≡ (pre ++ b ∷ []) ++ rest
set-append [] rest y b = refl
set-append (x ∷ pre) rest y b = ap (◌∷◌ x) (set-append pre rest y b)

pub copy_to_lem :
    (pre rest payload : List ℕ)
    → length payload ≤ length rest
    → copy_to (pre ++ rest) (length pre) payload ≡ pre ++ (payload ++ drop (length payload) rest)
unfolding copy_to
copy_to_lem pre rest [] h = refl
copy_to_lem pre [] (b ∷ payload) h = absurd (omega arith)
copy_to_lem pre (y ∷ rest) (b ∷ payload) h =
    ap₂ (λ xs n. copy_to xs n payload) (set-append pre rest y b)
      (omega (arith, length-append pre (b ∷ [])))
    ∙ copy_to_lem (pre ++ b ∷ []) rest payload (omega arith)
    ∙ append_assoc pre (b ∷ []) (payload ++ drop (length payload) rest)

pub take_append : (xs ys : List ℕ) (n : ℕ) → n ≡ length xs → take n (xs ++ ys) ≡ xs
take_append [] ys zero e = refl
take_append [] ys (suc n) e = absurd (omega arith)
take_append (x ∷ xs) ys zero e = absurd (omega arith)
take_append (x ∷ xs) ys (suc n) e = ap (◌∷◌ x) (take_append xs ys n (omega arith))

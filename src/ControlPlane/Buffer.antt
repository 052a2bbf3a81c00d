-- ===== src/ControlPlane/Buffer.antt =====
-- include/chronosx/control_plane.hpp: ConnectionBuffer as the list of its readable bytes.
use mathlib.Core.List.{append_assoc}
use chronos_x.Base.{
  ℕ, zero, suc, ◌+◌, ◌-◌, ◌≤◌, ◌≡◌, refl, sym, ap, ap₂, ◌∙◌, List, [], ◌∷◌, ◌++◌, set, length-set,
  false, arith, ltb, leb, ◌!=◌, if◌then◌else◌, length, length-take, length-drop, length-append,
  take, drop, Bool-cases, inl, inr,
}
use chronos_x.Protocol.Codec.{copy_to}
use chronos_x.Protocol.Peel.{copy_to_lem, take_append}
use chronos_x.ControlPlane.{ConnectionBuffer, append, readable, consume}

-- The buffer's bytes fit it, and nothing was lost.
pub record Holds (b : ConnectionBuffer) (bytes : List ℕ) : Type 0 where
  pub bounded : b.write_pos ≤ length b.buffer
  pub clean : b.overflowed ≡ false
  pub content : readable b ≡ bytes

take-drop_append : (n : ℕ) (xs : List ℕ) → take n xs ++ drop n xs ≡ xs
take-drop_append zero xs = refl
take-drop_append (suc n) [] = refl
take-drop_append (suc n) (x ∷ xs) = ap (◌∷◌ x) (take-drop_append n xs)

take_beyond : (n : ℕ) (xs : List ℕ) → length xs ≤ n → take n xs ≡ xs
take_beyond zero [] h = refl
take_beyond zero (x ∷ xs) h = absurd (omega arith)
take_beyond (suc n) [] h = refl
take_beyond (suc n) (x ∷ xs) h = ap (◌∷◌ x) (take_beyond n xs (omega arith))

-- A copy behind the first `n` bytes of an array.
take-copy_to :
    (n : ℕ) (xs bytes : List ℕ)
    → n + length bytes ≤ length xs
    → take (n + length bytes) (copy_to xs n bytes) ≡ take n xs ++ bytes
take-copy_to n xs bytes h =
    ap (take (n + length bytes)) copied
    ∙ take_append (take n xs ++ bytes) rest (n + length bytes)
        (omega (arith, length-append (take n xs) bytes, length-take n xs))
  where
    rest : List ℕ
    rest = drop (length bytes) (drop n xs)

    n_first : length (take n xs) ≡ n
    n_first = omega (arith, length-take n xs)

    copied : copy_to xs n bytes ≡ (take n xs ++ bytes) ++ rest
    copied =
        ap₂ (λ ys k. copy_to ys k bytes) (sym (take-drop_append n xs)) (sym n_first)
        ∙ copy_to_lem (take n xs) (drop n xs) bytes (omega (arith, length-drop n xs))
        ∙ sym (append_assoc (take n xs) bytes rest)

length-copy_to : (xs : List ℕ) (n : ℕ) (bytes : List ℕ) → length (copy_to xs n bytes) ≡ length xs
unfolding copy_to
length-copy_to xs n [] = refl
length-copy_to xs n (b ∷ bytes) = length-copy_to (set xs n b) (suc n) bytes ∙ length-set xs n b

-- The bytes from `n` to `m`.
take-drop : (n m : ℕ) (xs : List ℕ) → take (m - n) (drop n xs) ≡ drop n (take m xs)
take-drop zero m xs = let e : m - 0 ≡ m = omega arith in ap (λ k. take k xs) e
take-drop (suc n) zero xs =
    let e : zero - suc n ≡ 0 = omega arith in ap (λ k. take k (drop (suc n) xs)) e
take-drop (suc n) (suc m) [] = take_beyond (suc m - suc n) [] (omega arith)
take-drop (suc n) (suc m) (x ∷ xs) =
    let e : suc m - suc n ≡ m - n = omega arith in ap (λ k. take k (drop n xs)) e ∙ take-drop n m xs

drop_append : (xs ys : List ℕ) → drop (length xs) (xs ++ ys) ≡ ys
drop_append [] ys = refl
drop_append (x ∷ xs) ys = drop_append xs ys

empty_lem : (xs : List ℕ) → length xs ≡ 0 → xs ≡ []
empty_lem [] h = refl
empty_lem (x ∷ xs) h = absurd (omega arith)

!=_self : (n : ℕ) → (n != n) ≡ false
!=_self n = ground arith

pub write_pos-length :
    (b : ConnectionBuffer) (bytes : List ℕ) → Holds b bytes → b.write_pos ≡ length bytes
write_pos-length b bytes h =
    omega (arith, length-take b.write_pos b.buffer, h.bounded) ∙ ap length h.content

-- Bytes with room for them are appended, all of them.
pub append-Holds :
    (b : ConnectionBuffer) (bytes data' : List ℕ)
    → Holds b bytes
    → length bytes + length data' ≤ length b.buffer
    → ((append b data').0 ≡ length data')
      × Holds (append b data').1 (bytes ++ data')
      × (length (append b data').1.buffer ≡ length b.buffer)
unfolding append
append-Holds b bytes data' h room =
    rw (fits, take_beyond (length data') data' (omega arith), h.clean, !=_self (length data'))
      (
        refl,
        record {
          bounded = omega (arith, at_end, length-copy_to b.buffer b.write_pos data');
          clean = refl;
          content =
              take-copy_to b.write_pos b.buffer data' (omega (arith, at_end))
              ∙ ap (λ xs. xs ++ data') h.content;
        },
        length-copy_to b.buffer b.write_pos data',
      )
  where
    at_end : b.write_pos ≡ length bytes
    at_end = write_pos-length b bytes h

    fits :
        (if ltb (length data') (length b.buffer - b.write_pos)
          then length data'
          else length b.buffer - b.write_pos)
        ≡ length data'
    fits = ground (arith, at_end)

-- Consuming the first of the bytes leaves the others.
pub consume-Holds :
    (b : ConnectionBuffer) (xs ys : List ℕ)
    → Holds b (xs ++ ys)
    → Holds (consume b (length xs)) ys × (length (consume b (length xs)).buffer ≡ length b.buffer)
unfolding consume
consume-Holds b xs ys h = elim (Bool-cases (leb b.write_pos (length xs))) [
  | inl all ↦ rw all (
    record {
      bounded = omega arith;
      clean = h.clean;
      content = sym (empty_lem ys (ground (arith, at_end)));
    },
    refl,
  )
  | inr part ↦ rw part (
    record {
      bounded = omega (arith, h.bounded, length-copy_to b.buffer 0 rest);
      clean = h.clean;
      content =
          ap (λ n. take n (copy_to b.buffer 0 rest)) (sym length-rest)
          ∙ take-copy_to 0 b.buffer rest (omega (arith, length-rest, h.bounded))
          ∙ take-drop (length xs) b.write_pos b.buffer
          ∙ ap (drop (length xs)) h.content
          ∙ drop_append xs ys;
    },
    length-copy_to b.buffer 0 rest,
  )
]
  where
    at_end : b.write_pos ≡ length xs + length ys
    at_end = write_pos-length b (xs ++ ys) h ∙ length-append xs ys

    rest : List ℕ
    rest = take (b.write_pos - length xs) (drop (length xs) b.buffer)

    length-rest : 0 + length rest ≡ b.write_pos - length xs
    length-rest = omega (
      arith,
      length-take (b.write_pos - length xs) (drop (length xs) b.buffer),
      length-drop (length xs) b.buffer,
      h.bounded,
    )

-- ===== src/ControlPlane/Messages.antt =====
-- include/chronosx/control_plane.hpp: where messages end in a stream of bytes, and what the buffer's
-- tests say of it.
use mathlib.Core.List.{append_assoc}
use chronos_x.Base.{
  ℕ, zero, suc, ◌+◌, ◌≤◌, ◌<◌, ◌≡◌, refl, sym, ap, ap₂, ◌∙◌, ◌⊎◌, inl, inr, List, [], ◌∷◌, ◌++◌,
  All, true, false, arith, dec_lt, length, length-append, drop, get_or,
}
use chronos_x.Protocol.Codec.{read_u32_be}
use chronos_x.ControlPlane.{ConnectionBuffer, has_complete_message, next_message_length}
use chronos_x.ControlPlane.Buffer.{Holds, write_pos-length}

-- As long as its length field says, and within half of the read buffer.
pub record IsMessage (m : List ℕ) : Type 0 where
  pub header : 24 ≤ length m
  pub whole : length m ≡ 24 + read_u32_be m 8
  pub small : length m ≤ 4096

abbrev pub concat : List (List ℕ) → List ℕ
concat [] = []
concat (xs ∷ xss) = xs ++ concat xss

-- Bytes that end before the message does that they begin with.
pub IsPartial : List ℕ → Type 0
IsPartial p = (length p < 24) ⊎ ((length p < 24 + read_u32_be p 8) × (read_u32_be p 8 ≤ 65536))

get_or-append : (xs ys : List ℕ) (i : ℕ) → i < length xs → get_or (xs ++ ys) i 0 ≡ get_or xs i 0
get_or-append [] ys i h = absurd (omega arith)
get_or-append (x ∷ xs) ys zero h = refl
get_or-append (x ∷ xs) ys (suc i) h = get_or-append xs ys i (omega arith)

-- The length field of bytes that hold the header.
read_u32_be-append : (xs ys : List ℕ) → 24 ≤ length xs → read_u32_be (xs ++ ys) 8 ≡ read_u32_be xs 8
unfolding read_u32_be
read_u32_be-append xs ys h =
    rw
      (
        get_or-append xs ys 8 (omega arith),
        get_or-append xs ys 9 (omega arith),
        get_or-append xs ys 10 (omega arith),
        get_or-append xs ys 11 (omega arith),
      )
      refl

pub message_first :
    (b : ConnectionBuffer) (m rest : List ℕ)
    → Holds b (m ++ rest)
    → IsMessage m
    → (has_complete_message b ≡ true) × (next_message_length b ≡ length m)
unfolding has_complete_message next_message_length
message_first b m rest h i = ground (
  arith,
  write_pos-length b (m ++ rest) h,
  length-append m rest,
  ap (λ xs. read_u32_be xs 8) h.content,
  read_u32_be-append m rest i.header,
  i.whole,
  i.small,
  i.header,
)

pub partial_first :
    (b : ConnectionBuffer) (p : List ℕ) → Holds b p → IsPartial p → has_complete_message b ≡ false
unfolding has_complete_message IsPartial
partial_first b p h i =
    ground (arith, write_pos-length b p h, ap (λ xs. read_u32_be xs 8) h.content, i)

-- Bytes that are shorter than the first of the messages; none, where there is no message.
unfoldable pub Shorter : List ℕ → List (List ℕ) → Type 0
Shorter q [] = q ≡ []
Shorter q (m ∷ ms) = length q < length m

-- A list at least as long as the first part of what it begins begins with that part.
begins_with :
    (xs ys m zs : List ℕ)
    → length m ≤ length xs
    → xs ++ ys ≡ m ++ zs
    → (xs' : List ℕ) × (xs ≡ m ++ xs') × (xs' ++ ys ≡ zs)
begins_with xs ys [] zs h e = (xs, refl, e)
begins_with [] ys (m ∷ ms) zs h e = absurd (omega arith)
begins_with (x ∷ xs) ys (m ∷ ms) zs h e =
    let (xs', p, q) = begins_with xs ys ms zs (omega arith) (ap (drop 1) e) in
    (xs', ap₂ ◌∷◌ (ap (λ l. get_or l 0 x) e) p, q)

no_bytes : (xs ys : List ℕ) → xs ++ ys ≡ [] → xs ≡ []
no_bytes [] ys e = refl
no_bytes (x ∷ xs) ys e = absurd (omega (arith, ap length e))

-- The messages that the bytes `xs` hold in full, those they do not, and the bytes left over.
pub record Split (xs ys : List ℕ) (ms : List (List ℕ)) : Type 0 where
  pub passed : List (List ℕ)
  pub ahead : List (List ℕ)
  pub left : List ℕ
  pub all : ms ≡ passed ++ ahead
  pub first : xs ≡ concat passed ++ left
  pub last : left ++ ys ≡ concat ahead
  pub shorter : Shorter left ahead

pub messages_within : (xs ys : List ℕ) (ms : List (List ℕ)) → xs ++ ys ≡ concat ms → Split xs ys ms
unfolding Shorter
messages_within xs ys [] e = record {
  passed = [];
  ahead = [];
  left = xs;
  all = refl;
  first = refl;
  last = e;
  shorter = no_bytes xs ys e;
}
messages_within xs ys (m ∷ ms) e = elim (dec_lt (length xs) (length m)) [
  | yes lt ↦ record {
    passed = [];
    ahead = m ∷ ms;
    left = xs;
    all = refl;
    first = refl;
    last = e;
    shorter = lt;
  }
  | no ge ↦
      let (xs', p, q) = begins_with xs ys m (concat ms) (omega (arith, ge)) e in
      let s = messages_within xs' ys ms q in
      record {
        passed = m ∷ s.passed;
        ahead = s.ahead;
        left = s.left;
        all = ap (λ l. m ∷ l) s.all;
        first = p ∙ ap (λ l. m ++ l) s.first ∙ sym (append_assoc m (concat s.passed) s.left);
        last = s.last;
        shorter = s.shorter;
      }
]

same_length :
    (q ys m zs : List ℕ)
    → 24 ≤ length q
    → 24 ≤ length m
    → q ++ ys ≡ m ++ zs
    → read_u32_be q 8 ≡ read_u32_be m 8
same_length q ys m zs p r e =
    sym (read_u32_be-append q ys p) ∙ ap (λ xs. read_u32_be xs 8) e ∙ read_u32_be-append m zs r

-- Bytes shorter than the first of the messages that they begin are partial.
pub Shorter-IsPartial :
    (q ys : List ℕ) (ms : List (List ℕ))
    → All IsMessage ms
    → q ++ ys ≡ concat ms
    → Shorter q ms
    → IsPartial q
unfolding Shorter IsPartial
Shorter-IsPartial q ys [] i e h = inl (omega (arith, ap length h))
Shorter-IsPartial q ys (m ∷ ms) i e h = elim (dec_lt (length q) 24) [
  | yes lt ↦ inl lt
  | no ge ↦
      let same = same_length q ys m (concat ms) (omega (arith, ge)) i.0.header e in
      inr (omega (arith, same, i.0.whole), omega (arith, same, i.0.whole, i.0.small))
]

-- ===== src/ControlPlane/Connection.antt =====
-- include/chronosx/control_plane.hpp: the connection of a client at its slot, with what its buffer holds.
use mathlib.Core.Path.{subst}
use mathlib.Core.Bool.{true≢false}
use chronos_x.Base.{
  ℕ, zero, suc, ◌+◌, ◌≤◌, ◌<◌, ◌≡◌, refl, sym, ap, ◌∙◌, List, [], ◌∷◌, ◌++◌, All, Bool, true, false,
  some, arith, if◌then◌else◌, length, length-append, length-set, get_or, set, get_or-set_self, u64,
}
use chronos_x.ControlPlane.{ControlPlaneCore, ConnectionBuffer, new_buffer}
use chronos_x.ControlPlane.Buffer.{Holds, write_pos-length}
use chronos_x.ControlPlane.Messages.{IsMessage, concat, Shorter}
use chronos_x.ControlPlane.Server.{ControlPlaneServer, find_slot}
use chronos_x.ControlPlane.Clients.{served_at}
use chronos_x.ControlPlane.Loop.{count_after, length-concat}

-- The connection of a descriptor, at its slot, with a buffer that holds some bytes.
pub record Connected (s : ControlPlaneServer) (fd slot : ℕ) (bytes : List ℕ) : Type 0 where
  pub found : find_slot s fd ≡ slot
  pub counted : slot < s.connection_count
  pub stored : slot < length s.buffers
  pub size : length (get_or s.buffers slot new_buffer).buffer ≡ 8192
  pub holds : Holds (get_or s.buffers slot new_buffer) bytes

-- The server after it served messages of one connection, with the connection's buffer.
abbrev pub served_server :
    ControlPlaneServer → ℕ → ConnectionBuffer → ControlPlaneCore → ℕ → ControlPlaneServer
served_server s slot b core handled = record s {
  core = core;
  buffers = set s.buffers slot b;
  messages_handled = handled;
}

pub set-set :
    (xs : List ConnectionBuffer) (i : ℕ) (a b : ConnectionBuffer)
    → set (set xs i a) i b ≡ set xs i b
set-set [] i a b = refl
set-set (x ∷ xs) zero a b = refl
set-set (x ∷ xs) (suc i) a b = ap (◌∷◌ x) (set-set xs i a b)

pub set-get_or :
    (xs : List ConnectionBuffer) (i : ℕ) (d : ConnectionBuffer) → set xs i (get_or xs i d) ≡ xs
set-get_or [] i d = refl
set-get_or (x ∷ xs) zero d = refl
set-get_or (x ∷ xs) (suc i) d = ap (◌∷◌ x) (set-get_or xs i d)

-- Nothing is left over where the stream ends with the last message.
pub no_message :
    (q : List ℕ) (ms : List (List ℕ))
    → All IsMessage ms
    → q ++ [] ≡ concat ms
    → Shorter q ms
    → (q ≡ []) × (ms ≡ [])
unfolding Shorter
no_message q [] is e h = (h, refl)
no_message q (m ∷ ms) is e h =
    absurd (omega (arith, ap length e, length-append q [], length-append m (concat ms), h))

pub Shorter-small :
    (q : List ℕ) (ms : List (List ℕ)) → All IsMessage ms → Shorter q ms → length q ≤ 4096
unfolding Shorter
Shorter-small q [] is h = omega (arith, ap length h)
Shorter-small q (m ∷ ms) is h = omega (arith, h, is.0.small)

pub All-split :
    (xs ys : List (List ℕ)) → All IsMessage (xs ++ ys) → All IsMessage xs × All IsMessage ys
All-split [] ys is = (tt, is)
All-split (x ∷ xs) ys is = let (p, q) = All-split xs ys is.1 in ((is.0, p), q)

pub count_after-append :
    (xs ys : List (List ℕ)) (n : ℕ)
    → count_after (length ys) (count_after (length xs) n) ≡ count_after (length (xs ++ ys)) n
unfolding count_after
count_after-append [] ys n = refl
count_after-append (x ∷ xs) ys n = count_after-append xs ys (u64 (n + 1))

pub if_false : {A : Type 0} (t : Bool) (a b : A) → t ≡ false → (if t then a else b) ≡ b
if_false true a b h = absurd (true≢false h)
if_false false a b h = refl

pub served_at_lem :
    (s : ControlPlaneServer) (slot : ℕ) (b b' : ConnectionBuffer) (core : ControlPlaneCore)
    (handled : ℕ)
    → served_at
        (record s { buffers = set s.buffers slot b })
        slot
        (some (record { core = core; buffer = b'; messages_handled = handled; kept = true }))
      ≡ some (served_server s slot b' core handled)
unfolding served_at
served_at_lem s slot b b' core handled =
    ap (λ bs. some (record s { core = core; buffers = bs; messages_handled = handled }))
      (set-set s.buffers slot b b')

-- What a read returns: at most the 4096 bytes it asks for.
abbrev pub IsRead : List ℕ → Type 0
IsRead data' = length data' ≤ 4096

pub Connected-served_server :
    (s : ControlPlaneServer) (fd slot : ℕ) (p : List ℕ) (b : ConnectionBuffer) (q : List ℕ)
    (core : ControlPlaneCore) (handled : ℕ)
    → Connected s fd slot p
    → Holds b q
    → length b.buffer ≡ 8192
    → Connected (served_server s slot b core handled) fd slot q
unfolding find_slot
Connected-served_server s fd slot p b q core handled c h size = record {
  found = c.found;
  counted = c.counted;
  stored = omega (arith, length-set s.buffers slot b, c.stored);
  size = ap (λ x. length x.buffer) at_slot ∙ size;
  holds = subst (λ x. Holds x q) (sym at_slot) h;
}
  where
    at_slot : get_or (set s.buffers slot b) slot new_buffer ≡ b
    at_slot = get_or-set_self s.buffers slot b new_buffer c.stored

-- The fuel of the loop is enough for the messages in the buffer.
pub enough :
    (b : ConnectionBuffer) (ms : List (List ℕ)) (p : List ℕ)
    → All IsMessage ms
    → Holds b (concat ms ++ p)
    → length ms < suc b.write_pos
enough b ms p is h =
    omega (
      arith,
      length-concat ms is,
      write_pos-length b (concat ms ++ p) h,
      length-append (concat ms) p,
    )

pub nothing_left : (ms : List (List ℕ)) → All IsMessage ms → Shorter [] ms
unfolding Shorter
nothing_left [] is = refl
nothing_left (m ∷ ms) is = omega (arith, is.0.header)

-- ===== src/Window.antt =====
-- What a ring with a power-of-two capacity holds: `n` slots from a running index on, each index
-- reduced by the capacity. Shared by the SPSC queue and the AF_XDP rings.
use native.Mathlib.Nat.{mod-add-mod, mod-eq_of_lt, mod-eq-sub-mod, mod-lt, add-zero, suc-mod}
use chronos_x.Base.{
  ℕ, zero, suc, ◌+◌, ◌-◌, ◌%◌, ◌≤◌, ◌<◌, ◌≡◌, ◌≢◌, refl, sym, ap, ap₂, ◌∙◌, List, [], ◌∷◌, ◌++◌,
  arith, dec_lt, length, get_or, set, get_or-set_self, get_or-set_ne,
}

-- Fewer than `cap` steps round the ring do not come back to the start.
pub add-mod-ne : (cap h j : ℕ) → 0 < j → j < cap → (h + j) % cap ≢ h % cap
add-mod-ne cap h j p q =
    λ e. absurd (apart (h % cap) (mod-lt h (omega arith)) (mod-add-mod h cap j ∙ e))
  where
    apart : (r : ℕ) → r < cap → (r + j) % cap ≡ r → ⊥
    apart r lt e = elim (dec_lt (r + j) cap) [
      | yes s ↦ omega (arith, mod-eq_of_lt s)
      | no s ↦ omega (
        arith,
        mod-eq-sub-mod {n = r + j} {m = cap} (omega arith),
        mod-eq_of_lt {n = r + j - cap} {m = cap} (omega arith),
      )
    ]

module _ {ℓ} {A : Type ℓ} (d : A) where
  abbrev pub window : List A → ℕ → ℕ → ℕ → List A
  window buf cap h zero = []
  window buf cap h (suc n) = get_or buf (h % cap) d ∷ window buf cap (suc h) n

  pub length-window : (buf : List A) (cap h n : ℕ) → length (window buf cap h n) ≡ n
  length-window buf cap h zero = refl
  length-window buf cap h (suc n) = ap suc (length-window buf cap (suc h) n)

  -- `window` matches on `suc`, the code tests for 0.
  pub window_of_ne_zero :
      (buf : List A) (cap h n : ℕ)
      → n ≢ 0
      → window buf cap h n ≡ get_or buf (h % cap) d ∷ window buf cap (suc h) (n - 1)
  window_of_ne_zero buf cap h zero p = absurd (p refl)
  window_of_ne_zero buf cap h (suc n) p = ap (λ k. window buf cap h (suc k)) (omega arith)

  -- Only the remainder of the start counts.
  pub window_cong :
      (buf : List A) (cap h h' n : ℕ)
      → h % cap ≡ h' % cap
      → window buf cap h n ≡ window buf cap h' n
  window_cong buf cap h h' zero e = refl
  window_cong buf cap h h' (suc n) e = ap₂ ◌∷◌ (ap (λ i. get_or buf i d) e) (
      window_cong buf cap (suc h) (suc h') n
        (suc-mod h cap ∙ ap (λ t. suc t % cap) e ∙ sym (suc-mod h' cap)))

  -- A write `m` slots after the start leaves the slots before it.
  pub window-set :
      (buf : List A) (cap h n m i : ℕ) (v : A)
      → n ≤ m
      → m < cap
      → i ≡ (h + m) % cap
      → window (set buf i v) cap h n ≡ window buf cap h n
  window-set buf cap h zero m i v p q e = refl
  window-set buf cap h (suc n) m i v p q e =
      ap₂ ◌∷◌
        (get_or-set_ne buf i (h % cap) v d
          (λ same. add-mod-ne cap h m (omega arith) q (sym e ∙ same)))
        (window-set buf cap (suc h) n (m - 1) i v (omega arith) (omega arith)
          (e ∙ ap (λ t. t % cap) (omega arith)))

  -- The last slot of a window.
  pub window_last :
      (buf : List A) (cap h n : ℕ)
      → window buf cap h (suc n) ≡ window buf cap h n ++ get_or buf ((h + n) % cap) d ∷ []
  window_last buf cap h zero = ap (λ t. get_or buf (t % cap) d ∷ []) (sym (add-zero h))
  window_last buf cap h (suc n) = ap (◌∷◌ (get_or buf (h % cap) d)) (
      window_last buf cap (suc h) n
      ∙ ap (λ t. window buf cap (suc h) n ++ get_or buf (t % cap) d ∷ []) (omega arith))

  -- Writing just past a window extends it by that value.
  pub window-set_last :
      (buf : List A) (cap h n i : ℕ) (v : A)
      → n < cap
      → cap ≤ length buf
      → i ≡ (h + n) % cap
      → window (set buf i v) cap h (suc n) ≡ window buf cap h n ++ v ∷ []
  window-set_last buf cap h n i v p s e =
      window_last (set buf i v) cap h n
      ∙ ap₂ (λ w x. w ++ x ∷ []) (window-set buf cap h n n i v (omega arith) p e)
          (ap (λ j. get_or (set buf i v) j d) (sym e)
            ∙ get_or-set_self buf i v d
                (rw e (omega (arith, mod-lt (h + n) {m = cap} (omega arith)))))

-- ===== src/Tui/Rolling.antt =====
-- include/chronosx/tui.hpp: a sparkline shows the values that were pushed last, oldest first.
use mathlib.Core.List.{append_assoc, append-nil, Memᴰ}
use mathlib.Core.Path.{subst}
use mathlib.Core.Bool.{true≢false}
use chronos_x.Base.{
  ℕ, zero, suc, ◌+◌, ◌-◌, ◌%◌, ◌<◌, ◌≤◌, ◌≡◌, ◌≢◌, refl, sym, ap, ◌∙◌, min, Bool, true, false, All,
  List, [], ◌∷◌, ◌++◌, arith, leb, ◌==◌, if◌then◌else◌, length, length-append, length-set,
  length-replicate, get_or, get_or-set_self, get_or-set_ne, get_or_beyond, length-drop, set, drop,
  u64_mod, ℕ_discrete, Bool-cases, inl, inr,
}
use chronos_x.Tui.{
  Sparkline, sparkline_window_size, new_sparkline, push, at, latest, max_loop, max_value,
}

-- The last values of a list, at most as many as the window holds.
abbrev pub shown {ℓ} : {A : Type ℓ} → List A → List A
shown values = drop (length values - sparkline_window_size) values

module _ {ℓ} {A : Type ℓ} (z : A) where
  unfoldable pub push_all : Sparkline A → List A → Sparkline A
  push_all s [] = s
  push_all s (value ∷ values) = push_all (push z s value) values

  -- The sparkline behind a history of values.
  record Holds (history : List A) (s : Sparkline A) : Type ℓ where
    size : length s.values ≡ 60
    few : length history < u64_mod
    position : s.write_pos ≡ length history
    counted : s.count ≡ min (length history) 60
    held :
        (k : ℕ)
        → k < length history
        → length history ≤ k + 60
        → get_or s.values (k % 60) z ≡ get_or history k z

  earlier :
      (xs : List A) (x : A) (k : ℕ) → k < length xs → get_or (xs ++ x ∷ []) k z ≡ get_or xs k z
  earlier [] x k h = absurd (omega (arith, h))
  earlier (y ∷ xs) x zero h = refl
  earlier (y ∷ xs) x (suc k) h = earlier xs x k (omega (arith, h))

  last : (xs : List A) (x : A) → get_or (xs ++ x ∷ []) (length xs) z ≡ x
  last [] x = refl
  last (y ∷ xs) x = last xs x

  get_or-drop : (n : ℕ) (xs : List A) (i : ℕ) → get_or (drop n xs) i z ≡ get_or xs (n + i) z
  get_or-drop zero xs i = ap (λ k. get_or xs k z) (omega arith)
  get_or-drop (suc n) [] i = refl
  get_or-drop (suc n) (x ∷ xs) i =
      get_or-drop n xs i
      ∙ ap (λ k. get_or (x ∷ xs) k z) (let e : suc (n + i) ≡ suc n + i = omega arith in e)

  push-Holds :
      (history : List A) (s : Sparkline A) (value : A)
      → length history + 1 < u64_mod
      → Holds history s
      → Holds (history ++ value ∷ []) (push z s value)
  unfolding push
  push-Holds history s value few h = record {
    size = length-set s.values _ _ ∙ h.size;
    few = omega (arith, few, length-append history (value ∷ []));
    position = omega (arith, few, h.position, length-append history (value ∷ []));
    counted = ground (arith, h.counted, length-append history (value ∷ []));
    held = λ k lt recent. held_next k lt recent;
  }
    where
      n : ℕ
      n = length history

      grown : length (history ++ value ∷ []) ≡ n + 1
      grown = length-append history (value ∷ [])

      slot : s.write_pos % sparkline_window_size ≡ n % 60
      slot = ap (λ (m : ℕ). m % 60) h.position

      held_next :
          (k : ℕ)
          → k < length (history ++ value ∷ [])
          → length (history ++ value ∷ []) ≤ k + 60
          → get_or (set s.values (s.write_pos % sparkline_window_size) value) (k % 60) z
            ≡ get_or (history ++ value ∷ []) k z
      held_next k lt recent = rw slot (elim (ℕ_discrete k n) [
        | yes e ↦ rw e (
            get_or-set_self s.values (n % 60) value z (omega (arith, h.size))
            ∙ sym (last history value))
        | no ne ↦
            get_or-set_ne s.values (n % 60) (k % 60) value z
              (λ e. omega (arith, e, ne, lt, recent, grown))
            ∙ h.held k (omega (arith, lt, ne, grown)) (omega (arith, recent, grown))
            ∙ sym (earlier history value k (omega (arith, lt, ne, grown)))
      ])

  push_all-Holds :
      (history : List A) (s : Sparkline A) (values : List A)
      → length history + length values < u64_mod
      → Holds history s
      → Holds (history ++ values) (push_all s values)
  unfolding push_all
  push_all-Holds history s [] few h = rw (append-nil history) h
  push_all-Holds history s (value ∷ values) few h =
      rw⁻¹ (append_assoc history (value ∷ []) values) (
        push_all-Holds (history ++ value ∷ []) (push z s value) values
          (omega (arith, few, length-append history (value ∷ [])))
          (push-Holds history s value (omega (arith, few)) h))

  -- The greatest of some values, as `max_value` compares them.
  unfoldable pub max_of : (A → A → Bool) → A → List A → A
  max_of greater best [] = best
  max_of greater best (value ∷ values) =
      max_of greater (if greater value best then value else best) values

  -- A comparison as `>` is on numbers: a strict order in which being incomparable is transitive.
  pub record IsGreaterThan (greater : A → A → Bool) : Type ℓ where
    pub irreflexive : (x : A) → greater x x ≡ false
    pub transitive : (x y w : A) → greater x y ≡ true → greater y w ≡ true → greater x w ≡ true
    pub negative : (x y w : A) → greater x y ≡ false → greater y w ≡ false → greater x w ≡ false

  -- One of some values, with none of them greater.
  pub record IsGreatest (greater : A → A → Bool) (values : List A) (m : A) : Type ℓ where
    pub one_of : Memᴰ m values
    pub none_greater : All (λ x. greater x m ≡ false) values

  pub record Shows (greater : A → A → Bool) (values : List A) (s : Sparkline A) : Type ℓ where
    pub size : s.count ≡ length values
    pub items : (index : ℕ) → at z s index ≡ get_or values index z
    pub newest : latest z s ≡ get_or values (length values - 1) z
    pub greatest : IsGreatest greater (z ∷ values) (max_value z greater s)

  -- What the value found is not below, neither is a value that was passed for it.
  below :
      {greater : A → A → Bool} {best value m : A}
      → IsGreaterThan greater
      → greater value best ≡ true
      → greater value m ≡ false
      → greater best m ≡ false
  below {greater} {best} {value} {m} o up under = elim (Bool-cases (greater best m)) [
    | inl over ↦ absurd (true≢false (sym (o.transitive value best m up over) ∙ under))
    | inr e ↦ e
  ]

  kept :
      {m best value : A} {values : List A} → Memᴰ m (best ∷ values) → Memᴰ m (best ∷ value ∷ values)
  kept (Memᴰ.head e) = Memᴰ.head e
  kept (Memᴰ.tail i) = Memᴰ.tail (Memᴰ.tail i)

  max_of-IsGreatest :
      (greater : A → A → Bool) (best : A) (values : List A)
      → IsGreaterThan greater
      → IsGreatest greater (best ∷ values) (max_of greater best values)
  unfolding max_of
  max_of-IsGreatest greater best [] o = record {
    one_of = Memᴰ.head refl;
    none_greater = (o.irreflexive best, tt);
  }
  max_of-IsGreatest greater best (value ∷ values) o = elim (Bool-cases (greater value best)) [
    | inl up ↦
        let rest = max_of-IsGreatest greater value values o in
        rw up (record {
          one_of = Memᴰ.tail rest.one_of;
          none_greater = (below o up rest.none_greater.0, rest.none_greater);
        })
    | inr stay ↦
        let rest = max_of-IsGreatest greater best values o in
        rw stay (record {
          one_of = kept rest.one_of;
          none_greater = (
            rest.none_greater.0,
            (o.negative value best _ stay rest.none_greater.0, rest.none_greater.1),
          );
        })
  ]

  length-shown :
      (history : List A) (s : Sparkline A) → Holds history s → s.count ≡ length (shown history)
  length-shown history s h =
      omega (arith, h.counted, length-drop (length history - sparkline_window_size) history)

  at-shown :
      (history : List A) (s : Sparkline A)
      → Holds history s
      → (index : ℕ) → at z s index ≡ get_or (shown history) index z
  unfolding at
  at-shown history s h index = elim (Bool-cases (leb s.count index)) [
    | inl beyond ↦ rw beyond (
        sym (
          get_or_beyond (shown history) index z (ground (arith, beyond, length-shown history s h))))
    | inr within ↦
        rw (within, started)
          (ap (λ (m : ℕ). get_or s.values (m % 60) z) position
            ∙ h.held k (ground (arith, within, h.counted)) (ground (arith, within, h.counted))
            ∙ sym (get_or-drop (length history - 60) history index))
  ]
    where
      k : ℕ
      k = length history - 60 + index

      started : leb s.count s.write_pos ≡ true
      started = ground (arith, h.counted, h.position)

      position : s.write_pos - s.count + index ≡ k
      position = omega (arith, h.counted, h.position)

  latest-shown :
      (history : List A) (s : Sparkline A)
      → Holds history s
      → latest z s ≡ get_or (shown history) (length (shown history) - 1) z
  unfolding latest
  latest-shown history s h = elim (Bool-cases (s.count == 0)) [
    | inl none_yet ↦ rw none_yet (
        sym
          (get_or_beyond (shown history) _ z (ground (arith, none_yet, length-shown history s h))))
    | inr some_yet ↦
        let some_left : s.count ≢ 0 = ground (arith, some_yet) in
        let k : ℕ = length history - 60 + (length (shown history) - 1) in
        let shown_size = length-shown history s h in
        rw some_yet (
          ap (λ (m : ℕ). get_or s.values (m % 60) z)
            (let e : s.write_pos - 1 ≡ k =
                omega (arith, some_left, shown_size, h.counted, h.position) in
              e)
          ∙ h.held k (omega (arith, some_left, shown_size, h.counted))
              (omega (arith, some_left, shown_size, h.counted))
          ∙ sym (get_or-drop (length history - 60) history _))
  ]

  max_loop_lem :
      (greater : A → A → Bool) (s : Sparkline A) (values : List A) (index : ℕ) (best : A)
      → ((i : ℕ) → at z s (index + i) ≡ get_or values i z)
      → max_loop z greater s (length values) index best ≡ max_of greater best values
  unfolding max_loop max_of
  max_loop_lem greater s [] index best e = refl
  max_loop_lem greater s (value ∷ values) index best e =
      let first : at z s index ≡ value =
        ap (at z s) (let d : index ≡ index + 0 = omega arith in d) ∙ e 0 in
      rw (first, max_loop)
        (max_loop_lem greater s values (suc index) (if greater value best then value else best)
          (λ i. ap (at z s) (let d : suc index + i ≡ index + suc i = omega arith in d) ∙ e (suc i)))

  new_sparkline-Holds : Holds [] (new_sparkline z)
  new_sparkline-Holds = record {
    size = length-replicate 60 z;
    few = omega arith;
    position = refl;
    counted = omega arith;
    held = λ k lt recent. absurd (omega (arith, lt));
  }

  -- Behind fewer than 2 ^ 64 calls of push on a new sparkline: its size, its values by index and its
  -- latest value are those of the list of the last 60 values pushed, oldest first, and an index
  -- outside that list gives the zero. Under a comparison as `>` is on numbers, `max_value` is one of those values or
  -- the zero, and none of them, and not the zero, is greater.
  pub push_all-Shows :
      (greater : A → A → Bool) (values : List A)
      → IsGreaterThan greater
      → length values < u64_mod
      → Shows greater (shown values) (push_all (new_sparkline z) values)
  unfolding max_value
  push_all-Shows greater values order few =
      let s = push_all (new_sparkline z) values in
      let h : Holds values s =
        push_all-Holds [] (new_sparkline z) values (omega (arith, few)) new_sparkline-Holds in
      record {
        size = length-shown values s h;
        items = at-shown values s h;
        newest = latest-shown values s h;
        greatest =
            subst (IsGreatest greater (z ∷ shown values)) (sym (same s h))
              (max_of-IsGreatest greater z (shown values) order);
      }
    where
      same :
          (s : Sparkline A)
          → Holds values s
          → max_value z greater s ≡ max_of greater z (shown values)
      same s h =
          ap (λ n. max_loop z greater s n 0 z) (length-shown values s h)
          ∙ max_loop_lem greater s (shown values) 0 z
              (λ i. ap (at z s) (let d : 0 + i ≡ i = omega arith in d) ∙ at-shown values s h i)

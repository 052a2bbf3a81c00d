-- ===== src/Tui/Summary.antt =====
-- include/chronosx/tui.hpp: the histogram as a summary of the latencies that it recorded.
use chronos_x.Base.{
  ℕ, zero, suc, ◌+◌, ◌*◌, ◌^◌, ◌<◌, ◌≤◌, ◌≡◌, refl, ◌∙◌, add64, min, Bool, ◌&&◌, ◌||◌, List, [],
  ◌∷◌, arith, ltb, leb, ◌==◌, if◌then◌else◌, length, length-set, get_or, get_or-set,
  get_or-replicate, u64, u64_mod,
}
use chronos_x.Tui.{LatencyHistogram, new_histogram, bucket_for, record_latency, bucket_count}

-- Bucket 0 ends at a microsecond, and each of the next ends at ten times the end before it.
unfoldable pub lower_bound : ℕ → ℕ
lower_bound zero = 0
lower_bound (suc b) = 1000 * 10 ^ b

unfoldable pub in_bucket : ℕ → ℕ → Bool
unfolding lower_bound
in_bucket b ns = leb b 7 && leb (lower_bound b) ns && (b == 7 || ltb ns (lower_bound (suc b)))

bucket_for_lem : (b ns : ℕ) → (bucket_for ns == b) ≡ in_bucket b ns
unfolding bucket_for in_bucket
bucket_for_lem zero ns = ground arith
bucket_for_lem (suc zero) ns = ground arith
bucket_for_lem (suc (suc zero)) ns = ground arith
bucket_for_lem (suc (suc (suc zero))) ns = ground arith
bucket_for_lem (suc (suc (suc (suc zero)))) ns = ground arith
bucket_for_lem (suc (suc (suc (suc (suc zero))))) ns = ground arith
bucket_for_lem (suc (suc (suc (suc (suc (suc zero)))))) ns = ground arith
bucket_for_lem (suc (suc (suc (suc (suc (suc (suc zero))))))) ns = ground arith
bucket_for_lem (suc (suc (suc (suc (suc (suc (suc (suc b)))))))) ns = ground arith

bucket_for-lt : (ns : ℕ) → bucket_for ns < 16
unfolding bucket_for
bucket_for-lt ns = ground arith

unfoldable pub tally : ℕ → List ℕ → ℕ
tally b [] = 0
tally b (x ∷ xs) = (if in_bucket b x then 1 else 0) + tally b xs

tally_le : (b : ℕ) (xs : List ℕ) → tally b xs ≤ length xs
unfolding tally
tally_le b [] = omega arith
tally_le b (x ∷ xs) = ground (arith, tally_le b xs)

unfoldable pub sum : List ℕ → ℕ
sum [] = 0
sum (x ∷ xs) = x + sum xs

unfoldable pub minimum : List ℕ → ℕ
minimum [] = 0
minimum (x ∷ []) = x
minimum (x ∷ y ∷ xs) = min x (minimum (y ∷ xs))

unfoldable pub maximum : List ℕ → ℕ
maximum [] = 0
maximum (x ∷ xs) = let rest = maximum xs in if ltb rest x then x else rest

-- The histogram of some latencies.
pub record Summary (samples : List ℕ) (h : LatencyHistogram) : Type 0 where
  pub size : length h.counts ≡ 16
  pub few : length samples < u64_mod
  pub counted : (b : ℕ) → bucket_count h b ≡ tally b samples
  pub total : h.total_count ≡ length samples
  pub total_sum : h.total_sum_ns ≡ u64 (sum samples)
  pub least : h.min_ns ≡ minimum samples
  pub greatest : h.max_ns ≡ maximum samples

zeros : (b : ℕ) → get_or new_histogram.counts b 0 ≡ 0
zeros b = let o : ℕ = 0 in get_or-replicate 16 b o

pub new_histogram-Summary : Summary [] new_histogram
unfolding bucket_count tally sum minimum maximum
new_histogram-Summary = record {
  size = refl;
  few = omega arith;
  counted = λ b. ground (arith, zeros b);
  total = refl;
  total_sum = omega arith;
  least = refl;
  greatest = refl;
}

least_next :
    (samples : List ℕ) (m total ns : ℕ)
    → m ≡ minimum samples
    → total ≡ length samples + 1
    → (if ltb ns m || total == 1 then ns else m) ≡ minimum (ns ∷ samples)
unfolding minimum
least_next [] m total ns e t = ground (arith, e, t)
least_next (x ∷ samples) m total ns e t = ground (arith, e, t)

pub record_latency-Summary :
    (samples : List ℕ) (h : LatencyHistogram) (ns : ℕ)
    → length samples + 1 < u64_mod
    → Summary samples h
    → Summary (ns ∷ samples) (record_latency h ns)
unfolding record_latency sum maximum bucket_count tally
record_latency-Summary samples h ns more s = record {
  size = length-set h.counts _ _ ∙ s.size;
  few = omega (arith, more);
  counted = λ b. counted_next b;
  total = omega (arith, s.total, more);
  total_sum = omega (arith, s.total_sum);
  least = least_next samples h.min_ns _ ns s.least (omega (arith, s.total, more));
  greatest = ground (arith, s.greatest);
}
  where
    counted_next : (b : ℕ) → bucket_count (record_latency h ns) b ≡ tally b (ns ∷ samples)
    counted_next b = ground (
      arith,
      get_or-set h.counts (bucket_for ns) b (add64 (get_or h.counts (bucket_for ns) 0) 1) 0
          (omega (arith, bucket_for-lt ns, s.size)),
      bucket_for_lem b ns,
      bucket_for-lt ns,
      s.counted b,
      tally_le b samples,
      more,
    )

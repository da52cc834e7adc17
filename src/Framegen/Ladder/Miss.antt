-- ===== src/Framegen/Ladder/Miss.antt =====
-- The miss window of src/framegen/scheduling.hpp: the bits of `recentMisses` as the last 16
-- decisions, newest first.
use native.Mathlib.Nat.{pow-succ', one-le-pow}
use gamescope.Common.{
  Bool, List, [], ap, arith, false, if◌then◌else◌, length, length-take-le, not, refl, suc, take,
  take_all, true, zero, ℕ, ◌%◌, ◌&&◌, ◌*◌, ◌+◌, ◌/◌, ◌<◌, ◌==◌, ◌^◌, ◌↔◌, ◌∷◌, ◌≡◌, ◌≤◌, ◌⊎◌,
}
use gamescope.Framegen.Ladder.{
  count_bits, deadline_miss_count, evaluate_deadline_miss_hysteresis, shift_in,
}

abbrev pub encode : List Bool → ℕ
encode [] = 0
encode (b ∷ bs) = (if b then 1 else 0) + 2 * encode bs

abbrev pub misses_in : List Bool → ℕ
misses_in [] = 0
misses_in (b ∷ bs) = (if b then 1 else 0) + misses_in bs

misses_in-le : (w : List Bool) → misses_in w ≤ length w
misses_in-le [] = omega arith
misses_in-le (true ∷ w) = omega (arith, misses_in-le w)
misses_in-le (false ∷ w) = omega (arith, misses_in-le w)

misses_in-zero : (w : List Bool) → encode w ≡ 0 → misses_in w ≡ 0
misses_in-zero [] h = refl
misses_in-zero (true ∷ w) h = absurd (omega arith)
misses_in-zero (false ∷ w) h = omega (arith, misses_in-zero w)

-- One round of the loop: the low bit is counted, and the others move down.
count_bits_round :
    (fuel e b c : ℕ)
    → b < 2
    → c < 4294967295
    → count_bits (suc fuel) (b + 2 * e) c
      ≡ (if b + 2 * e == 0 then c else count_bits fuel e (c + b))
unfolding count_bits
count_bits_round fuel e b c hb hc =
    let half : (b + 2 * e) / 2 ≡ e = omega arith in
    let low : (c + (b + 2 * e) % 2) % 4294967296 ≡ c + b = omega arith in rw (half, low)

count_bits-encode :
    (w : List Bool) (fuel c : ℕ)
    → length w ≤ fuel
    → c + fuel < 4294967296
    → count_bits fuel (encode w) c ≡ c + misses_in w
count_bits-encode [] zero c hl hc = unfold count_bits in omega arith
count_bits-encode [] (suc fuel) c hl hc = unfold count_bits in omega arith
count_bits-encode (b ∷ w) zero c hl hc = absurd (omega arith)
count_bits-encode (b ∷ w) (suc fuel) c hl hc = ground (
  arith,
  count_bits_round fuel (encode w) (if b then 1 else 0) c,
  count_bits-encode w fuel (c + (if b then 1 else 0)),
  misses_in-zero w,
)

double_mod : (b e m : ℕ) → b < 2 → 1 ≤ m → (b + 2 * e) % (2 * m) ≡ b + 2 * (e % m)
double_mod b e m h k = grind arith

encode-take : (n : ℕ) (w : List Bool) → encode (take n w) ≡ encode w % 2 ^ n
encode-take zero w = omega arith
encode-take (suc n) [] = omega arith
encode-take (suc n) (b ∷ w) = rw (
  pow-succ' 2 n,
  double_mod (if b then 1 else 0) (encode w) (2 ^ n) (ground arith) (one-le-pow n 2 (omega arith)),
  encode-take n w,
)

encode-lt : (w : List Bool) → length w ≤ 16 → encode w < 65536
encode-lt w h = omega (arith, encode-take 16 w, ap encode (take_all 16 w h))

-- Shifting in a decision keeps the newest sixteen.
shift_in-encode :
    (w : List Bool) (b : Bool) → length w ≤ 16 → shift_in (encode w) b ≡ encode (take 16 (b ∷ w))
unfolding shift_in
shift_in-encode w b h = rw (encode-take 16 (b ∷ w)) (ground (arith, encode-lt w h))

miss_count-window :
    (w : List Bool) (b : Bool)
    → length w ≤ 16
    → deadline_miss_count (shift_in (encode w) b) ≡ misses_in (take 16 (b ∷ w))
unfolding deadline_miss_count
miss_count-window w b h =
    rw (shift_in-encode w b h)
      (omega (arith, count_bits-encode (take 16 (b ∷ w)) 32 0, length-take-le 16 (b ∷ w)))

-- Let `recentMisses` encode a window of at most 16 decisions. It then encodes the newest 16 with this
-- decision added, a hitch counting as no miss. The test degrades exactly if the decision missed and
-- is no hitch, and a mature cost exceeds the slot or the new window holds two misses; it skips
-- exactly if the decision missed and the test does not degrade.
pub hysteresis_window :
    (w : List Bool) (missed hitch : Bool) (cost samples slot : ℕ)
    → length w ≤ 16
    → let e = evaluate_deadline_miss_hysteresis (encode w) missed hitch cost samples slot in
      let w' = take 16 ((missed && not hitch) ∷ w) in
      (e.recent_misses ≡ encode w')
      × ((e.degrade ≡ true) ↔ (
          (missed ≡ true)
          × (hitch ≡ false)
          × (((1 ≤ cost) × (3 ≤ samples) × (slot < cost)) ⊎ (2 ≤ misses_in w'))))
      × ((e.skip ≡ true) ↔ ((missed ≡ true) × (e.degrade ≡ false)))
unfolding evaluate_deadline_miss_hysteresis
hysteresis_window w missed hitch cost samples slot h =
    let b = missed && not hitch in
    (shift_in-encode w b h, ground (arith, miss_count-window w b h), ground arith)

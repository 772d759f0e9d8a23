-- ===== src/Table/Powers.antt =====
-- lib/kernel/hash.c: the loop of `rehash` that looks for a power of 2.
use Prim.Native.Nat.{max, bit_and}
use native.Mathlib.Nat.{pow-suc}
use cs380l.Base.{
  ℕ, zero, suc, ◌+◌, ◌-◌, ◌*◌, ◌/◌, ◌%◌, ◌^◌, ◌≤◌, ◌<◌, ◌≡◌, inl, inr, refl, sym, ap, ◌∙◌, ◌==◌,
  ltb, if◌then◌else◌, ok, arith, Bool-cases, ℕ-cases,
}
use cs380l.Base.Powers.{bit_and-le_right, clear_odd, clear_even}
use cs380l.Table.State.{turn_off_least_1bit, is_power_of_2, round_down, ideal_cnt}

turn_off_lem : (x : ℕ) → x < 2 ^ 32 → turn_off_least_1bit (suc x) ≡ bit_and (suc x) x
unfolding turn_off_least_1bit
turn_off_lem x p = let e : (suc x + 2 ^ 32 - 1) % 2 ^ 32 ≡ x = omega arith in ap (bit_and (suc x)) e

turn_off-le : (x : ℕ) → suc x < 2 ^ 32 → turn_off_least_1bit (suc x) ≤ x
turn_off-le x p = omega (arith, turn_off_lem x (omega arith), bit_and-le_right (suc x) x)

turn_off_double :
    (m : ℕ) → 2 * suc m < 2 ^ 32 → turn_off_least_1bit (2 * suc m) ≡ 2 * turn_off_least_1bit (suc m)
turn_off_double m p =
    let e = turn_off_lem (2 * suc m - 1) (omega arith) in
    let h : suc (2 * suc m - 1) ≡ 2 * suc m = omega arith in
    rw (turn_off_lem m (omega arith), sym (clear_even m)) (rw h at e)

turn_off_odd : (m : ℕ) → 2 * m + 1 < 2 ^ 32 → turn_off_least_1bit (2 * m + 1) ≡ 2 * m
turn_off_odd m p =
    let h : suc (2 * m) ≡ 2 * m + 1 = omega arith in
    let e = turn_off_lem (2 * m) (omega arith) in (rw h at e) ∙ clear_odd m

round_down_double :
    (n m r : ℕ)
    → 2 * suc m < 2 ^ 32
    → round_down n (suc m) ≡ ok r
    → round_down n (2 * suc m) ≡ ok (2 * r)
unfolding round_down is_power_of_2
round_down_double zero m r p e = cc
round_down_double (suc n) m r p e =
    let d = turn_off_double m p in
    let l = turn_off-le m (omega arith) in
    elim (ℕ-cases (turn_off_least_1bit (suc m))) [
      | inl z ↦ ground arith
      | inr (t, z) ↦ let again = round_down_double n t r (omega arith) in ground arith
    ]

-- One more round changes nothing.
round_down_more : (n x r : ℕ) → round_down n x ≡ ok r → round_down (suc n) x ≡ ok r
unfolding round_down
round_down_more zero x r e = cc
round_down_more (suc n) x r e =
    let again = round_down_more n (turn_off_least_1bit x) r in ground arith

is_power_of_2_one : (n : ℕ) → round_down (suc n) 1 ≡ ok 1
unfolding round_down is_power_of_2 turn_off_least_1bit
is_power_of_2_one n = refl

odd_step :
    (n m : ℕ)
    → 2 * suc m + 1 < 2 ^ 32
    → round_down (suc n) (2 * suc m + 1) ≡ round_down n (2 * suc m)
unfolding round_down is_power_of_2
odd_step n m p = ground (arith, turn_off_odd (suc m) p)

round_down_half :
    (n x m r : ℕ)
    → x / 2 ≡ suc m
    → x < 2 ^ 32
    → round_down n (suc m) ≡ ok r
    → round_down (suc n) x ≡ ok (2 * r)
round_down_half n x m r z p run =
    let run2 = round_down_double n m r (omega arith) run in
    elim (Bool-cases (x % 2 == 0)) [
      | inl even ↦
          let e : x ≡ 2 * suc m = ground arith in rw e (round_down_more n (2 * suc m) (2 * r) run2)
      | inr odd ↦
          let e : x ≡ 2 * suc m + 1 = ground arith in rw e (odd_step n m (omega arith) ∙ run2)
    ]

-- For a positive word `x` of at most `n` digits, `n` rounds are enough, and the result is the largest power of
-- 2 that is not larger than `x`.
pub round_down-largest :
    (n x : ℕ)
    → 1 ≤ x
    → x < 2 ^ n
    → x < 2 ^ 32
    → (k : ℕ) × (round_down n x ≡ ok (2 ^ k)) × (2 ^ k ≤ x) × (x < 2 ^ suc k)
round_down-largest zero x pos small word = absurd (omega arith)
round_down-largest (suc n) x pos small word =
    let half = x / 2 in
    let top = pow-suc 2 n in
    elim (ℕ-cases half) [
      | inl z ↦
          let e : x ≡ 1 = omega arith in
          (0, ap (round_down (suc n)) e ∙ is_power_of_2_one n, omega arith, omega arith)
      | inr (m, z) ↦
          let (k, run, low, high) =
            round_down-largest n (suc m) (omega arith) (omega arith) (omega arith) in
          let p = pow-suc 2 k in
          let p2 = pow-suc 2 (suc k) in
          let run2 = round_down_half n x m (2 ^ k) z word run in
          (suc k, run2 ∙ ap ok (omega arith), omega arith, omega arith)
    ]

-- The loop of `rehash` stops, at the largest power of 2 that is not above half the number of elements,
-- and at 4 for fewer than 8 elements. The number of elements is a word.
pub ideal_cnt-largest :
    (n : ℕ)
    → n < 2 ^ 32
    → (k : ℕ) × (ideal_cnt n ≡ ok (2 ^ k))
      × (2 ≤ k)
      × (2 ^ k ≤ max 4 (n / 2))
      × (max 4 (n / 2) < 2 ^ suc k)
unfolding ideal_cnt
ideal_cnt-largest n p =
    let e : (if ltb (n / 2) 4 then 4 else n / 2) ≡ max 4 (n / 2) = ground arith in
    let (k, run, low, high) =
      round_down-largest 32 (max 4 (n / 2)) (omega arith) (omega arith) (omega arith) in
    (k, ap (round_down 32) e ∙ run, two_le k (omega arith), low, high)
  where
    two_le : (k : ℕ) → 4 < 2 ^ suc k → 2 ≤ k
    two_le zero h = absurd (omega arith)
    two_le (suc zero) h = absurd (omega arith)
    two_le (suc (suc k)) h = omega arith

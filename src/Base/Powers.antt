-- ===== src/Base/Powers.antt =====
-- Words compared by their bits, and the lowest bit of a word.
use Prim.Native.Nat.{ℕ, zero, suc, ◌+◌, ◌-◌, ◌*◌, ◌/◌, ◌≤◌, bit_and}
use mathlib.Core.Path.{◌≡◌, refl, ◌∙◌}
use native.Mathlib.Omega.{arith}
use cs380l.Base.Bits.{bit, bit-bit_and}

bit-le_fuel : (n x y : ℕ) → x ≤ n → ((k : ℕ) → bit k x ≤ bit k y) → x ≤ y
unfolding bit
bit-le_fuel zero x y p h = omega arith
bit-le_fuel (suc n) x y p h =
    let first = h 0 in
    let rest = bit-le_fuel n (x / 2) (y / 2) in
    ground (arith, first, rest (omega arith) (λ k. h (suc k)))

pub bit-le : (x y : ℕ) → ((k : ℕ) → bit k x ≤ bit k y) → x ≤ y
bit-le x y h = bit-le_fuel x x y (omega arith) h

pub bit-ext : (x y : ℕ) → ((k : ℕ) → bit k x ≡ bit k y) → x ≡ y
bit-ext x y h =
    omega (arith, bit-le x y (λ k. omega (arith, h k)), bit-le y x (λ k. omega (arith, h k)))

pub bit_and-le_right : (a b : ℕ) → bit_and a b ≤ b
bit_and-le_right a b = bit-le (bit_and a b) b (λ k. omega (arith, bit-bit_and k a b))

-- The bits of `x & (x - 1)`, on the halves.
clear_odd_bits : (m k : ℕ) → bit k (bit_and (2 * m + 1) (2 * m)) ≡ bit k (2 * m)
unfolding bit
clear_odd_bits m zero = omega (arith, bit-bit_and 0 (2 * m + 1) (2 * m))
clear_odd_bits m (suc k) =
    let e : (2 * m + 1) / 2 ≡ m = omega arith in
    let e2 : (2 * m) / 2 ≡ m = omega arith in
    bit-bit_and (suc k) (2 * m + 1) (2 * m) ∙ rw (e, e2) (omega arith)

pub clear_odd : (m : ℕ) → bit_and (2 * m + 1) (2 * m) ≡ 2 * m
clear_odd m = bit-ext (bit_and (2 * m + 1) (2 * m)) (2 * m) (clear_odd_bits m)

clear_even_bits :
    (m k : ℕ) → bit k (bit_and (2 * suc m) (2 * suc m - 1)) ≡ bit k (2 * bit_and (suc m) m)
unfolding bit
clear_even_bits m zero = omega (arith, bit-bit_and 0 (2 * suc m) (2 * suc m - 1))
clear_even_bits m (suc k) =
    let e : (2 * suc m) / 2 ≡ suc m = omega arith in
    let e2 : (2 * suc m - 1) / 2 ≡ m = omega arith in
    let e3 : 2 * bit_and (suc m) m / 2 ≡ bit_and (suc m) m = omega arith in
    bit-bit_and (suc k) (2 * suc m) (2 * suc m - 1) ∙ rw (e, e2, e3, bit-bit_and k (suc m) m) refl

pub clear_even : (m : ℕ) → bit_and (2 * suc m) (2 * suc m - 1) ≡ 2 * bit_and (suc m) m
clear_even m =
    bit-ext (bit_and (2 * suc m) (2 * suc m - 1)) (2 * bit_and (suc m) m) (clear_even_bits m)

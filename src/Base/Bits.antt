-- ===== src/Base/Bits.antt =====
-- The bits of a machine word, and what `|`, `&`, `^` and `~` do to each of them.
use Prim.Native.Nat.{
  ℕ, zero, suc, ◌+◌, ◌-◌, ◌/◌, ◌%◌, ◌^◌, ◌≤◌, ◌<◌, min, max, bit_and, bit_or, bit_xor, digits,
  differ, bit_and-bitwise, bit_or-bitwise, bit_xor-bitwise,
}
use mathlib.Core.Path.{◌≡◌, refl, sym, ap, ◌∙◌}
use native.Mathlib.Omega.{arith}
use native.Mathlib.Nat.{pow-suc}
use cs380l.Base.Tests.{◌==◌, if◌then◌else◌}

-- The digit of `x` that stands for 2 ^ k.
unfoldable pub bit : ℕ → ℕ → ℕ
bit zero x = x % 2
bit (suc k) x = bit k (x / 2)

pub bit-lt : (k x : ℕ) → bit k x < 2
unfolding bit
bit-lt zero x = omega arith
bit-lt (suc k) x = bit-lt k (x / 2)

pub bit-zero : (k : ℕ) → bit k 0 ≡ 0
unfolding bit
bit-zero zero = refl
bit-zero (suc k) = bit-zero k

-- A number all of whose digits are 0 is 0.
pub eq_zero_fuel : (n x : ℕ) → x ≤ n → ((k : ℕ) → bit k x ≡ 0) → x ≡ 0
unfolding bit
eq_zero_fuel zero x le h = omega arith
eq_zero_fuel (suc n) x le h =
    omega (arith, h 0, eq_zero_fuel n (x / 2) (omega (arith, h 0)) (λ k. h (suc k)))

module _ (z : ℕ → ℕ) (f : ℕ → ℕ → ℕ) (base : (k b : ℕ) → bit k (z b) ≡ f 0 (bit k b))
    (small : (a b : ℕ) → a < 2 → b < 2 → f a b < 2) where
  halved : (n a b : ℕ) → digits z f (suc n) (suc a) b / 2 ≡ digits z f n (suc a / 2) (b / 2)
  halved n a b = omega (arith, small (suc a % 2) (b % 2) (omega arith) (omega arith))

  bit-digits : (n k a b : ℕ) → a ≤ n → bit k (digits z f n a b) ≡ f (bit k a) (bit k b)
  unfolding bit
  bit-digits zero k zero b le = base k b ∙ ap (λ x. f x (bit k b)) (sym (bit-zero k))
  bit-digits zero k (suc a) b le = absurd (omega arith)
  bit-digits (suc n) k zero b le = base k b ∙ ap (λ x. f x (bit k b)) (sym (bit-zero k))
  bit-digits (suc n) zero (suc a) b le =
      omega (arith, small (suc a % 2) (b % 2) (omega arith) (omega arith))
  bit-digits (suc n) (suc k) (suc a) b le =
      ap (bit k) (halved n a b) ∙ bit-digits n k (suc a / 2) (b / 2) (omega arith)

pub bit-bit_or : (k a b : ℕ) → bit k (bit_or a b) ≡ max (bit k a) (bit k b)
bit-bit_or k a b =
    ap (bit k) (bit_or-bitwise a b)
    ∙ bit-digits (λ y. y) max (λ k b. omega arith) (λ a b p q. omega arith) a k a b (omega arith)

pub bit-bit_and : (k a b : ℕ) → bit k (bit_and a b) ≡ min (bit k a) (bit k b)
bit-bit_and k a b =
    ap (bit k) (bit_and-bitwise a b)
    ∙ bit-digits (λ y. 0) min (λ k b. omega (arith, bit-zero k)) (λ a b p q. omega arith) a k a b
        (omega arith)

differ_lem : (a b : ℕ) → a < 2 → b < 2 → differ a b ≡ (a + b) % 2
differ_lem zero b p q = omega arith
differ_lem (suc zero) zero p q = refl
differ_lem (suc zero) (suc zero) p q = refl
differ_lem (suc zero) (suc (suc b)) p q = absurd (omega arith)
differ_lem (suc (suc a)) b p q = absurd (omega arith)

pub bit-bit_xor : (k a b : ℕ) → bit k (bit_xor a b) ≡ (bit k a + bit k b) % 2
bit-bit_xor k a b =
    ap (bit k) (bit_xor-bitwise a b)
    ∙ bit-digits (λ y. y) differ (λ k b. refl) (λ a b p q. omega (arith, differ_lem a b p q)) a k a
        b (omega arith)
    ∙ differ_lem (bit k a) (bit k b) (bit-lt k a) (bit-lt k b)

-- The word with one bit.
pub bit-pow : (k m : ℕ) → bit k (2 ^ m) ≡ (if k == m then 1 else 0)
unfolding bit
bit-pow zero zero = refl
bit-pow zero (suc m) = ground (arith, pow-suc 2 m)
bit-pow (suc k) zero = bit-zero k ∙ ground arith
bit-pow (suc k) (suc m) =
    let h : 2 ^ suc m / 2 ≡ 2 ^ m = omega (arith, pow-suc 2 m) in
    ap (bit k) h ∙ ground (arith, bit-pow k m)

pub pow-pos : (n : ℕ) → 1 ≤ 2 ^ n
pow-pos zero = omega arith
pow-pos (suc n) = omega (arith, pow-suc 2 n, pow-pos n)

pub pow-lt : (n m : ℕ) → m < n → 2 ^ m < 2 ^ n
pow-lt zero m p = absurd (omega arith)
pow-lt (suc n) zero p = omega (arith, pow-suc 2 n, pow-pos n)
pow-lt (suc n) (suc m) p = omega (arith, pow-suc 2 n, pow-suc 2 m, pow-lt n m (omega arith))

pub bit-ones : (n k : ℕ) → k < n → bit k (2 ^ n - 1) ≡ 1
unfolding bit
bit-ones zero k p = absurd (omega arith)
bit-ones (suc n) zero p = omega (arith, pow-suc 2 n, pow-pos n)
bit-ones (suc n) (suc k) p =
    let h : (2 ^ suc n - 1) / 2 ≡ 2 ^ n - 1 = omega (arith, pow-suc 2 n, pow-pos n) in
    ap (bit k) h ∙ bit-ones n k (omega arith)

-- The complement of a word of `n` bits that has one bit.
pub bit_mask-complement :
    (n k m : ℕ) → k < n → m < n → bit k (2 ^ n - 1 - 2 ^ m) ≡ (if k == m then 0 else 1)
unfolding bit
bit_mask-complement zero k m p q = absurd (omega arith)
bit_mask-complement (suc n) zero zero p q = omega (arith, pow-suc 2 n)
bit_mask-complement (suc n) (suc k) zero p q =
    let h : (2 ^ suc n - 1 - 2 ^ 0) / 2 ≡ 2 ^ n - 1 = omega (arith, pow-suc 2 n) in
    ap (bit k) h ∙ bit-ones n k (omega arith) ∙ ground arith
bit_mask-complement (suc n) zero (suc m) p q =
    ground (arith, pow-suc 2 n, pow-suc 2 m, pow-lt n m (omega arith))
bit_mask-complement (suc n) (suc k) (suc m) p q =
    let h : (2 ^ suc n - 1 - 2 ^ suc m) / 2 ≡ 2 ^ n - 1 - 2 ^ m =
      omega (arith, pow-suc 2 n, pow-suc 2 m, pow-lt n m (omega arith)) in
    ap (bit k) h ∙ bit_mask-complement n k m (omega arith) (omega arith) ∙ ground arith

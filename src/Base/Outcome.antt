-- ===== src/Base/Outcome.antt =====
-- A failed ASSERT, or PANIC, stops the kernel.
use mathlib.Core.Path.{◌≡◌, refl, subst}
use mathlib.Core.Bool.{Bool, true, false}
use cs380l.Base.Tests.{if◌then◌else◌}

pub data Result {ℓ} (A : Type ℓ) : Type ℓ where
  panic : Result A
  ok : A → Result A

abbrev pub assert : Bool → Result (Unit {0})
assert holds = elim holds [ true ↦ ok tt | false ↦ panic ]

-- What holds of an outcome, if there is one.
abbrev pub Yields {ℓ κ} : {A : Type ℓ} → (A → Type κ) → Result A → Type κ
Yields P panic = Unit
Yields P (ok a) = P a

module _ {ℓ κ} {A : Type ℓ} {B : Type κ} where
  infixl 5 ◌>>=◌
  abbrev pub ◌>>=◌ : (m : Result A) (next : A → Result B) → Result B
  panic >>= next = panic
  ok a >>= next = next a

  -- A chain that succeeds has succeeded at its first step.
  pub >>=-eq-ok :
      {b : B} (m : Result A) (next : A → Result B)
      → m >>= next ≡ ok b
      → (a : A) × (next a ≡ ok b) × (m ≡ ok a)
  >>=-eq-ok panic next h = absurd (cc)
  >>=-eq-ok (ok a) next h = (a, h, refl)

-- What follows an `assert`.
module _ {ℓ} {A : Type ℓ} where
  infixl 5 ◌>>◌
  abbrev pub ◌>>◌ : (first : Result (Unit {0})) (next : Result A) → Result A
  panic >> next = panic
  ok _ >> next = next

pub Yields-ok {ℓ κ} :
    {A : Type ℓ} (P : A → Type κ) (m : Result A) (a : A) → Yields P m → m ≡ ok a → P a
Yields-ok P panic a y e = absurd (cc)
Yields-ok P (ok b) a y e = let same : b ≡ a = cc in subst P same y

pub Yields->>= {ℓ κ μ ν} :
    {A : Type ℓ} {B : Type κ} (P : A → Type μ) (Q : B → Type ν) (m : Result A) (next : A → Result B)
    → Yields P m
    → ((a : A) → P a → Yields Q (next a))
    → Yields Q (m >>= next)
Yields->>= P Q panic next y f = tt
Yields->>= P Q (ok a) next y f = f a y

pub Yields->> {ℓ κ} :
    {A : Type ℓ} (P : A → Type κ) (first : Result (Unit {0})) (next : Result A)
    → Yields P next
    → Yields P (first >> next)
Yields->> P panic next y = tt
Yields->> P (ok _) next y = y

-- Whatever the first step returns.
pub Yields-all {ℓ κ ν} :
    {A : Type ℓ} {B : Type κ} (Q : B → Type ν) (m : Result A) (next : A → Result B)
    → ((a : A) → Yields Q (next a))
    → Yields Q (m >>= next)
Yields-all Q panic next f = tt
Yields-all Q (ok a) next f = f a

pub Yields-map {ℓ κ ν} :
    {A : Type ℓ} {P : A → Type κ} {Q : A → Type ν} (m : Result A)
    → ((a : A) → P a → Q a)
    → Yields P m
    → Yields Q m
Yields-map panic f y = tt
Yields-map (ok a) f y = f a y

pub Yields-both {ℓ κ ν} :
    {A : Type ℓ} (P : A → Type κ) (Q : A → Type ν) (m : Result A)
    → Yields P m
    → Yields Q m
    → Yields (λ a. P a × Q a) m
Yields-both P Q panic y z = tt
Yields-both P Q (ok a) y z = (y, z)

pub Yields-if {ℓ κ} :
    {A : Type ℓ} (P : A → Type κ) (test : Bool) (m n : Result A)
    → Yields P m
    → Yields P n
    → Yields P (if test then m else n)
Yields-if P true m n y z = y
Yields-if P false m n y z = z

-- ===== src/Dirs/Names.antt =====
-- filesys/directory.c: names, in the bytes of an entry and as lists.
use Prim.Native.Nat.{◌^◌}
use cs380l.Base.{
  ℕ, suc, ◌+◌, ◌-◌, ◌≤◌, ◌<◌, ◌≡◌, refl, ap, ◌∙◌, Bool, true, false, not, ◌==◌, ◌&&◌, List, [], ◌∷◌,
  length, get_or, arith,
}
use cs380l.Files.Disk.{Buffer}
use cs380l.Dirs.State.{is_name, name_of, name_max, filled_entry, in_use, inode_sector}

-- No character of the name is the null character.
abbrev pub clean : List ℕ → Bool
clean [] = true
clean (c ∷ name) = not (c == 0) && clean name

abbrev pub same_name : List ℕ → List ℕ → Bool
same_name [] [] = true
same_name [] (c ∷ name) = false
same_name (b ∷ q) [] = false
same_name (b ∷ q) (c ∷ name) = b == c && same_name q name

-- The comparison reads one byte more than the name has.
pub is_name-agree :
    (q : List ℕ) (p r : Buffer) → ((k : ℕ) → k ≤ length q → p k ≡ r k) → is_name q p ≡ is_name q r
unfolding is_name
is_name-agree [] p r same = ap (λ b. b == 0) (same 0 (omega arith))
is_name-agree (c ∷ q) p r same =
    let first = same 0 (omega arith) in
    let rest =
      is_name-agree q (λ k. p (k + 1)) (λ k. r (k + 1)) (λ k h. same (k + 1) (omega arith)) in
    rw (first, rest) refl

pub is_name-same_name :
    (q name : List ℕ) (p : Buffer)
    → clean q ≡ true
    → clean name ≡ true
    → ((k : ℕ) → k < length name → p k ≡ get_or name k 0)
    → p (length name) ≡ 0
    → is_name q p ≡ same_name q name
unfolding is_name
is_name-same_name [] [] p cq cn chars end = rw end refl
is_name-same_name [] (c ∷ name) p cq cn chars end = ground (arith, chars 0 (omega arith))
is_name-same_name (b ∷ q) [] p cq cn chars end = ground arith
is_name-same_name (b ∷ q) (c ∷ name) p cq cn chars end =
    let first = chars 0 (omega arith) in
    let at_end : length name + 1 ≡ suc (length name) = omega arith in
    let rest =
      is_name-same_name q name (λ k. p (k + 1)) (ground arith) (ground arith) (λ k h. shifted k h)
        (ap p at_end ∙ end) in
    ground arith
  where
    shifted : (k : ℕ) → k < length name → p (k + 1) ≡ get_or name k 0
    shifted k h = let e : k + 1 ≡ suc k = omega arith in ap p e ∙ chars (suc k) (omega arith)

-- The name in an entry that dir_add() fills.
pub filled_entry-name :
    (e : Buffer) (q name : List ℕ) (sector : ℕ)
    → clean q ≡ true
    → clean name ≡ true
    → length name ≤ name_max
    → is_name q (name_of (filled_entry e name sector)) ≡ same_name q name
filled_entry-name e q name sector cq cn short =
    is_name-same_name q name (name_of (filled_entry e name sector)) cq cn (λ k h. char k h) end
  where
    char : (k : ℕ) → k < length name → name_of (filled_entry e name sector) k ≡ get_or name k 0
    char k h =
        let back : k + 4 - 4 ≡ k = omega arith in
        let same = ap (λ i. get_or name i 0) back in ground arith

    end : name_of (filled_entry e name sector) (length name) ≡ 0
    end = ground arith

pub filled_entry-fields :
    (e : Buffer) (name : List ℕ) (sector : ℕ)
    → length name ≤ name_max
    → sector < 2 ^ 32
    → (in_use (filled_entry e name sector) ≡ true)
      × (inode_sector (filled_entry e name sector) ≡ sector)
filled_entry-fields e name sector short word = (ground arith, ground arith)

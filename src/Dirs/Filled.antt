-- ===== src/Dirs/Filled.antt =====
-- filesys/directory.c: the names that a directory knows after a free entry has been filled.
use Prim.Native.Nat.{◌^◌}
use cs380l.Base.{
  ℕ, ◌+◌, ◌*◌, ◌≤◌, ◌<◌, ◌≡◌, inl, inr, refl, sym, ap, ◌∙◌, true, false, ◌==◌, ◌&&◌, if◌then◌else◌,
  none, some, List, [], ◌∷◌, length, arith, Bool-cases,
}
use cs380l.Files.Disk.{Buffer, Device, Inode}
use cs380l.Files.Writes.{Written}
use cs380l.Dirs.State.{entry_size, name_max, in_use, is_name, name_of, inode_sector, filled_entry}
use cs380l.Dirs.Names.{clean, same_name, filled_entry-name, filled_entry-fields}
use cs380l.Dirs.Search.{entry, entries, matches, search, search-none, search_only}
use cs380l.Dirs.Knows.{
  sector_in, is_free, match-agree, inode_sector-agree, entry_other, entry_here, sector_in-agree,
}

same_name-lem : (q name : List ℕ) → same_name q name ≡ true → q ≡ name
same_name-lem [] [] e = refl
same_name-lem [] (c ∷ name) e = cc
same_name-lem (b ∷ q) [] e = cc
same_name-lem (b ∷ q) (c ∷ name) e =
    let rest = same_name-lem q name (ground arith) in
    let first : b ≡ c = ground arith in rw (rest, first) refl

same_name_refl : (q : List ℕ) → same_name q q ≡ true
same_name_refl [] = refl
same_name_refl (c ∷ q) = ground (arith, same_name_refl q)

-- The entry `j`, which was free, holds the name now.
module _ (d e : Device) (inode : Inode) (slot : Buffer) (name : List ℕ) (sector j : ℕ)
    (w : Written d e inode (filled_entry slot name sector) 0 entry_size (j * entry_size))
    (inside : j < entries inode) (free : is_free d inode j ≡ true) (cn : clean name ≡ true)
    (short : length name ≤ name_max) (word : sector < 2 ^ 32) where
  fields :
      (in_use (filled_entry slot name sector) ≡ true)
      × (inode_sector (filled_entry slot name sector) ≡ sector)
  fields = filled_entry-fields slot name sector short word

  matches_here :
      (q : List ℕ) → clean q ≡ true → length q ≤ name_max → matches e inode q j ≡ same_name q name
  matches_here q cq sq =
      match-agree q (entry e inode j) (filled_entry slot name sector) sq
        (λ k h. entry_here d e inode (filled_entry slot name sector) entry_size j w k refl h)
      ∙ (ap (λ x. x && is_name q (name_of (filled_entry slot name sector))) fields.0
          ∙ filled_entry-name slot q name sector cq cn short)

  matches_other :
      (q : List ℕ) (i : ℕ)
      → length q ≤ name_max
      → (j == i) ≡ false
      → matches e inode q i ≡ matches d inode q i
  matches_other q i sq other = match-agree q (entry e inode i) (entry d inode i) sq (λ k h.
      entry_other d e inode (filled_entry slot name sector) entry_size j w i k (omega arith) other
        h)

  matches_before : (q : List ℕ) → matches d inode q j ≡ false
  matches_before q = ground arith

  no_other :
      (q : List ℕ) (k : ℕ)
      → length q ≤ name_max
      → same_name q name ≡ true
      → (j == k) ≡ false
      → search (entries inode) 0 (matches d inode name) ≡ none
      → k < 0 + entries inode
      → matches e inode q k ≡ false
  no_other q k sq same other absent h =
      let q_name = same_name-lem q name same in
      matches_other q k sq other
      ∙ (ap (λ x. matches d inode x k) q_name
          ∙ search-none (entries inode) 0 (matches d inode name) k absent (omega arith) h)

  pub sector_in_added :
      (q : List ℕ)
      → clean q ≡ true
      → length q ≤ name_max
      → search (entries inode) 0 (matches d inode name) ≡ none
      → sector_in e inode (search (entries inode) 0 (matches e inode q)) ≡ (
          if same_name q name
          then some sector
          else sector_in d inode (search (entries inode) 0 (matches d inode q)))
  sector_in_added q cq sq absent = elim (Bool-cases (same_name q name)) [
    | inl same ↦
        let hit = matches_here q cq sq ∙ same in
        let at =
          search_only (entries inode) 0 (matches e inode q) j (omega arith) (omega arith) hit
            (λ k p h other. no_other q k sq same other absent h) in
        let stored =
          inode_sector-agree (entry e inode j) (filled_entry slot name sector)
            (λ k h. entry_here d e inode (filled_entry slot name sector) entry_size j w k refl h)
          ∙ fields.1 in
        ap (sector_in e inode) at ∙ (ap some stored ∙ rw same refl)
    | inr other ↦
        sector_in-agree d e inode q
          (λ i h. elim (Bool-cases (j == i)) [
            | inl here ↦
                let at : j ≡ i = ground arith in
                ap (matches e inode q) (sym at)
                ∙ (matches_here q cq sq
                    ∙ (other ∙ (sym (matches_before q) ∙ ap (matches d inode q) at)))
            | inr there ↦ matches_other q i sq there
          ])
          (λ i h hit. elim (Bool-cases (j == i)) [
            | inl here ↦
                let at : j ≡ i = ground arith in
                let miss = sym (ap (matches d inode q) at) ∙ matches_before q in cc
            | inr there ↦ inode_sector-agree (entry e inode i) (entry d inode i) (λ k b.
                entry_other d e inode (filled_entry slot name sector) entry_size j w i k
                  (omega arith) there b)
          ])
        ∙ rw other refl
  ]

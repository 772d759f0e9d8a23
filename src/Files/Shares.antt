-- ===== src/Files/Shares.antt =====
-- filesys/inode.c and filesys/file.c: opening and closing.
use cs380l.Base.{
  ℕ, ◌+◌, ◌≤◌, ◌≡◌, ◌≢◌, inl, inr, refl, sym, ap, ◌∙◌, false, ◌==◌, if◌then◌else◌, none, some, List,
  [], ◌∷◌, arith, Bool-cases,
}
use cs380l.Files.Disk.{Inode}
use cs380l.Files.State.{File, FileSys, set_inode, keeps-set_inode, find_open, inode_reopen}
use cs380l.Files.Opens.{opens, denies, listed, IsShared, denies-le-opens}

-- `inode_open` finds an open inode of the sector, or there is none.
pub find_open-some :
    (sector a : ℕ) (bs : List ℕ) (inodes : ℕ → Inode)
    → find_open sector bs inodes ≡ some a
    → (1 ≤ listed a bs) × ((inodes a).sector ≡ sector)
unfolding find_open listed
find_open-some sector a [] inodes e = cc
find_open-some sector a (b ∷ bs) inodes e = elim (Bool-cases ((inodes b).sector == sector)) [
  | inl here ↦
      let same : b ≡ a = ground arith in
      (ground arith, ap (λ x. (inodes x).sector) (sym same) ∙ ground arith)
  | inr later ↦ let (p, q) = find_open-some sector a bs inodes (ground arith) in (omega arith, q)
]

find_open-none :
    (sector a : ℕ) (bs : List ℕ) (inodes : ℕ → Inode)
    → find_open sector bs inodes ≡ none
    → 1 ≤ listed a bs
    → (inodes a).sector ≢ sector
unfolding find_open listed
find_open-none sector a [] inodes e p = absurd (omega arith)
find_open-none sector a (b ∷ bs) inodes e p = elim (Bool-cases (b == a)) [
  | inl here ↦
      let same : b ≡ a = ground arith in
      let same_sector = ap (λ x. (inodes x).sector) same in λ q. ground arith
  | inr later ↦ find_open-none sector a bs inodes (ground arith) (ground arith)
]

module _ (files : List File) (sys : FileSys) (s : IsShared files sys) where
  -- A further opener of an inode that is open.
  pub reopen-IsShared :
      (a : ℕ)
      → 1 ≤ opens a files
      → IsShared (record { inode = a; pos = 0; deny_write = false } ∷ files) (inode_reopen a sys)
  unfolding inode_reopen opens denies
  reopen-IsShared a held =
      let i = sys.inodes a in
      let not_null : (a == 0) ≡ false = elim (Bool-cases (a == 0)) [
        | inl z ↦
            let e : a ≡ 0 = ground arith in
            absurd (omega (arith, ap (λ x. opens x files) e, s.no_null))
        | inr n ↦ n
      ] in
      let j : Inode = record i { open_cnt = i.open_cnt + 1 } in
      rw not_null (record {
        in_list = λ b p. s.in_list b (in_old b p);
        not_in_list = λ b p. s.not_in_list b (ground arith);
        open_cnt = λ b p. ground (arith, s.open_cnt b (in_old b p));
        deny_cnt = λ b p. ground (arith, s.deny_cnt b (in_old b p), s.deny_cnt a held);
        no_null = ground (arith, s.no_null);
        one_each = λ b c p q e. s.one_each b c (in_old b p) (in_old c q) (
            sym (keeps-set_inode (λ x. x.sector) a b j sys refl)
            ∙ e
            ∙ keeps-set_inode (λ x. x.sector) a c j sys refl);
      })
    where
      in_old : (b : ℕ) → 1 ≤ (if a == b then 1 else 0) + opens b files → 1 ≤ opens b files
      in_old b p = elim (Bool-cases (a == b)) [
        | inl z ↦ let e : a ≡ b = ground arith in omega (arith, ap (λ x. opens x files) e)
        | inr n ↦ ground arith
      ]

  -- The first opener of an inode. No structure in use is at the address from malloc().
  pub fresh-IsShared :
      (fresh : ℕ) (i : Inode)
      → fresh ≢ 0
      → opens fresh files ≡ 0
      → find_open i.sector sys.open_inodes sys.inodes ≡ none
      → i.open_cnt ≡ 1
      → i.deny_write_cnt ≡ 0
      → IsShared
          (record { inode = fresh; pos = 0; deny_write = false } ∷ files)
          (set_inode fresh i (record sys { open_inodes = fresh ∷ sys.open_inodes }))
  unfolding opens denies listed
  fresh-IsShared fresh i nz new absent first none_deny = record {
    in_list = λ b p. elim (Bool-cases (fresh == b)) [
      | inl z ↦
          let e : fresh ≡ b = ground arith in
          let e2 = ap (λ x. listed x sys.open_inodes) e in ground (arith, s.not_in_list fresh new)
      | inr n ↦ ground (arith, s.in_list b)
    ];
    not_in_list = λ b p. ground (arith, s.not_in_list b);
    open_cnt = λ b p. elim (Bool-cases (fresh == b)) [
      | inl z ↦
          let e : fresh ≡ b = ground arith in let e2 = ap (λ x. opens x files) e in ground arith
      | inr n ↦ ground (arith, s.open_cnt b)
    ];
    deny_cnt = λ b p. elim (Bool-cases (fresh == b)) [
      | inl z ↦
          let e : fresh ≡ b = ground arith in
          let e2 = ap (λ x. opens x files) e in ground (arith, denies-le-opens b files)
      | inr n ↦ ground (arith, s.deny_cnt b)
    ];
    no_null = ground (arith, s.no_null);
    one_each = λ b c p q e. elim (Bool-cases (fresh == b)) [
      | inl z ↦ elim (Bool-cases (fresh == c)) [
        | inl z2 ↦ ground arith
        | inr n2 ↦
            let there = s.in_list c (ground arith) in
            absurd (
              find_open-none i.sector c sys.open_inodes sys.inodes absent (omega arith)
                (ground arith))
      ]
      | inr n ↦ elim (Bool-cases (fresh == c)) [
        | inl z2 ↦
            let there = s.in_list b (ground arith) in
            absurd (
              find_open-none i.sector b sys.open_inodes sys.inodes absent (omega arith)
                (ground arith))
        | inr n2 ↦ s.one_each b c (ground arith) (ground arith) (ground arith)
      ]
    ];
  }

-- ===== src/Pages/Groups.antt =====
-- threads/palloc.c: which pages are in use, and what `palloc_get_multiple` does to them.
use cs380l.Base.{
  ℕ, ◌+◌, ◌-◌, ◌*◌, ◌^◌, ◌≤◌, ◌≡◌, inl, inr, Bool, true, false, not, ◌||◌, ◌&&◌, none, some, ◌==◌,
  arith, Bool-cases,
}
use cs380l.Bitmap.State.{Bitmap, word}
use cs380l.Bitmap.Words.{member}
use cs380l.Bitmap.Scan.{Flips, every-member}
use cs380l.Strings.State.{Memory}
use cs380l.Strings.Blocks.{within}
use cs380l.Pages.State.{Pool, Allocator, pgsize, pg_no, pg_ofs, pool_of, with_map}

-- A pool lies on whole pages in the address space, and not at its start.
pub record IsPool (p : Pool) : Type 0 where
  pub aligned : pg_ofs p.base ≡ 0
  pub low : pgsize ≤ p.base
  pub high : p.base + pgsize * p.used_map.bit_cnt ≤ 2 ^ 32

pub record IsAllocator (a : Allocator) : Type 0 where
  pub kernel : IsPool a.kernel_pool
  pub user : IsPool a.user_pool
  pub apart : a.kernel_pool.base + pgsize * a.kernel_pool.used_map.bit_cnt ≤ a.user_pool.base

-- Page `n` lies in the pool, and is in use.
abbrev pub owns : Pool → ℕ → Bool
owns p n = within (pg_no p.base) p.used_map.bit_cnt n

abbrev pub used_in : Pool → ℕ → Bool
used_in p n = owns p n && member (n - pg_no p.base) p.used_map

abbrev pub used : Allocator → ℕ → Bool
used a n = used_in a.kernel_pool n || used_in a.user_pool n

-- What is known of page `n` when `palloc_get_multiple` has returned `pages`: no page of the group was
-- in use before, and it is now, and all others are as they were.
abbrev pub Got : ℕ → Allocator → Allocator → ℕ → ℕ → Type 0
Got cnt a b pages n =
    (pg_ofs pages ≡ 0)
    × ((not (pages == 0) && within (pg_no pages) cnt n && used a n) ≡ false)
    × (used b n ≡ (used a n || (not (pages == 0) && within (pg_no pages) cnt n)))

pub map-IsAllocator :
    {a : Allocator} (u : Bool) (m : Bitmap) (mem : Memory)
    → m.bit_cnt ≡ (pool_of u a).used_map.bit_cnt
    → IsAllocator a
    → IsAllocator (record (with_map u m a) { mem = mem })
map-IsAllocator true m mem e w = record {
  kernel = record { aligned = w.kernel.aligned; low = w.kernel.low; high = w.kernel.high };
  user = record { aligned = w.user.aligned; low = w.user.low; high = ground (arith, w.user.high) };
  apart = w.apart;
}
map-IsAllocator false m mem e w = record {
  kernel = record {
    aligned = w.kernel.aligned;
    low = w.kernel.low;
    high = ground (arith, w.kernel.high);
  };
  user = record { aligned = w.user.aligned; low = w.user.low; high = w.user.high };
  apart = ground (arith, w.apart);
}

-- The pool after the pages of `r` were taken.
module _ (p : Pool) (w : IsPool p) (cnt : ℕ) (j : Bitmap) where
  pub taken_none :
      (n : ℕ)
      → Flips 0 cnt false p.used_map j none
      → used_in (record p { used_map = j }) n ≡ used_in p n
  taken_none n f = ground (arith, f.size, f.bit (n - pg_no p.base))

  pub taken_some :
      (i n : ℕ)
      → Flips 0 cnt false p.used_map j (some i)
      → used_in (record p { used_map = j }) n ≡ (used_in p n || within (pg_no p.base + i) cnt n)
  taken_some i n f =
      let (late, inside, all, first) = f.place 0 in
      let k = n - pg_no p.base in
      let z = every-member i cnt k false p.used_map all in
      elim (Bool-cases (within (pg_no p.base + i) cnt n)) [
        | inl e ↦ ground (arith, f.size, f.bit k, z)
        | inr e ↦ ground (arith, f.size, f.bit k)
      ]

  pub fresh :
      (i n : ℕ)
      → Flips 0 cnt false p.used_map j (some i)
      → (within (pg_no p.base + i) cnt n && used_in p n) ≡ false
  fresh i n f =
      let (late, inside, all, first) = f.place 0 in
      let k = n - pg_no p.base in ground (arith, every-member i cnt k false p.used_map all)

  -- The address of the group.
  pub address :
      (i : ℕ)
      → Flips 0 cnt false p.used_map j (some i)
      → 1 ≤ cnt
      → (word (p.base + pgsize * i) ≡ p.base + pgsize * i)
        × (pg_no (p.base + pgsize * i) ≡ pg_no p.base + i)
        × (pg_ofs (p.base + pgsize * i) ≡ 0)
  address i f one =
      let (late, inside, all, first) = f.place 0 in
      (omega (arith, w.high, w.low), omega (arith, w.aligned), omega (arith, w.aligned))

-- The other pool does not have the pages.
pub elsewhere :
    {a : Allocator} (u : Bool) (cnt i n : ℕ)
    → IsAllocator a
    → i + cnt ≤ (pool_of u a).used_map.bit_cnt
    → (within (pg_no (pool_of u a).base + i) cnt n && used_in (pool_of (not u) a) n) ≡ false
elsewhere {a} true cnt i n w le = ground (arith, w.apart, w.kernel.aligned, w.user.aligned)
elsewhere {a} false cnt i n w le = ground (arith, w.apart, w.kernel.aligned, w.user.aligned)

-- ===== src/Pages/Init.antt =====
-- threads/palloc.c: the pools that `palloc_init` makes.
use cs380l.Base.{
  ℕ, ◌+◌, ◌-◌, ◌*◌, ◌/◌, ◌^◌, ◌<◌, ◌≤◌, ◌≡◌, refl, ◌∙◌, false, ltb, if◌then◌else◌, ok, arith,
}
use cs380l.Bitmap.State.{word, bitmap_buf_size, bitmap_create_in_buf, bitmap_set_all}
use cs380l.Bitmap.Ranges.{bitmap_set_multiple-Filled}
use cs380l.Strings.State.{Memory}
use cs380l.Pages.State.{
  Pool, Allocator, pgsize, pg_no, pg_ofs, ptov, init_pool, make_pools, palloc_init,
}
use cs380l.Pages.Groups.{IsPool, IsAllocator, used_in, used}

-- Below 2 ^ 30 bits the size of the bitmap does not wrap.
buf_size : (n : ℕ) → n < 2 ^ 30 → bitmap_buf_size n ≡ 8 + 4 * ((n + 31) / 32)
buf_size n l = omega arith

bm_pages :
    (n : ℕ)
    → n < 2 ^ 30
    → word (bitmap_buf_size n + pgsize - 1) / pgsize ≡ (4 * ((n + 31) / 32) + 4103) / 4096
bm_pages n l = omega (arith, buf_size n l)

-- A pool whose pages are all free, made of `page_cnt` pages at `base`.
pub record Fresh (base page_cnt : ℕ) (p : Pool) : Type 0 where
  pub pool : IsPool p
  pub start : base ≤ p.base
  pub end : p.base + pgsize * p.used_map.bit_cnt ≡ base + pgsize * page_cnt
  pub free : (n : ℕ) → used_in p n ≡ false

init_pool-Fresh :
    (base page_cnt : ℕ) (block : ℕ → ℕ)
    → pg_ofs base ≡ 0
    → pgsize ≤ base
    → 1 ≤ page_cnt
    → base + pgsize * page_cnt < 2 ^ 32
    → (p : Pool) × (init_pool base page_cnt block ≡ ok p) × Fresh base page_cnt p
unfolding init_pool bitmap_create_in_buf bitmap_set_all
init_pool-Fresh base page_cnt block al low one high =
    let q : ℕ = (4 * ((page_cnt + 31) / 32) + 4103) / 4096 in
    let c : word (bitmap_buf_size page_cnt + pgsize - 1) / pgsize ≡ q =
      bm_pages page_cnt (omega arith) in
    let fits : q ≤ page_cnt = omega arith in
    let room : bitmap_buf_size (page_cnt - q) ≤ word (q * pgsize) =
      omega (arith, buf_size (page_cnt - q) (omega arith)) in
    let (m, e, f) =
      bitmap_set_multiple-Filled 0 (page_cnt - q) false
        (record { bit_cnt = page_cnt - q; bits = block }) (omega arith) (omega arith) in
    let w : word (base + q * pgsize) ≡ base + q * pgsize = omega arith in
    (
      record { used_map = m; base = base + q * pgsize },
      rw c (ground arith),
      record {
        pool = record { aligned = omega arith; low = omega arith; high = ground (arith, f.size) };
        start = omega arith;
        end = ground (arith, f.size);
        free = λ n. ground (arith, f.size, f.bit (n - pg_no (base + q * pgsize)));
      },
    )

-- Two pools with no page in use, apart from each other.
pub record FreshPools (a : Allocator) : Type 0 where
  pub valid : IsAllocator a
  pub free : (n : ℕ) → used a n ≡ false

make_pools-Fresh :
    (s f u limit : ℕ) (kernel_block user_block : ℕ → ℕ) (mem : Memory)
    → pg_ofs s ≡ 0
    → pgsize ≤ s
    → s + f * pgsize < 2 ^ 32
    → 2 ≤ f
    → 1 ≤ limit
    → (if ltb limit (f / 2) then limit else f / 2) ≡ u
    → (a : Allocator) × (make_pools s f limit kernel_block user_block mem ≡ ok a) × FreshPools a
unfolding make_pools
make_pools-Fresh s f u limit kernel_block user_block mem al low high two one e =
    let le : u ≤ f / 2 = ground arith in
    let some_page : 1 ≤ u = ground arith in
    let w : word (s + (f - u) * pgsize) ≡ s + (f - u) * pgsize = omega arith in
    let (k, p, kf) = init_pool-Fresh s (f - u) kernel_block al low (omega arith) (omega arith) in
    let (v, q, vf) =
      init_pool-Fresh (s + (f - u) * pgsize) u user_block (omega arith) (omega arith) some_page
        (omega arith) in
    (
      record { kernel_pool = k; user_pool = v; mem = mem },
      ground arith,
      record {
        valid = record {
          kernel = kf.pool;
          user = vf.pool;
          apart = omega (arith, kf.end, vf.start);
        };
        free = λ n. ground (arith, kf.free n, vf.free n);
      },
    )

free_pages_lem :
    (ram : ℕ)
    → 256 ≤ ram
    → ram < 2 ^ 18
    → word (word (word (ram * pgsize) + 3 * 2 ^ 30) + 2 ^ 32 - 3222274048) / pgsize ≡ ram - 256
free_pages_lem ram a b = omega arith

palloc_init-make_pools :
    (ram limit : ℕ) (kernel_block user_block : ℕ → ℕ) (mem : Memory)
    → 256 ≤ ram
    → ram < 2 ^ 18
    → palloc_init ram limit kernel_block user_block mem
      ≡ make_pools 3222274048 (ram - 256) limit kernel_block user_block mem
unfolding palloc_init ptov
palloc_init-make_pools ram limit kernel_block user_block mem lo hi =
    ground (arith, free_pages_lem ram lo hi)

-- With memory between 258 pages and 1 GB, and at least one page for the user pool, `palloc_init` makes
-- two pools that do not overlap, with no page in use. No ASSERT fails, and the bitmaps fit.
pub palloc_init-IsAllocator :
    (ram limit : ℕ) (kernel_block user_block : ℕ → ℕ) (mem : Memory) (n : ℕ)
    → 258 ≤ ram
    → ram < 2 ^ 18
    → 1 ≤ limit
    → (a : Allocator) × (palloc_init ram limit kernel_block user_block mem ≡ ok a)
      × IsAllocator a
      × (used a n ≡ false)
palloc_init-IsAllocator ram limit kernel_block user_block mem n lo hi one =
    let (a, e, f) =
      make_pools-Fresh 3222274048 (ram - 256) _ limit kernel_block user_block mem (omega arith)
        (omega arith) (omega arith) (omega arith) one refl in
    (
      a,
      palloc_init-make_pools ram limit kernel_block user_block mem (omega arith) hi ∙ e,
      f.valid,
      f.free n,
    )

-- ===== src/Pages/Frees.antt =====
-- threads/palloc.c: what `palloc_free_multiple` does to the pages in use.
use cs380l.Base.{
  ℕ, ◌+◌, ◌-◌, ◌*◌, ◌≤◌, ◌≡◌, ◌≢◌, ◌∙◌, Bool, true, false, not, ◌&&◌, ok, panic, arith,
}
use cs380l.Bitmap.State.{Bitmap, word}
use cs380l.Bitmap.Ranges.{Filled, bitmap_set_multiple-Filled}
use cs380l.Bitmap.Scan.{group, bitmap_all-group}
use cs380l.Strings.State.{Memory, memset, set_bytes}
use cs380l.Strings.Blocks.{within}
use cs380l.Pages.State.{
  Pool, Allocator, pgsize, pg_no, pg_ofs, pool_of, with_map, page_from_pool, give_back,
  palloc_free_multiple,
}
use cs380l.Pages.Groups.{IsAllocator, used_in, used, map-IsAllocator}
use cs380l.Pages.Owners.{small}

-- The number that a page has in its pool.
abbrev pub page_idx : Bool → Allocator → ℕ → ℕ
page_idx u a pages = pg_no pages - pg_no (pool_of u a).base

-- The group lies in the pool, on whole pages.
pub record InPool (u : Bool) (a : Allocator) (pages cnt : ℕ) : Type 0 where
  pub aligned : pg_ofs pages ≡ 0
  pub some_page : 1 ≤ cnt
  pub above : (pool_of u a).base ≤ pages
  pub below : page_idx u a pages + cnt ≤ (pool_of u a).used_map.bit_cnt

choose :
    {a : Allocator} (u : Bool) (pages cnt : ℕ)
    → IsAllocator a
    → InPool u a pages cnt
    → palloc_free_multiple pages cnt a ≡ give_back u pages cnt a
unfolding palloc_free_multiple page_from_pool
choose true pages cnt w g = ground (
  arith, w.apart, w.user.low, w.kernel.aligned, w.user.aligned, g.aligned, g.some_page, g.above,
  g.below,
)
choose false pages cnt w g =
    ground (arith, w.kernel.low, w.kernel.aligned, g.aligned, g.some_page, g.above, g.below)

pages_ne :
    {a : Allocator} (u : Bool) {pages cnt : ℕ} → IsAllocator a → InPool u a pages cnt → pages ≢ 0
pages_ne true w g e = omega (arith, w.user.low, g.above)
pages_ne false w g e = omega (arith, w.kernel.low, g.above)

give_back-Filled :
    {a : Allocator} (u : Bool) (pages cnt : ℕ)
    → IsAllocator a
    → InPool u a pages cnt
    → group (page_idx u a pages) cnt true (pool_of u a).used_map ≡ true
    → (m : Bitmap) × (mem : Memory) × (give_back u pages cnt a
        ≡ ok (with_map u m (record a { mem = mem })))
      × Filled (page_idx u a pages) cnt false (pool_of u a).used_map m
unfolding give_back memset
give_back-Filled {a} u pages cnt w g all =
    let p = pool_of u a in
    let (m, e, f) =
      bitmap_set_multiple-Filled (page_idx u a pages) cnt false p.used_map g.below (small u w) in
    (
      m,
      set_bytes (word (pgsize * cnt)) pages 204 a.mem,
      ground (
        arith,
        pages_ne u w g,
        bitmap_all-group (page_idx u a pages) cnt p.used_map g.below (small u w),
      ),
      f,
    )

freed_in :
    (p : Pool) (i cnt : ℕ) (m : Bitmap) (n : ℕ)
    → Filled i cnt false p.used_map m
    → i + cnt ≤ p.used_map.bit_cnt
    → used_in (record p { used_map = m }) n ≡ (used_in p n && not (within (pg_no p.base + i) cnt n))
freed_in p i cnt m n f le = ground (arith, f.size, f.bit (n - pg_no p.base))

-- `palloc_free_multiple` on a group of pages that are in use in one pool frees them, and no others.
-- The pools stay valid, and no ASSERT fails.
pub palloc_free_multiple-frees :
    (u : Bool) (pages cnt : ℕ) (a : Allocator) (n : ℕ)
    → IsAllocator a
    → InPool u a pages cnt
    → group (page_idx u a pages) cnt true (pool_of u a).used_map ≡ true
    → (b : Allocator) × (palloc_free_multiple pages cnt a ≡ ok b)
      × IsAllocator b
      × (used b n ≡ (used a n && not (within (pg_no pages) cnt n)))
palloc_free_multiple-frees true pages cnt a n w g all =
    let (m, mem, e, f) = give_back-Filled true pages cnt w g all in
    (
      with_map true m (record a { mem = mem }),
      choose true pages cnt w g ∙ e,
      map-IsAllocator true m mem f.size w,
      ground (
        arith,
        freed_in a.user_pool (page_idx true a pages) cnt m n f g.below,
        g.above,
        g.below,
        g.aligned,
        w.user.aligned,
        w.kernel.aligned,
        w.apart,
      ),
    )
palloc_free_multiple-frees false pages cnt a n w g all =
    let (m, mem, e, f) = give_back-Filled false pages cnt w g all in
    (
      with_map false m (record a { mem = mem }),
      choose false pages cnt w g ∙ e,
      map-IsAllocator false m mem f.size w,
      ground (
        arith,
        freed_in a.kernel_pool (page_idx false a pages) cnt m n f g.below,
        g.above,
        g.below,
        g.aligned,
        w.user.aligned,
        w.kernel.aligned,
        w.apart,
      ),
    )

-- `palloc_free_multiple` stops the kernel if a page of the group is not in use, as when it is freed a
-- second time.
pub palloc_free_multiple-unused :
    (u : Bool) (pages cnt : ℕ) (a : Allocator)
    → IsAllocator a
    → InPool u a pages cnt
    → group (page_idx u a pages) cnt true (pool_of u a).used_map ≡ false
    → palloc_free_multiple pages cnt a ≡ panic
unfolding give_back memset
palloc_free_multiple-unused u pages cnt a w g some_free =
    choose u pages cnt w g
    ∙ ground (
      arith,
      pages_ne u w g,
      bitmap_all-group (page_idx u a pages) cnt (pool_of u a).used_map g.below (small u w),
    )

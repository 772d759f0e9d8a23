-- ===== src/Pages/State.antt =====
-- threads/palloc.c: the two pools and the operations on them. `lock_acquire` and `lock_release` on the
-- lock of a pool stand around `bitmap_scan_and_flip` in the source; here each operation is one step.
use cs380l.Base.{
  ℕ, ◌+◌, ◌-◌, ◌*◌, ◌/◌, ◌%◌, ◌^◌, Bool, true, false, ◌||◌, ◌&&◌, none, some, ◌==◌, ltb, leb,
  if◌then◌else◌, Result, ok, panic, ◌>>=◌, ◌>>◌, assert,
}
use cs380l.Bitmap.State.{
  Bitmap, word, bitmap_buf_size, bitmap_create_in_buf, bitmap_scan_and_flip, bitmap_all,
  bitmap_set_multiple,
}
use cs380l.Strings.State.{Memory, memset}

abbrev pub pgsize : ℕ
pgsize = 4096

abbrev pub pg_ofs : ℕ → ℕ
pg_ofs va = va % pgsize

abbrev pub pg_no : ℕ → ℕ
pg_no va = va / pgsize

abbrev pub phys_base : ℕ
phys_base = 3 * 2 ^ 30

unfoldable pub ptov : ℕ → Result ℕ
ptov paddr = do assert (ltb paddr phys_base); ok (word (paddr + phys_base))

-- `struct pool`
pub record Pool : Type 0 where
  pub used_map : Bitmap
  pub base : ℕ

-- The bitmaps lie in pages of their own, which `mem` leaves out.
pub record Allocator : Type 0 where
  pub kernel_pool : Pool
  pub user_pool : Pool
  pub mem : Memory

-- `enum palloc_flags`
pub record Flags : Type 0 where
  pub pal_assert : Bool
  pub pal_zero : Bool
  pub pal_user : Bool

-- `block` is what the memory at the start of the pool holds.
unfoldable pub init_pool : ℕ → ℕ → (ℕ → ℕ) → Result Pool
init_pool base page_cnt block = do
  let bm_pages = word (bitmap_buf_size page_cnt + pgsize - 1) / pgsize
  assert (leb bm_pages page_cnt)
  used_map ← bitmap_create_in_buf (page_cnt - bm_pages) block (word (bm_pages * pgsize))
  ok (record { used_map = used_map; base = word (base + bm_pages * pgsize) })

-- `palloc_init` once it has counted the pages.
unfoldable pub make_pools : ℕ → ℕ → ℕ → (ℕ → ℕ) → (ℕ → ℕ) → Memory → Result Allocator
make_pools free_start free_pages user_page_limit kernel_block user_block mem = do
  let user_pages = if ltb user_page_limit (free_pages / 2) then user_page_limit else free_pages / 2
  let kernel_pages = free_pages - user_pages
  kernel_pool ← init_pool free_start kernel_pages kernel_block
  user_pool ← init_pool (word (free_start + kernel_pages * pgsize)) user_pages user_block
  ok (record { kernel_pool = kernel_pool; user_pool = user_pool; mem = mem })

unfoldable pub palloc_init : ℕ → ℕ → (ℕ → ℕ) → (ℕ → ℕ) → Memory → Result Allocator
palloc_init init_ram_pages user_page_limit kernel_block user_block mem = do
  free_start ← ptov (1024 * 1024)
  free_end ← ptov (word (init_ram_pages * pgsize))
  let free_pages = word (free_end + 2 ^ 32 - free_start) / pgsize
  make_pools free_start free_pages user_page_limit kernel_block user_block mem

-- The pool that `pool` points to.
abbrev pub pool_of : Bool → Allocator → Pool
pool_of pal_user a = if pal_user then a.user_pool else a.kernel_pool

abbrev pub with_map : Bool → Bitmap → Allocator → Allocator
with_map true m a = record a { user_pool = record a.user_pool { used_map = m } }
with_map false m a = record a { kernel_pool = record a.kernel_pool { used_map = m } }

-- No group of pages was found.
abbrev pub out_of_pages : Flags → Allocator → Result (ℕ × Allocator)
out_of_pages flags a = if flags.pal_assert then panic else ok (0, a)

-- The group at `pages` was found.
abbrev pub found_pages : Flags → ℕ → ℕ → Allocator → Result (ℕ × Allocator)
found_pages flags page_cnt pages a =
    if flags.pal_zero
    then (do
      (_, zeroed) ← memset pages 0 (word (pgsize * page_cnt)) a.mem
      ok (pages, record a { mem = zeroed }))
    else ok (pages, a)

unfoldable pub palloc_get_multiple : Flags → ℕ → Allocator → Result (ℕ × Allocator)
palloc_get_multiple flags page_cnt a = if page_cnt == 0 then ok (0, a) else (do
  (page_idx, used_map) ← bitmap_scan_and_flip 0 page_cnt false (pool_of flags.pal_user a).used_map
  let b = with_map flags.pal_user used_map a
  elim page_idx [
    | none ↦ out_of_pages flags b
    | some i ↦
        let pages = word ((pool_of flags.pal_user a).base + pgsize * i) in
        if pages == 0 then out_of_pages flags b else found_pages flags page_cnt pages b
  ])

unfoldable pub palloc_get_page : Flags → Allocator → Result (ℕ × Allocator)
palloc_get_page flags a = palloc_get_multiple flags 1 a

unfoldable pub page_from_pool : Pool → ℕ → Bool
page_from_pool pool page =
    leb (pg_no pool.base) (pg_no page) && ltb (pg_no page) (pg_no pool.base + pool.used_map.bit_cnt)

-- The pages go back to the pool that they come from.
unfoldable pub give_back : Bool → ℕ → ℕ → Allocator → Result Allocator
give_back pal_user pages page_cnt a = do
  let pool = pool_of pal_user a
  let page_idx = pg_no pages - pg_no pool.base
  (_, filled) ← memset pages 204 (word (pgsize * page_cnt)) a.mem
  used ← bitmap_all page_idx page_cnt pool.used_map
  assert used
  used_map ← bitmap_set_multiple page_idx page_cnt false pool.used_map
  ok (with_map pal_user used_map (record a { mem = filled }))

unfoldable pub palloc_free_multiple : ℕ → ℕ → Allocator → Result Allocator
palloc_free_multiple pages page_cnt a = do
  assert (pg_ofs pages == 0)
  if pages == 0 || page_cnt == 0
      then ok a
      else if page_from_pool a.kernel_pool pages
      then give_back false pages page_cnt a
      else if page_from_pool a.user_pool pages
      then give_back true pages page_cnt a
      else panic

unfoldable pub palloc_free_page : ℕ → Allocator → Result Allocator
palloc_free_page page a = palloc_free_multiple page 1 a

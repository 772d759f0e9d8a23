-- ===== src/Pages/Owners.antt =====
-- threads/palloc.c: a page is given out to one caller at a time.
use cs380l.Base.{
  ℕ, ◌+◌, ◌*◌, ◌^◌, ◌<◌, ◌≤◌, ◌≡◌, ◌≢◌, inl, inr, refl, Bool, true, false, ◌&&◌, Option, none, some,
  ◌==◌, leb, ok, arith, Bool-cases,
}
use cs380l.Bitmap.State.{Bitmap, word, bitmap_scan_and_flip}
use cs380l.Bitmap.Scan.{Flips, group, bitmap_scan_and_flip-Flips}
use cs380l.Strings.State.{Memory, memset, set_bytes}
use cs380l.Pages.State.{
  Allocator, Flags, pgsize, pool_of, with_map, found_pages, palloc_get_multiple,
}
use cs380l.Pages.Groups.{
  IsAllocator, Got, map-IsAllocator, taken_none, taken_some, fresh, address, elsewhere,
}

-- What `palloc_get_multiple` returns, for every page at once.
pub record Gets (cnt : ℕ) (a b : Allocator) (pages : ℕ) : Type 0 where
  pub valid : IsAllocator b
  pub got : (n : ℕ) → Got cnt a b pages n

found_pages_lem :
    (flags : Flags) (cnt pages : ℕ) (b : Allocator)
    → pages ≢ 0
    → (mem : Memory) × (found_pages flags cnt pages b ≡ ok (pages, record b { mem = mem }))
unfolding memset
found_pages_lem flags cnt pages b z = elim (Bool-cases flags.pal_zero) [
  | inl e ↦ (set_bytes (word (pgsize * cnt)) pages 0 b.mem, ground arith)
  | inr e ↦ (b.mem, ground arith)
]

module _ {a : Allocator} (w : IsAllocator a) (cnt : ℕ) (j : Bitmap) where
  none-Gets :
      (u : Bool) → Flips 0 cnt false (pool_of u a).used_map j none → Gets cnt a (with_map u j a) 0
  none-Gets true f = record {
    valid = map-IsAllocator true j a.mem f.size w;
    got = λ n. (refl, refl, ground (arith, taken_none a.user_pool w.user cnt j n f));
  }
  none-Gets false f = record {
    valid = map-IsAllocator false j a.mem f.size w;
    got = λ n. (refl, refl, ground (arith, taken_none a.kernel_pool w.kernel cnt j n f));
  }

  some-Gets :
      (u : Bool) (i : ℕ) (mem : Memory)
      → Flips 0 cnt false (pool_of u a).used_map j (some i)
      → 1 ≤ cnt
      → Gets cnt a (record (with_map u j a) { mem = mem }) ((pool_of u a).base + pgsize * i)
  some-Gets true i mem f one =
      let (late, inside, all, first) = f.place 0 in
      let (same, no_, ofs) = address a.user_pool w.user cnt j i f one in
      record {
        valid = map-IsAllocator true j mem f.size w;
        got = λ n. (
          ofs,
          ground (arith, fresh a.user_pool w.user cnt j i n f, elsewhere true cnt i n w inside),
          ground (arith, taken_some a.user_pool w.user cnt j i n f, w.user.low),
        );
      }
  some-Gets false i mem f one =
      let (late, inside, all, first) = f.place 0 in
      let (same, no_, ofs) = address a.kernel_pool w.kernel cnt j i f one in
      record {
        valid = map-IsAllocator false j mem f.size w;
        got = λ n. (
          ofs,
          ground
              (arith, fresh a.kernel_pool w.kernel cnt j i n f, elsewhere false cnt i n w inside),
          ground (arith, taken_some a.kernel_pool w.kernel cnt j i n f, w.kernel.low),
        );
      }

-- Position `k` of the pool does not start a free group, if no pages were returned.
abbrev pub Missing : Bool → ℕ → Allocator → ℕ → ℕ → Type 0
Missing u cnt a pages k =
    (pages == 0
      && leb (k + cnt) (pool_of u a).used_map.bit_cnt
      && group k cnt false (pool_of u a).used_map)
    ≡ false

pub small : {a : Allocator} (u : Bool) → IsAllocator a → (pool_of u a).used_map.bit_cnt < 2 ^ 32
small true w = omega (arith, w.user.high, w.user.low)
small false w = omega (arith, w.kernel.high, w.kernel.low)

base_ne : {a : Allocator} (u : Bool) (i : ℕ) → IsAllocator a → (pool_of u a).base + pgsize * i ≢ 0
base_ne true i w e = omega (arith, w.user.low)
base_ne false i w e = omega (arith, w.kernel.low)

address_of :
    {a : Allocator} (u : Bool) (cnt : ℕ) (j : Bitmap) (i : ℕ)
    → IsAllocator a
    → Flips 0 cnt false (pool_of u a).used_map j (some i)
    → 1 ≤ cnt
    → word ((pool_of u a).base + pgsize * i) ≡ (pool_of u a).base + pgsize * i
address_of {a} true cnt j i w f one =
    let (same, no_, ofs) = address a.user_pool w.user cnt j i f one in same
address_of {a} false cnt j i w f one =
    let (same, no_, ofs) = address a.kernel_pool w.kernel cnt j i f one in same

get-Gets :
    (flags : Flags) (cnt : ℕ) (a : Allocator) (r : Option ℕ) (j : Bitmap)
    → IsAllocator a
    → flags.pal_assert ≡ false
    → 1 ≤ cnt
    → bitmap_scan_and_flip 0 cnt false (pool_of flags.pal_user a).used_map ≡ ok (r, j)
    → Flips 0 cnt false (pool_of flags.pal_user a).used_map j r
    → (pages : ℕ) × (b : Allocator) × (palloc_get_multiple flags cnt a ≡ ok (pages, b))
      × Gets cnt a b pages
      × ((k : ℕ) → Missing flags.pal_user cnt a pages k)
unfolding palloc_get_multiple
get-Gets flags cnt a none j w quiet one e f = (
  0,
  with_map flags.pal_user j a,
  ground arith,
  none-Gets w cnt j flags.pal_user f,
  λ k. ground (arith, f.place k),
)
get-Gets flags cnt a (some i) j w quiet one e f =
    let u = flags.pal_user in
    let (mem, g) =
      found_pages_lem flags cnt ((pool_of u a).base + pgsize * i) (with_map u j a)
        (base_ne u i w) in
    (
      (pool_of u a).base + pgsize * i,
      record (with_map u j a) { mem = mem },
      ground (arith, address_of u cnt j i w f one, base_ne u i w),
      some-Gets w cnt j u i mem f one,
      λ k. ground (arith, base_ne u i w),
    )

pub palloc_get_multiple-Gets :
    (flags : Flags) (cnt : ℕ) (a : Allocator)
    → IsAllocator a
    → flags.pal_assert ≡ false
    → 1 ≤ cnt
    → (pages : ℕ) × (b : Allocator) × (palloc_get_multiple flags cnt a ≡ ok (pages, b))
      × Gets cnt a b pages
      × ((k : ℕ) → Missing flags.pal_user cnt a pages k)
palloc_get_multiple-Gets flags cnt a w quiet one =
    let (r, j, e, f) =
      bitmap_scan_and_flip-Flips 0 cnt false (pool_of flags.pal_user a).used_map (omega arith)
        (small flags.pal_user w) in
    get-Gets flags cnt a r j w quiet one e f

-- Without PAL_ASSERT, `palloc_get_multiple` returns a group of pages none of which was in use, and
-- marks them, and no others, as in use; or it returns the null pointer and marks none. The pools stay
-- valid, and no ASSERT fails.
pub palloc_get_multiple-fresh :
    (flags : Flags) (cnt : ℕ) (a : Allocator) (n : ℕ)
    → IsAllocator a
    → flags.pal_assert ≡ false
    → 1 ≤ cnt
    → (pages : ℕ) × (b : Allocator) × (palloc_get_multiple flags cnt a ≡ ok (pages, b))
      × IsAllocator b
      × Got cnt a b pages n
palloc_get_multiple-fresh flags cnt a n w quiet one =
    let (pages, b, e, g, m) = palloc_get_multiple-Gets flags cnt a w quiet one in
    (pages, b, e, g.valid, g.got n)

-- Without PAL_ASSERT, `palloc_get_multiple` returns the null pointer only if no position `k` of the
-- pool that the flags choose starts a group of free pages.
pub palloc_get_multiple-null :
    (flags : Flags) (cnt : ℕ) (a : Allocator) (k : ℕ)
    → IsAllocator a
    → flags.pal_assert ≡ false
    → 1 ≤ cnt
    → (pages : ℕ) × (b : Allocator) × (palloc_get_multiple flags cnt a ≡ ok (pages, b))
      × Missing flags.pal_user cnt a pages k
palloc_get_multiple-null flags cnt a k w quiet one =
    let (pages, b, e, g, m) = palloc_get_multiple-Gets flags cnt a w quiet one in (pages, b, e, m k)

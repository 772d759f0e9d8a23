-- ===== src/Pages/Tests.antt =====
-- Two pools of eight pages. Pages 0 and 1 of the kernel pool are in use.
use cs380l.Base.{ℕ, ◌*◌, ◌≡◌, refl, true, false, ok, arith}
use cs380l.Base.Bits.{bit}
use cs380l.Bitmap.Ranges.{range}
use cs380l.Pages.State.{Allocator, Flags, palloc_init, palloc_get_multiple, palloc_free_multiple}
use cs380l.Pages.Groups.{IsAllocator, used, Got}
use cs380l.Pages.Owners.{Missing, palloc_get_multiple-fresh, palloc_get_multiple-null}
use cs380l.Pages.Frees.{InPool, palloc_free_multiple-frees}
use cs380l.Pages.Init.{palloc_init-IsAllocator}

abbrev pools : Allocator
pools = record {
  kernel_pool = record { used_map = record { bit_cnt = 8; bits = λ w. 3 }; base = 4096 * 16 };
  user_pool = record { used_map = record { bit_cnt = 8; bits = λ w. 0 }; base = 4096 * 32 };
  mem = λ p. 0;
}

pools-IsAllocator : IsAllocator pools
pools-IsAllocator = record {
  kernel = record { aligned = omega arith; low = omega arith; high = omega arith };
  user = record { aligned = omega arith; low = omega arith; high = omega arith };
  apart = omega arith;
}

abbrev zeroed : Flags
zeroed = record { pal_assert = false; pal_zero = true; pal_user = false }

palloc_init-IsAllocator_example :
    (a : Allocator) × (palloc_init 1024 2000 (λ w. 7) (λ w. 9) (λ p. 0) ≡ ok a)
    × IsAllocator a
    × (used a 790000 ≡ false)
palloc_init-IsAllocator_example =
    palloc_init-IsAllocator 1024 2000 (λ w. 7) (λ w. 9) (λ p. 0) 790000 (omega arith) (omega arith)
      (omega arith)

palloc_get_multiple-fresh_example :
    (pages : ℕ) × (b : Allocator) × (palloc_get_multiple zeroed 2 pools ≡ ok (pages, b))
    × IsAllocator b
    × Got 2 pools b pages 18
palloc_get_multiple-fresh_example =
    palloc_get_multiple-fresh zeroed 2 pools 18 pools-IsAllocator refl (omega arith)

palloc_get_multiple-null_example :
    (pages : ℕ) × (b : Allocator) × (palloc_get_multiple zeroed 7 pools ≡ ok (pages, b))
    × Missing false 7 pools pages 1
palloc_get_multiple-null_example =
    palloc_get_multiple-null zeroed 7 pools 1 pools-IsAllocator refl (omega arith)

two_pages : InPool false pools 65536 2
two_pages = record {
  aligned = omega arith;
  some_page = omega arith;
  above = omega arith;
  below = omega arith;
}

palloc_free_multiple-frees_example :
    (b : Allocator) × (palloc_free_multiple 65536 2 pools ≡ ok b)
    × IsAllocator b
    × (used b 17 ≡ false)
unfolding range bit
palloc_free_multiple-frees_example =
    palloc_free_multiple-frees false 65536 2 pools 17 pools-IsAllocator two_pages refl

three_pages : InPool false pools 65536 3
three_pages = record {
  aligned = omega arith;
  some_page = omega arith;
  above = omega arith;
  below = omega arith;
}

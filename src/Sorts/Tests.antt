-- ===== src/Sorts/Tests.antt =====
-- lib/stdlib.c: tests on elements of two bytes, which the first byte orders.
use Prim.Native.Nat.{compare, Ordering}
use cs380l.Base.{ℕ, ◌-◌, ◌≤◌, ◌≡◌, refl, Bool, Option, Result, ok, arith}
use cs380l.Files.Disk.{Buffer}
use cs380l.Sorts.State.{
  do_swap, swap_bytes, do_compare, build, extract, sort, binary_search, heapify,
}
use cs380l.Sorts.Keys.{IsOrder, keys}
use cs380l.Sorts.Counts.{passing, Reads}
use cs380l.Sorts.Phases.{sort-sorted}
use cs380l.Sorts.Searches.{Found, binary_search-Found}

abbrev by_first : Buffer → Buffer → Ordering
by_first p q = compare (p 0) (q 0)

abbrev first_byte : Buffer → ℕ
first_byte p = p 0

by_first-IsOrder : IsOrder by_first first_byte 2
by_first-IsOrder = record { agrees = λ p q. refl; reads = λ p q same. same 0 (omega arith) }

-- Four elements in descending order.
abbrev falling : Buffer
falling p = 20 - p

sort-sorted_example :
    (r : Buffer) × (sort by_first falling 4 2 ≡ ok r)
    × ((i j : ℕ)
        → 1 ≤ i
        → i ≤ j
        → j ≤ 4
        → keys by_first first_byte 2 by_first-IsOrder r i
          ≤ keys by_first first_byte 2 by_first-IsOrder r j)
    × ((test : Buffer → Bool) → Reads test 2 → passing test r 4 2 ≡ passing test falling 4 2)
sort-sorted_example = sort-sorted by_first first_byte 2 by_first-IsOrder falling 4 (omega arith)

-- Four elements in ascending order.
abbrev rising : Buffer
rising p = p

rising_sorted :
    (i j : ℕ)
    → 1 ≤ i
    → i ≤ j
    → j ≤ 4
    → keys by_first first_byte 2 by_first-IsOrder rising i
      ≤ keys by_first first_byte 2 by_first-IsOrder rising j
rising_sorted i j p q h = omega arith

-- The needle is 4.
abbrev needle : Buffer
needle k = 4

binary_search-Found_example :
    (r : Option ℕ) × (binary_search by_first needle rising 4 2 ≡ ok r)
    × Found by_first first_byte 2 by_first-IsOrder needle rising 4 (omega arith) rising_sorted r
binary_search-Found_example =
    binary_search-Found by_first first_byte 2 by_first-IsOrder needle rising 4 (omega arith)
      rising_sorted

abbrev bytes_after : Result Buffer → ℕ → ℕ
bytes_after (ok r) k = r k
bytes_after o k = 0

sorted_bytes : bytes_after (sort by_first falling 4 2) 0 ≡ 14
unfolding sort build extract heapify do_swap swap_bytes do_compare
sorted_bytes = refl

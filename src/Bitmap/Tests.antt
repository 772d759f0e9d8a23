-- ===== src/Bitmap/Tests.antt =====
-- A bitmap of 40 bits in two words.
use cs380l.Base.{ℕ, ◌≡◌, false, Option, ok, ◌==◌, if◌then◌else◌, arith}
use cs380l.Bitmap.State.{Bitmap, bitmap_scan, bitmap_scan_and_flip}
use cs380l.Bitmap.Words.{member}
use cs380l.Bitmap.Scan.{flipped, bitmap_scan_and_flip-flipped}

-- Bits 0, 1, 3 and 33 are on.
abbrev small : Bitmap
small = record { bit_cnt = 40; bits = λ w. if w == 0 then 11 else if w == 1 then 2 else 0 }

bitmap_scan_and_flip-flipped_example :
    (r : Option ℕ) × (j : Bitmap) × (bitmap_scan_and_flip 1 2 false small ≡ ok (r, j))
    × (bitmap_scan 1 2 false small ≡ ok r)
    × (j.bit_cnt ≡ 40)
    × (member 4 j ≡ flipped 2 false small 4 r)
bitmap_scan_and_flip-flipped_example =
    bitmap_scan_and_flip-flipped 1 2 false small 4 (omega arith) (omega arith)

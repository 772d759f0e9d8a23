-- ===== src/Random/Tests.antt =====
-- lib/random.c: tests.
use cs380l.Base.{false}
use cs380l.Files.Disk.{Buffer}
use cs380l.Random.State.{Random, random_bytes}
use cs380l.Random.Tables.{IsReady, Drawn, random_bytes-Drawn}

abbrev blank : Buffer
blank p = 0

-- The generator when the system starts.
abbrev new : Random
new = record { s = blank; s_i = 0; s_j = 0; inited = false }

random_bytes-Drawn_example :
    IsReady (random_bytes blank 4 new).1 × Drawn 0 4 blank (random_bytes blank 4 new).0
random_bytes-Drawn_example = random_bytes-Drawn blank 4 new (λ e. cc)

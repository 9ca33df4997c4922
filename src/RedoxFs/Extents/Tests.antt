-- ===== src/RedoxFs/Extents/Tests.antt =====
-- Runs of the loops over extents, and the theorems about them at concrete extents.
use origel.Base.{List, [], ◌∷◌, arith}
use origel.RedoxFs.Extents.{Extent, empty, remove_range}
use origel.RedoxFs.Extents.Cover.{Shrunk, remove_range-times}

-- Three blocks and some bytes from block 10 on, five blocks from block 20 on, and an empty extent.
abbrev extents : List Extent
extents = record { block = 10; length = 1600 } ∷ record { block = 20; length = 2560 } ∷ empty ∷ []

remove_range-times_example : Shrunk 22 21 2 extents (remove_range 21 2 extents)
remove_range-times_example =
    remove_range-times 22 21 2 extents
      ((omega arith, omega arith), ((omega arith, omega arith), ((omega arith, omega arith), tt)))
      (omega arith) (omega arith)

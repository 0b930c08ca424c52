-- ===== src/Tests/PartFile.antt =====
-- A part file in memory.
use downpour.Prelude.{◌≡◌, refl, ok}
use downpour.PartFile.{reopen, prepare, prepare_with, posix_fallocate}
use downpour.PartFile.Extent.{Reopened, reopen-never_shrinks}
use downpour.Tests.Memory.{MemoryFile, memory, memory-SizeLaws}

abbrev short : MemoryFile
short = record { size = 6; current = λ x. 0; synced = λ x. 0 }

extends_short : prepare memory short 10 ≡ (ok posix_fallocate, record short { size = 10 })
unfolding prepare prepare_with
extends_short = refl

reopen-never_shrinks_example : Reopened memory memory-SizeLaws short 10 (reopen memory short 10)
reopen-never_shrinks_example = reopen-never_shrinks memory memory-SizeLaws short 10

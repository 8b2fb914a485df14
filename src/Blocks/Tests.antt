-- ===== src/Blocks/Tests.antt =====
-- Filling and copying on the sample image
use unix_operation_system.Prelude.{◌+◌, ◌%◌, ◌≡◌, arith}
use unix_operation_system.Sample.{image, fname, buffer}
use unix_operation_system.Blocks.{memset, memcpy, Moved}
use unix_operation_system.Blocks.Words.{memset_top, memcpy_top, words-bytes}
use unix_operation_system.Blocks.Move.{memmove, memmove-Moved}

words-bytes_example :
    (memset_top 10 image (fname + 1) (300 % 256) ≡ memset image (fname + 1) 300 10)
    × (memcpy_top 10 image buffer fname ≡ memcpy image buffer fname 10)
words-bytes_example = words-bytes image (fname + 1) 300 10 buffer fname (omega arith)

-- The regions overlap.
memmove-Moved_example : Moved image (fname + 3) fname 10 (memmove image (fname + 3) fname 10).0
memmove-Moved_example = memmove-Moved image (fname + 3) fname 10

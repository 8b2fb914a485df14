-- ===== src/Numbers/Tests.antt =====
-- A number in its notation
use unix_operation_system.Prelude.{◌+◌, ◌≡◌, arith, some, length}
use unix_operation_system.Memory.{Memory, IsString, SameOutside}
use unix_operation_system.Sample.{image, buffer}
use unix_operation_system.Numbers.Buffer.{Holds, itoa_buffer-Holds}
use unix_operation_system.Numbers.{itoa, itoa_buffer}
use unix_operation_system.Numbers.Digits.{read_number, read_number-itoa}

read_number-itoa_example : read_number 16 (itoa 1018 16) 0 ≡ 1018
read_number-itoa_example = read_number-itoa 1018 16 (omega arith) (omega arith) (omega arith)

itoa_buffer-Holds_example :
    (m' : Memory) × (itoa_buffer image 1018 buffer 16 ≡ some m')
    × Holds m' buffer (itoa 1018 16)
    × IsString m' buffer (length (itoa 1018 16))
    × SameOutside buffer (length (itoa 1018 16) + 1) image m'
itoa_buffer-Holds_example =
    itoa_buffer-Holds image 1018 buffer 16 (omega arith) (omega arith) (omega arith)

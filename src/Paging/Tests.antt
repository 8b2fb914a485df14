-- ===== src/Paging/Tests.antt =====
-- Pages of the sample machine
use unix_operation_system.Prelude.{
  ℕ, ◌+◌, ◌≤◌, ◌≡◌, arith, false, true, not, ◌&&◌, none, some, if◌then◌else◌,
}
use unix_operation_system.Sample.{paging, placement}
use unix_operation_system.Paging.{paging_init, map_program}
use unix_operation_system.Paging.Translation.{translate}
use unix_operation_system.Paging.Initial.{is_mapped, paging_init-translate}
use unix_operation_system.Paging.Mapped.{program_start, map_program-Isolated, map_program-translate}

paging_init-translate_example :
    translate placement (paging_init placement paging) false 0xB9010
    ≡ (if not false && is_mapped 0xB9010 then some 0xB9010 else none)
paging_init-translate_example = paging_init-translate placement paging false 0xB9010 (omega arith)

abbrev pid : ℕ
pid = 2

abbrev offset : ℕ
offset = 0x48000

found_page :
    translate placement (map_program paging pid) true (program_start + offset) ≡ some 0xC48000
found_page = map_program-translate placement paging pid true offset (omega arith)

map_program-Isolated_example : (0x800000 ≤ 0xC48000) × (pid ≡ pid) × (offset ≡ offset)
map_program-Isolated_example =
    map_program-Isolated placement paging paging pid pid true true offset offset 0xC48000
      (omega arith) (omega arith) (omega arith) found_page found_page

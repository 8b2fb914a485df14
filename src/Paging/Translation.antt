-- ===== src/Paging/Translation.antt =====
-- How the processor finds an address, with large pages and no global ones, and what it finds once the
-- entries of student-distrib/paging.c, syscall.c and scheduling.c are set.
use unix_operation_system.Prelude.{
  ℕ, ◌+◌, ◌*◌, ◌/◌, ◌%◌, ◌<◌, ◌≡◌, arith, Bool, true, false, ◌&&◌, not, Option, none, some, ◌==◌,
  if◌then◌else◌,
}
use unix_operation_system.Paging.{PageEntry, Paging, Placement, of_val}

-- An entry lets an access pass, of a program if `user` is true.
abbrev pub allows : Bool → PageEntry → Bool
allows true e = (e.present == 1) && (e.user_supervisor == 1)
allows false e = e.present == 1

-- The page table that starts on a page
unfoldable pub table_on : Placement → Paging → ℕ → ℕ → PageEntry
table_on a g page i =
    if page == a.page_table_page
    then g.page_table i
    else if page == a.vid_page_table_page
    then g.vid_page_table i
    else of_val 0

-- The address in memory of `v`, by its directory entry
unfoldable pub walk : Placement → Paging → Bool → PageEntry → ℕ → Option ℕ
walk a g user e v =
    let t = table_on a g e.base_addr (v / 0x1000 % 0x400) in
    if not (allows user e)
    then none
    else if e.page_size == 1
    then some (0x400000 * e.base_addr + v % 0x400000)
    else if allows user t
    then some (0x1000 * t.base_addr + v % 0x1000)
    else none

-- The address in memory of the address `v` of a program or of the kernel, if there is one
unfoldable pub translate : Placement → Paging → Bool → ℕ → Option ℕ
translate a g user v = walk a g user (g.page_directory (v / 0x400000)) v

-- The entry is that of a large page that programs may use.
abbrev pub is_program_page : PageEntry → Bool
is_program_page e =
    (e.present == 1) && ((e.read_write == 1) && ((e.user_supervisor == 1) && (e.page_size == 1)))

pub translate-large :
    (a : Placement) (g : Paging) (user : Bool) (d o : ℕ)
    → is_program_page (g.page_directory d) ≡ true
    → o < 0x400000
    → translate a g user (0x400000 * d + o) ≡ some (0x400000 * (g.page_directory d).base_addr + o)
unfolding translate walk
translate-large a g user d o h lt =
    let at : (0x400000 * d + o) / 0x400000 ≡ d = omega arith in
    let off : (0x400000 * d + o) % 0x400000 ≡ o = omega arith in
    rw (at, off) (elim user [ true ↦ ground (arith, h) | false ↦ ground (arith, h) ])

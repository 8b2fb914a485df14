-- ===== src/Paging/Mapped.antt =====
-- What a program finds once its entries are set: paging_execute, page_halt and sys_vidmap of
-- student-distrib/syscall.c, and the scheduler of student-distrib/scheduling.c.
use unix_operation_system.Prelude.{
  ℕ, ◌+◌, ◌*◌, ◌/◌, ◌%◌, ◌^◌, ◌≤◌, ◌<◌, ◌≡◌, ◌≢◌, refl, sym, ◌∙◌, arith, Bool, true, false, none,
  some, ltb, ◌==◌, if◌then◌else◌, each_branch, Bool-cases, inl, inr, ne→==,
}
use unix_operation_system.Paging.{
  PageEntry, Paging, Placement, of_val, table_at, clear_entries, entry_number, set_user_page,
  map_program, map_video, vidmap, page_halt, video_memory,
}
use unix_operation_system.Paging.Translation.{allows, table_on, walk, translate, translate-large}
use unix_operation_system.Paging.Initial.{cleared, table_at-fields}

-- The addresses of a program, and those of its video page
abbrev pub program_start : ℕ
program_start = 0x08000000

abbrev pub video_start : ℕ
video_start = 0x08400000

-- The page on which a terminal's text stands when `display_term` is displayed
abbrev pub text_page : ℕ → ℕ → ℕ
text_page display_term t = if display_term == t then video_memory else video_memory + 0x1000 * t

pub map_program-translate :
    (a : Placement) (g : Paging) (pid : ℕ) (user : Bool) (o : ℕ)
    → o < 0x400000
    → translate a (map_program g pid) user (program_start + o) ≡ some (0x400000 * (pid + 1) + o)
unfolding map_program
map_program-translate a g pid user o lt =
    translate-large a (map_program g pid) user 32 o refl lt ∙ ground arith

-- The other addresses are found as before.
pub map_program-others :
    (a : Placement) (g : Paging) (pid : ℕ) (user : Bool) (v : ℕ)
    → v / 0x400000 ≢ 32
    → translate a (map_program g pid) user v ≡ translate a g user v
unfolding map_program translate walk table_on
map_program-others a g pid user v h = rw (ne→== (v / 0x400000) 32 h) refl

table_on-vid_page_table :
    (a : Placement) (g : Paging) (i : ℕ)
    → a.page_table_page ≢ a.vid_page_table_page
    → table_on a g a.vid_page_table_page i ≡ g.vid_page_table i
unfolding table_on
table_on-vid_page_table a g i d = ground (arith, d)

-- The directory entry of the video pages
walk-video :
    (a : Placement) (g : Paging) (user : Bool) (v : ℕ)
    → a.page_table_page ≢ a.vid_page_table_page
    → let t = g.vid_page_table (v / 0x1000 % 0x400) in
      walk a g user (table_at a.vid_page_table_page 7) v
      ≡ (if allows user t then some (0x1000 * t.base_addr + v % 0x1000) else none)
unfolding walk
walk-video a g true v d =
    rw
      (
        table_at-fields a.vid_page_table_page 7 (omega arith),
        table_on-vid_page_table a g (v / 0x1000 % 0x400) d,
      )
      refl
walk-video a g false v d =
    rw
      (
        table_at-fields a.vid_page_table_page 7 (omega arith),
        table_on-vid_page_table a g (v / 0x1000 % 0x400) d,
      )
      refl

set_user_page-found :
    (t : ℕ → PageEntry) (user : Bool) (d r o : ℕ)
    → let base = if d == r then video_memory / 2 ^ 12 else (video_memory + 0x1000 * r) / 2 ^ 12 in
      let e = set_user_page t 0 base 0 in
      (if allows user e then some (0x1000 * e.base_addr + o) else none) ≡ some (text_page d r + o)
unfolding set_user_page
set_user_page-found t true d r o =
    each_branch (λ b. some (0x1000 * b + o) ≡ some (text_page d r + o)) (d == r)
      (λ e. ground (arith, e)) (λ e. ground (arith, e))
set_user_page-found t false d r o =
    each_branch (λ b. some (0x1000 * b + o) ≡ some (text_page d r + o)) (d == r)
      (λ e. ground (arith, e)) (λ e. ground (arith, e))

pub map_video-translate :
    (a : Placement) (d r : ℕ) (g : Paging) (user : Bool) (o : ℕ)
    → a.page_table_page ≢ a.vid_page_table_page
    → o < 0x1000
    → translate a (map_video a d r g) user (video_start + o) ≡ some (text_page d r + o)
unfolding map_video translate
map_video-translate a d r g user o differ lt =
    let at : (video_start + o) / 0x400000 ≡ 33 = omega arith in
    let first : (video_start + o) / 0x1000 % 0x400 ≡ 0 = omega arith in
    let off : (video_start + o) % 0x1000 ≡ o = omega arith in
    rw at (
      walk-video a (map_video a d r g) user (video_start + o) differ
      ∙ rw (first, off) (set_user_page-found g.vid_page_table user d r o))

set_user_page-cleared :
    (t : ℕ → PageEntry) (base i : ℕ)
    → i < 1024
    → set_user_page (clear_entries entry_number t 0) 0 base i ≡ (
        if i == 0
        then record {
          present = 1;
          read_write = 1;
          user_supervisor = 1;
          page_size = 0;
          base_addr = base;
        }
        else of_val 0)
unfolding set_user_page of_val
set_user_page-cleared t base i lt = rw (cleared t 0 (omega arith)) (ground (arith, cleared t i lt))

entry_found :
    (t : ℕ → PageEntry) (i o base : ℕ) (user : Bool)
    → i < 1024
    → let e = set_user_page (clear_entries entry_number t 0) 0 base i in
      (if allows user e then some (0x1000 * e.base_addr + o) else none)
      ≡ (if i == 0 then some (0x1000 * base + o) else none)
unfolding of_val
entry_found t i o base true lt =
    rw (set_user_page-cleared t base i lt)
      (elim (Bool-cases (i == 0)) [ inl e ↦ rw e refl | inr e ↦ rw e refl ])
entry_found t i o base false lt =
    rw (set_user_page-cleared t base i lt)
      (elim (Bool-cases (i == 0)) [ inl e ↦ rw e refl | inr e ↦ rw e refl ])

text_page-base :
    (d r : ℕ)
    → 0x1000 * (if d == r then video_memory / 2 ^ 12 else (video_memory + 0x1000 * r) / 2 ^ 12)
      ≡ text_page d r
text_page-base d r = ground arith

first_page :
    (x o : ℕ)
    → o < 0x400000
    → let v = video_start + o in
      (if v / 0x1000 % 0x400 == 0 then some (x + v % 0x1000) else none)
      ≡ (if ltb o 0x1000 then some (x + o) else none)
first_page x o lt = ground (arith, lt)

-- In the 4 MB of the video page, a program and the kernel find, once sys_vidmap has set the entries,
-- only the first 4 kB, and these are the page on which the text of the running terminal stands: the
-- displayed one exactly when it is displayed. The two page tables must not be the same.
pub vidmap-translate :
    (a : Placement) (d r : ℕ) (g : Paging) (user : Bool) (o : ℕ)
    → a.page_table_page ≢ a.vid_page_table_page
    → o < 0x400000
    → translate a (vidmap a d r g) user (video_start + o)
      ≡ (if ltb o 0x1000 then some (text_page d r + o) else none)
unfolding vidmap map_video translate
vidmap-translate a d r g user o differ lt =
    let at : (video_start + o) / 0x400000 ≡ 33 = omega arith in
    let v = video_start + o in
    let base = if d == r then video_memory / 2 ^ 12 else (video_memory + 0x1000 * r) / 2 ^ 12 in
    let found =
      entry_found g.vid_page_table (v / 0x1000 % 0x400) (v % 0x1000) base user (omega arith) in
    rw at (
      walk-video a (vidmap a d r g) user v differ
      ∙ found
      ∙ rw (text_page-base d r) (first_page (text_page d r) o lt))

-- The large page of a program is behind the memory of the kernel, and programs of two processes have
-- no address in memory in common: what two processes find of their programs is at the same place only
-- for the same process and the same address.
pub map_program-Isolated :
    (a : Placement) (g g' : Paging) (pid pid' : ℕ) (user user' : Bool) (o o' x : ℕ)
    → 1 ≤ pid
    → o < 0x400000
    → o' < 0x400000
    → translate a (map_program g pid) user (program_start + o) ≡ some x
    → translate a (map_program g' pid') user' (program_start + o') ≡ some x
    → (0x800000 ≤ x) × (pid ≡ pid') × (o ≡ o')
map_program-Isolated a g g' pid pid' user user' o o' x some_pid lt lt' found found' =
    let here = sym (map_program-translate a g pid user o lt) ∙ found in
    let there = sym (map_program-translate a g' pid' user' o' lt') ∙ found' in
    let e : 0x400000 * (pid + 1) + o ≡ x = ground (arith, here) in
    let e' : 0x400000 * (pid' + 1) + o' ≡ x = ground (arith, there) in
    (omega arith, omega arith, omega arith)

allows-absent : (user : Bool) (e : PageEntry) → e.present ≡ 0 → allows user e ≡ false
allows-absent true e h = rw h refl
allows-absent false e h = rw h refl

page_halt-hidden :
    (a : Placement) (g : Paging) (parent : ℕ) (user : Bool) (o : ℕ)
    → a.page_table_page ≢ a.vid_page_table_page
    → g.page_directory 33 ≡ table_at a.vid_page_table_page 7
    → o < 0x1000
    → translate a (page_halt g parent) user (video_start + o) ≡ none
unfolding page_halt translate map_program
page_halt-hidden a g parent user o differ mapped lt =
    let at : (video_start + o) / 0x400000 ≡ 33 = omega arith in
    let first : (video_start + o) / 0x1000 % 0x400 ≡ 0 = omega arith in
    let found = walk-video a (page_halt g parent) user (video_start + o) differ in
    rw (at, mapped)
      (found ∙ rw (first, allows-absent user ((page_halt g parent).vid_page_table 0) refl) refl)

-- After page_halt the program's addresses are the parent's, and the video page is gone, if it was mapped
-- as sys_vidmap and the scheduler map it.
pub page_halt-translate :
    (a : Placement) (g : Paging) (parent : ℕ) (user : Bool) (o o' : ℕ)
    → a.page_table_page ≢ a.vid_page_table_page
    → g.page_directory 33 ≡ table_at a.vid_page_table_page 7
    → o < 0x400000
    → o' < 0x1000
    → (translate a (page_halt g parent) user (program_start + o)
        ≡ some (0x400000 * (parent + 1) + o))
      × (translate a (page_halt g parent) user (video_start + o') ≡ none)
unfolding page_halt translate map_program
page_halt-translate a g parent user o o' differ mapped lt first = (
  translate-large a (page_halt g parent) user 32 o refl lt ∙ ground arith,
  page_halt-hidden a g parent user o' differ mapped first,
)

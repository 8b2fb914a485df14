-- ===== src/Paging.antt =====
-- The page directory and the page tables of student-distrib/paging.c, and the entries that
-- student-distrib/syscall.c and student-distrib/scheduling.c set. A table is known by the number of
-- the page on which it starts.
pub mod Translation
pub mod Initial
pub mod Mapped
mod Tests
use unix_operation_system.Prelude.{
  ℕ, zero, suc, ◌+◌, ◌*◌, ◌/◌, ◌%◌, ◌^◌, ◌≢◌, ◌==◌, if◌then◌else◌, update,
}

-- A page table entry or a directory entry, by the fields that the kernel sets. The base of a large
-- page counts pages of 4 MB, any other base pages of 4 kB.
pub record PageEntry : Type 0 where
  pub present : ℕ
  pub read_write : ℕ
  pub user_supervisor : ℕ
  pub page_size : ℕ
  pub base_addr : ℕ

pub record Paging : Type 0 where
  pub page_directory : ℕ → PageEntry
  pub page_table : ℕ → PageEntry
  pub vid_page_table : ℕ → PageEntry

-- Where the linker has put the two page tables
pub record Placement : Type 0 where
  pub page_table_page : ℕ
  pub vid_page_table_page : ℕ

abbrev pub entry_number : ℕ
entry_number = 1024

abbrev pub video_memory : ℕ
video_memory = 0xB8000

-- The entry of value `v`; `val` and the fields are one union.
pub of_val : ℕ → PageEntry
of_val v = record {
  present = v % 2;
  read_write = v / 2 % 2;
  user_supervisor = v / 4 % 2;
  page_size = v / 128 % 2;
  base_addr = v / 2 ^ 12;
}

-- `((uint32_t) table) | flags`, where the table starts on page `page` and the flags are below 4096
abbrev pub table_at : ℕ → ℕ → PageEntry
table_at page flags = of_val (2 ^ 12 * page + flags)

-- A loop that clears entries, `n` rounds before its bound
unfoldable pub clear_entries : ℕ → (ℕ → PageEntry) → ℕ → ℕ → PageEntry
clear_entries zero t index = t
clear_entries (suc n) t index = clear_entries n (update t index (of_val 0)) (index + 1)

-- The fields of a 4 kB page are set, of one for the kernel and of one for a program.
pub set_page : (ℕ → PageEntry) → ℕ → ℕ → ℕ → PageEntry
set_page t i base = update t i (record (t i) { present = 1; read_write = 1; base_addr = base })

pub set_user_page : (ℕ → PageEntry) → ℕ → ℕ → ℕ → PageEntry
set_user_page t i base =
    update t i (record (t i) { present = 1; read_write = 1; user_supervisor = 1; base_addr = base })

pub paging_init : Placement → Paging → Paging
unfolding set_page set_user_page
paging_init a g =
    let directory = clear_entries entry_number g.page_directory 0 in
    let table = clear_entries entry_number g.page_table 0 in
    let directory' = update directory 0 (table_at a.page_table_page 3) in
    let kernel = record (directory' 1) {
      present = 1;
      read_write = 1;
      page_size = 1;
      base_addr = 0x400000 / 2 ^ 22;
    } in
    let displayed = set_page table (video_memory / 2 ^ 12) (video_memory / 2 ^ 12) in
    let first = set_user_page displayed (0xB9000 / 2 ^ 12) (0xB9000 / 2 ^ 12) in
    let second = set_user_page first (0xBA000 / 2 ^ 12) (0xBA000 / 2 ^ 12) in
    record g {
      page_directory = update directory' 1 kernel;
      page_table = set_user_page second (0xBB000 / 2 ^ 12) (0xBB000 / 2 ^ 12);
    }

-- What paging_execute, page_halt and the scheduler set in the entry of the program
unfoldable pub map_program : Paging → ℕ → Paging
map_program g pid = record g {
  page_directory = update g.page_directory 32 (record (g.page_directory 32) {
    present = 1;
    read_write = 1;
    user_supervisor = 1;
    page_size = 1;
    base_addr = 0x400000 / 2 ^ 22 + pid;
  });
}

-- page_halt: the page of the parent is mapped, and no video page.
pub page_halt : Paging → ℕ → Paging
unfolding map_program
page_halt g parent_id =
    let g' = map_program g parent_id in
    record g' {
      vid_page_table = update g'.vid_page_table 0 (record (g'.vid_page_table 0) {
        present = 0;
        read_write = 0;
        user_supervisor = 0;
        base_addr = 0;
      });
    }

-- What sys_vidmap and the scheduler set: the video memory is mapped for the terminal that runs, to the
-- display if it is displayed, else to its own page.
unfoldable pub map_video : Placement → ℕ → ℕ → Paging → Paging
unfolding set_user_page
map_video a display_term running_term g = record g {
  page_directory = update g.page_directory 33 (table_at a.vid_page_table_page 7);
  vid_page_table = set_user_page g.vid_page_table 0 (
      if display_term == running_term
      then video_memory / 2 ^ 12
      else (video_memory + 0x1000 * running_term) / 2 ^ 12);
}

-- The first loop of sys_vidmap, and what it maps
pub vidmap : Placement → ℕ → ℕ → Paging → Paging
unfolding map_video
vidmap a display_term running_term g =
    map_video a display_term running_term
      (record g { vid_page_table = clear_entries entry_number g.vid_page_table 0 })

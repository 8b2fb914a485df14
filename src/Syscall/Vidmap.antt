-- ===== src/Syscall/Vidmap.antt =====
-- The video page of a program, and the calls on signals: the last part of
-- student-distrib/syscall.c.
use unix_operation_system.Prelude.{
  ℕ, ◌+◌, ◌<◌, ◌≡◌, ◌≢◌, arith, Bool, true, false, ◌||◌, none, some, ltb, ◌==◌, if◌then◌else◌,
  each_branch,
}
use unix_operation_system.Prelude.Int.{ℤ, pos, fail}
use unix_operation_system.Memory.{
  SameOutside, word32, store_word, store_word-outside, word32-store_word,
}
use unix_operation_system.Paging.{Placement, vidmap}
use unix_operation_system.Paging.Translation.{translate}
use unix_operation_system.Paging.Mapped.{video_start, text_page, vidmap-translate}
use unix_operation_system.State.{Kernel}

abbrev pub vidmap_lower_bound : ℕ
vidmap_lower_bound = 0x08000000

abbrev pub vidmap_upper_bound : ℕ
vidmap_upper_bound = 0x08400000

abbrev pub vidmap_new_address : ℕ
vidmap_new_address = 0x08400000

-- `screen_start == NULL || ...`
abbrev pub bad_pointer : ℕ → Bool
bad_pointer p = (p == 0) || (ltb p vidmap_lower_bound || ltb vidmap_upper_bound p)

unfoldable pub sys_vidmap : Placement → Kernel → ℕ → ℤ × Kernel
sys_vidmap a k screen_start = if bad_pointer screen_start then (fail, k) else (
  pos 0,
  record k {
    paging = vidmap a k.display_term k.running_term k.paging;
    memory = store_word k.memory screen_start vidmap_new_address;
  },
)

pub sys_set_handler : ℤ → ℕ → ℤ
sys_set_handler signum handler_address = fail

pub sys_sigreturn : ℤ
sys_sigreturn = fail

-- What a call that succeeds leaves: the address of the video page in the program's variable, nothing
-- else of memory changed, and at this address, for 4 kB, the text of the program's own terminal.
pub record Vidmapped (a : Placement) (k : Kernel) (screen_start : ℕ) (k' : Kernel) : Type 0 where
  pub address : word32 k'.memory screen_start ≡ video_start
  pub memory : SameOutside screen_start 4 k.memory k'.memory
  pub screen :
      (user : Bool) (o : ℕ)
      → o < 0x400000
      → translate a k'.paging user (video_start + o)
        ≡ (if ltb o 0x1000 then some (text_page k.display_term k.running_term + o) else none)

-- How a call ends, for the pointer `screen_start`
pub data VidmapOutcome (a : Placement) (k : Kernel) (screen_start : ℕ) : ℤ × Kernel → Type 0 where
  refused : bad_pointer screen_start ≡ true → VidmapOutcome a k screen_start (fail, k)
  accepted :
      (k' : Kernel)
      → bad_pointer screen_start ≡ false
      → Vidmapped a k screen_start k'
      → VidmapOutcome a k screen_start (pos 0, k')

-- sys_vidmap, for every argument: it fails with -1 and changes nothing when the variable is outside the
-- addresses from 0x08000000 to 0x08400000, and else returns 0, stores the address of the video page,
-- and maps there just the page on which the text of the running terminal stands. The two page tables
-- must not be the same.
pub sys_vidmap-VidmapOutcome :
    (a : Placement) (k : Kernel) (screen_start : ℕ)
    → a.page_table_page ≢ a.vid_page_table_page
    → VidmapOutcome a k screen_start (sys_vidmap a k screen_start)
unfolding sys_vidmap
sys_vidmap-VidmapOutcome a k screen_start differ =
    each_branch (VidmapOutcome a k screen_start) (bad_pointer screen_start) refused (λ good.
      accepted _ good (record {
        address = word32-store_word k.memory screen_start vidmap_new_address (omega arith);
        memory = store_word-outside k.memory screen_start vidmap_new_address;
        screen =
            λ user o lt. vidmap-translate a k.display_term k.running_term k.paging user o differ lt;
      }))

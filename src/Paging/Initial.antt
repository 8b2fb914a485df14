-- ===== src/Paging/Initial.antt =====
-- What is mapped when paging is turned on: paging_init of student-distrib/paging.c.
use unix_operation_system.Prelude.{
  ℕ, zero, suc, ◌+◌, ◌*◌, ◌/◌, ◌%◌, ◌^◌, ◌≤◌, ◌<◌, ◌≡◌, refl, ◌∙◌, arith, Bool, true, false, ◌&&◌,
  ◌||◌, not, none, some, ltb, leb, ◌==◌, if◌then◌else◌, each_branch, update, Bool-cases, inl, inr,
}
use unix_operation_system.Paging.{
  PageEntry, Paging, Placement, of_val, table_at, clear_entries, set_page, set_user_page,
  paging_init, entry_number,
}
use unix_operation_system.Paging.Translation.{table_on, walk, translate}

pub clear_entries_lem :
    (n : ℕ) (t : ℕ → PageEntry) (index p : ℕ)
    → clear_entries n t index p ≡ (if leb index p && ltb p (index + n) then of_val 0 else t p)
unfolding clear_entries
clear_entries_lem zero t index p = ground arith
clear_entries_lem (suc n) t index p =
    clear_entries_lem n (update t index (of_val 0)) (index + 1) p
    ∙ elim (Bool-cases (p == index)) [ inl e ↦ ground (arith, e) | inr e ↦ ground (arith, e) ]

pub cleared : (t : ℕ → PageEntry) (p : ℕ) → p < 1024 → clear_entries entry_number t 0 p ≡ of_val 0
cleared t p lt = clear_entries_lem entry_number t 0 p ∙ ground (arith, lt)

-- The entry of a 4 kB page at its own address
abbrev identity_page : ℕ → ℕ → PageEntry
identity_page user i = record {
  present = 1;
  read_write = 1;
  user_supervisor = user;
  page_size = 0;
  base_addr = i;
}

abbrev kernel_page : PageEntry
kernel_page = record {
  present = 1;
  read_write = 1;
  user_supervisor = 0;
  page_size = 1;
  base_addr = 1;
}

paging_init-directory :
    (a : Placement) (g : Paging) (d : ℕ)
    → d < 1024
    → (paging_init a g).page_directory d
      ≡ (if d == 1 then kernel_page else if d == 0 then table_at a.page_table_page 3 else of_val 0)
unfolding paging_init of_val
paging_init-directory a g d lt =
    let c = cleared g.page_directory d lt in
    let c1 = cleared g.page_directory 1 (omega arith) in
    rw c1 (elim (Bool-cases (d == 1)) [
      | inl e ↦ ground (arith, e)
      | inr e ↦ elim (Bool-cases (d == 0)) [
        | inl z ↦ ground (arith, e, z)
        | inr z ↦ ground (arith, e, z, c)
      ]
    ])

paging_init-table :
    (a : Placement) (g : Paging) (i : ℕ)
    → i < 1024
    → (paging_init a g).page_table i ≡ (
        if i == 0xB8
        then identity_page 0 i
        else if leb 0xB9 i && leb i 0xBB
        then identity_page 1 i
        else of_val 0)
unfolding paging_init of_val set_page set_user_page
paging_init-table a g i lt =
    let zero_at = λ (p : ℕ). cleared g.page_table p in
    rw
      (
        zero_at 0xB8 (omega arith),
        zero_at 0xB9 (omega arith),
        zero_at 0xBA (omega arith),
        zero_at 0xBB (omega arith),
      )
      (ground (arith, zero_at i lt))

-- The pages that the kernel finds: video memory, and the 4 MB from its own start
abbrev pub is_mapped : ℕ → Bool
is_mapped v = (leb 0xB8000 v && ltb v 0xBC000) || (leb 0x400000 v && ltb v 0x800000)

pub table_at-fields :
    (page flags : ℕ)
    → flags < 128
    → table_at page flags ≡ record {
      present = flags % 2;
      read_write = flags / 2 % 2;
      user_supervisor = flags / 4 % 2;
      page_size = 0;
      base_addr = page;
    }
unfolding of_val
table_at-fields page flags lt =
    let r : (2 ^ 12 * page + flags) % 2 ≡ flags % 2 = omega arith in
    let w : (2 ^ 12 * page + flags) / 2 % 2 ≡ flags / 2 % 2 = omega arith in
    let u : (2 ^ 12 * page + flags) / 4 % 2 ≡ flags / 4 % 2 = omega arith in
    let s : (2 ^ 12 * page + flags) / 128 % 2 ≡ 0 = omega arith in
    let b : (2 ^ 12 * page + flags) / 2 ^ 12 ≡ page = omega arith in rw (r, w, u, s, b) refl

table_on-page_table :
    (a : Placement) (g : Paging) (i : ℕ) → table_on a g a.page_table_page i ≡ g.page_table i
unfolding table_on
table_on-page_table a g i = ground arith

walk-kernel :
    (a : Placement) (g : Paging) (user : Bool) (v : ℕ)
    → v / 0x400000 ≡ 1
    → walk a g user kernel_page v ≡ (if not user && is_mapped v then some v else none)
unfolding walk
walk-kernel a g true v h = refl
walk-kernel a g false v h = ground (arith, h)

walk-absent :
    (a : Placement) (g : Paging) (user : Bool) (v : ℕ)
    → 2 ≤ v / 0x400000
    → walk a g user (of_val 0) v ≡ (if not user && is_mapped v then some v else none)
unfolding walk of_val
walk-absent a g true v h = refl
walk-absent a g false v h = ground (arith, h)

page_found :
    (v : ℕ)
    → v / 0x400000 ≡ 0
    → let i = v / 0x1000 % 0x400 in
      let e =
        if i == 0xB8
        then identity_page 0 i
        else if leb 0xB9 i && leb i 0xBB
        then identity_page 1 i
        else of_val 0 in
      (if e.present == 1 then some (0x1000 * e.base_addr + v % 0x1000) else none)
      ≡ (if is_mapped v then some v else none)
unfolding of_val
page_found v h =
    let i = v / 0x1000 % 0x400 in
    let P = λ (e : PageEntry).
      (if e.present == 1 then some (0x1000 * e.base_addr + v % 0x1000) else none)
      ≡ (if is_mapped v then some v else none) in
    each_branch P (i == 0xB8) (λ e. ground (arith, e, h))
      (λ n.
        each_branch P (leb 0xB9 i && leb i 0xBB) (λ e. ground (arith, e, h))
          (λ e. ground (arith, n, e, h)))

walk-table :
    (a : Placement) (g : Paging) (user : Bool) (v : ℕ)
    → v / 0x400000 ≡ 0
    → walk a (paging_init a g) user (table_at a.page_table_page 3) v
      ≡ (if not user && is_mapped v then some v else none)
unfolding walk
walk-table a g user v h =
    let i = v / 0x1000 % 0x400 in
    let found = table_on-page_table a (paging_init a g) i in
    let page = found ∙ paging_init-table a g i (omega arith) in
    elim user
      as (λ u.
        walk a (paging_init a g) u (table_at a.page_table_page 3) v
        ≡ (if not u && is_mapped v then some v else none)) [
          | true ↦ rw (table_at-fields a.page_table_page 3 (omega arith)) refl
          | false ↦ rw (table_at-fields a.page_table_page 3 (omega arith), page) (page_found v h)
        ]

-- Once paging_init has run, the kernel finds exactly the four pages of video memory and its own 4 MB,
-- each at its own address, and a program finds nothing, for all addresses of 32 bits.
pub paging_init-translate :
    (a : Placement) (g : Paging) (user : Bool) (v : ℕ)
    → v < 2 ^ 32
    → translate a (paging_init a g) user v ≡ (if not user && is_mapped v then some v else none)
unfolding translate
paging_init-translate a g user v lt =
    rw (paging_init-directory a g (v / 0x400000) (omega arith))
      (elim (Bool-cases (v / 0x400000 == 1)) [
        | inl one ↦ rw one (walk-kernel a (paging_init a g) user v (ground (arith, one)))
        | inr n ↦ rw n (elim (Bool-cases (v / 0x400000 == 0)) [
          | inl z ↦ rw z (walk-table a g user v (ground (arith, z)))
          | inr z ↦ rw z (walk-absent a (paging_init a g) user v (ground (arith, n, z)))
        ])
      ])

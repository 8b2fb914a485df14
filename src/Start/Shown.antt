-- ===== src/Start/Shown.antt =====
-- What entry of student-distrib/kernel.c prints keeps the positions on the page.
use Prim.Native.String.{String}
use unix_operation_system.Prelude.{
  ℕ, zero, suc, ◌+◌, ◌%◌, ◌^◌, ◌<◌, ◌≤◌, ◌≡◌, refl, arith, Option, some, List, [], ◌∷◌, each_branch,
  both_branches, ltb,
}
use unix_operation_system.Memory.{Memory, word32, max_rounds, lt-max_rounds}
use unix_operation_system.Screen.{Screen}
use unix_operation_system.Screen.Position.{IsValid}
use unix_operation_system.Printf.Position.{printf-IsValid}
use unix_operation_system.Start.{
  MultibootInfo, check_flag, print_bytes, print_modules, print_map, print_first, print_second,
  print_lines,
}

pub print_lines-IsValid : (ls : List String) {s : Screen} → IsValid s → IsValid (print_lines ls s)
unfolding print_lines
print_lines-IsValid [] v = v
print_lines-IsValid (l ∷ ls) v = print_lines-IsValid ls (printf-IsValid l [] v)

print_bytes-IsValid :
    (n : ℕ) (m : Memory) (a : ℕ) {s : Screen} → IsValid s → IsValid (print_bytes n m a s)
unfolding print_bytes
print_bytes-IsValid zero m a v = v
print_bytes-IsValid (suc n) m a v = print_bytes-IsValid n m (a + 1) (printf-IsValid _ _ v)

print_modules-IsValid :
    (n : ℕ) (m : Memory) (i at : ℕ) {s : Screen} → IsValid s → IsValid (print_modules n m i at s)
unfolding print_modules
print_modules-IsValid zero m i at v = v
print_modules-IsValid (suc n) m i at v = print_modules-IsValid n m (i + 1) (at + 16) (
    printf-IsValid _ _
      (print_bytes-IsValid 16 m _ (printf-IsValid _ _ (printf-IsValid _ _ (printf-IsValid _ _ v)))))

-- The memory map of the boot loader lies within the addresses of 32 bits, and no entry leads out of them.
pub record MapFits (b : MultibootInfo) (m : Memory) : Type 0 where
  pub length : b.mmap_addr + b.mmap_length < 2 ^ 32
  pub steps :
      (a : ℕ) → b.mmap_addr ≤ a → a < b.mmap_addr + b.mmap_length → a + word32 m a + 4 < 2 ^ 32

-- A part that prints ends, with the positions on the page.
abbrev pub Printed : Option Screen → Type 0
Printed o = (s : Screen) × (o ≡ some s) × IsValid s

print_map-Printed :
    (b : MultibootInfo) (m : Memory) (f at : ℕ) {s : Screen}
    → MapFits b m
    → b.mmap_addr ≤ at
    → 1 ≤ f
    → b.mmap_addr + b.mmap_length < at + f
    → IsValid s
    → Printed (print_map f m at (b.mmap_addr + b.mmap_length) s)
unfolding print_map
print_map-Printed b m zero at fits lo some_round h v = absurd (omega (arith, some_round))
print_map-Printed b m (suc f) at {s} fits lo some_round h v =
    each_branch Printed (ltb at (b.mmap_addr + b.mmap_length))
      (λ inside.
        let small = fits.steps at lo (ground (arith, inside)) in
        let next : (at + word32 m at + 4) % 2 ^ 32 ≡ at + word32 m at + 4 = omega (arith, small) in
        rw next (
          print_map-Printed b m f (at + word32 m at + 4) fits (omega (arith, lo))
            (ground (arith, inside, h)) (omega (arith, h)) (printf-IsValid _ _ v)))
      (λ over. (s, refl, v))

pub print_first-IsValid :
    (b : MultibootInfo) (m : Memory) {s : Screen} → IsValid s → IsValid (print_first b m s)
unfolding print_first
print_first-IsValid b m v =
    let v1 = printf-IsValid _ _ v in
    let v2 = both_branches IsValid (check_flag b.flags 0) (printf-IsValid _ _ v1) v1 in
    let v3 = both_branches IsValid (check_flag b.flags 1) (printf-IsValid _ _ v2) v2 in
    let v4 = both_branches IsValid (check_flag b.flags 2) (printf-IsValid _ _ v3) v3 in
    both_branches IsValid (check_flag b.flags 3)
      (print_modules-IsValid b.mods_count m 0 b.mods_addr v4) v4

pub print_second-Printed :
    (b : MultibootInfo) (m : Memory) {s : Screen}
    → MapFits b m
    → IsValid s
    → Printed (print_second b m s)
unfolding print_second
print_second-Printed b m fits v =
    let whole : (b.mmap_addr + b.mmap_length) % 2 ^ 32 ≡ b.mmap_addr + b.mmap_length =
      omega (arith, fits.length) in
    let enough = lt-max_rounds (b.mmap_addr + b.mmap_length) fits.length in
    let v1 = both_branches IsValid (check_flag b.flags 5) (printf-IsValid _ _ v) v in
    both_branches Printed (check_flag b.flags 6)
      (rw whole (
        print_map-Printed b m max_rounds b.mmap_addr fits (omega arith) (omega (arith, enough))
          (omega (arith, enough)) (printf-IsValid _ _ v1)))
      (_, refl, v1)

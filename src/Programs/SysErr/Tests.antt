-- ===== src/Programs/SysErr/Tests.antt =====
-- A machine whose directory has an entry for itself and no other, with a process that has no open file
use Prim.Native.String.{String}
use unix_operation_system.Prelude.{
  ℕ, zero, suc, ◌≤◌, ◌<◌, refl, arith, none, List, [], ◌∷◌, ◌==◌, if◌then◌else◌, Bool-cases, inl,
  inr,
}
use unix_operation_system.Memory.{Memory, IsString, lt-max_rounds}
use unix_operation_system.Printf.{codes}
use unix_operation_system.Sample.{
  frame, boot, buffer, dentry, fname, missing, table, kernel, pcb, placement,
}
use unix_operation_system.FileSystem.Layout.{dir_entry, dir_bytes, filename_len}
use unix_operation_system.Strings.Compare.{SamePrefix}
use unix_operation_system.State.{Kernel}
use unix_operation_system.Programs.Machine.{Setting, kernel_calls}
use unix_operation_system.Programs.SysErr.{run_all}
use unix_operation_system.Programs.SysErr.States.{Fresh, Yields}
use unix_operation_system.Programs.SysErr.Lots.{run_all-passes}

abbrev setting : Setting
setting = record {
  others = record { clock = []; kernel = []; late = λ k. k };
  dentry = dentry;
  placement = placement;
  locals = frame.locals;
  ebp = 0;
  esp = 0;
  program = λ eip k. none;
  numbered = λ n k. none;
}

-- `.` is at `fname`, and any other text stands for `b`.
abbrev directory : Memory
directory p =
    if p == 4160
    then b'.'
    else if p == 4192
    then 1
    else if p == fname
    then b'.'
    else if p == missing
    then b'b'
    else 0

abbrev empty : ℕ
empty = 7000200

abbrev place : List ℕ → ℕ
place [] = empty
place (c ∷ []) = if c == b'.' then fname else missing
place (c ∷ d ∷ cs) = missing

abbrev size : List ℕ → ℕ
size [] = 0
size (c ∷ []) = 1
size (c ∷ d ∷ cs) = 1

abbrev literal : String → ℕ
literal t = place (codes t)

place-bounds : (cs : List ℕ) → (7000000 ≤ place cs) × (size cs ≤ 1)
place-bounds [] = omega arith
place-bounds (c ∷ []) = ground arith
place-bounds (c ∷ d ∷ cs) = omega arith

fname-IsString : IsString directory fname 1
fname-IsString = record { ends = refl; goes_on = λ i h. ground (arith, h) }

missing-IsString : IsString directory missing 1
missing-IsString = record { ends = refl; goes_on = λ i h. ground (arith, h) }

place-IsString : (cs : List ℕ) → IsString directory (place cs) (size cs)
place-IsString [] = record { ends = refl; goes_on = λ i h. absurd (omega (arith, h)) }
place-IsString (c ∷ []) = elim (Bool-cases (c == b'.')) [
  | inl e ↦ rw e fname-IsString
  | inr e ↦ rw e missing-IsString
]
place-IsString (c ∷ d ∷ cs) = missing-IsString

abbrev machine : Kernel
machine = record kernel {
  memory = directory;
  pcb = λ i. record (pcb i) {
    fd_entry = λ j. record (table j) { flag = if j == 0 then 1 else if j == 1 then 1 else 0 };
  };
}

missing-absent :
    (i : ℕ) → i < dir_bytes → ¬ SamePrefix directory missing (dir_entry boot i) filename_len
missing-absent i h same =
    let first = same 0 (omega arith) (λ j l. absurd (omega (arith, l))) in
    absurd (ground (arith, first, h))

fname-first : SamePrefix directory fname (dir_entry boot 0) filename_len
fname-first zero h r = refl
fname-first (suc zero) h r = refl
fname-first (suc (suc i)) h r = absurd (r 1 (omega arith) refl)

machine-Fresh : Fresh literal dentry machine
machine-Fresh = record {
  stdout = refl;
  stdout_in_use = omega arith;
  used = λ fd lo hi. absurd (omega (arith, lo, hi));
  others = λ fd lo hi out. ground (arith, lo);
  placed = λ t. omega (arith, (place-bounds (codes t)).0);
  long = λ t. size (codes t);
  strings = λ t. place-IsString (codes t);
  fits = λ t. lt-max_rounds (size (codes t)) (omega (arith, (place-bounds (codes t)).1));
  empty = refl;
  some_dot = omega arith;
  not_helloo = missing-absent;
  not_shel = missing-absent;
  dot = 0;
  dot_long = 1;
  dot_first = record {
    within = omega arith;
    matches = fname-first;
    earlier = λ j l. absurd (omega (arith, l));
  };
  dot_entry = record {
    str = record { ends = refl; goes_on = λ i h. ground (arith, h) };
    short = omega arith;
    apart = omega arith;
  };
  dot_type = refl;
  some_dentry = omega arith;
  apart = λ t. omega (arith, place-bounds (codes t));
  image = omega arith;
}

run_all-passes_example :
    Yields (Fresh literal dentry) 0 (run_all (kernel_calls setting) buffer literal machine)
run_all-passes_example = run_all-passes setting buffer literal machine machine-Fresh

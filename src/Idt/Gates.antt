-- ===== src/Idt/Gates.antt =====
-- What the processor does at each interrupt once idt_init of student-distrib/idt.c has run.
use unix_operation_system.Prelude.{
  ℕ, zero, suc, ◌+◌, ◌*◌, ◌/◌, ◌%◌, ◌^◌, ◌≤◌, ◌<◌, ◌≡◌, refl, ◌∙◌, arith, Bool, true, false, ◌&&◌,
  Option, none, some, ltb, leb, ◌==◌, if◌then◌else◌, update, Bool-cases, inl, inr,
}
use unix_operation_system.Idt.{
  Gate, Handlers, reset_gate, reset_loop, exception_loop, set_exceptions, set_idt_entry,
  set_interrupt, add_intr_handler_setup, idt_init, num_vec, kernel_cs,
}

-- The type of a gate in four bits: 14 turns interrupts off, 15 leaves them as they are.
abbrev pub gate_type : Gate → ℕ
gate_type g = g.reserved3 + 2 * g.reserved2 + 4 * g.reserved1 + 8 * g.size

-- Where an interrupt that is raised at level `cpl` goes, and whether interrupts are off there; the
-- processor and the devices raise theirs at level 0, and an instruction of a program at level 3. The
-- gate must name the segment of the kernel's code.
unfoldable pub deliver : Gate → ℕ → Option (ℕ × Bool)
deliver g cpl =
    if (g.present == 1)
      && ((g.seg_selector == kernel_cs)
          && (leb cpl g.dpl && ((g.reserved0 == 0) && leb 14 (gate_type g))))
    then some (2 ^ 16 * g.offset_31_16 + g.offset_15_00, gate_type g == 14)
    else none

reset_loop_lem :
    (k : ℕ) (t : ℕ → Gate) (i n : ℕ)
    → reset_loop k t i n ≡ (if leb i n && ltb n (i + k) then reset_gate else t n)
unfolding reset_loop
reset_loop_lem zero t i n = ground arith
reset_loop_lem (suc k) t i n =
    reset_loop_lem k (update t i reset_gate) (i + 1) n
    ∙ elim (Bool-cases (n == i)) [ inl e ↦ ground (arith, e) | inr e ↦ ground (arith, e) ]

abbrev as_exception : Gate → Gate
as_exception g = record g { dpl = 0; present = 1; reserved3 = 1 }

exception_loop_lem :
    (k : ℕ) (t : ℕ → Gate) (i n : ℕ)
    → exception_loop k t i n ≡ (if leb i n && ltb n (i + k) then as_exception (t n) else t n)
unfolding exception_loop
exception_loop_lem zero t i n = ground arith
exception_loop_lem (suc k) t i n =
    exception_loop_lem k (update t i (as_exception (t i))) (i + 1) n
    ∙ elim (Bool-cases (n == i)) [ inl e ↦ ground (arith, e) | inr e ↦ ground (arith, e) ]

abbrev with_handler : Gate → ℕ → Gate
with_handler g a = record g { offset_31_16 = a / 2 ^ 16 % 2 ^ 16; offset_15_00 = a % 2 ^ 16 }

set_exceptions_lem :
    (k : ℕ) (h : ℕ → ℕ) (t : ℕ → Gate) (i n : ℕ)
    → set_exceptions k h t i n
      ≡ (if leb i n && ltb n (i + k) then with_handler (t n) (h n) else t n)
unfolding set_exceptions set_idt_entry
set_exceptions_lem zero h t i n = ground arith
set_exceptions_lem (suc k) h t i n =
    set_exceptions_lem k h (update t i (with_handler (t i) (h i))) (i + 1) n
    ∙ elim (Bool-cases (n == i)) [ inl e ↦ ground (arith, e) | inr e ↦ ground (arith, e) ]

-- The gate of an exception, of a device and of the system calls
abbrev gate : ℕ → ℕ → ℕ → Gate
gate kind level a = record (with_handler reset_gate a) {
  reserved3 = kind;
  dpl = level;
  present = 1;
}

reset : (t : ℕ → Gate) (n : ℕ) → n < 256 → reset_loop num_vec t 0 n ≡ reset_gate
reset t n lt = reset_loop_lem num_vec t 0 n ∙ ground (arith, lt)

exceptions-gate :
    (h : ℕ → ℕ) (t : ℕ → Gate) (n : ℕ)
    → n < 256
    → set_exceptions 20 h (exception_loop 20 (reset_loop num_vec t 0) 0) 0 n
      ≡ (if ltb n 20 then gate 1 0 (h n) else reset_gate)
exceptions-gate h t n lt =
    let within : (leb 0 n && ltb n (0 + 20)) ≡ ltb n 20 = ground arith in
    set_exceptions_lem 20 h (exception_loop 20 (reset_loop num_vec t 0) 0) 0 n
    ∙ rw (exception_loop_lem 20 (reset_loop num_vec t 0) 0 n, within, reset t n lt)
        (elim (Bool-cases (ltb n 20)) [ inl e ↦ rw e refl | inr e ↦ rw e refl ])

-- The gate of each vector
abbrev expected : Handlers → ℕ → Gate
expected h n =
    if n == 0x80
    then gate 1 3 h.syscall_handler
    else if n == 0x28
    then gate 0 0 h.rtc_handler_linkage
    else if n == 0x21
    then gate 0 0 h.keyboard_handler_linkage
    else if n == 0x20
    then gate 0 0 h.pit_handler_linkage
    else if ltb n 20
    then gate 1 0 (h.exception n)
    else reset_gate

idt_init-gate : (h : Handlers) (t : ℕ → Gate) (n : ℕ) → n < 256 → idt_init h t n ≡ expected h n
unfolding idt_init set_interrupt set_idt_entry add_intr_handler_setup
idt_init-gate h t n lt =
    let at = exceptions-gate h.exception t in
    rw
      (
        at 0x20 (omega arith),
        at 0x21 (omega arith),
        at 0x28 (omega arith),
        at 0x80 (omega arith),
        at n lt,
      )
      (elim (Bool-cases (n == 0x80)) [
        | inl e ↦ rw e refl
        | inr e ↦ rw e (elim (Bool-cases (n == 0x28)) [
          | inl e ↦ rw e refl
          | inr e ↦ rw e (elim (Bool-cases (n == 0x21)) [
            | inl e ↦ rw e refl
            | inr e ↦ rw e (elim (Bool-cases (n == 0x20)) [ inl e ↦ rw e refl | inr e ↦ rw e refl ])
          ])
        ])
      ])

gate-deliver :
    (kind level a cpl : ℕ)
    → kind ≤ 1
    → a < 2 ^ 32
    → deliver (gate kind level a) cpl ≡ (if leb cpl level then some (a, kind == 0) else none)
unfolding deliver
gate-deliver kind level a cpl k lt =
    let whole : 2 ^ 16 * (a / 2 ^ 16 % 2 ^ 16) + a % 2 ^ 16 ≡ a = omega arith in
    let some_type : leb 14 (gate_type (gate kind level a)) ≡ true = ground arith in
    let off : (gate_type (gate kind level a) == 14) ≡ (kind == 0) = ground arith in
    rw (whole, some_type, off)
      (elim (Bool-cases (leb cpl level)) [ inl e ↦ rw e refl | inr e ↦ rw e refl ])

absent-deliver : (cpl : ℕ) → deliver reset_gate cpl ≡ (if leb cpl 0 then none else none)
unfolding deliver
absent-deliver cpl = ground arith

-- The functions are in the address space.
pub record InSpace (h : Handlers) : Type 0 where
  pub exceptions : (n : ℕ) → h.exception n < 2 ^ 32
  pub pit : h.pit_handler_linkage < 2 ^ 32
  pub keyboard : h.keyboard_handler_linkage < 2 ^ 32
  pub rtc : h.rtc_handler_linkage < 2 ^ 32
  pub syscall : h.syscall_handler < 2 ^ 32

-- The function of a vector, and whether it starts with interrupts off
abbrev pub function_of : Handlers → ℕ → Option (ℕ × Bool)
function_of h n =
    if n == 0x80
    then some (h.syscall_handler, false)
    else if n == 0x28
    then some (h.rtc_handler_linkage, true)
    else if n == 0x21
    then some (h.keyboard_handler_linkage, true)
    else if n == 0x20
    then some (h.pit_handler_linkage, true)
    else if ltb n 20
    then some (h.exception n, false)
    else none

-- Once idt_init has run, for each of the 256 vectors: an exception goes to its own handler with
-- interrupts as they were, the timer, the keyboard and the clock to theirs with interrupts off, vector
-- 0x80 to that of the system calls, and any other nowhere; a program reaches none of them by an
-- instruction but 0x80, which it may use at every level up to 3. Addresses have 32 bits.
pub idt_init-deliver :
    (h : Handlers) (t : ℕ → Gate) (n cpl : ℕ)
    → InSpace h
    → n < 256
    → deliver (idt_init h t n) cpl
      ≡ (if leb cpl (if n == 0x80 then 3 else 0) then function_of h n else none)
idt_init-deliver h t n cpl v lt = rw (idt_init-gate h t n lt) (elim (Bool-cases (n == 0x80)) [
  | inl e ↦ rw e (gate-deliver 1 3 h.syscall_handler cpl (omega arith) v.syscall)
  | inr e ↦ rw e (elim (Bool-cases (n == 0x28)) [
    | inl e ↦ rw e (gate-deliver 0 0 h.rtc_handler_linkage cpl (omega arith) v.rtc)
    | inr e ↦ rw e (elim (Bool-cases (n == 0x21)) [
      | inl e ↦ rw e (gate-deliver 0 0 h.keyboard_handler_linkage cpl (omega arith) v.keyboard)
      | inr e ↦ rw e (elim (Bool-cases (n == 0x20)) [
        | inl e ↦ rw e (gate-deliver 0 0 h.pit_handler_linkage cpl (omega arith) v.pit)
        | inr e ↦ rw e (elim (Bool-cases (ltb n 20)) [
          | inl e ↦ rw e (gate-deliver 1 0 (h.exception n) cpl (omega arith) (v.exceptions n))
          | inr e ↦ rw e (absent-deliver cpl)
        ])
      ])
    ])
  ])
])

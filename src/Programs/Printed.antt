-- ===== src/Programs/Printed.antt =====
-- cat of syscalls/ece391cat.c on the kernel prints the file.
mod Tests
use unix_operation_system.Prelude.{
  ℕ, zero, suc, ◌+◌, ◌-◌, ◌≤◌, ◌<◌, ◌≡◌, ◌≢◌, refl, sym, ap, ◌∙◌, arith, false, some, List, [], ◌∷◌,
  ◌++◌, length, get_or, min, Bool-cases, inl, inr, ltb,
}
use unix_operation_system.Prelude.Int.{ℤ, pos, is_fail}
use unix_operation_system.Memory.{Memory, write}
use unix_operation_system.State.{Kernel}
use unix_operation_system.Syscall.{entry}
use unix_operation_system.Syscall.Calls.{Others, sys_open, sys_read, sys_write, returned}
use unix_operation_system.Process.{sys_getargs}
use unix_operation_system.Numbers.Buffer.{Holds}
use unix_operation_system.Programs.Reading.{Literals, cat}
use unix_operation_system.Programs.Pieces.{Plain, Serves, joined, cat-joined}
use unix_operation_system.Programs.Bytes.{
  bytes_from, length-bytes_from, get_or-bytes_from, bytes_from-append,
}
use unix_operation_system.Programs.Printing.{
  SameOutput, SameOutput-trans, put_text, put_text-append, terminal_write-text,
}
use unix_operation_system.Programs.Spelled.{
  CanPrint, Shown, own_col, own_row, last_row, put_text-Shown,
}
use unix_operation_system.Programs.Machine.{Setting, kernel_calls, of_outcome}
use unix_operation_system.Programs.FileServes.{
  Rest, over, more, Ready, Reading, file_length, byte_of, serves_end, serves_piece, write_call,
}

Rest-cons :
    {size len : ℕ} {f : ℕ → ℕ} {at : ℕ} {p : List ℕ} {ps : List (List ℕ)}
    → Rest size len f at (p ∷ ps)
    → (at < len)
      × (p ≡ bytes_from f at (min size (len - at)))
      × Rest size len f (at + min size (len - at)) ps
Rest-cons (more at ps lt r) = (lt, refl, r)

Rest-nil : {size len : ℕ} {f : ℕ → ℕ} {at : ℕ} → Rest size len f at [] → len ≤ at
Rest-nil (over at h) = h

Rest-joined :
    {size len : ℕ} {f : ℕ → ℕ} {at : ℕ} {ps : List (List ℕ)}
    → at ≤ len
    → Rest size len f at ps
    → joined ps ≡ bytes_from f at (len - at)
Rest-joined {size} {len} {f} inside (over at h) =
    let none_left : len - at ≡ 0 = omega (arith, inside, h) in rw none_left refl
Rest-joined {size} {len} {f} inside (more at ps lt r) =
    let n = min size (len - at) in
    let whole : n + (len - (at + n)) ≡ len - at = omega (arith, lt) in
    ap (λ (xs : List ℕ). bytes_from f at n ++ xs) (Rest-joined (omega (arith, lt)) r)
    ∙ bytes_from-append f at n (len - (at + n))
    ∙ ap (bytes_from f at) whole

-- The pieces of a file, in `n` rounds or fewer
Rest-pieces :
    (size len : ℕ) (f : ℕ → ℕ) (n at : ℕ)
    → 1 ≤ size
    → len ≤ at + n
    → (ps : List (List ℕ)) × (length ps ≤ n) × Rest size len f at ps
Rest-pieces size len f zero at some_size h = ([], omega arith, over at (omega (arith, h)))
Rest-pieces size len f (suc n) at some_size h = elim (Bool-cases (ltb at len)) [
  | inl lt ↦
      let lt' : at < len = ground (arith, lt) in
      let (ps, few, r) =
        Rest-pieces size len f n (at + min size (len - at)) some_size
          (omega (arith, h, some_size, lt')) in
      (_, omega (arith, few), more at ps lt' r)
  | inr ge ↦ ([], omega arith, over at (ground (arith, ge)))
]

module _ {k0 : Kernel} {fd buf size d : ℕ} (ok : Ready k0 fd buf size d) (c : Setting) where
  serves_text :
      {k : Kernel} {ps : List (List ℕ)} {out : List ℕ} (text : List ℕ)
      → Reading k0 fd buf size d k ps out
      → Holds (k.memory) buf text
      → (ret : ℤ) × (k' : Kernel) × (of_outcome (sys_write k (pos 1) buf (pos (length text)))
          ≡ some (ret, k'))
        × (is_fail ret ≡ false)
        × Reading k0 fd buf size d k' ps (out ++ text)
  serves_text {k} {ps} {out} text v held =
      let (ret, e) =
        terminal_write-text k0 k buf d text v.output (omega (arith, ok.buffer)) held v.nul
          ok.within in
      (
        pos ret,
        _,
        write_call ok v (length text) ∙ e,
        refl,
        record {
          at = v.at;
          output = record {
            display = v.output.display;
            running = v.output.running;
            process = v.output.process;
            write_flag = v.output.write_flag;
          };
          pointer = v.pointer;
          boot = v.boot;
          image = v.image;
          nul = v.nul;
          stdout = v.stdout;
          file = v.file;
          screen = ap (put_text k0 text) v.screen ∙ sym (put_text-append k0 out text k0.screen);
          rest = v.rest;
        },
      )

  serves_store :
      {k : Kernel} {ps : List (List ℕ)} {out : List ℕ} (i a : ℕ)
      → i ≤ size
      → Reading k0 fd buf size d k ps out
      → Reading k0 fd buf size d (record k { memory = write (k.memory) (buf + i) a }) ps out
  serves_store {k} {ps} {out} i a inside v = record {
    at = v.at;
    output = record {
      display = v.output.display;
      running = v.output.running;
      process = v.output.process;
      write_flag = v.output.write_flag;
    };
    pointer = v.pointer;
    boot = v.boot;
    image = λ a lo hi. ground (arith, v.image a lo hi, ok.image, inside, lo, hi);
    nul = ground (arith, v.nul, ok.behind, inside);
    stdout = v.stdout;
    file = v.file;
    screen = v.screen;
    rest = v.rest;
  }

  -- The calls of the kernel serve an open text file in pieces as long as the buffer.
  pub kernel_calls-Serves : Serves (kernel_calls c) buf size (pos fd) (Reading k0 fd buf size d)
  kernel_calls-Serves = record {
    piece = λ {s} {p} {ps} {out} v.
        let (lt, e, r) = Rest-cons v.rest in
        let n = min size (file_length k0 fd - v.at) in
        let long = length-bytes_from (byte_of k0 fd) v.at n in
        rw e (
          rw long (omega (arith, lt, ok.some_size)),
          rw long (omega arith),
          λ i h z.
              let h' : i < n = rw long at h in
              ok.plain (v.at + i) (omega (arith, h'))
                (sym (get_or-bytes_from (byte_of k0 fd) v.at n i h') ∙ z),
        );
    reads = λ {s} {p} {ps} {out} v.
        let (lt, e, r) = Rest-cons v.rest in rw e (serves_piece ok v c.others lt ps r);
    ends = λ {s} {out} v. (s, serves_end ok v c.others (Rest-nil v.rest), v);
    writes = λ {s} {ps} {out} text v plain held. serves_text text v held;
    stores = λ {s} {ps} {out} i a inside v. (refl, serves_store i a inside v);
  }

-- What cat puts out is the file.
cat-put_text :
    (c : Setting) (l : Literals) (f fd d : ℕ) (k k1 k2 : Kernel)
    → sys_getargs k l.buf 1024 ≡ (pos 0, k1)
    → sys_open k1 c.dentry l.buf ≡ returned (pos fd) k2
    → Ready k2 fd (l.buf) 1024 d
    → file_length k2 fd < f
    → (end : Kernel) × (cat (kernel_calls c) l f k ≡ some (0, end))
      × (end.screen ≡ put_text k2 (bytes_from (byte_of k2 fd) 0 (file_length k2 fd)) k2.screen)
cat-put_text c l f fd d k k1 k2 got opened ok fuel =
    let len = file_length k2 fd in
    let (ps, few, rest) = Rest-pieces 1024 len (byte_of k2 fd) len 0 ok.some_size (omega arith) in
    let start : Reading k2 fd (l.buf) 1024 d k2 ps [] = record {
      at = 0;
      output = record { display = refl; running = refl; process = refl; write_flag = refl };
      pointer = refl;
      boot = refl;
      image = λ p lo hi. refl;
      nul = ok.nul;
      stdout = refl;
      file = ap (λ (a : ℕ). record (entry k2 fd) { file_pos = a }) ok.start;
      screen = refl;
      rest = rest;
    } in
    let (end, e, v) =
      cat-joined (kernel_calls c) l (pos fd) (Reading k2 fd (l.buf) 1024 d)
        (kernel_calls-Serves ok c) f k k1 k2 ps [] (ap some got) (ap of_outcome opened) refl start
        (omega (arith, few, fuel)) in
    (
      end,
      e,
      v.screen
          ∙ ap (λ (text : List ℕ). put_text k2 text k2.screen)
              (Rest-joined (omega arith) rest
                ∙ ap (bytes_from (byte_of k2 fd) 0) {y = len} (omega arith)),
    )

-- When the kernel has the arguments of a process and opens the file that they name, a text file of the
-- image whose blocks are valid, the process may print (its terminal is not displayed, or runs two
-- processes, or the keyboard allows it), and the file does not go beyond the last row of the page from
-- where the position is: then cat ends and returns 0, within a round more than the file has characters,
-- and on the page of the process stands the whole file from that position on, each character in the cell
-- after the last, at the start of the next row behind a line break; the position is behind it, and below
-- the old position and from the new one on no byte of video memory has changed.
pub cat-prints :
    (c : Setting) (l : Literals) (f fd d : ℕ) (k k1 k2 : Kernel)
    → sys_getargs k l.buf 1024 ≡ (pos 0, k1)
    → sys_open k1 c.dentry l.buf ≡ returned (pos fd) k2
    → Ready k2 fd (l.buf) 1024 d
    → file_length k2 fd < f
    → CanPrint k2
    → own_col k2 k2.screen < 80
    → last_row
        (own_col k2 k2.screen)
        (own_row k2 k2.screen)
        (bytes_from (byte_of k2 fd) 0 (file_length k2 fd))
      < 25
    → (end : Kernel) × (cat (kernel_calls c) l f k ≡ some (0, end))
      × Shown k2 (bytes_from (byte_of k2 fd) 0 (file_length k2 fd)) k2.screen end.screen
cat-prints c l f fd d k k1 k2 got opened ok fuel can inside fits =
    let (end, e, screen) = cat-put_text c l f fd d k k1 k2 got opened ok fuel in
    let text = bytes_from (byte_of k2 fd) 0 (file_length k2 fd) in
    (end, e, rw screen (put_text-Shown k2 text k2.screen can inside fits))

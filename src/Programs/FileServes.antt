-- ===== src/Programs/FileServes.antt =====
-- sys_read of an open file and sys_write of the terminal, of student-distrib/syscall.c, do for a
-- program what it takes of the calls.
use unix_operation_system.Prelude.{
  ℕ, ◌+◌, ◌-◌, ◌*◌, ◌/◌, ◌≤◌, ◌<◌, ◌≡◌, ◌≢◌, refl, sym, ap, ◌∙◌, arith, true, false, some, List, [],
  ◌∷◌, length, leb, ◌==◌, min, each_branch, ltb, ne→==,
}
use unix_operation_system.Prelude.Int.{ℤ, pos}
use unix_operation_system.Memory.{Apart, max_rounds}
use unix_operation_system.Blocks.{memset}
use unix_operation_system.FileSystem.{read_data}
use unix_operation_system.FileSystem.Layout.{
  inode_length, dentry_size, block_bytes, data_block_num, data_block_size,
}
use unix_operation_system.FileSystem.Copying.{file_byte}
use unix_operation_system.State.{Kernel, FdEntry, file_op, terminal_stdout}
use unix_operation_system.Syscall.{entry, file_read, fd_max}
use unix_operation_system.Syscall.Calls.{Others, sys_read, sys_write, call_read, call_write, result}
use unix_operation_system.Terminal.{terminal_write}
use unix_operation_system.Programs.Machine.{of_outcome, of_outcome-after}
use unix_operation_system.Syscall.Files.{
  CanRead, image_bytes, readable, file_read-FileRead, length-same, block_num-same, byte-same,
}
use unix_operation_system.Numbers.Buffer.{Holds}
use unix_operation_system.Programs.Bytes.{bytes_from, length-bytes_from, get_or-bytes_from}
use unix_operation_system.Programs.Printing.{SameOutput, put_text, SameOutput-trans}

-- The file at a descriptor: its length, and its bytes
abbrev pub file_length : Kernel → ℕ → ℕ
file_length k fd = inode_length k.memory k.boot_block_ptr (entry k fd).inode_num

abbrev pub byte_of : Kernel → ℕ → ℕ → ℕ
byte_of k fd = file_byte k.memory k.boot_block_ptr (entry k fd).inode_num k.memory

-- The text that is left to read from a position on, in pieces of `size` bytes
pub data Rest (size len : ℕ) (f : ℕ → ℕ) : ℕ → List (List ℕ) → Type 0 where
  over : (at : ℕ) → len ≤ at → Rest size len f at []
  more :
      (at : ℕ) (ps : List (List ℕ))
      → at < len
      → Rest size len f (at + min size (len - at)) ps
      → Rest size len f at (bytes_from f at (min size (len - at)) ∷ ps)

-- A program of a terminal has opened a text file, and has a buffer for `size` bytes, or one more,
-- outside the image; somewhere behind the buffer, at `buf + d`, is a NUL.
pub record Ready (k : Kernel) (fd buf size d : ℕ) : Type 0 where
  pub low : 2 ≤ fd
  pub high : fd ≤ 7
  pub is_file : (entry k fd).fot_ptr ≡ file_op
  pub in_use : (entry k fd).flag ≢ 0
  pub start : (entry k fd).file_pos ≡ 0
  pub stdout : (entry k 1).fot_ptr ≡ terminal_stdout
  pub stdout_in_use : (entry k 1).flag ≢ 0
  pub inode : (entry k fd).inode_num < dentry_size
  pub short : file_length k fd ≤ block_bytes * data_block_size
  pub blocks :
      (idx : ℕ)
      → idx * block_bytes < file_length k fd
      → data_block_num k.memory k.boot_block_ptr (entry k fd).inode_num idx ≤ data_block_size
  pub plain : (p : ℕ) → p < file_length k fd → byte_of k fd p ≢ 0
  pub some_size : 1 ≤ size
  pub small : size ≤ 1024
  pub buffer : 0 < buf
  pub boot : 0 < k.boot_block_ptr
  pub image : Apart k.boot_block_ptr image_bytes buf (size + 1)
  pub behind : size < d
  pub within : d < max_rounds
  pub nul : k.memory (buf + d) ≡ 0

-- The state while the program runs
pub record Reading (k0 : Kernel) (fd buf size d : ℕ) (k : Kernel) (ps : List (List ℕ))
    (out : List ℕ) : Type 0 where
  pub at : ℕ
  pub output : SameOutput k0 k
  pub pointer : k.current_pcb_pointer ≡ k0.current_pcb_pointer
  pub boot : k.boot_block_ptr ≡ k0.boot_block_ptr
  pub image :
      (p : ℕ)
      → k0.boot_block_ptr ≤ p
      → p < k0.boot_block_ptr + image_bytes
      → k.memory p ≡ k0.memory p
  pub nul : k.memory (buf + d) ≡ 0
  pub stdout : entry k 1 ≡ entry k0 1
  pub file : entry k fd ≡ record (entry k0 fd) { file_pos = at }
  pub screen : k.screen ≡ put_text k0 out k0.screen
  pub rest : Rest size (file_length k0 fd) (byte_of k0 fd) at ps

-- file_read changes memory and the position only.
pub record Kept (k : Kernel) (fd : ℕ) (k' : Kernel) : Type 0 where
  pub output : SameOutput k k'
  pub pointer : k'.current_pcb_pointer ≡ k.current_pcb_pointer
  pub boot : k'.boot_block_ptr ≡ k.boot_block_ptr
  pub screen : k'.screen ≡ k.screen
  pub other : (i : ℕ) → i ≢ fd → entry k' i ≡ entry k i
  pub file : entry k' fd ≡ record (entry k fd) { file_pos = (entry k' fd).file_pos }

file_read-Kept : (k : Kernel) (fd buf n : ℕ) → Kept k fd (file_read k fd buf n).1
unfolding file_read
file_read-Kept k fd buf n =
    let e = entry k fd in
    let r = read_data (memset k.memory buf 0 n) k.boot_block_ptr e.inode_num e.file_pos buf n in
    each_branch (λ (r : ℤ × Kernel). Kept k fd r.1)
      (leb (inode_length k.memory k.boot_block_ptr e.inode_num) e.file_pos)
      (λ e. record {
        output = record { display = refl; running = refl; process = refl; write_flag = refl };
        pointer = refl;
        boot = refl;
        screen = refl;
        other = λ i ne. refl;
        file = refl;
      })
      (λ e. record {
        output = record { display = refl; running = refl; process = refl; write_flag = refl };
        pointer = refl;
        boot = refl;
        screen = refl;
        other = λ i ne. ground (arith, ne);
        file = ground arith;
      })

module _ {k0 : Kernel} {fd buf size d : ℕ} (ok : Ready k0 fd buf size d) where
  module _ {k : Kernel} {ps : List (List ℕ)} {out : List ℕ}
      (v : Reading k0 fd buf size d k ps out) where
    same_inode : (entry k fd).inode_num ≡ (entry k0 fd).inode_num
    same_inode = ap (λ (e : FdEntry). e.inode_num) v.file

    same_length : file_length k fd ≡ file_length k0 fd
    same_length =
        rw (v.boot, same_inode)
          (length-same k0.memory k.memory k0.boot_block_ptr (entry k0 fd).inode_num ok.inode
            v.image)

    same_position : (entry k fd).file_pos ≡ v.at
    same_position = ap (λ (e : FdEntry). e.file_pos) v.file

    same_block :
        (idx : ℕ)
        → idx < data_block_size
        → data_block_num k.memory k.boot_block_ptr (entry k fd).inode_num idx
          ≡ data_block_num k0.memory k0.boot_block_ptr (entry k0 fd).inode_num idx
    same_block idx h =
        rw (v.boot, same_inode)
          (block_num-same k0.memory k.memory k0.boot_block_ptr (entry k0 fd).inode_num ok.inode
            v.image idx h)

    same_byte : (p : ℕ) → p < file_length k0 fd → byte_of k fd p ≡ byte_of k0 fd p
    same_byte p h =
        rw (v.boot, same_inode)
          (byte-same k0.memory k.memory k0.boot_block_ptr (entry k0 fd).inode_num ok.inode v.image p
            (omega (arith, h, ok.short)) (ok.blocks (p / block_bytes) (omega (arith, h))))

    Reading-CanRead : v.at < file_length k0 fd → CanRead k fd buf size
    Reading-CanRead lt = record {
      inode = rw same_inode ok.inode;
      before_end = rw (same_position, same_length) lt;
      short = rw same_length ok.short;
      blocks = λ idx h.
          let h' : idx * block_bytes < file_length k0 fd = rw same_length at h in
          rw (same_block idx (omega (arith, h', ok.short))) (ok.blocks idx h');
      fits = rw same_position (omega (arith, lt, ok.short, ok.small));
      buffer = ok.buffer;
      boot = rw v.boot ok.boot;
      image = rw v.boot (omega (arith, ok.image));
    }

    read_call :
        (o : Others)
        → of_outcome (sys_read o k (pos fd) buf (pos size)) ≡ some (file_read k fd buf size)
    unfolding sys_read call_read result
    read_call o =
        let is_file : (entry k fd).fot_ptr ≡ file_op =
          ap (λ (e : FdEntry). e.fot_ptr) v.file ∙ ok.is_file in
        let in_use : (entry k fd).flag ≢ 0 =
          λ z. ok.in_use (sym (ap (λ (e : FdEntry). e.flag) v.file) ∙ z) in
        let not_stdout : (fd == 1) ≡ false = ground (arith, ok.low) in
        let few : ltb fd_max fd ≡ false = ground (arith, ok.high) in
        rw (not_stdout, few, ne→== buf 0 (omega (arith, ok.buffer)), ne→== _ 0 in_use, is_file) refl

    pub write_call : (n : ℕ) → of_outcome (sys_write k (pos 1) buf (pos n)) ≡ terminal_write k buf n
    unfolding sys_write call_write result
    write_call n =
        let is_stdout : (entry k 1).fot_ptr ≡ terminal_stdout =
          ap (λ (e : FdEntry). e.fot_ptr) v.stdout ∙ ok.stdout in
        let in_use : (entry k 1).flag ≢ 0 =
          λ z. ok.stdout_in_use (sym (ap (λ (e : FdEntry). e.flag) v.stdout) ∙ z) in
        rw (ne→== buf 0 (omega (arith, ok.buffer)), ne→== _ 0 in_use, is_stdout)
          (of_outcome-after (terminal_write k buf n))

    pub serves_end :
        (o : Others)
        → file_length k0 fd ≤ v.at
        → of_outcome (sys_read o k (pos fd) buf (pos size)) ≡ some (pos 0, k)
    unfolding file_read
    serves_end o end =
        let past : leb (file_length k fd) (entry k fd).file_pos ≡ true =
          rw (same_length, same_position) (ground (arith, end)) in
        read_call o ∙ rw past refl

    -- A piece is read.
    pub serves_piece :
        (o : Others)
        → v.at < file_length k0 fd
        → let n = min size (file_length k0 fd - v.at) in
          let p = bytes_from (byte_of k0 fd) v.at n in
          (ps' : List (List ℕ))
          → Rest size (file_length k0 fd) (byte_of k0 fd) (v.at + n) ps'
          → (k' : Kernel) × (of_outcome (sys_read o k (pos fd) buf (pos size))
              ≡ some (pos (length p), k'))
            × Holds (k'.memory) buf p
            × Reading k0 fd buf size d k' ps' out
    serves_piece o lt ps' rest =
        let n = min size (file_length k0 fd - v.at) in
        let p = bytes_from (byte_of k0 fd) v.at n in
        let k' = (file_read k fd buf size).1 in
        let kept = file_read-Kept k fd buf size in
        let (count, r) = file_read-FileRead k fd buf size (Reading-CanRead lt) in
        let same_n : readable k fd size ≡ n = rw (same_length, same_position) refl in
        let long = length-bytes_from (byte_of k0 fd) v.at n in
        (
          k',
          read_call o ∙ ap (λ (c : ℤ). some (c, k')) (count ∙ ap pos (same_n ∙ sym long)),
          (λ i h.
              let h' : i < n = rw long at h in
              let h'' : i < readable k fd size = rw same_n h' in
              r.bytes i h''
              ∙ ap (λ (a : ℕ). byte_of k fd (a + i)) same_position
              ∙ same_byte (v.at + i) (omega (arith, h'))
              ∙ sym (get_or-bytes_from (byte_of k0 fd) v.at n i h')),
          record {
            at = v.at + n;
            output = SameOutput-trans v.output kept.output;
            pointer = kept.pointer ∙ v.pointer;
            boot = kept.boot ∙ v.boot;
            image = λ a lo hi. r.outside a (omega (arith, ok.image, lo, hi)) ∙ v.image a lo hi;
            nul = r.outside (buf + d) (omega (arith, ok.behind)) ∙ v.nul;
            stdout = kept.other 1 (omega (arith, ok.low)) ∙ v.stdout;
            file =
                kept.file
                ∙ ap (λ (a : ℕ). record (entry k fd) { file_pos = a })
                    (r.moved ∙ rw (same_n, same_position) refl)
                ∙ ap (λ (e : FdEntry). record e { file_pos = v.at + n }) v.file;
            screen = kept.screen ∙ v.screen;
            rest = rest;
          },
        )

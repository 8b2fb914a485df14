-- ===== src/Memory.antt =====
-- Memory as the C code sees it: a byte at each address, and C strings in it.
use unix_operation_system.Prelude.{
  ℕ, ◌+◌, ◌*◌, ◌/◌, ◌%◌, ◌^◌, ◌≤◌, ◌<◌, ◌≡◌, ◌≢◌, ◌⊎◌, arith, update,
}

-- An address is a number; nothing wraps, since no object reaches the end of the address space.
abbrev pub Memory : Type 0
Memory = ℕ → ℕ

-- `*(uint8_t*) a = v`
abbrev pub write : Memory → ℕ → ℕ → Memory
write = update

-- Rounds of a loop over a string. A string longer than the address space does not exist, so a
-- loop that uses up this number does not end.
unfoldable pub max_rounds : ℕ
max_rounds = 2 ^ 32

pub lt-max_rounds : (n : ℕ) → n < 2 ^ 32 → n < max_rounds
unfolding max_rounds
lt-max_rounds n h = h

-- At `s` stands a string of `n` characters with its NUL.
pub record IsString (m : Memory) (s n : ℕ) : Type 0 where
  pub ends : m (s + n) ≡ 0
  pub goes_on : (i : ℕ) → i < n → m (s + i) ≢ 0

-- The regions of `k` bytes at `a` and of `n` bytes at `b` have no byte in common.
abbrev pub Apart : ℕ → ℕ → ℕ → ℕ → Type 0
Apart a k b n = (a + k ≤ b) ⊎ (b + n ≤ a)

-- Outside the `n` bytes at `a`, two memories are the same.
abbrev pub SameOutside : ℕ → ℕ → Memory → Memory → Type 0
SameOutside a n m m' = (p : ℕ) → (p < a) ⊎ (a + n ≤ p) → m' p ≡ m p

-- The four bytes at `a`, least significant first, as a `uint32_t`.
abbrev pub word32 : Memory → ℕ → ℕ
word32 m a = m a + 256 * m (a + 1) + 65536 * m (a + 2) + 16777216 * m (a + 3)

-- A four-byte field is assigned from the one at `e`.
unfoldable pub copy_word : Memory → ℕ → ℕ → Memory
copy_word m d e =
    write (write (write (write m d (m e)) (d + 1) (m (e + 1))) (d + 2) (m (e + 2))) (d + 3)
      (m (e + 3))

pub copy_word-outside : (m : Memory) (d e p : ℕ) → (p < d) ⊎ (d + 4 ≤ p) → copy_word m d e p ≡ m p
unfolding copy_word
copy_word-outside m d e p o = ground arith

pub word32-copy_word : (m : Memory) (d e : ℕ) → word32 (copy_word m d e) d ≡ word32 m e
unfolding copy_word
word32-copy_word m d e = ground arith

pub word32-same :
    (m m' : Memory) (a : ℕ)
    → m' a ≡ m a
    → m' (a + 1) ≡ m (a + 1)
    → m' (a + 2) ≡ m (a + 2)
    → m' (a + 3) ≡ m (a + 3)
    → word32 m' a ≡ word32 m a
word32-same m m' a p q r s = rw (p, q, r, s)

pub word32-outside :
    (m : Memory) (d e a : ℕ) → (a + 4 ≤ d) ⊎ (d + 4 ≤ a) → word32 (copy_word m d e) a ≡ word32 m a
word32-outside m d e a o =
    word32-same m (copy_word m d e) a (copy_word-outside m d e a (omega arith))
      (copy_word-outside m d e (a + 1) (omega arith))
      (copy_word-outside m d e (a + 2) (omega arith))
      (copy_word-outside m d e (a + 3) (omega arith))

-- `*(uint32_t*) a = v`
unfoldable pub store_word : Memory → ℕ → ℕ → Memory
store_word m a v =
    write (write (write (write m a (v % 256)) (a + 1) (v / 256 % 256)) (a + 2) (v / 65536 % 256))
      (a + 3) (v / 16777216 % 256)

pub store_word-outside : (m : Memory) (a v : ℕ) → SameOutside a 4 m (store_word m a v)
unfolding store_word
store_word-outside m a v p o = ground arith

pub word32-store_word : (m : Memory) (a v : ℕ) → v < 2 ^ 32 → word32 (store_word m a v) a ≡ v
unfolding store_word
word32-store_word m a v lt = ground (arith, lt)

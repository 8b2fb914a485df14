-- ===== src/Printf.antt =====
-- printf of student-distrib/lib.c: its format is interpreted character by character.
pub mod Position
use Prim.Native.String
use Prim.Native.String.{String}
use Prim.Native.Char.{code}
use unix_operation_system.Prelude.{
  ℕ, zero, suc, ◌-◌, ◌%◌, ◌^◌, Bool, true, false, List, [], ◌∷◌, ◌++◌, ltb, ◌==◌, if◌then◌else◌,
  length,
}
use unix_operation_system.Numbers.{itoa}
use unix_operation_system.Screen.{Screen, putc, puts}

-- The arguments on the stack: a 32-bit word, or the characters of the string at an address
pub data Arg : Type 0 where
  word : ℕ → Arg
  text : List ℕ → Arg

-- The characters of a literal
abbrev pub codes : String → List ℕ
codes String.[] = []
codes (String.◌∷◌ c s) = code c ∷ codes s

-- The next argument read as a word, as a string, and the arguments after it
next_word : List Arg → ℕ
next_word [] = 0
next_word (word n ∷ args) = n
next_word (text s ∷ args) = 0

next_text : List Arg → List ℕ
next_text [] = []
next_text (word n ∷ args) = []
next_text (text s ∷ args) = s

rest_of : List Arg → List Arg
rest_of [] = []
rest_of (a ∷ args) = args

-- `%d`: the sign and the digits of an `int32_t`
signed_digits : ℕ → List ℕ
signed_digits n = if ltb n (2 ^ 31) then itoa n 10 else b'-' ∷ itoa (2 ^ 32 - n) 10

-- `%#x`: `k` zeros go in front of the digits.
zeros : ℕ → List ℕ → List ℕ
zeros zero cs = cs
zeros (suc k) cs = b'0' ∷ zeros k cs

-- Where the interpreter stands: at a character of the text, or behind a `%`, with or without a `#`
pub data Mode : Type 0 where
  plain directive alternate : Mode

is_alternate : Mode → Bool
is_alternate plain = false
is_alternate directive = false
is_alternate alternate = true

-- The conversions that end a directive; an unknown one prints nothing.
convert : Mode → ℕ → List Arg → Screen → Screen × List Arg
unfolding next_word next_text rest_of signed_digits zeros is_alternate
convert mode c args s =
    let digits = itoa (next_word args) 16 in
    if c == b'%'
    then (putc s b'%', args)
    else if c == b'x'
    then (
      puts s (if is_alternate mode then zeros (8 - length digits) digits else digits),
      rest_of args,
    )
    else if c == b'u'
    then (puts s (itoa (next_word args) 10), rest_of args)
    else if c == b'd'
    then (puts s (signed_digits (next_word args)), rest_of args)
    else if c == b'c'
    then (putc s (next_word args % 256), rest_of args)
    else if c == b's'
    then (puts s (next_text args), rest_of args)
    else (s, args)

-- A format that ends behind a `%` is read no further.
pub printf_loop : Mode → List ℕ → List Arg → Screen → Screen
unfolding convert
printf_loop mode [] args s = s
printf_loop plain (c ∷ cs) args s =
    printf_loop (if c == b'%' then directive else plain) cs args (if c == b'%' then s else putc s c)
printf_loop directive (c ∷ cs) args s =
    let (s', args') = convert directive c args s in
    printf_loop (if c == b'#' then alternate else plain) cs (if c == b'#' then args else args')
      (if c == b'#' then s else s')
printf_loop alternate (c ∷ cs) args s =
    let (s', args') = convert alternate c args s in
    printf_loop (if c == b'#' then alternate else plain) cs (if c == b'#' then args else args')
      (if c == b'#' then s else s')

pub printf : Screen → String → List Arg → Screen
printf s format args = printf_loop plain (codes format) args s

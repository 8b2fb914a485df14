-- ===== src/Printf/Position.antt =====
-- printf leaves the positions on the screen.
use Prim.Native.String.{String}
use unix_operation_system.Prelude.{both_branches, ℕ, List, [], ◌∷◌, ◌==◌, if◌then◌else◌}
use unix_operation_system.Screen.{Screen, putc}
use unix_operation_system.Screen.Position.{IsValid, putc-IsValid, puts-IsValid}
use unix_operation_system.Printf.{
  Arg, Mode, plain, directive, alternate, convert, printf_loop, printf, codes,
}

abbrev Good : Screen × List Arg → Type 0
Good r = IsValid r.0

convert-IsValid :
    {s : Screen} (mode : Mode) (c : ℕ) (args : List Arg)
    → IsValid s
    → IsValid (convert mode c args s).0
unfolding convert
convert-IsValid {s} mode c args v = both_branches Good (c == b'%') (putc-IsValid b'%' v) (
    both_branches Good (c == b'x') (puts-IsValid _ v) (
      both_branches Good (c == b'u') (puts-IsValid _ v) (
        both_branches Good (c == b'd') (puts-IsValid _ v) (
          both_branches Good (c == b'c') (putc-IsValid _ v)
            (both_branches Good (c == b's') (puts-IsValid _ v) v)))))

printf_loop-IsValid :
    {s : Screen} (mode : Mode) (cs : List ℕ) (args : List Arg)
    → IsValid s
    → IsValid (printf_loop mode cs args s)
unfolding printf_loop
printf_loop-IsValid plain [] args v = v
printf_loop-IsValid mode [] args v = v
printf_loop-IsValid {s} plain (c ∷ cs) args v =
    printf_loop-IsValid {s = if c == b'%' then s else putc s c}
      (if c == b'%' then directive else plain) cs args
      (both_branches IsValid (c == b'%') v (putc-IsValid c v))
printf_loop-IsValid {s} directive (c ∷ cs) args v =
    printf_loop-IsValid {s = if c == b'#' then s else (convert directive c args s).0}
      (if c == b'#' then alternate else plain) cs
      (if c == b'#' then args else (convert directive c args s).1)
      (both_branches IsValid (c == b'#') v (convert-IsValid directive c args v))
printf_loop-IsValid {s} alternate (c ∷ cs) args v =
    printf_loop-IsValid {s = if c == b'#' then s else (convert alternate c args s).0}
      (if c == b'#' then alternate else plain) cs
      (if c == b'#' then args else (convert alternate c args s).1)
      (both_branches IsValid (c == b'#') v (convert-IsValid alternate c args v))

-- Whatever is printed, with whatever arguments, printf keeps the positions of all terminals
-- within the 80 columns and 25 rows and the display's cursor at the position, if both were so
-- before.
pub printf-IsValid :
    {s : Screen} (format : String) (args : List Arg) → IsValid s → IsValid (printf s format args)
unfolding printf
printf-IsValid format args v = printf_loop-IsValid plain (codes format) args v

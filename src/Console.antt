-- ===== src/Console.antt =====
-- console.c: what is typed, edited in a ring of 128 bytes, and read in lines. `shown` is what
-- consputc was called with, oldest first, and `woken` whether wakeup(&input.r) was called.
pub mod Ring
pub mod Editor
pub mod Store
pub mod Edit
pub mod Read
pub mod Line
pub mod Print
pub mod Screen
pub mod Tests
use os_hw.Prelude.{
  ℕ, zero, suc, ◌+◌, ◌-◌, ◌%◌, ◌^◌, Bool, true, false, not, ◌&&◌, ◌||◌, List, [], ◌∷◌, ◌++◌, ltb,
  ◌==◌, if◌then◌else◌,
}
use os_hw.Prelude.Bytes.{Bytes, update}

abbrev pub input_buf : ℕ
input_buf = 128

abbrev pub backspace : ℕ
backspace = 256

-- `'\n'`, `C('D')`, `C('H')`, `C('P')`, `C('U')`, and `'\x7f'`
abbrev pub newline : ℕ
newline = 10

abbrev pub eof : ℕ
eof = 4

abbrev pub is_erase : ℕ → Bool
is_erase c = (c == 8) || (c == 127)

abbrev pub is_list : ℕ → Bool
is_list c = c == 16

abbrev pub is_kill : ℕ → Bool
is_kill c = c == 21

pub record Console : Type 0 where
  pub buf : Bytes
  pub r : ℕ
  pub w : ℕ
  pub e : ℕ
  pub shown : List ℕ
  pub woken : Bool

abbrev pub consputc : ℕ → Console → Console
consputc c s = record s { shown = s.shown ++ (c ∷ []) }

-- `input.e--; consputc(BACKSPACE)`
abbrev pub erase : Console → Console
erase s = consputc backspace (record s { e = (s.e + 2 ^ 32 - 1) % 2 ^ 32 })

-- The loop of `C('U')`, with as many rounds as there are bytes after `input.w`.
pub kill_from : (rounds : ℕ) → Console → Console
kill_from zero s = s
kill_from (suc n) s =
    let rest = kill_from n (erase s) in
    if not (s.e == s.w) && not (s.buf ((s.e + 2 ^ 32 - 1) % 2 ^ 32 % input_buf) == newline)
    then rest
    else s

-- `input.buf[input.e++ % INPUT_BUF] = c; consputc(c)`
abbrev pub store : ℕ → Console → Console
store c s =
    consputc c (record s { buf = update s.buf (s.e % input_buf) (c % 256); e = (s.e + 1) % 2 ^ 32 })

-- what follows once `c` is stored
abbrev pub end_line : ℕ → Console → Console
end_line c s =
    if (c == newline) || ((c == eof) || (s.e == (s.r + input_buf) % 2 ^ 32))
    then record s { w = s.e; woken = true }
    else s

pub default : ℕ → Console → Console
default c s =
    if not (c == 0) && ltb ((s.e + 2 ^ 32 - s.r) % 2 ^ 32) input_buf
    then (let c' = if c == 13 then newline else c in end_line c' (store c' s))
    else s

-- the `switch` of `consoleintr`, but for `doprocdump`
pub key : ℕ → Console → Console
unfolding kill_from default
key c s =
    if is_list c
    then s
    else if is_kill c
    then kill_from ((s.e + 2 ^ 32 - s.w) % 2 ^ 32) s
    else if is_erase c
    then (if s.e == s.w then s else erase s)
    else default c s

-- `consoleintr` for what `getc` gives before it is negative. The Boolean is `doprocdump`.
pub consoleintr : List ℕ → Bool → Console → Console × Bool
unfolding key
consoleintr [] dump s = (s, dump)
consoleintr (c ∷ cs) dump s = consoleintr cs (dump || is_list c) (key c s)

-- A turn of `consoleread`, from where it starts or wakes: it sleeps with bytes still wanted, or
-- returns -1 or a count.
pub data Reading : Type 0 where
  asleep : ℕ → Reading
  failed : Reading
  returned : ℕ → Reading

-- The bytes stored at `dst` in this turn, the outcome, and the state after it; `n` bytes are wanted
-- of the `target` that the call was for.
pub consoleread : (n target : ℕ) → (killed : Bool) → Console → List ℕ × Reading × Console
consoleread zero target killed s = ([], returned (target - 0), s)
consoleread (suc n) target killed s =
    let c = s.buf (s.r % input_buf) in
    let s' = record s { r = (s.r + 1) % 2 ^ 32 } in
    let rest = consoleread n target killed s' in
    if s.r == s.w
    then ([], if killed then failed else asleep (suc n), s)
    else if c == eof
    then (
      [],
      returned (target - suc n),
      if ltb (suc n) target then record s' { r = (s'.r + 2 ^ 32 - 1) % 2 ^ 32 } else s',
    )
    else if c == newline
    then (c ∷ [], returned (target - n), s')
    else (c ∷ rest.0, rest.1, rest.2)

-- the loop of `consolewrite`, with `n` bytes left from `i` on
pub put_from : (n i : ℕ) → Bytes → Console → Console
put_from zero i m s = s
put_from (suc n) i m s = put_from n (i + 1) m (consputc (m i % 256) s)

pub consolewrite : (n buf : ℕ) → Bytes → Console → ℕ × Console
unfolding put_from
consolewrite n buf m s = (n, put_from n buf m s)

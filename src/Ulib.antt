-- ===== src/Ulib.antt =====
-- ulib.c and printf.c: strings, numbers and formatted output of user programs. Memory is that of the
-- program. A loop over a string has as many rounds as the string has bytes, the last 0 counted.
pub mod Numbers
pub mod Tests
use os_hw.Prelude.{
  ℕ, zero, suc, ◌+◌, ◌-◌, ◌*◌, ◌/◌, ◌%◌, ◌^◌, Bool, true, false, not, ◌&&◌, ◌||◌, Option, none,
  some, List, [], ◌∷◌, ◌++◌, ltb, leb, ◌==◌, if◌then◌else◌,
}
use os_hw.Prelude.Bytes.{Bytes, update, get_word}
use os_hw.Str.{difference, copy_up, stosb}

pub strcpy : (fuel s t : ℕ) → Bytes → Bytes
strcpy zero s t m = m
strcpy (suc fuel) s t m =
    let m' = update m s (m t) in
    let rest = strcpy fuel (s + 1) (t + 1) m' in if m t == 0 then m' else rest

pub strcmp : (fuel p q : ℕ) → Bytes → ℕ
strcmp zero p q m = 0
strcmp (suc fuel) p q m =
    let rest = strcmp fuel (p + 1) (q + 1) m in
    if not (m p == 0) && (m p == m q) then rest else difference (m p) (m q)

-- `none` for 0
pub strchr : (fuel s c : ℕ) → Bytes → Option ℕ
strchr zero s c m = none
strchr (suc fuel) s c m =
    let rest = strchr fuel (s + 1) c m in
    if m s == 0 then none else if m s == c % 256 then some s else rest

pub memset : (dst c n : ℕ) → Bytes → Bytes
memset dst c n m = stosb n dst c m

-- none for a negative `n`
pub memmove : (dst src n : ℕ) → Bytes → Bytes
memmove dst src n m = copy_up (if ltb n (2 ^ 31) then n else 0) dst src m

abbrev pub is_digit : ℕ → Bool
is_digit c = leb b'0' c && leb c b'9'

-- the loop of `atoi`
pub atoi_from : (fuel : ℕ) → (s n : ℕ) → Bytes → ℕ
atoi_from zero s n m = n
atoi_from (suc fuel) s n m =
    let rest = atoi_from fuel (s + 1) ((n * 10 + m s - b'0') % 2 ^ 32) m in
    if is_digit (m s) then rest else n

pub atoi : (fuel s : ℕ) → Bytes → ℕ
unfolding atoi_from
atoi fuel s m = atoi_from fuel s 0 m

-- `"0123456789ABCDEF"[d]`
abbrev pub digit : ℕ → ℕ
digit d = if ltb d 10 then b'0' + d else b'A' + (d - 10)

-- The digits that `printint` stores in `buf`, the last one first. Each round divides `x`, so that
-- the 32 rounds given are enough for a 32-bit `x`.
pub digits : (fuel : ℕ) → (x base : ℕ) → List ℕ
digits zero x base = []
digits (suc fuel) x base =
    let rest = digits fuel (x / base) base in
    digit (x % base) ∷ (if x / base == 0 then [] else rest)

-- the loop that prints `buf` from its end, before the output `l`
pub backwards : List ℕ → List ℕ → List ℕ
backwards [] l = l
backwards (c ∷ cs) l = backwards cs (c ∷ l)

-- The output of `printint`; `sgn` says whether `xx` is signed.
pub printint : (xx base : ℕ) → (sgn : Bool) → List ℕ
unfolding digits backwards
printint xx base sgn =
    let neg = sgn && leb (2 ^ 31) xx in
    let x = if neg then (2 ^ 32 - xx) % 2 ^ 32 else xx in
    backwards (digits 32 x base ++ (if neg then b'-' ∷ [] else [])) []

-- the bytes of a string
pub string_at : (fuel s : ℕ) → Bytes → List ℕ
string_at zero s m = []
string_at (suc fuel) s m =
    let rest = string_at fuel (s + 1) m in if m s == 0 then [] else m s ∷ rest

-- "(null)"
abbrev null : List ℕ
null = b'(' ∷ b'n' ∷ b'u' ∷ b'l' ∷ b'l' ∷ b')' ∷ []

-- What `printf` prints for the letter `c` after a `%`, and the next argument.
pub directive : (fuel c ap : ℕ) → Bytes → List ℕ × ℕ
unfolding printint string_at
directive fuel c ap m =
    let arg = get_word m ap in
    if c == b'd'
    then (printint arg 10 true, ap + 4)
    else if (c == b'x') || (c == b'p')
    then (printint arg 16 false, ap + 4)
    else if c == b's'
    then (if arg == 0 then null else string_at fuel arg m, ap + 4)
    else if c == b'c'
    then (arg % 256 ∷ [], ap + 4)
    else if c == b'%'
    then (c ∷ [], ap)
    else (b'%' ∷ c ∷ [], ap)

-- One round of the loop of `printf`: the output, whether a `%` came before, and the next argument.
pub print_byte : (fuel c : ℕ) → (percent : Bool) → (ap : ℕ) → Bytes → List ℕ × Bool × ℕ
unfolding directive
print_byte fuel c percent ap m =
    if percent
    then (let r = directive fuel c ap m in (r.0, false, r.1))
    else if c == b'%'
    then ([], true, ap)
    else (c ∷ [], false, ap)

pub printf_from : (k fuel : ℕ) → (f : ℕ) → (percent : Bool) → (ap : ℕ) → Bytes → List ℕ
unfolding print_byte
printf_from zero fuel f percent ap m = []
printf_from (suc k) fuel f percent ap m =
    let r = print_byte fuel (m f) percent ap m in
    let rest = printf_from k fuel (f + 1) r.1 r.2 m in if m f == 0 then [] else r.0 ++ rest

-- The output of `printf` for the format at `fmt`, with its arguments from `ap` on.
pub printf : (fuel fmt ap : ℕ) → Bytes → List ℕ
unfolding printf_from
printf fuel fmt ap m = printf_from fuel fuel fmt false ap m

-- ===== src/Console/Print.antt =====
-- cprintf of console.c, as the sequence of what it calls consputc with.
use os_hw.Prelude.{
  ℕ, zero, suc, ◌+◌, ◌-◌, ◌*◌, ◌/◌, ◌%◌, ◌^◌, ◌≤◌, ◌<◌, ◌≡◌, ◌∙◌, ◌⊎◌, Bool, true, false, not, ◌&&◌,
  ◌||◌, List, [], ◌∷◌, ◌++◌, length, length-append, leb, ltb, ◌==◌, if◌then◌else◌, Bool-cases, inl,
  inr, arith,
}
use os_hw.Prelude.Bytes.{Bytes, get_word}
use os_hw.Prelude.Outcome.{Outcome, ok, panic}

-- `"0123456789abcdef"[d]`
abbrev hex_digit : ℕ → ℕ
hex_digit d = if ltb d 10 then b'0' + d else b'a' + (d - 10)

-- The digits in `buf`, the last one first. Each round divides `x`, so that the 32 rounds given are
-- enough for a 32-bit `x`.
pub int_digits : (fuel : ℕ) → (x base : ℕ) → List ℕ
int_digits zero x base = []
int_digits (suc fuel) x base =
    let rest = int_digits fuel (x / base) base in
    hex_digit (x % base) ∷ (if x / base == 0 then [] else rest)

-- the bytes of `buf` when it is printed
pub int_buf : (xx base : ℕ) → (sgn : Bool) → List ℕ
unfolding int_digits
int_buf xx base sgn =
    let neg = sgn && leb (2 ^ 31) xx in
    let x = if neg then (2 ^ 32 - xx) % 2 ^ 32 else xx in
    int_digits 32 x base ++ (if neg then b'-' ∷ [] else [])

-- the loop that prints `buf` from its end, before the output `l`
pub print_back : List ℕ → List ℕ → List ℕ
print_back [] l = l
print_back (c ∷ cs) l = print_back cs (c ∷ l)

unfoldable pub print_int : (xx base : ℕ) → (sgn : Bool) → List ℕ
unfolding int_buf print_back
print_int xx base sgn = print_back (int_buf xx base sgn) []

-- the bytes of a string
pub print_string : (fuel s : ℕ) → Bytes → List ℕ
print_string zero s m = []
print_string (suc fuel) s m =
    let rest = print_string fuel (s + 1) m in if m s == 0 then [] else m s ∷ rest

-- What the letter `c` after a `%` prints, and the next argument.
pub format : (fuel c argp : ℕ) → Bytes → List ℕ × ℕ
unfolding print_int print_string
format fuel c argp m =
    let arg = get_word m argp in
    if c == b'd'
    then (print_int arg 10 true, argp + 4)
    else if (c == b'x') || (c == b'p')
    then (print_int arg 16 false, argp + 4)
    else if c == b's'
    then (
      if arg == 0 then b'(' ∷ b'n' ∷ b'u' ∷ b'l' ∷ b'l' ∷ b')' ∷ [] else print_string fuel arg m,
      argp + 4,
    )
    else if c == b'%'
    then (b'%' ∷ [], argp)
    else (b'%' ∷ c ∷ [], argp)

-- A round of `cprintf` at the byte `f` of the format: the output, and where the next round is.
pub print_round : (fuel : ℕ) → (f argp : ℕ) → Bytes → List ℕ × ℕ × ℕ
unfolding format
print_round fuel f argp m =
    let r = format fuel (m (f + 1)) argp m in
    if not (m f == b'%') then (m f ∷ [], f + 1, argp) else (r.0, f + 2, r.1)

pub cprintf_from : (k fuel : ℕ) → (f argp : ℕ) → Bytes → List ℕ
unfolding print_round
cprintf_from zero fuel f argp m = []
cprintf_from (suc k) fuel f argp m =
    let r = print_round fuel f argp m in
    let rest = cprintf_from k fuel r.1 r.2 m in
    if (m f == 0) || ((m f == b'%') && (m (f + 1) == 0)) then [] else r.0 ++ rest

-- The output of `cprintf` for the format at `fmt`, with its arguments from `argp` on.
pub cprintf : (fuel fmt argp : ℕ) → Bytes → Outcome (List ℕ)
unfolding cprintf_from
cprintf fuel fmt argp m = if fmt == 0 then panic else ok (cprintf_from fuel fuel fmt argp m)

-- a power of ten
abbrev ten : ℕ → ℕ
ten zero = 1
ten (suc k) = 10 * ten k

div-base : (x base t : ℕ) → (base ≡ 10) ⊎ (base ≡ 16) → x < 10 * t → x / base < t
div-base x base t (inl e) lt = rw e (omega arith)
div-base x base t (inr e) lt = rw e (omega arith)

length-int_digits :
    (fuel k x base : ℕ)
    → (base ≡ 10) ⊎ (base ≡ 16)
    → x < ten (suc k)
    → length (int_digits fuel x base) ≤ suc k
unfolding int_digits
length-int_digits zero k x base large small = omega arith
length-int_digits (suc fuel) zero x base large small =
    let last : (x / base == 0) ≡ true =
      (let lt = div-base x base 1 large small in ground (arith, lt)) in
    rw last (omega arith)
length-int_digits (suc fuel) (suc k) x base large small =
    let h =
      length-int_digits fuel k (x / base) base large (div-base x base (ten (suc k)) large small) in
    elim (Bool-cases (x / base == 0)) [
      | inl last ↦ rw last (omega arith)
      | inr more ↦ rw more (omega arith)
    ]

length-print_back : (cs l : List ℕ) → length (print_back cs l) ≡ length cs + length l
unfolding print_back
length-print_back [] l = omega arith
length-print_back (c ∷ cs) l = length-print_back cs (c ∷ l) ∙ omega arith

-- In the bases that cprintf uses, printint fills at most 11 of the 16 bytes of its buffer, the sign
-- counted, and consputc gets as many.
pub print_int-bound :
    (xx base : ℕ) (sgn : Bool)
    → (base ≡ 10) ⊎ (base ≡ 16)
    → xx < 2 ^ 32
    → (length (int_buf xx base sgn) ≤ 11) × (length (print_int xx base sgn) ≤ 11)
unfolding int_buf print_int
print_int-bound xx base sgn large small =
    let neg = sgn && leb (2 ^ 31) xx in
    let x = if neg then (2 ^ 32 - xx) % 2 ^ 32 else xx in
    let word : x < ten 10 = ground arith in
    let h = length-int_digits 32 9 x base large word in
    let buf = int_digits 32 x base ++ (if neg then b'-' ∷ [] else []) in
    let total : length buf ≤ 11 =
      let l = length-append (int_digits 32 x base) (if neg then b'-' ∷ [] else []) in
      ground (arith, h, l) in
    (total, let p = length-print_back buf [] in omega (arith, p, total))

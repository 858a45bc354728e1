-- ===== src/Str.antt =====
-- string.c: block moves, fills, comparisons and copies. Memory is a function from addresses to
-- bytes, and a pointer an address: none moves beyond the end of the object that it points into, so
-- pointer arithmetic does not wrap around. A result of type `int` is its bit pattern.
pub mod Move
pub mod Compare
pub mod Copy
pub mod Tests
use os_hw.Prelude.{
  ℕ, zero, suc, ◌+◌, ◌-◌, ◌*◌, ◌/◌, ◌%◌, ◌^◌, Bool, true, false, not, ◌&&◌, ◌||◌, Option, none,
  some, ltb, leb, ◌==◌, if◌then◌else◌,
}
use os_hw.Prelude.Bytes.{Bytes, update, put_word}

-- `rep stosb` and `rep stosl`: `n` stores of the low byte of `c`, and of the word `w`
pub stosb : (n dst c : ℕ) → Bytes → Bytes
stosb zero dst c m = m
stosb (suc n) dst c m = stosb n (dst + 1) c (update m dst (c % 256))

pub stosl : (n dst w : ℕ) → Bytes → Bytes
stosl zero dst w m = m
stosl (suc n) dst w m = stosl n (dst + 4) w (put_word m dst w)

pub memset : (dst c n : ℕ) → Bytes → Bytes
unfolding stosb stosl
memset dst c n m =
    let b = c % 256 in
    if (dst % 4 == 0) && (n % 4 == 0)
    then stosl (n / 4) dst (b * 16777216 + b * 65536 + b * 256 + b) m
    else stosb n dst c m

-- `*s1 - *s2` on `uchar`
abbrev pub difference : ℕ → ℕ → ℕ
difference x y = (x + 2 ^ 32 - y) % 2 ^ 32

pub memcmp : (v₁ v₂ n : ℕ) → Bytes → ℕ
memcmp v₁ v₂ zero m = 0
memcmp v₁ v₂ (suc n) m =
    let rest = memcmp (v₁ + 1) (v₂ + 1) n m in
    if m v₁ == m v₂ then rest else difference (m v₁) (m v₂)

-- `while(n-- > 0) *d++ = *s++`
pub copy_up : (n d s : ℕ) → Bytes → Bytes
copy_up zero d s m = m
copy_up (suc n) d s m = copy_up n (d + 1) (s + 1) (update m d (m s))

-- `while(n-- > 0) *--d = *--s`, from the ends of the two blocks at `d` and `s`
pub copy_down : (n d s : ℕ) → Bytes → Bytes
copy_down zero d s m = m
copy_down (suc n) d s m = copy_down n d s (update m (d + n) (m (s + n)))

pub memmove : (dst src n : ℕ) → Bytes → Bytes
unfolding copy_up copy_down
memmove dst src n m =
    if ltb src dst && ltb dst (src + n) then copy_down n dst src m else copy_up n dst src m

unfoldable pub strncmp : (p q n : ℕ) → Bytes → ℕ
strncmp p q zero m = 0
strncmp p q (suc n) m =
    let rest = strncmp (p + 1) (q + 1) n m in
    if not (m p == 0) && (m p == m q) then rest else difference (m p) (m q)

-- the second loop of `strncpy`
pub pad : (n s : ℕ) → Bytes → Bytes
pad zero s m = m
pad (suc n) s m = pad n (s + 1) (update m s 0)

-- `strncpy` with `n` rounds left, none for a negative `n`
pub strncpy : (n s t : ℕ) → Bytes → Bytes
unfolding pad
strncpy zero s t m = m
strncpy (suc n) s t m =
    let m' = update m s (m t) in
    let rest = strncpy n (s + 1) (t + 1) m' in if m t == 0 then pad n (s + 1) m' else rest

-- the loop of `safestrcpy`, and its last store
pub safe_copy : (n s t : ℕ) → Bytes → Bytes
safe_copy zero s t m = update m s 0
safe_copy (suc n) s t m =
    let m' = update m s (m t) in
    let rest = safe_copy n (s + 1) (t + 1) m' in if m t == 0 then update m' (s + 1) 0 else rest

pub safestrcpy : (n s t : ℕ) → Bytes → Bytes
unfolding safe_copy
safestrcpy zero s t m = m
safestrcpy (suc n) s t m = safe_copy n s t m

-- `none` when no byte among the first `fuel` is 0.
pub strlen : (fuel s : ℕ) → Bytes → Option ℕ
strlen zero s m = none
strlen (suc fuel) s m =
    let rest = strlen fuel (s + 1) m in
    if m s == 0 then some 0 else elim rest [ none ↦ none | some n ↦ some (n + 1) ]

-- ===== src/Dir/Elem.antt =====
-- skipelem: the first name of a path.
use os_hw.Prelude.{
  ℕ, zero, suc, ◌+◌, ◌-◌, ◌≤◌, ◌<◌, ◌≡◌, ◌≢◌, refl, sym, ◌∙◌, ◌⊎◌, true, false, not, ◌&&◌, none,
  some, arith, min, leb, ◌==◌, dec_lt,
}
use os_hw.Prelude.Bytes.{Bytes}
use os_hw.Str.Move.{memmove_lem}
use os_hw.Dir.{dirsiz, skip_slashes, skip_name, copy_name, skipelem}

abbrev pub slash : ℕ
slash = b'/'

skip_slashes_lem :
    (fuel p n : ℕ) (m : Bytes)
    → n ≤ fuel
    → ((j : ℕ) → j < n → m (p + j) ≡ slash)
    → m (p + n) ≢ slash
    → skip_slashes fuel p m ≡ p + n
unfolding skip_slashes
skip_slashes_lem zero p n m le before end = omega arith
skip_slashes_lem (suc fuel) p zero m le before end =
    let stop : (m p == slash) ≡ false = ground arith in rw (skip_slashes, stop) (omega arith)
skip_slashes_lem (suc fuel) p (suc n) m le before end =
    let go : (m p == slash) ≡ true = ground (arith, before 0 (omega arith)) in
    rw (skip_slashes, go)
      (skip_slashes_lem fuel (p + 1) n m (omega arith)
          (λ j lt. ground (arith, before (j + 1) (omega arith))) (ground arith)
        ∙ omega arith)

skip_name_lem :
    (fuel p n : ℕ) (m : Bytes)
    → n ≤ fuel
    → ((j : ℕ) → j < n → (m (p + j) ≢ slash) × (m (p + j) ≢ 0))
    → (m (p + n) ≡ slash) ⊎ (m (p + n) ≡ 0)
    → skip_name fuel p m ≡ p + n
unfolding skip_name
skip_name_lem zero p n m le before end = omega arith
skip_name_lem (suc fuel) p zero m le before end =
    let stop : (not (m p == slash) && not (m p == 0)) ≡ false = ground arith in
    rw (skip_name, stop) (omega arith)
skip_name_lem (suc fuel) p (suc n) m le before end =
    let go : (not (m p == slash) && not (m p == 0)) ≡ true =
      ground (arith, before 0 (omega arith)) in
    rw (skip_name, go)
      (skip_name_lem fuel (p + 1) n m (omega arith)
          (λ j lt.
            let h = before (j + 1) (omega arith) in (ground (arith, h.0), ground (arith, h.1)))
          (ground arith)
        ∙ omega arith)

-- A path at `p`: `a` slashes, a name of `b` bytes, `c` slashes, and what follows.
pub record IsPathOf (p a b c : ℕ) (m : Bytes) : Type 0 where
  pub slashes : (j : ℕ) → j < a → m (p + j) ≡ slash
  pub nonempty : 0 < b
  pub name : (j : ℕ) → j < b → (m (p + a + j) ≢ slash) × (m (p + a + j) ≢ 0)
  pub end : (m (p + a + b) ≡ slash) ⊎ (m (p + a + b) ≡ 0)
  pub more : (j : ℕ) → j < c → m (p + a + b + j) ≡ slash
  pub rest : m (p + a + b + c) ≢ slash

-- What `skipelem` leaves in memory: the name of `b` bytes at `s`, cut to 14 bytes, at `name`.
pub record IsNamed (name s b : ℕ) (m m' : Bytes) : Type 0 where
  pub text : (j : ℕ) → j < min b dirsiz → m' (name + j) ≡ m (s + j)
  pub ended : b < dirsiz → m' (name + b) ≡ 0
  pub other : (x : ℕ) → (x < name) ⊎ (name + dirsiz ≤ x) → m' x ≡ m x

copy_name-IsNamed : (name s b : ℕ) (m : Bytes) → IsNamed name s b m (copy_name name s b m)
copy_name-IsNamed name s b m = elim (dec_lt b dirsiz) [
  | yes p ↦
      let short : leb dirsiz b ≡ false = ground arith in
      rw short (record {
        text = λ j lt. ground (arith, memmove_lem name s b m (name + j));
        ended = λ lt. ground arith;
        other = λ x out. ground (arith, memmove_lem name s b m x);
      })
  | no p ↦
      let long : leb dirsiz b ≡ true = ground arith in
      rw long (record {
        text = λ j lt. ground (arith, memmove_lem name s dirsiz m (name + j));
        ended = λ lt. absurd (omega arith);
        other = λ x out. ground (arith, memmove_lem name s dirsiz m x);
      })
]

-- `skipelem` of a path with a name in it copies the name, cut to 14 bytes and ended by a 0 if it is
-- shorter, and returns the path after the slashes that follow it. As many rounds are given as the
-- path has bytes there, and `name` has room for 14 bytes that are none of the path's.
pub skipelem-IsNamed :
    (fuel p name a b c : ℕ) (m : Bytes)
    → IsPathOf p a b c m
    → a + b + c ≤ fuel
    → (name + dirsiz ≤ p) ⊎ (p + a + b + c < name)
    → (m' : Bytes) × (skipelem fuel p name m ≡ (some (p + a + b + c), m'))
      × IsNamed name (p + a) b m m'
unfolding skipelem
skipelem-IsNamed fuel p name a b c m path enough apart =
    let first = path.name 0 path.nonempty in
    let start : skip_slashes fuel p m ≡ p + a =
      skip_slashes_lem fuel p a m (omega arith) path.slashes (ground (arith, first.0)) in
    let stop : skip_name fuel (p + a) m ≡ p + a + b =
      skip_name_lem fuel (p + a) b m (omega arith) path.name path.end in
    let len : p + a + b - (p + a) ≡ b = omega arith in
    let there : (m (p + a) == 0) ≡ false = ground (arith, first.1) in
    let m' = copy_name name (p + a) b m in
    let named = copy_name-IsNamed name (p + a) b m in
    let next : skip_slashes fuel (p + a + b) m' ≡ p + a + b + c =
      skip_slashes_lem fuel (p + a + b) c m' (omega arith)
        (λ j lt. named.other (p + a + b + j) (omega arith) ∙ path.more j lt)
        (λ e. path.rest (sym (named.other (p + a + b + c) (omega arith)) ∙ e)) in
    (m', rw (start, stop, there, len, next) refl, named)

-- `skipelem` of a path of slashes alone, or an empty one, finds no name and changes nothing.
pub skipelem-none :
    (fuel p name a : ℕ) (m : Bytes)
    → ((j : ℕ) → j < a → m (p + j) ≡ slash)
    → m (p + a) ≡ 0
    → a ≤ fuel
    → skipelem fuel p name m ≡ (none, m)
unfolding skipelem
skipelem-none fuel p name a m slashes end enough =
    let start : skip_slashes fuel p m ≡ p + a =
      skip_slashes_lem fuel p a m enough slashes (λ e. absurd (ground arith)) in
    let there : (m (p + a) == 0) ≡ true = ground arith in rw (start, there) refl

-- ===== src/Args/Bounds.antt =====
-- What the checks of syscall.c say of the memory that the kernel then uses.
use os_hw.Prelude.{
  ℕ, zero, suc, ◌+◌, ◌-◌, ◌*◌, ◌%◌, ◌^◌, ◌≤◌, ◌<◌, ◌≡◌, refl, sym, ◌∙◌, ap, ◌≢◌, ◌⊎◌, inl, inr,
  ◌&&◌, Option, none, some, ltb, leb, ◌==◌, if◌then◌else◌, Bool-cases, Option-cases, subst, ==→ne,
  arith,
}
use os_hw.Prelude.Bytes.{Bytes, get_word}
use os_hw.Args.{User, fetchint, find_end, fetchstr, argint, check_ptr, argptr, argstr}

-- The word at `addr` if all of it is memory of the process.
abbrev pub word_at : User → ℕ → Option ℕ
word_at u addr = if leb (addr + 4) u.sz then some (get_word u.mem addr) else none

pub fetchint_lem : (u : User) (addr : ℕ) → u.sz + 4 ≤ 2 ^ 32 → fetchint u addr ≡ word_at u addr
unfolding fetchint
fetchint_lem u addr small = ground arith

-- A pointer if all of its `size` bytes are memory of the process, and one byte at least is.
abbrev pub block_at : User → (size : ℕ) → Option ℕ → Option ℕ
block_at u size none = none
block_at u size (some p) = if ltb p u.sz && leb (p + size) u.sz then some p else none

-- `argptr` returns the word on the stack that is argument `n`, if all of it is memory of the
-- process and all of the block at that address is, and -1 if not. The process lies below the
-- kernel, and the size is not negative.
pub argptr_lem :
    (u : User) (n size : ℕ)
    → u.sz ≤ 2 ^ 31
    → size < 2 ^ 31
    → argptr u n size ≡ block_at u size (word_at u ((u.esp + 4 + 4 * n) % 2 ^ 32))
unfolding argptr argint
argptr_lem u n size low positive =
    let addr = (u.esp + 4 + 4 * n) % 2 ^ 32 in
    rw (fetchint_lem u addr (omega arith)) (check_ptr_lem u size (word_at u addr) low positive)
  where
    check_ptr_lem :
        (u : User) (size : ℕ) (o : Option ℕ)
        → u.sz ≤ 2 ^ 31
        → size < 2 ^ 31
        → check_ptr u size o ≡ block_at u size o
    check_ptr_lem u size none low positive = refl
    check_ptr_lem u size (some p) low positive = ground arith

-- A string of `len` bytes at `addr`, its final 0 included in the memory of the process.
pub record IsString (u : User) (addr len : ℕ) : Type 0 where
  pub within : addr + len < u.sz
  pub nonzero : (j : ℕ) → j < len → u.mem (addr + j) ≢ 0
  pub ended : u.mem (addr + len) ≡ 0

-- The first 0 among the `k` bytes from `s` on.
record IsFirst (k s len : ℕ) (m : Bytes) : Type 0 where
  range : len < k
  before : (j : ℕ) → j < len → m (s + j) ≢ 0
  zero_there : m (s + len) ≡ 0

IsFirst-step :
    (k s len : ℕ) (m : Bytes) → m s ≢ 0 → IsFirst k (s + 1) len m → IsFirst (suc k) s (suc len) m
IsFirst-step k s len m nonzero first = record {
  range = let r = first.range in omega arith;
  before = λ j lt z. elim (Bool-cases (j == 0)) [
    | inl e ↦ nonzero (ground (arith, e, z))
    | inr e ↦
        let i : s + 1 + (j - 1) ≡ s + j = ground (arith, e) in
        first.before (j - 1) (ground (arith, e)) (ap m i ∙ z)
  ];
  zero_there = let i : s + suc len ≡ s + 1 + len = omega arith in ap m i ∙ first.zero_there;
}

find_end-cases :
    (k s p : ℕ) (m : Bytes)
    → p ≤ s
    → ((len : ℕ) × IsFirst k s len m × (find_end k s p m ≡ some (s + len - p)))
      ⊎ (((j : ℕ) → j < k → m (s + j) ≢ 0) × (find_end k s p m ≡ none))
unfolding find_end
find_end-cases zero s p m le = inr (λ j lt. absurd (omega arith), refl)
find_end-cases (suc k) s p m le =
    let rest = find_end-cases k (s + 1) p m (omega arith) in
    elim (Bool-cases (m s == 0)) [
      | inl here ↦ inl (
        0,
        record {
          range = omega arith;
          before = λ j lt. absurd (omega arith);
          zero_there = ground (arith, here);
        },
        rw here (ap (λ n. some n) (omega arith)),
      )
      | inr on ↦ elim rest [
        | inl (len, first, run) ↦ inl (
          suc len,
          IsFirst-step k s len m (==→ne _ _ on) first,
          rw on (run ∙ ap (λ n. some n) (omega arith)),
        )
        | inr (never, run) ↦ inr (
          λ j lt z. elim (Bool-cases (j == 0)) [
            | inl e ↦ absurd (ground (arith, e, z, on))
            | inr e ↦
                let i : s + 1 + (j - 1) ≡ s + j = ground (arith, e) in
                never (j - 1) (ground (arith, e)) (ap m i ∙ z)
          ],
          rw on run,
        )
      ]
    ]

-- `fetchstr` returns the length of the string at the address, if one ends within the process, and
-- -1 if not.
pub fetchstr-IsString :
    (u : User) (addr : ℕ)
    → ((len : ℕ) × IsString u addr len × (fetchstr u addr ≡ some len))
      ⊎ (((len : ℕ) → ¬ IsString u addr len) × (fetchstr u addr ≡ none))
unfolding fetchstr
fetchstr-IsString u addr = elim (Bool-cases (leb u.sz addr)) [
  | inl out ↦ inr (λ len string. let w = string.within in absurd (ground (arith, out)), rw out refl)
  | inr inside ↦ elim (find_end-cases (u.sz - addr) addr addr u.mem (omega arith)) [
    | inl (len, first, run) ↦ inl (
      len,
      record {
        within = let r = first.range in omega arith;
        nonzero = first.before;
        ended = first.zero_there;
      },
      rw inside (run ∙ ap (λ n. some n) (omega arith)),
    )
    | inr (never, run) ↦
        inr (
          λ len string. let w = string.within in never len (omega arith) string.ended,
          rw inside run,
        )
  ]
]

-- `argstr` returns the word on the stack that is argument `n`, and the length of the string there,
-- if both are within the memory of the process, and -1 if not. The process lies below the kernel.
pub argstr-IsString :
    (u : User) (n : ℕ)
    → u.sz ≤ 2 ^ 31
    → let word = word_at u ((u.esp + 4 + 4 * n) % 2 ^ 32) in
      ((addr len : ℕ) × (word ≡ some addr) × IsString u addr len × (argstr u n ≡ some (addr, len)))
      ⊎ (((addr len : ℕ) → word ≡ some addr → ¬ IsString u addr len) × (argstr u n ≡ none))
unfolding argstr argint
argstr-IsString u n low =
    let word = word_at u ((u.esp + 4 + 4 * n) % 2 ^ 32) in
    let fetched : fetchint u ((u.esp + 4 + 4 * n) % 2 ^ 32) ≡ word =
      fetchint_lem u _ (omega arith) in
    elim (Option-cases word) [
      | inl none_there ↦ inr (λ addr len h string. absurd (cc), rw (fetched, none_there) refl)
      | inr (a, there) ↦ elim (fetchstr-IsString u a) [
        | inl (len, string, run) ↦ inl (a, len, there, string, rw (fetched, there, run) refl)
        | inr (never, run) ↦ inr (
          λ addr len h string.
              let same : a ≡ addr = cc in
              never len (subst (λ x. IsString u x len) (sym same) string),
          rw (fetched, there, run) refl,
        )
      ]
    ]

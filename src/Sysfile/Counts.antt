-- ===== src/Sysfile/Counts.antt =====
-- The counts of references against the descriptors that hold them.
use os_hw.Prelude.{
  ℕ, zero, suc, ◌+◌, ◌-◌, ◌*◌, ◌%◌, ◌^◌, ◌≤◌, ◌<◌, ◌≡◌, ◌≢◌, refl, sym, ◌∙◌, ap, subst, ◌⊎◌, inl,
  inr, Bool, true, false, Option, none, some, leb, ◌==◌, if◌then◌else◌, Bool-cases, ==→eq, ==_refl,
  arith,
}
use os_hw.Prelude.Bytes.{update}
use os_hw.Prelude.Outcome.{Outcome, ok, panic, ◌>>=◌}
use os_hw.File.{Files, fileclose}
use os_hw.Args.{argint}
use os_hw.Args.Bounds.{word_at, fetchint_lem}
use os_hw.File.Table.{HasRefs, filedup-HasRefs, fileclose-HasRefs}
use os_hw.Sysfile.{Caller, nofile, argfd, check_fd, with_fd, find_fd, fdalloc, sys_dup, sys_close}

-- 1 if the entry is the file `f`
abbrev pub is_file : (f : ℕ) → Option ℕ → ℕ
is_file f none = 0
is_file f (some g) = if g == f then 1 else 0

-- How many of the first `k` descriptors hold the file `f`.
unfoldable pub uses : (k : ℕ) → (ℕ → Option ℕ) → ℕ → ℕ
uses zero ofile f = 0
uses (suc k) ofile f = uses k ofile f + is_file f (ofile k)

-- Each file has as many references as this process has descriptors of it, and others hold of it.
abbrev pub IsCounted : (others : ℕ → ℕ) → Caller → Type 0
IsCounted others c = (f : ℕ) → (c.files.file f).ref ≡ others f + uses nofile c.ofile f

uses_beyond :
    (k : ℕ) (ofile : ℕ → Option ℕ) (fd : ℕ) (x : Option ℕ) (f : ℕ)
    → k ≤ fd
    → uses k (update ofile fd x) f ≡ uses k ofile f
unfolding uses
uses_beyond zero ofile fd x f le = refl
uses_beyond (suc k) ofile fd x f le =
    let other : (fd == k) ≡ false = ground arith in
    rw other (ap (λ n. n + is_file f (ofile k)) (uses_beyond k ofile fd x f (omega arith)))

-- What a store to a descriptor does to the number.
pub uses-update :
    (k : ℕ) (ofile : ℕ → Option ℕ) (fd : ℕ) (x : Option ℕ) (f : ℕ)
    → fd < k
    → uses k (update ofile fd x) f + is_file f (ofile fd) ≡ uses k ofile f + is_file f x
unfolding uses
uses-update zero ofile fd x f lt = absurd (omega arith)
uses-update (suc k) ofile fd x f lt = elim (Bool-cases (fd == k)) [
  | inl here ↦
      let at : fd ≡ k = ==→eq _ _ here in
      let same = uses_beyond k ofile fd x f (omega arith) in
      rw (here, same)
        (subst
          (λ i.
            uses k ofile f + is_file f x + is_file f (ofile i)
            ≡ uses k ofile f + is_file f (ofile k) + is_file f x)
          (sym at) (omega arith))
  | inr there ↦
      let rest = uses-update k ofile fd x f (ground (arith, there)) in
      rw there (omega (arith, rest))
]

uses_some :
    (k : ℕ) (ofile : ℕ → Option ℕ) (fd f : ℕ) → fd < k → is_file f (ofile fd) ≤ uses k ofile f
unfolding uses
uses_some zero ofile fd f lt = absurd (omega arith)
uses_some (suc k) ofile fd f lt = elim (Bool-cases (fd == k)) [
  | inl here ↦
      subst (λ i. is_file f (ofile i) ≤ uses k ofile f + is_file f (ofile k)) (sym (==→eq _ _ here))
        (omega arith)
  | inr there ↦ let rest = uses_some k ofile fd f (ground (arith, there)) in omega (arith, rest)
]

pub find_fd-cases :
    (k b : ℕ) (ofile : ℕ → Option ℕ)
    → ((i : ℕ) × (i < b + k) × (ofile i ≡ none) × (find_fd k b ofile ≡ some i))
      ⊎ (((j : ℕ) → b ≤ j → j < b + k → ofile j ≢ none) × (find_fd k b ofile ≡ none))
unfolding find_fd
find_fd-cases zero b ofile = inr (λ j lo hi. absurd (omega arith), refl)
find_fd-cases (suc k) b ofile = at (ofile b) refl (find_fd-cases k (b + 1) ofile)
  where
    clash : (f : ℕ) (o : Option ℕ) → o ≡ some f → o ≢ none
    clash f o e z = ground (arith, e, z)

    at :
        (o : Option ℕ)
        → ofile b ≡ o
        → ((i : ℕ) × (i < b + 1 + k) × (ofile i ≡ none) × (find_fd k (b + 1) ofile ≡ some i))
          ⊎ (((j : ℕ) → b + 1 ≤ j → j < b + 1 + k → ofile j ≢ none)
              × (find_fd k (b + 1) ofile ≡ none))
        → ((i : ℕ) × (i < b + suc k) × (ofile i ≡ none) × (find_fd (suc k) b ofile ≡ some i))
          ⊎ (((j : ℕ) → b ≤ j → j < b + suc k → ofile j ≢ none) × (find_fd (suc k) b ofile ≡ none))
    at none e rest = inl (b, omega arith, e, rw (find_fd, e) refl)
    at (some f) e (inl (i, lt, free, run)) = inl (i, omega arith, free, rw (find_fd, e) run)
    at (some f) e (inr (full, run)) = inr (
      λ j lo hi. elim (Bool-cases (b == j)) [
        | inl here ↦ subst (λ j. ofile j ≢ none) (==→eq _ _ here) (clash f (ofile b) e)
        | inr there ↦ full j (ground (arith, there)) (omega arith)
      ],
      rw (find_fd, e) run,
    )

argfd-cases :
    (n : ℕ) (c : Caller)
    → ((fd f : ℕ) × (fd < nofile) × (c.ofile fd ≡ some f) × (argfd n c ≡ some (fd, f)))
      ⊎ (argfd n c ≡ none)
unfolding argfd
argfd-cases n c = of_int (argint c.user n)
  where
    of_file :
        (fd : ℕ) (o : Option ℕ)
        → fd < nofile
        → c.ofile fd ≡ o
        → ((fd' f : ℕ) × (fd' < nofile) × (c.ofile fd' ≡ some f) × (with_fd fd o ≡ some (fd', f)))
          ⊎ (with_fd fd o ≡ none)
    of_file fd none lt e = inr refl
    of_file fd (some f) lt e = inl (fd, f, lt, e, refl)

    of_int :
        (r : Option ℕ)
        → ((fd f : ℕ) × (fd < nofile) × (c.ofile fd ≡ some f) × (check_fd c r ≡ some (fd, f)))
          ⊎ (check_fd c r ≡ none)
    of_int none = inr refl
    of_int (some fd) = elim (Bool-cases (leb nofile fd)) [
      | inl out ↦ inr (rw out refl)
      | inr within ↦ rw within (of_file fd (c.ofile fd) (ground (arith, within)) refl)
    ]

-- Argument 0 of the call, the word above the return address on the stack, is the open descriptor
-- `fd`, and its file is `f`.
abbrev pub IsOpen : Caller → (fd f : ℕ) → Type 0
IsOpen c fd f =
    (word_at c.user ((c.user.esp + 4) % 2 ^ 32) ≡ some fd) × (fd < nofile) × (c.ofile fd ≡ some f)

-- `argfd` finds the descriptor that is open, and fails only if there is none.
argfd-IsOpen :
    (c : Caller)
    → c.user.sz ≤ 2 ^ 31
    → ((fd f : ℕ) × IsOpen c fd f × (argfd 0 c ≡ some (fd, f)))
      ⊎ (((fd f : ℕ) → ¬ IsOpen c fd f) × (argfd 0 c ≡ none))
unfolding argfd argint
argfd-IsOpen c low =
    let first : c.user.esp + 4 + 4 * 0 ≡ c.user.esp + 4 = omega arith in
    rw (first, fetchint_lem c.user ((c.user.esp + 4) % 2 ^ 32) (omega arith))
      (of_word (word_at c.user ((c.user.esp + 4) % 2 ^ 32)) refl)
  where
    Result : Option (ℕ × ℕ) → Type 0
    Result r =
        ((fd f : ℕ) × IsOpen c fd f × (r ≡ some (fd, f)))
        ⊎ (((fd f : ℕ) → ¬ IsOpen c fd f) × (r ≡ none))

    of_file :
        (fd : ℕ) (o : Option ℕ)
        → word_at c.user ((c.user.esp + 4) % 2 ^ 32) ≡ some fd
        → fd < nofile
        → c.ofile fd ≡ o
        → Result (with_fd fd o)
    of_file fd none w lt e = inr (λ fd' f is_open. ground (arith, w, e, is_open.0, is_open.2), refl)
    of_file fd (some f) w lt e = inl (fd, f, (w, lt, e), refl)

    of_word :
        (o : Option ℕ) → word_at c.user ((c.user.esp + 4) % 2 ^ 32) ≡ o → Result (check_fd c o)
    of_word none w = inr (λ fd f is_open. cc (sym w ∙ is_open.0), refl)
    of_word (some fd) w = elim (Bool-cases (leb nofile fd)) [
      | inl out ↦
          rw out (inr (λ fd' f is_open. ground (arith, sym w ∙ is_open.0, is_open.1, out), refl))
      | inr within ↦ rw within (of_file fd (c.ofile fd) w (ground (arith, within)) refl)
    ]

-- What `sys_dup` of an open descriptor did: the file has one descriptor more, that was free, and one reference more.
pub record IsDup (others : ℕ → ℕ) (c : Caller) (fd new f : ℕ) (c' : Caller) : Type 0 where
  pub held : c.ofile fd ≡ some f
  pub free : c.ofile new ≡ none
  pub table : c'.ofile ≡ update c.ofile new (some f)
  pub counted : IsCounted others c'

-- While each count of references is that of the descriptors, of this process and of others, sys_dup
-- returns. It returns -1, where nothing changes, because the word on the stack is no open descriptor
-- or there is no free one; or it is an open one, and sys_dup returns a descriptor that was free and
-- is now one of the same file, and the counts are right again. The process lies below the kernel.
pub sys_dup-IsDup :
    (others : ℕ → ℕ) (c : Caller)
    → c.user.sz ≤ 2 ^ 31
    → IsCounted others c
    → ((sys_dup c ≡ ok (none, c))
        × (((fd f : ℕ) → ¬ IsOpen c fd f) ⊎ ((j : ℕ) → j < nofile → c.ofile j ≢ none)))
      ⊎ ((fd new f : ℕ) × (c' : Caller) × (new < nofile)
          × IsOpen c fd f
          × (sys_dup c ≡ ok (some new, c'))
          × IsDup others c fd new f c')
unfolding sys_dup fdalloc
sys_dup-IsDup others c low v = elim (argfd-IsOpen c low) [
  | inr (shut, bad) ↦ inl (rw bad refl, inl shut)
  | inl (fd, f, (word, lt, held), good) ↦ elim (find_fd-cases nofile 0 c.ofile) [
    | inr (full, run) ↦ inl (rw (good, run) refl, inr (λ j lt. full j (omega arith) (omega arith)))
    | inl (new, new_lt, free, run) ↦
        let used = uses_some nofile c.ofile fd f lt in
        let one : is_file f (c.ofile fd) ≡ 1 = rw (held, ==_refl f) refl in
        let sum = v f in
        let (s, dup, refs) = filedup-HasRefs f c.files (omega (arith, used, one, sum)) in
        let ofile = update c.ofile new (some f) in
        inr (
          fd,
          new,
          f,
          record c { ofile = ofile; files = s },
          omega arith,
          (word, lt, held),
          rw (good, run, dup) refl,
          record {
            held = held;
            free = free;
            table = refl;
            counted = λ x.
                let more = uses-update nofile c.ofile new (some f) x (omega arith) in
                let before : is_file x (c.ofile new) ≡ 0 = rw free refl in
                refs x ∙ elim (Bool-cases (f == x)) [
                  | inl e ↦
                      let same : (c.files.file f).ref ≡ (c.files.file x).ref =
                        ap (λ i. (c.files.file i).ref) (==→eq f x e) in
                      let one_more : is_file x (some f) ≡ 1 = rw e refl in
                      rw e (omega (arith, more, before, one_more, v x, same))
                  | inr e ↦
                      let no_more : is_file x (some f) ≡ 0 = rw e refl in
                      rw e (omega (arith, more, before, no_more, v x))
                ];
          },
        )
  ]
]

-- what `sys_close` leaves
abbrev Closes : (others : ℕ → ℕ) → Outcome (Option (Bool × Caller)) → Type 0
Closes others panic = Unit {0}
Closes others (ok none) = Unit {0}
Closes others (ok (some (closed, c'))) = IsCounted others c'

sys_close-Closes : (others : ℕ → ℕ) (c : Caller) → IsCounted others c → Closes others (sys_close c)
unfolding sys_close
sys_close-Closes others c v = elim (argfd-cases 0 c) [
  | inr bad ↦ rw bad v
  | inl (fd, f, lt, held, good) ↦
      rw good (of_files fd f lt held (fileclose f c.files) (fileclose-HasRefs f c.files))
]
  where
    of_files :
        (fd f : ℕ)
        → fd < nofile
        → c.ofile fd ≡ some f
        → (r : Outcome (Option Files))
        → HasRefs (λ x. if f == x then (c.files.file f).ref - 1 else (c.files.file x).ref) r
        → Closes others (
            r >>= (λ o. elim o [
              | none ↦ ok none
              | some s ↦ ok (some (true, record c { ofile = update c.ofile fd none; files = s }))
            ]))
    of_files fd f lt held panic refs = tt
    of_files fd f lt held (ok none) refs = tt
    of_files fd f lt held (ok (some s)) refs = λ x.
        let less = uses-update nofile c.ofile fd none x lt in
        refs x ∙ elim (Bool-cases (f == x)) [
          | inl e ↦
              let same : (c.files.file f).ref ≡ (c.files.file x).ref =
                ap (λ i. (c.files.file i).ref) (==→eq f x e) in
              let one : is_file x (c.ofile fd) ≡ 1 = rw (held, e) refl in
              rw e (omega (arith, less, one, v x, same))
          | inr e ↦
              let not_one : is_file x (c.ofile fd) ≡ 0 = rw (held, e) refl in
              rw e (omega (arith, less, not_one, v x))
        ]

-- While each count of references is that of the descriptors, of this process and of others, it is
-- so again after a sys_close that returns, with whatever result.
pub sys_close-IsCounted :
    (others : ℕ → ℕ) (c : Caller) (closed : Bool) (c' : Caller)
    → IsCounted others c
    → sys_close c ≡ ok (some (closed, c'))
    → IsCounted others c'
sys_close-IsCounted others c closed c' v run =
    subst (Closes others) run (sys_close-Closes others c v)

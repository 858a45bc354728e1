-- ===== src/Sysfile.antt =====
-- sysfile.c: the calls on file descriptors. `none` for a descriptor is a 0 in the table of the
-- process; a call that returns -1 gives `none`. Where a call would sleep it ends with `none`, as in
-- File.
pub mod Counts
pub mod Pipes
pub mod Pair
pub mod Tests
use os_hw.Prelude.{
  ℕ, zero, suc, ◌+◌, Bool, true, false, Option, none, some, List, leb, ◌==◌, if◌then◌else◌,
}
use os_hw.Prelude.Bytes.{Bytes, update, put_word}
use os_hw.Prelude.Outcome.{Outcome, ok, panic, ◌>>=◌}
use os_hw.Inode.{Stat}
use os_hw.Pipe.{new_pipe}
use os_hw.Kalloc.{Kmem, kalloc}
use os_hw.Args.{User, argint, argptr}
use os_hw.File.{
  Files, Result, fd_pipe, set_file, filealloc, filedup, fileclose, filestat, fileread, filewrite,
}

abbrev pub nofile : ℕ
nofile = 16

-- The process that makes the call, with `proc->ofile` from descriptors to files, and the files.
pub record Caller : Type 0 where
  pub user : User
  pub ofile : ℕ → Option ℕ
  pub files : Files

abbrev pub with_fd : ℕ → Option ℕ → Option (ℕ × ℕ)
with_fd fd none = none
with_fd fd (some f) = some (fd, f)

-- `argfd` once it has the descriptor; a negative one is a word from 2^31 on
abbrev pub check_fd : Caller → Option ℕ → Option (ℕ × ℕ)
check_fd c none = none
check_fd c (some fd) = if leb nofile fd then none else with_fd fd (c.ofile fd)

-- The descriptor and the file.
pub argfd : ℕ → Caller → Option (ℕ × ℕ)
argfd n c = check_fd c (argint c.user n)

-- the search of `fdalloc`, with `k` descriptors left from `i` on
pub find_fd : (k i : ℕ) → (ℕ → Option ℕ) → Option ℕ
find_fd zero i ofile = none
find_fd (suc k) i ofile =
    let rest = find_fd k (i + 1) ofile in elim (ofile i) [ none ↦ some i | some f ↦ rest ]

abbrev pub claim_fd : (f : ℕ) → Caller → Option ℕ → Option (ℕ × Caller)
claim_fd f c none = none
claim_fd f c (some fd) = some (fd, record c { ofile = update c.ofile fd (some f) })

pub fdalloc : (f : ℕ) → Caller → Option (ℕ × Caller)
unfolding find_fd
fdalloc f c = claim_fd f c (find_fd nofile 0 c.ofile)

-- the end of `sys_dup`
abbrev pub dup_to : (f : ℕ) → Caller → Option (ℕ × Caller) → Outcome (Option ℕ × Caller)
dup_to f c none = ok (none, c)
dup_to f c (some (fd, c')) = filedup f c'.files >>= (λ s. ok (some fd, record c' { files = s }))

abbrev pub dup_file : Caller → Option (ℕ × ℕ) → Outcome (Option ℕ × Caller)
dup_file c none = ok (none, c)
dup_file c (some (fd, f)) = dup_to f c (fdalloc f c)

pub sys_dup : Caller → Outcome (Option ℕ × Caller)
sys_dup c = dup_file c (argfd 0 c)

-- the end of `sys_close`; the Boolean is whether it returns 0
abbrev pub close_fd : Caller → Option (ℕ × ℕ) → Outcome (Option (Bool × Caller))
close_fd c none = ok (some (false, c))
close_fd c (some (fd, f)) =
    let ofile = update c.ofile fd none in
    fileclose f c.files >>= (λ o. elim o [
      | none ↦ ok none
      | some s ↦ ok (some (true, record c { ofile = ofile; files = s }))
    ])

pub sys_close : Caller → Outcome (Option (Bool × Caller))
sys_close c = close_fd c (argfd 0 c)

-- the rest of `sys_fstat`: where the result goes, and the result
abbrev pub stat_file :
    Caller → Option (ℕ × ℕ) → Option ℕ → Outcome (Option (Option (ℕ × Stat) × Caller))
stat_file c none st = ok (some (none, c))
stat_file c (some (fd, f)) none = ok (some (none, c))
stat_file c (some (fd, f)) (some st) = filestat f c.files >>= (λ o. elim o [
  | none ↦ ok none
  | some (r, s) ↦ elim r [
    | none ↦ ok (some (none, record c { files = s }))
    | some v ↦ ok (some (some (st, v), record c { files = s }))
  ]
])

abbrev pub stat_size : ℕ
stat_size = 20

pub sys_fstat : Caller → Outcome (Option (Option (ℕ × Stat) × Caller))
sys_fstat c = stat_file c (argfd 0 c) (argptr c.user 1 stat_size)

-- the arguments of `sys_read` and `sys_write`: the file, the address and the count
abbrev transfer_args : Caller → Option (ℕ × ℕ) → Option ℕ → Option (ℕ × ℕ × ℕ)
transfer_args c none n = none
transfer_args c (some (fd, f)) none = none
transfer_args c (some (fd, f)) (some n) = elim (argptr c.user 1 n) [
  | none ↦ none
  | some p ↦ some (f, p, n)
]

module _ (dev_read : ℕ → Option (ℕ → ℕ → Bytes → ℕ × Bytes)) (killed : Bool) where
  pub sys_read : Caller → Outcome (Option (Option (Result (List ℕ) (Unit {0})) × Caller))
  sys_read c = elim (transfer_args c (argfd 0 c) (argint c.user 2)) [
    | none ↦ ok (some (none, c))
    | some (f, p, n) ↦ fileread dev_read killed f p n c.user.mem c.files >>= (λ o. elim o [
      | none ↦ ok none
      | some (r, mem, s) ↦
          ok (some (some r, record c { user = record (c.user) { mem = mem }; files = s }))
    ])
  ]

module _ (dev_write : ℕ → Option (ℕ → ℕ → Bytes → ℕ)) (killed : Bool) where
  pub sys_write : Caller → Outcome (Option (Option (Result (Unit {0}) (List ℕ)) × Caller))
  sys_write c = elim (transfer_args c (argfd 0 c) (argint c.user 2)) [
    | none ↦ ok (some (none, c))
    | some (f, p, n) ↦ filewrite dev_write killed f p n c.user.mem c.files >>= (λ o. elim o [
      | none ↦ ok none
      | some (r, s) ↦ ok (some (some r, record c { files = s }))
    ])
  ]

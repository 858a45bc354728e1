-- ===== src/Sysproc.antt =====
-- sysproc.c and growproc of proc.c: the system calls of a process on itself, and kill. An `int` is
-- its bit pattern; `none` stands for -1.
pub mod Tests
use os_hw.Prelude.{
  ℕ, zero, suc, ◌+◌, ◌-◌, ◌%◌, ◌^◌, Bool, true, false, ◌&&◌, Option, none, some, ltb, leb, ◌==◌,
  if◌then◌else◌,
}
use os_hw.Prelude.Outcome.{Outcome, ok, panic, ◌>>=◌}
use os_hw.Kalloc.{Kmem}
use os_hw.Vm.{allocuvm, deallocuvm}
use os_hw.Args.{User, argint}
use os_hw.Proc.{Table, kill}

-- what `growproc` makes of the size that allocuvm or deallocuvm returns
abbrev pub new_size : ℕ × Kmem → Outcome (Option ℕ × Kmem)
new_size (sz, k) = ok (if sz == 0 then none else some sz, k)

-- The new size of the process, which has the page directory `pgdir` and the size `sz`.
pub growproc : (end pgdir sz n : ℕ) → Kmem → Outcome (Option ℕ × Kmem)
growproc end pgdir sz n k =
    if ltb 0 n && ltb n (2 ^ 31)
    then (allocuvm end pgdir sz ((sz + n) % 2 ^ 32) k >>= new_size)
    else if leb (2 ^ 31) n
    then (deallocuvm end pgdir sz ((sz + n) % 2 ^ 32) k >>= new_size)
    else ok (some sz, k)

-- the result of `sys_sbrk`, and the size of the process after it
abbrev pub old_size : (sz : ℕ) → Option ℕ × Kmem → Outcome (Option ℕ × ℕ × Kmem)
old_size sz (none, k) = ok (none, sz, k)
old_size sz (some sz', k) = ok (some sz, sz', k)

abbrev pub sbrk_by : (end pgdir sz : ℕ) → Option ℕ → Kmem → Outcome (Option ℕ × ℕ × Kmem)
sbrk_by end pgdir sz none k = ok (none, sz, k)
sbrk_by end pgdir sz (some n) k = growproc end pgdir sz n k >>= old_size sz

pub sys_sbrk : (end pgdir : ℕ) → User → Kmem → Outcome (Option ℕ × ℕ × Kmem)
sys_sbrk end pgdir u k = sbrk_by end pgdir u.sz (argint u 0) k

-- How a pass of the loop of `sys_sleep` ends: back in `sleep`, with -1, or with 0.
pub data Pass : Type 0 where
  asleep : Pass
  failed : Pass
  finished : Pass

-- A pass at the time `ticks`, of a call for `n` ticks from `ticks0` on; both sides of the test are
-- unsigned.
pub sleep_pass : (ticks0 n ticks : ℕ) → (killed : Bool) → Pass
sleep_pass ticks0 n ticks killed =
    if ltb ((ticks + 2 ^ 32 - ticks0) % 2 ^ 32) n
    then (if killed then failed else asleep)
    else finished

abbrev pub kill_by : Option ℕ → Table → Table × Bool
kill_by none t = (t, false)
kill_by (some pid) t = kill pid t

-- The Boolean is whether `sys_kill` returns 0 (and not -1).
pub sys_kill : User → Table → Table × Bool
sys_kill u t = kill_by (argint u 0) t

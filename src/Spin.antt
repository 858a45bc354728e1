-- ===== src/Spin.antt =====
-- spinlock.c: spin locks, and the nesting of pushcli and popcli. A CPU is its number. `acquire` and
-- `release` are cut where other CPUs can come in between: at their accesses to the lock. A test by
-- `holding` is one step, since what it asks of another CPU's lock does not change in between.
pub mod Nesting
pub mod Machine
pub mod Mutex
pub mod Progress
pub mod Tests
use os_hw.Prelude.{
  ℕ, zero, suc, ◌+◌, ◌-◌, Bool, true, false, not, ◌&&◌, Option, none, some, ltb, ◌==◌,
  if◌then◌else◌,
}
use os_hw.Prelude.Outcome.{Outcome, ok, panic, ◌>>=◌}

-- The flag FL_IF of the CPU, and `cpu->ncli` and `cpu->intena`.
pub record Cpu : Type 0 where
  pub interrupts : Bool
  pub ncli : ℕ
  pub intena : Bool

pub pushcli : Cpu → Cpu
pushcli c = record {
  interrupts = false;
  ncli = c.ncli + 1;
  intena = if c.ncli == 0 then c.interrupts else c.intena;
}

pub popcli : Cpu → Outcome Cpu
popcli c =
    if c.interrupts
    then panic
    else if c.ncli == 0
    then panic
    else ok (record c { ncli = c.ncli - 1; interrupts = (c.ncli - 1 == 0) && c.intena })

-- `struct spinlock`, without what it records for debugging
pub record Spinlock : Type 0 where
  pub locked : Bool
  pub cpu : Option ℕ

pub initlock : Spinlock
initlock = record { locked = false; cpu = none }

pub is_cpu : Option ℕ → ℕ → Bool
is_cpu none i = false
is_cpu (some j) i = j == i

pub holding : ℕ → Spinlock → Bool
unfolding is_cpu
holding i lk = lk.locked && is_cpu lk.cpu i

-- `acquire` up to its loop
pub start_acquire : ℕ → Spinlock → Cpu → Outcome Cpu
start_acquire i lk c = if holding i lk then panic else ok (pushcli c)

-- `xchg(&lk->locked, v)`: what was there, and the lock
pub xchg : Bool → Spinlock → Bool × Spinlock
xchg v lk = (lk.locked, record lk { locked = v })

-- `lk->cpu = cpu`
pub set_cpu : Option ℕ → Spinlock → Spinlock
set_cpu o lk = record lk { cpu = o }

-- `release` up to its `xchg`
pub start_release : ℕ → Spinlock → Outcome Spinlock
start_release i lk = if not (holding i lk) then panic else ok (set_cpu none lk)

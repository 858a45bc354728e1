-- ===== src/Proc/Zombies.antt =====
-- The handshake of exit and wait, in a table where any process may make any call.
pub mod Harmless
pub mod Fork
pub mod Wait
pub mod Exit
pub mod Reach
use os_hw.Prelude.{ℕ, ◌<◌, ◌≡◌, ◌≢◌, Option, none, some, List}
use os_hw.Prelude.Outcome.{ok}
use os_hw.Proc.{
  Table, zombie, unused, running, Chan, of_addr, nproc, wakeup, kill, fork, exit, wait, sleep,
  resume, yield, dispatch, Event,
}
use os_hw.Proc.Follows.{Waits}

-- `init` is there and has no parent, no process is its own parent, and no zombie is missed.
pub record IsSound (t : Table) : Type 0 where
  pub init_slot : t.initproc < nproc
  pub init_alive : ((t.procs t.initproc).state ≢ unused) × ((t.procs t.initproc).state ≢ zombie)
  pub init_root : (t.procs t.initproc).parent ≡ none
  pub own : (j : ℕ) → j < nproc → (t.procs j).parent ≢ some j
  pub noticed :
      (i j : ℕ)
      → i < nproc
      → j < nproc
      → (t.procs j).parent ≡ some i
      → (t.procs j).state ≡ zombie
      → ¬ Waits i (t.procs i)

-- What the processor running `curr` does to the table between taking and giving up its lock. `fork`
-- is one step, though the source takes the lock in allocproc and once more to make the child
-- runnable, and writes the fields of the child, which is EMBRYO, in between.
pub data Step (t : Table) : Table → Type 0 where
  wakes : (c : Chan) → Step t (wakeup c t)
  kills : (pid : ℕ) → Step t (kill pid t).0
  forks :
      (stack dir : Option ℕ) (curr : ℕ)
      → (t.procs curr).state ≡ running
      → Step t (fork stack dir curr t).table
  exits :
      (curr : ℕ) {t' : Table} {events : List Event}
      → curr < nproc
      → (t.procs curr).state ≡ running
      → exit curr t ≡ ok (t', events)
      → Step t t'
  waits : (curr : ℕ) → curr < nproc → (t.procs curr).state ≡ running → Step t (wait curr t).0
  sleeps : (a curr : ℕ) → (t.procs curr).state ≡ running → Step t (sleep (of_addr a) curr t)
  resumes : (curr : ℕ) → (t.procs curr).state ≡ running → Step t (resume curr t)
  yields : (curr : ℕ) → (t.procs curr).state ≡ running → Step t (yield curr t)
  dispatches : (i : ℕ) → Step t (dispatch i t).0

-- ===== src/Proc/Tests.antt =====
-- A parent in slot 1 with a child in slot 2, and `init` in slot 0.
use os_hw.Prelude.{◌<◌, true, ℕ, zero, suc, ◌≡◌, ◌≢◌, refl, false, none, some, List, [], arith}
use os_hw.Prelude.Outcome.{Outcome, ok, panic}
use os_hw.Proc.{
  kill, allocproc, Proc, Table, Event, unused, sleeping, runnable, running, zombie, of_proc,
  wakeup1, adopt_one, wait, exit,
}
use os_hw.Proc.Follows.{Waits}
use os_hw.Proc.Kill.{Killed, kill-Killed, IsFirstFree, allocproc-kill_zero}
use os_hw.Proc.Wait.{Waited, wait-Waited}
use os_hw.Proc.Zombies.{IsSound, exits}
use os_hw.Proc.Zombies.Reach.{here, next, Reach-noticed}

abbrev free_slot : Proc
free_slot = record {
  sz = 0;
  pgdir = 0;
  kstack = 0;
  state = unused;
  pid = 0;
  parent = none;
  tf = record { eax = 0; others = [] };
  chan = none;
  killed = false;
  ofile = [];
  cwd = 0;
  name = [];
}

abbrev init_proc : Proc
init_proc = record free_slot { state = runnable; pid = 1; kstack = 4096; pgdir = 8192 }

abbrev parent_proc : Proc
parent_proc = record init_proc { state = running; pid = 2; parent = some 0 }

abbrev child_proc : Proc
child_proc = record init_proc { state = runnable; pid = 3; parent = some 1 }

abbrev family : ℕ → Proc
family zero = init_proc
family (suc zero) = parent_proc
family (suc (suc zero)) = child_proc
family (suc (suc (suc i))) = free_slot

abbrev family_table : Table
family_table = record { procs = family; nextpid = 4; initproc = 0 }

-- the parent sleeps in `wait`, and the child has exited
abbrev orphans : ℕ → Proc
orphans zero = init_proc
orphans (suc zero) = parent_proc
orphans (suc (suc zero)) = record child_proc { state = zombie }
orphans (suc (suc (suc i))) = free_slot

wait-Waited_example :
    let (t', result, events) = wait 1 (record family_table { procs = orphans }) in
    Waited 1 (record family_table { procs = orphans }) t' result events
wait-Waited_example = wait-Waited 1 (record family_table { procs = orphans })

-- the parent sleeps in `wait` while the child runs
abbrev waiting : ℕ → Proc
waiting zero = init_proc
waiting (suc zero) = record parent_proc { state = sleeping; chan = some (of_proc 1) }
waiting (suc (suc zero)) = record child_proc { state = running }
waiting (suc (suc (suc i))) = free_slot

abbrev waiting_table : Table
waiting_table = record family_table { procs = waiting }

own : (j : ℕ) → (waiting j).parent ≢ some j
own zero e = cc
own (suc zero) e = ground arith
own (suc (suc zero)) e = ground arith
own (suc (suc (suc i))) e = cc

none_dead : (j : ℕ) → (waiting j).state ≢ zombie
none_dead zero e = cc
none_dead (suc zero) e = cc
none_dead (suc (suc zero)) e = cc
none_dead (suc (suc (suc i))) e = cc

waiting-IsSound : IsSound waiting_table
waiting-IsSound = record {
  init_slot = omega arith;
  init_alive = ((λ e. cc), λ e. cc);
  init_root = refl;
  own = λ j lt. own j;
  noticed = λ i j p q e z w. none_dead j z;
}

-- the child exits
abbrev ended_of : Outcome (Table × List Event) → Table × List Event
ended_of (ok r) = r
ended_of panic = (waiting_table, [])

abbrev ended : Table × List Event
ended = ended_of (exit 2 waiting_table)

exit_run : exit 2 waiting_table ≡ ok ended
unfolding exit
exit_run = refl

child_dead : ((ended.0.procs 2).parent ≡ some 1) × ((ended.0.procs 2).state ≡ zombie)
unfolding exit wakeup1 adopt_one
child_dead = (refl, refl)

Reach-noticed_example : ¬ Waits 1 (ended.0.procs 1)
Reach-noticed_example =
    Reach-noticed 1 2 waiting-IsSound (next here (exits 2 (omega arith) refl exit_run))
      (omega arith) (omega arith) child_dead.0 child_dead.1

kill-Killed_example : let (t', found) = kill 3 family_table in Killed 3 family_table t' found
kill-Killed_example = kill-Killed 3 family_table

family-IsFirstFree : IsFirstFree family_table 3
family-IsFirstFree = record { slot = omega arith; free = refl; no_pid = refl; before = busy }
  where
    busy : (k : ℕ) → k < 3 → ((family k).state ≢ unused) × ((family k).pid ≢ 0)
    busy zero lt = ((λ e. cc), λ e. ground arith)
    busy (suc zero) lt = ((λ e. cc), λ e. ground arith)
    busy (suc (suc zero)) lt = ((λ e. cc), λ e. ground arith)
    busy (suc (suc (suc k))) lt = absurd (omega arith)

allocproc-kill_zero_example :
    let (t', found) = kill 0 family_table in
    let (u, r) = allocproc (some 4096) t' in
    (found ≡ true) × (r ≡ some 3) × ((u.procs 3).killed ≡ true)
allocproc-kill_zero_example = allocproc-kill_zero 4096 family_table 3 family-IsFirstFree

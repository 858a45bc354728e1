-- ===== src/Proc/Zombies/Wait.antt =====
-- wait, in a sound table.
use os_hw.Prelude.{ℕ, ◌<◌, ◌≡◌, ◌≢◌, true, List, arith, ==_refl}
use os_hw.Proc.{Table, of_proc, zombie, running, is_slot, nproc, reap, sleep, wait, Event, WaitEnd}
use os_hw.Prelude.Bytes.{update}
use os_hw.Proc.Wait.{Waited, reaps, fails, blocks, wait-Waited}
use os_hw.Proc.Zombies.{IsSound}

reaps-IsSound :
    (i : ℕ) (t : Table)
    → (t.procs i).state ≡ zombie
    → IsSound t
    → IsSound (record t { procs = update t.procs i (reap (t.procs i)) })
reaps-IsSound i t z s = record {
  init_slot = s.init_slot;
  init_alive = ground (arith, s.init_alive);
  init_root = ground (arith, s.init_alive, s.init_root);
  own = λ j lt. ground (arith, s.own j lt);
  noticed = λ k j lk lj. ground (arith, s.noticed k j lk lj);
}

blocks-IsSound :
    (curr : ℕ) (t : Table)
    → (t.procs curr).state ≡ running
    → ((j : ℕ) → j < nproc → is_slot (t.procs j).parent curr ≡ true → (t.procs j).state ≢ zombie)
    → IsSound t
    → IsSound (sleep (of_proc curr) curr t)
unfolding sleep
blocks-IsSound curr t run none_dead s = record {
  init_slot = s.init_slot;
  init_alive = ground (arith, s.init_alive);
  init_root = ground (arith, s.init_root);
  own = λ j lt. ground (arith, s.own j lt);
  noticed = λ k j lk lj. ground (arith, s.noticed k j lk lj, none_dead j lj, ==_refl curr);
}

Waited-IsSound :
    {curr : ℕ} {t t' : Table} {r : WaitEnd} {events : List Event}
    → Waited curr t t' r events
    → (t.procs curr).state ≡ running
    → IsSound t
    → IsSound t'
unfolding sleep
Waited-IsSound {t} (reaps i lt c z) run s = reaps-IsSound i t z s
Waited-IsSound (fails why none_dead) run s = s
Waited-IsSound {curr} {t} (blocks j lt c k none_dead) run s = blocks-IsSound curr t run none_dead s

pub wait-IsSound :
    (curr : ℕ) (t : Table) → (t.procs curr).state ≡ running → IsSound t → IsSound (wait curr t).0
wait-IsSound curr t run s = Waited-IsSound (wait-Waited curr t) run s

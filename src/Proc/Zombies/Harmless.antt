-- ===== src/Proc/Zombies/Harmless.antt =====
-- The steps that neither make a zombie nor let a process wait.
use os_hw.Prelude.{ℕ, ◌≡◌, ◌≢◌, sym, ◌∙◌, arith}
use os_hw.Proc.{
  Proc, Table, zombie, unused, running, Chan, of_addr, wakeup, kill, sleep, resume, yield, dispatch,
}
use os_hw.Proc.Follows.{Waits, Follows-zombie, wakeup1-Follows, parent-wakeup1}
use os_hw.Proc.Zombies.{IsSound}

-- A process that stays as it is, or changes in a way that matters to no one who waits.
pub record Harmless (j : ℕ) (p q : Proc) : Type 0 where
  pub parent : q.parent ≡ p.parent
  pub dead : q.state ≡ zombie → p.state ≡ zombie
  pub waiting : Waits j q → Waits j p
  pub alive : p.state ≢ unused → p.state ≢ zombie → q.state ≢ unused

pub Harmless-IsSound :
    (t u : Table)
    → u.initproc ≡ t.initproc
    → ((j : ℕ) → Harmless j (t.procs j) (u.procs j))
    → IsSound t
    → IsSound u
Harmless-IsSound t u e h s = record {
  init_slot = rw e s.init_slot;
  init_alive = rw e (
    (h t.initproc).alive s.init_alive.0 s.init_alive.1,
    λ z. s.init_alive.1 ((h t.initproc).dead z),
  );
  init_root = rw e ((h t.initproc).parent ∙ s.init_root);
  own = λ j lt q. s.own j lt (sym (h j).parent ∙ q);
  noticed = λ i j li lj q z w.
      s.noticed i j li lj (sym (h j).parent ∙ q) ((h j).dead z) ((h i).waiting w);
}

pub wakes-Harmless : (c : Chan) (t : Table) (j : ℕ) → Harmless j (t.procs j) ((wakeup c t).procs j)
unfolding wakeup
wakes-Harmless c t j =
    let f = wakeup1-Follows c t.procs j in
    record {
      parent = parent-wakeup1 c t.procs j;
      dead = (Follows-zombie f).1;
      waiting = λ w. ground (arith, f.state, f.chan);
      alive = λ u z. ground (arith, f.state);
    }

pub kills-Harmless : (pid : ℕ) (t : Table) (j : ℕ) → Harmless j (t.procs j) ((kill pid t).0.procs j)
unfolding kill
kills-Harmless pid t j = record {
  parent = ground arith;
  dead = ground arith;
  waiting = ground arith;
  alive = ground arith;
}

pub init-kill : (pid : ℕ) (t : Table) → (kill pid t).0.initproc ≡ t.initproc
unfolding kill
init-kill pid t = ground arith

pub sleeps-Harmless :
    (a curr : ℕ) (t : Table) (j : ℕ)
    → (t.procs curr).state ≡ running
    → Harmless j (t.procs j) ((sleep (of_addr a) curr t).procs j)
unfolding sleep
sleeps-Harmless a curr t j run = record {
  parent = ground arith;
  dead = ground arith;
  waiting = ground arith;
  alive = ground arith;
}

pub resumes-Harmless :
    (curr : ℕ) (t : Table) (j : ℕ)
    → (t.procs curr).state ≡ running
    → Harmless j (t.procs j) ((resume curr t).procs j)
unfolding resume
resumes-Harmless curr t j run = record {
  parent = ground arith;
  dead = ground arith;
  waiting = ground arith;
  alive = ground arith;
}

pub yields-Harmless :
    (curr : ℕ) (t : Table) (j : ℕ)
    → (t.procs curr).state ≡ running
    → Harmless j (t.procs j) ((yield curr t).procs j)
unfolding yield
yields-Harmless curr t j run = record {
  parent = ground arith;
  dead = ground arith;
  waiting = ground arith;
  alive = ground arith;
}

pub dispatches-Harmless :
    (i : ℕ) (t : Table) (j : ℕ) → Harmless j (t.procs j) ((dispatch i t).0.procs j)
unfolding dispatch
dispatches-Harmless i t j = record {
  parent = ground arith;
  dead = ground arith;
  waiting = ground arith;
  alive = ground arith;
}

pub init-dispatch : (i : ℕ) (t : Table) → (dispatch i t).0.initproc ≡ t.initproc
unfolding dispatch
init-dispatch i t = ground arith

-- ===== src/Proc/Zombies/Reach.antt =====
-- The tables that are reached by the calls of proc.c.
use os_hw.Prelude.{ℕ, ◌<◌, ◌≡◌, refl, some}
use os_hw.Proc.{Table, zombie, nproc, wakeup, kill, sleep, of_addr, resume, yield, dispatch}
use os_hw.Proc.Follows.{Waits}
use os_hw.Proc.Zombies.{
  IsSound, Step, wakes, kills, forks, exits, waits, sleeps, resumes, yields, dispatches,
}
use os_hw.Proc.Zombies.Harmless.{
  Harmless-IsSound, wakes-Harmless, kills-Harmless, init-kill, sleeps-Harmless, resumes-Harmless,
  yields-Harmless, dispatches-Harmless, init-dispatch,
}
use os_hw.Proc.Zombies.Fork.{fork-IsSound}
use os_hw.Proc.Zombies.Wait.{wait-IsSound}
use os_hw.Proc.Zombies.Exit.{exit-IsSound}

pub Step-IsSound : {t u : Table} → Step t u → IsSound t → IsSound u
unfolding wakeup sleep resume yield
Step-IsSound {t} (wakes c) s = Harmless-IsSound t (wakeup c t) refl (wakes-Harmless c t) s
Step-IsSound {t} (kills pid) s =
    Harmless-IsSound t (kill pid t).0 (init-kill pid t) (kills-Harmless pid t) s
Step-IsSound {t} (forks stack dir curr run) s = fork-IsSound stack dir curr t run s
Step-IsSound {t} (exits curr lt run e) s = exit-IsSound curr t lt run e s
Step-IsSound {t} (waits curr lt run) s = wait-IsSound curr t run s
Step-IsSound {t} (sleeps a curr run) s =
    Harmless-IsSound t (sleep (of_addr a) curr t) refl (λ j. sleeps-Harmless a curr t j run) s
Step-IsSound {t} (resumes curr run) s =
    Harmless-IsSound t (resume curr t) refl (λ j. resumes-Harmless curr t j run) s
Step-IsSound {t} (yields curr run) s =
    Harmless-IsSound t (yield curr t) refl (λ j. yields-Harmless curr t j run) s
Step-IsSound {t} (dispatches i) s =
    Harmless-IsSound t (dispatch i t).0 (init-dispatch i t) (dispatches-Harmless i t) s

pub data Reach (t : Table) : Table → Type 0 where
  here : Reach t t
  next : {u v : Table} → Reach t u → Step u v → Reach t v

Reach-IsSound : {t u : Table} → IsSound t → Reach t u → IsSound u
Reach-IsSound s here = s
Reach-IsSound s (next r st) = Step-IsSound st (Reach-IsSound s r)

-- From a sound table, by any calls of wakeup, kill, fork, exit, wait, sleep and yield and any
-- turns of the scheduler, no process comes to sleep in `wait` while a child of it is a zombie.
pub Reach-noticed :
    {t u : Table} (i j : ℕ)
    → IsSound t
    → Reach t u
    → i < nproc
    → j < nproc
    → (u.procs j).parent ≡ some i
    → (u.procs j).state ≡ zombie
    → ¬ Waits i (u.procs i)
Reach-noticed i j s r = (Reach-IsSound s r).noticed i j

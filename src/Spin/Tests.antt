-- ===== src/Spin/Tests.antt =====
-- spinlock.c at work: CPU 0 has the lock, and CPU 1 waits for it.
use os_hw.Prelude.{ℕ, ◌≤◌, ◌≡◌, ◌≢◌, refl, ◌⊎◌, true, false, some, none}
use os_hw.Prelude.Bytes.{update}
use os_hw.Prelude.Outcome.{ok}
use os_hw.Spin.{
  Cpu, pushcli, popcli, initlock, is_cpu, holding, start_acquire, xchg, set_cpu, start_release,
}
use os_hw.Spin.Machine.{
  outside, spinning, won, inside, Machine, set_phase, Step, enter, take, sign, Reach, here, next,
  IsStart,
}
use os_hw.Spin.Progress.{steps_left, Nearer, Reach-mutex, Reach-progress}

abbrev on : Cpu
on = record { interrupts = true; ncli = 0; intena = false }

abbrev boot : Machine
boot = record { lock = initlock; cpu = λ _. on; phase = λ _. outside }

abbrev entered : Machine → ℕ → Machine
entered s i = record (set_phase s i spinning) { cpu = update s.cpu i (pushcli (s.cpu i)) }

abbrev first_in : Machine
first_in = entered boot 0

abbrev first_took : Machine
first_took = record (set_phase first_in 0 won) { lock = (xchg true first_in.lock).1 }

abbrev first_has : Machine
first_has = record (set_phase first_took 0 inside) { lock = set_cpu (some 0) first_took.lock }

abbrev second_in : Machine
second_in = entered first_has 1

boot-IsStart : IsStart boot
boot-IsStart = record { lock = refl; phase = λ i. refl }

second_in-Reach : Reach boot second_in
unfolding start_acquire holding is_cpu initlock xchg set_cpu
second_in-Reach =
    next (next (next (next here (enter 0 _ refl refl)) (take 0 refl refl)) (sign 0 refl))
      (enter 1 _ refl refl)

Reach-mutex_example :
    ((i j : ℕ) → second_in.phase i ≡ inside → second_in.phase j ≡ inside → i ≡ j)
    × ((i : ℕ)
        → second_in.phase i ≡ outside
        → start_acquire i second_in.lock (second_in.cpu i) ≡ ok (pushcli (second_in.cpu i)))
    × ((i : ℕ)
        → second_in.phase i ≡ inside
        → start_release i second_in.lock ≡ ok (set_cpu none second_in.lock))
    × ((i : ℕ) → second_in.phase i ≢ outside → (c : Cpu) × (popcli (second_in.cpu i) ≡ ok c))
Reach-mutex_example = Reach-mutex boot second_in boot-IsStart second_in-Reach

Reach-progress_example :
    Step second_in (record (set_phase second_in 1 won) { lock = (xchg true second_in.lock).1 })
    ⊎ ((j : ℕ) × (steps_left (second_in.phase j) ≤ 3) × Nearer second_in j)
Reach-progress_example = Reach-progress boot second_in 1 boot-IsStart second_in-Reach refl

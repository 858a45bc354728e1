-- ===== src/Spin/Machine.antt =====
-- Any number of CPUs that acquire and release one lock, their steps in any order.
use os_hw.Prelude.{ℕ, ◌≡◌, Bool, true, false, some}
use os_hw.Prelude.Bytes.{update}
use os_hw.Prelude.Outcome.{ok}
use os_hw.Spin.{Cpu, popcli, Spinlock, initlock, start_acquire, xchg, set_cpu, start_release}

-- Where a CPU is: not in a call, in the loop of `acquire`, after it, between `acquire` and
-- `release`, before the `xchg` of `release`, after it.
pub data Phase : Type 0 where
  outside spinning won inside leaving left : Phase

-- The lock, and each CPU with its phase.
pub record Machine : Type 0 where
  pub lock : Spinlock
  pub cpu : ℕ → Cpu
  pub phase : ℕ → Phase

abbrev pub set_phase : Machine → ℕ → Phase → Machine
set_phase s i p = record s { phase = update s.phase i p }

pub data Step (s : Machine) : Machine → Type 0 where
  enter :
      (i : ℕ) (c : Cpu)
      → s.phase i ≡ outside
      → start_acquire i s.lock (s.cpu i) ≡ ok c
      → Step s (record (set_phase s i spinning) { cpu = update s.cpu i c })
  spin :
      (i : ℕ)
      → s.phase i ≡ spinning
      → (xchg true s.lock).0 ≡ true
      → Step s (record s { lock = (xchg true s.lock).1 })
  take :
      (i : ℕ)
      → s.phase i ≡ spinning
      → (xchg true s.lock).0 ≡ false
      → Step s (record (set_phase s i won) { lock = (xchg true s.lock).1 })
  sign :
      (i : ℕ)
      → s.phase i ≡ won
      → Step s (record (set_phase s i inside) { lock = set_cpu (some i) s.lock })
  begin_release :
      (i : ℕ) (lk : Spinlock)
      → s.phase i ≡ inside
      → start_release i s.lock ≡ ok lk
      → Step s (record (set_phase s i leaving) { lock = lk })
  unlock :
      (i : ℕ)
      → s.phase i ≡ leaving
      → Step s (record (set_phase s i left) { lock = (xchg false s.lock).1 })
  finish :
      (i : ℕ) (c : Cpu)
      → s.phase i ≡ left
      → popcli (s.cpu i) ≡ ok c
      → Step s (record (set_phase s i outside) { cpu = update s.cpu i c })

pub data Reach (s : Machine) : Machine → Type 0 where
  here : Reach s s
  next : {t u : Machine} → Reach s t → Step t u → Reach s u

-- The CPU has the lock: no other may take it.
abbrev pub has_lock : Phase → Bool
has_lock outside = false
has_lock spinning = false
has_lock won = true
has_lock inside = true
has_lock leaving = true
has_lock left = false

abbrev pub is_inside : Phase → Bool
is_inside outside = false
is_inside spinning = false
is_inside won = false
is_inside inside = true
is_inside leaving = false
is_inside left = false

-- The lock as `initlock` leaves it, and no CPU in a call.
pub record IsStart (s : Machine) : Type 0 where
  pub lock : s.lock ≡ initlock
  pub phase : (i : ℕ) → s.phase i ≡ outside

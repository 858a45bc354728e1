-- ===== src/Spin/Progress.antt =====
-- Mutual exclusion, and that a CPU that waits for the lock is not stuck.
use os_hw.Prelude.{
  ℕ, ◌+◌, ◌-◌, ◌≤◌, ◌<◌, ◌≡◌, ◌≢◌, refl, sym, subst, ◌∙◌, ap, ◌⊎◌, inl, inr, Bool, true, false,
  ◌&&◌, none, ◌==◌, ==→eq, ==_refl, Bool-cases, arith,
}
use os_hw.Prelude.Bytes.{update}
use os_hw.Prelude.Outcome.{ok}
use os_hw.Spin.{Cpu, pushcli, popcli, is_cpu, holding, start_acquire, xchg, set_cpu, start_release}
use os_hw.Spin.Machine.{
  Phase, outside, spinning, won, inside, leaving, left, Machine, set_phase, Step, enter, spin, take,
  sign, begin_release, unlock, finish, Reach, here, next, has_lock, is_inside, IsStart,
}
use os_hw.Spin.Mutex.{IsExclusive, start_release-inside, Reach-IsExclusive}

and_false : (b : Bool) → (b && false) ≡ false
and_false true = refl
and_false false = refl

start_acquire-outside :
    (s : Machine) (i : ℕ)
    → IsExclusive s
    → s.phase i ≡ outside
    → start_acquire i s.lock (s.cpu i) ≡ ok (pushcli (s.cpu i))
unfolding start_acquire holding
start_acquire-outside s i x at =
    let absent : is_cpu s.lock.cpu i ≡ false = x.holder i ∙ ap is_inside at in
    rw (absent, and_false s.lock.locked) refl

-- A CPU in a call counts its pushcli, and has interrupts off.
record IsPushed (c : Cpu) : Type 0 where
  counts : 0 < c.ncli
  off : c.interrupts ≡ false

abbrev ArePushed : Machine → Type 0
ArePushed s = (i : ℕ) → s.phase i ≢ outside → IsPushed (s.cpu i)

pushcli-IsPushed : (c : Cpu) → IsPushed (pushcli c)
unfolding pushcli
pushcli-IsPushed c = record { counts = omega arith; off = refl }

-- A step of CPU `i` within a call.
within :
    (s : Machine) (i : ℕ) (p q : Phase)
    → ArePushed s
    → s.phase i ≡ q
    → q ≢ outside
    → (j : ℕ) → update s.phase i p j ≢ outside
    → IsPushed (s.cpu j)
within s i p q old at busy j called = elim (Bool-cases (i == j)) [
  | inl e ↦ subst (λ k. IsPushed (s.cpu k)) (==→eq i j e) (old i (λ z. busy (sym at ∙ z)))
  | inr e ↦ old j (rw e at called)
]

ok_cpu : {a b : Cpu} → ok a ≡ ok b → a ≡ b
ok_cpu e = cc

Step-ArePushed : (s t : Machine) → IsExclusive s → Step s t → ArePushed s → ArePushed t
Step-ArePushed s t x (enter i c at run) old = λ j called. elim (Bool-cases (i == j)) [
  | inl e ↦
      let made : pushcli (s.cpu i) ≡ c = ok_cpu (sym (start_acquire-outside s i x at) ∙ run) in
      rw e (subst IsPushed made (pushcli-IsPushed (s.cpu i)))
  | inr e ↦ rw e (old j (rw e at called))
]
Step-ArePushed s t x (spin i at taken) old = old
Step-ArePushed s t x (take i at free) old = within s i won spinning old at (λ z. cc)
Step-ArePushed s t x (sign i at) old = within s i inside won old at (λ z. cc)
Step-ArePushed s t x (begin_release i lk at run) old = within s i leaving inside old at (λ z. cc)
Step-ArePushed s t x (unlock i at) old = within s i left leaving old at (λ z. cc)
Step-ArePushed s t x (finish i c at run) old = λ j called. elim (Bool-cases (i == j)) [
  | inl e ↦ absurd ((rw e at called) refl)
  | inr e ↦ rw e (old j (rw e at called))
]

Reach-ArePushed : (s t : Machine) → IsStart s → Reach s t → ArePushed t
Reach-ArePushed s t start here = λ i called. absurd (called (start.phase i))
Reach-ArePushed s u start (next {t} reach step) =
    Step-ArePushed t u (Reach-IsExclusive s t start reach) step (Reach-ArePushed s t start reach)

popcli-IsPushed : (c : Cpu) → IsPushed c → (c' : Cpu) × (popcli c ≡ ok c')
unfolding popcli
popcli-IsPushed c v =
    let on : (c.ncli == 0) ≡ false = ground (arith, v.counts) in
    (
      record c { ncli = c.ncli - 1; interrupts = (c.ncli - 1 == 0) && c.intena },
      rw (v.off, on) refl,
    )

-- However the steps of CPUs interleave, of two CPUs between `acquire` and `release` of the lock,
-- both are the same. An `acquire` by a CPU outside does not panic. Nor does a `release` by one inside:
-- not where it tests that the CPU holds the lock, and not in its popcli, wherever in the call the
-- CPU is.
pub Reach-mutex :
    (s t : Machine)
    → IsStart s
    → Reach s t
    → ((i j : ℕ) → t.phase i ≡ inside → t.phase j ≡ inside → i ≡ j)
      × ((i : ℕ) → t.phase i ≡ outside → start_acquire i t.lock (t.cpu i) ≡ ok (pushcli (t.cpu i)))
      × ((i : ℕ) → t.phase i ≡ inside → start_release i t.lock ≡ ok (set_cpu none t.lock))
      × ((i : ℕ) → t.phase i ≢ outside → (c : Cpu) × (popcli (t.cpu i) ≡ ok c))
Reach-mutex s t start reach =
    let x = Reach-IsExclusive s t start reach in
    (
      λ i j mine theirs. x.single i j (ap has_lock mine) (ap has_lock theirs),
      λ i at. start_acquire-outside t i x at,
      λ i at. start_release-inside t i x at,
      λ i called. popcli-IsPushed (t.cpu i) (Reach-ArePushed s t start reach i called),
    )

-- the steps that a CPU with the lock has until it gives it up
abbrev pub steps_left : Phase → ℕ
steps_left outside = 0
steps_left spinning = 0
steps_left won = 3
steps_left inside = 2
steps_left leaving = 1
steps_left left = 0

-- One step of CPU `i`, after which it is nearer to giving up the lock.
abbrev pub Nearer : Machine → ℕ → Type 0
Nearer s i = (t : Machine) × Step s t × (steps_left (t.phase i) + 1 ≡ steps_left (s.phase i))

nearer :
    (s : Machine) (i : ℕ) (p : Phase)
    → IsExclusive s
    → s.phase i ≡ p
    → has_lock p ≡ true
    → Nearer s i
nearer s i outside x at mine = absurd (ground arith)
nearer s i spinning x at mine = absurd (ground arith)
nearer s i won x at mine = (_, sign i at, rw (==_refl i, at) refl)
nearer s i inside x at mine =
    (_, begin_release i _ at (start_release-inside s i x at), rw (==_refl i, at) refl)
nearer s i leaving x at mine = (_, unlock i at, rw (==_refl i, at) refl)
nearer s i left x at mine = absurd (ground arith)

-- However the steps of CPUs interleave, the lock is free, and then a CPU in the loop of `acquire`
-- gets it with its next `xchg`; or some CPU has it, and can take a step towards giving it up, of
-- which it has three.
pub Reach-progress :
    (s t : Machine) (i : ℕ)
    → IsStart s
    → Reach s t
    → t.phase i ≡ spinning
    → Step t (record (set_phase t i won) { lock = (xchg true t.lock).1 })
      ⊎ ((j : ℕ) × (steps_left (t.phase j) ≤ 3) × Nearer t j)
unfolding xchg
Reach-progress s t i start reach at =
    let x = Reach-IsExclusive s t start reach in
    elim (Bool-cases t.lock.locked) [
      | inl locked ↦
          let (j, mine) = x.owner locked in inr (j, bound (t.phase j), nearer t j _ x refl mine)
      | inr free ↦ inl (take i at free)
    ]
  where
    bound : (p : Phase) → steps_left p ≤ 3
    bound outside = omega arith
    bound spinning = omega arith
    bound won = omega arith
    bound inside = omega arith
    bound leaving = omega arith
    bound left = omega arith

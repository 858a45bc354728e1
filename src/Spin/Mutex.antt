-- ===== src/Spin/Mutex.antt =====
-- What holds of the lock and its CPUs at all times.
use os_hw.Prelude.{
  ℕ, ◌≡◌, refl, sym, ◌∙◌, ap, subst, inl, inr, Bool, true, false, Option, none, some, ◌==◌,
  if◌then◌else◌, ==→eq, ==_refl, Bool-cases, arith,
}
use os_hw.Prelude.Bytes.{update}
use os_hw.Prelude.Outcome.{ok}
use os_hw.Spin.{Spinlock, initlock, is_cpu, holding, xchg, set_cpu, start_release}
use os_hw.Spin.Machine.{
  Phase, outside, spinning, won, inside, leaving, left, Machine, set_phase, Step, enter, spin, take,
  sign, begin_release, unlock, finish, Reach, here, next, has_lock, is_inside, IsStart,
}

-- One CPU at most has the lock, and one does just when it is locked; its `cpu` is the one that is
-- inside.
pub record IsExclusive (s : Machine) : Type 0 where
  pub single : (i j : ℕ) → has_lock (s.phase i) ≡ true → has_lock (s.phase j) ≡ true → i ≡ j
  pub locked : (i : ℕ) → has_lock (s.phase i) ≡ true → s.lock.locked ≡ true
  pub owner : s.lock.locked ≡ true → (i : ℕ) × (has_lock (s.phase i) ≡ true)
  pub holder : (i : ℕ) → is_cpu s.lock.cpu i ≡ is_inside (s.phase i)

ok_inj : {a b : Spinlock} → ok a ≡ ok b → a ≡ b
ok_inj e = cc

-- A property of phases that step `p` of CPU `i` keeps.
same_phase :
    (f : Phase → Bool) (phase : ℕ → Phase) (i : ℕ) (p q : Phase)
    → phase i ≡ q
    → f q ≡ f p
    → (j : ℕ) → f (update phase i p j) ≡ f (phase j)
same_phase f phase i p q at keeps j = elim (Bool-cases (i == j)) [
  | inl e ↦ rw e (sym keeps ∙ ap f (sym at) ∙ ap (λ k. f (phase k)) (==→eq i j e))
  | inr e ↦ rw e refl
]

-- another CPU than the one that has the lock
others :
    (s : Machine) (i j : ℕ)
    → IsExclusive s
    → has_lock (s.phase i) ≡ true
    → (i == j) ≡ false
    → has_lock (s.phase j) ≡ false
others s i j x mine ne = elim (Bool-cases (has_lock (s.phase j))) [
  | inl theirs ↦ absurd (ground (arith, ne, x.single i j mine theirs))
  | inr free ↦ free
]

not_inside : (p : Phase) → has_lock p ≡ false → is_inside p ≡ false
not_inside outside h = refl
not_inside spinning h = refl
not_inside won h = refl
not_inside inside h = absurd (ground arith)
not_inside leaving h = refl
not_inside left h = refl

-- A step that leaves `has_lock` of every CPU as it was.
kept :
    (s t : Machine)
    → IsExclusive s
    → ((j : ℕ) → has_lock (t.phase j) ≡ has_lock (s.phase j))
    → s.lock.locked ≡ t.lock.locked
    → ((j : ℕ) → is_cpu t.lock.cpu j ≡ is_inside (t.phase j))
    → IsExclusive t
kept s t x same locked holder = record {
  single = λ i j mine theirs. x.single i j (sym (same i) ∙ mine) (sym (same j) ∙ theirs);
  locked = λ i mine. sym locked ∙ x.locked i (sym (same i) ∙ mine);
  owner = λ h. let (i, mine) = x.owner (locked ∙ h) in (i, same i ∙ mine);
  holder = holder;
}

-- the CPU inside once CPU `i`, which has the lock, goes to phase `p`
inside_now :
    (s : Machine) (i : ℕ) (p : Phase) (o : Option ℕ)
    → IsExclusive s
    → has_lock (s.phase i) ≡ true
    → is_cpu o i ≡ is_inside p
    → ((j : ℕ) → (i == j) ≡ false → is_cpu o j ≡ false)
    → (j : ℕ) → is_cpu o j ≡ is_inside (update s.phase i p j)
inside_now s i p o x mine at_i elsewhere j = elim (Bool-cases (i == j)) [
  | inl e ↦ rw e (ap (is_cpu o) (sym (==→eq i j e)) ∙ at_i)
  | inr e ↦ rw e (elsewhere j e ∙ sym (not_inside _ (others s i j x mine e)))
]

only :
    (s : Machine) (i : ℕ) (p : Phase)
    → ((j : ℕ) → (i == j) ≡ false → has_lock (s.phase j) ≡ false)
    → (j : ℕ) → has_lock (update s.phase i p j) ≡ true
    → (i ≡ j) × (has_lock p ≡ true)
only s i p free j mine = elim (Bool-cases (i == j)) [
  | inl e ↦ (==→eq i j e, rw e at mine)
  | inr e ↦ absurd (ground (arith, free j e, rw e at mine))
]

pub holding-inside :
    (s : Machine) (i : ℕ) → IsExclusive s → s.phase i ≡ inside → holding i s.lock ≡ true
unfolding holding
holding-inside s i x at =
    let locked = x.locked i (ap has_lock at) in
    let mine : is_cpu s.lock.cpu i ≡ true = x.holder i ∙ ap is_inside at in rw (locked, mine) refl

pub start_release-inside :
    (s : Machine) (i : ℕ)
    → IsExclusive s
    → s.phase i ≡ inside
    → start_release i s.lock ≡ ok (set_cpu none s.lock)
unfolding start_release
start_release-inside s i x at = rw (holding-inside s i x at) refl

Step-IsExclusive : (s t : Machine) → IsExclusive s → Step s t → IsExclusive t
unfolding xchg set_cpu is_cpu start_release
Step-IsExclusive s t x (enter i c at run) =
    kept s _ x (same_phase has_lock s.phase i spinning outside at refl) refl
      (λ j. x.holder j ∙ sym (same_phase is_inside s.phase i spinning outside at refl j))
Step-IsExclusive s t x (spin i at taken) = kept s _ x (λ j. refl) taken (x.holder)
Step-IsExclusive s t x (take i at free) = record {
  single = λ j k mine theirs.
      let alone = only s i won (λ j ne. elim (Bool-cases (has_lock (s.phase j))) [
        | inl h ↦ absurd (ground (arith, free, x.locked j h))
        | inr h ↦ h
      ]) in
      sym ((alone j mine).0) ∙ (alone k theirs).0;
  locked = λ j mine. refl;
  owner = λ h. (i, ap (λ b. has_lock (if b then won else s.phase i)) (==_refl i));
  holder = λ j. x.holder j ∙ sym (same_phase is_inside s.phase i won spinning at refl j);
}
Step-IsExclusive s t x (sign i at) =
    kept s _ x (same_phase has_lock s.phase i inside won at refl) refl
      (inside_now s i inside (some i) x (ap has_lock at) (==_refl i) (λ j e. e))
Step-IsExclusive s t x (begin_release i lk at run) =
    let same : set_cpu none s.lock ≡ lk = ok_inj (sym (start_release-inside s i x at) ∙ run) in
    subst (λ lk. IsExclusive (record (set_phase s i leaving) { lock = lk })) same
      (kept s _ x (same_phase has_lock s.phase i leaving inside at refl) refl
        (inside_now s i leaving none x (ap has_lock at) refl (λ j e. refl)))
Step-IsExclusive s t x (unlock i at) =
    let alone = only s i left (λ j e. others s i j x (ap has_lock at) e) in
    record {
      single = λ j k mine theirs. absurd (ground (arith, (alone j mine).1));
      locked = λ j mine. absurd (ground (arith, (alone j mine).1));
      owner = λ h. absurd (ground arith);
      holder = λ j. x.holder j ∙ sym (same_phase is_inside s.phase i left leaving at refl j);
    }
Step-IsExclusive s t x (finish i c at run) =
    kept s _ x (same_phase has_lock s.phase i outside left at refl) refl
      (λ j. x.holder j ∙ sym (same_phase is_inside s.phase i outside left at refl j))

start-IsExclusive : (s : Machine) → IsStart s → IsExclusive s
unfolding initlock is_cpu
start-IsExclusive s start = record {
  single = λ i j mine. absurd (ground (arith, start.phase i, mine));
  locked = λ i mine. absurd (ground (arith, start.phase i, mine));
  owner = λ h. absurd (ground (arith, start.lock, h));
  holder = λ i. rw (start.lock, start.phase i) refl;
}

pub Reach-IsExclusive : (s t : Machine) → IsStart s → Reach s t → IsExclusive t
Reach-IsExclusive s t start here = start-IsExclusive s start
Reach-IsExclusive s u start (next {t} reach step) =
    Step-IsExclusive t u (Reach-IsExclusive s t start reach) step

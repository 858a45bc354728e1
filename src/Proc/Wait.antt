-- ===== src/Proc/Wait.antt =====
-- wait: what it does on each of its three ends.
use os_hw.Prelude.{
  ℕ, zero, suc, ◌+◌, ◌≤◌, ◌<◌, ◌≡◌, ◌≢◌, refl, sym, subst, ◌⊎◌, inl, inr, Bool, true, false, Option,
  none, some, List, [], ◌∷◌, arith, Bool-cases, dec_lt,
}
use os_hw.Prelude.Bytes.{update}
use os_hw.Proc.{
  Proc, Table, ProcState, unused, sleeping, zombie, of_proc, is_slot, is_zombie, nproc, scan_from,
  Event, kfree, freevm, WaitEnd, reaped, failed, asleep, finish_wait, sleep, wait,
}

-- What the loop of `wait` finds among the slots from `i` to `e`.
record Scanned (i e curr : ℕ) (ps : ℕ → Proc) (havekids : Bool) (found : Option ℕ) : Type 0 where
  hit :
      (j : ℕ)
      → found ≡ some j
      → (j < e) × (is_slot (ps j).parent curr ≡ true) × (is_zombie (ps j).state ≡ true)
  miss :
      found ≡ none
      → (j : ℕ) → i ≤ j
      → j < e
      → is_slot (ps j).parent curr ≡ true
      → is_zombie (ps j).state ≡ false
  childless : havekids ≡ false → (j : ℕ) → i ≤ j → j < e → is_slot (ps j).parent curr ≡ false
  parental : havekids ≡ true → (j : ℕ) × (j < e) × (is_slot (ps j).parent curr ≡ true)

step_in :
    (i e : ℕ) (P : ℕ → Type 0)
    → P i
    → ((j : ℕ) → i + 1 ≤ j → j < e → P j)
    → (j : ℕ) → i ≤ j
    → j < e
    → P j
step_in i e P here later j lo hi = elim (dec_lt i j) [
  | yes p ↦ later j (omega arith) hi
  | no p ↦ let same : i ≡ j = omega arith in subst P same here
]

scan_from-Scanned :
    (k i e curr : ℕ) (ps : ℕ → Proc)
    → i + k ≡ e
    → let (havekids, found) = scan_from k i curr ps in Scanned i e curr ps havekids found
unfolding scan_from
scan_from-Scanned zero i e curr ps q = record {
  hit = λ j f. cc;
  miss = λ f j lo hi. absurd (omega arith);
  childless = λ h j lo hi. absurd (omega arith);
  parental = λ h. cc;
}
scan_from-Scanned (suc k) i e curr ps q =
    let rest = scan_from-Scanned k (i + 1) e curr ps (omega arith) in
    elim (Bool-cases (is_slot (ps i).parent curr)) [
      | inr c ↦ rw c (record {
        hit = rest.hit;
        miss = λ f.
            step_in i e (λ j. is_slot (ps j).parent curr ≡ true → is_zombie (ps j).state ≡ false)
              (λ s. cc) (rest.miss f);
        childless = λ h. step_in i e (λ j. is_slot (ps j).parent curr ≡ false) c (rest.childless h);
        parental = rest.parental;
      })
      | inl c ↦ elim (Bool-cases (is_zombie (ps i).state)) [
        | inl z ↦
            rw (c, z)
              (record {
                hit = λ j f. ground arith;
                miss = λ f. cc;
                childless = λ h. cc;
                parental = λ h. (i, omega arith, c);
              })
        | inr z ↦
            rw (c, z)
              (record {
                hit = rest.hit;
                miss = λ f.
                    step_in i e
                      (λ j. is_slot (ps j).parent curr ≡ true → is_zombie (ps j).state ≡ false)
                      (λ s. z) (rest.miss f);
                childless = λ h. cc;
                parental = λ h. (i, omega arith, c);
              })
      ]
    ]

-- The ends of `wait`: the table, the result and the calls of others. A child that is reaped leaves a
-- free slot without its stack, pid, parent, name and killed mark.
pub data Waited (curr : ℕ) (t : Table) : Table → WaitEnd → List Event → Type 0 where
  reaps :
      (i : ℕ)
      → i < nproc
      → is_slot (t.procs i).parent curr ≡ true
      → (t.procs i).state ≡ zombie
      → Waited curr t
          (record t {
            procs = update t.procs i (record (t.procs i) {
              kstack = 0;
              state = unused;
              pid = 0;
              parent = none;
              name = [];
              killed = false;
            });
          })
          (reaped (t.procs i).pid)
          (kfree (t.procs i).kstack ∷ freevm (t.procs i).pgdir ∷ [])
  fails :
      (((j : ℕ) → j < nproc → is_slot (t.procs j).parent curr ≡ false)
        ⊎ ((t.procs curr).killed ≡ true))
      → ((j : ℕ) → j < nproc → is_slot (t.procs j).parent curr ≡ true → (t.procs j).state ≢ zombie)
      → Waited curr t t failed []
  blocks :
      (j : ℕ)
      → j < nproc
      → is_slot (t.procs j).parent curr ≡ true
      → (t.procs curr).killed ≡ false
      → ((j : ℕ) → j < nproc → is_slot (t.procs j).parent curr ≡ true → (t.procs j).state ≢ zombie)
      → Waited curr t
          (record t {
            procs =
                update t.procs curr
                  (record (t.procs curr) { chan = some (of_proc curr); state = sleeping });
          })
          asleep
          []

zombie_of : (p : ProcState) → is_zombie p ≡ true → p ≡ zombie
zombie_of p e = ground arith

ne_zombie_of : (p : ProcState) → is_zombie p ≡ false → p ≢ zombie
ne_zombie_of p e = ground arith

-- What `sleep` makes of the table, before it switches to the scheduler.
sleep-fields :
    (curr : ℕ) (t : Table)
    → sleep (of_proc curr) curr t ≡ record t {
      procs =
          update t.procs curr
            (record (t.procs curr) { chan = some (of_proc curr); state = sleeping });
    }
unfolding sleep
sleep-fields curr t = refl

finish_wait-Waited :
    (curr : ℕ) (t : Table) (havekids : Bool) (found : Option ℕ)
    → Scanned 0 nproc curr t.procs havekids found
    → let (t', result, events) = finish_wait curr t havekids found in Waited curr t t' result events
unfolding finish_wait
finish_wait-Waited curr t havekids (some i) s =
    let (lt, c, z) = s.hit i refl in reaps i lt c (zombie_of _ z)
finish_wait-Waited curr t false none s =
    fails (inl (λ j lt. s.childless refl j (omega arith) lt))
      (λ j lt c. ne_zombie_of _ (s.miss refl j (omega arith) lt c))
finish_wait-Waited curr t true none s =
    let none_dead = λ (j : ℕ) (lt : j < nproc) (c : is_slot (t.procs j).parent curr ≡ true).
      ne_zombie_of _ (s.miss refl j (omega arith) lt c) in
    let (j, lt, c) = s.parental refl in
    elim (Bool-cases (t.procs curr).killed) [
      | inl k ↦ rw k (fails (inr k) none_dead)
      | inr k ↦ rw k (
          subst (λ u. Waited curr t u asleep []) (sym (sleep-fields curr t))
            (blocks j lt c k none_dead))
    ]

-- `wait` reaps a child that is a zombie if there is one: it returns its pid and leaves its slot
-- unused, with no stack, pid, parent, name or killed mark, and lets go of its stack and its memory.
-- If there is none it returns -1 and changes nothing when the process has no children or was killed,
-- and sleeps on itself otherwise.
pub wait-Waited :
    (curr : ℕ) (t : Table)
    → let (t', result, events) = wait curr t in Waited curr t t' result events
unfolding wait
wait-Waited curr t =
    let (havekids, found) = scan_from nproc 0 curr t.procs in
    finish_wait-Waited curr t havekids found (scan_from-Scanned nproc 0 nproc curr t.procs refl)

-- ===== src/Proc/Kill.antt =====
-- kill: which process it marks, and what allocproc makes of a slot so marked.
use os_hw.Prelude.{
  ℕ, zero, suc, ◌+◌, ◌≤◌, ◌<◌, ◌≡◌, ◌≢◌, refl, subst, ap, inl, inr, Bool, true, false, Option, none,
  some, arith, ◌==◌, Bool-cases, Option-cases, dec_lt, ==→eq,
}
use os_hw.Prelude.Bytes.{update}
use os_hw.Proc.{
  Proc, Table, unused, sleeping, runnable, is_unused, is_sleeping, nproc, find_pid, mark_killed,
  kill, find_unused, alloc_at, give_stack, allocproc,
}

-- What the loop of `kill` finds among the slots from `i` to `e`.
record IsFound (i e pid : ℕ) (ps : ℕ → Proc) (found : Option ℕ) : Type 0 where
  hit :
      (j : ℕ)
      → found ≡ some j
      → (i ≤ j) × (j < e) × ((ps j).pid ≡ pid) × ((k : ℕ) → i ≤ k → k < j → (ps k).pid ≢ pid)
  miss : found ≡ none → (j : ℕ) → i ≤ j → j < e → (ps j).pid ≢ pid

find_pid-IsFound :
    (k i e pid : ℕ) (ps : ℕ → Proc) → i + k ≡ e → IsFound i e pid ps (find_pid k i pid ps)
unfolding find_pid
find_pid-IsFound zero i e pid ps q = record {
  hit = λ j f. cc;
  miss = λ f j lo hi. absurd (omega arith);
}
find_pid-IsFound (suc k) i e pid ps q = elim (Bool-cases ((ps i).pid == pid)) [
  | inl h ↦ rw h (record {
    hit = λ j f.
        let same : i ≡ j = ground arith in
        subst
          (λ a.
            (i ≤ a) × (a < e) × ((ps a).pid ≡ pid) × ((k : ℕ) → i ≤ k → k < a → (ps k).pid ≢ pid))
          same (omega arith, omega arith, ==→eq (ps i).pid pid h, λ k lo hi. absurd (omega arith));
    miss = λ f. cc;
  })
  | inr h ↦
      let rest = find_pid-IsFound k (i + 1) e pid ps (omega arith) in
      let first : (ps i).pid ≢ pid = ground arith in
      rw h (record {
        hit = λ j f.
            let (lo, hi, p, before) = rest.hit j f in
            (
              omega arith,
              hi,
              p,
              λ k low high. elim (dec_lt i k) [
                | yes p ↦ before k (omega arith) high
                | no p ↦ let same : i ≡ k = omega arith in subst (λ a. (ps a).pid ≢ pid) same first
              ],
            );
        miss = λ f j lo hi. elim (dec_lt i j) [
          | yes p ↦ rest.miss f j (omega arith) hi
          | no p ↦ let same : i ≡ j = omega arith in subst (λ a. (ps a).pid ≢ pid) same first
        ];
      })
]

-- How `kill` ends: the new table, and whether it returns 0.
pub data Killed (pid : ℕ) (t : Table) : Table → Bool → Type 0 where
  wakes :
      (i : ℕ)
      → i < nproc
      → (t.procs i).pid ≡ pid
      → ((k : ℕ) → k < i → (t.procs k).pid ≢ pid)
      → (t.procs i).state ≡ sleeping
      → Killed pid t
          (record t {
            procs = update t.procs i (record (t.procs i) { killed = true; state = runnable });
          })
          true
  marks :
      (i : ℕ)
      → i < nproc
      → (t.procs i).pid ≡ pid
      → ((k : ℕ) → k < i → (t.procs k).pid ≢ pid)
      → (t.procs i).state ≢ sleeping
      → Killed pid t
          (record t { procs = update t.procs i (record (t.procs i) { killed = true }) })
          true
  fails : ((i : ℕ) → i < nproc → (t.procs i).pid ≢ pid) → Killed pid t t false

-- `kill` marks the first process with the pid as killed, makes it runnable if it sleeps, and
-- changes no other; if no slot of the table has the pid it changes nothing and returns -1.
pub kill-Killed : (pid : ℕ) (t : Table) → let (t', found) = kill pid t in Killed pid t t' found
unfolding kill
kill-Killed pid t = elim (Option-cases (find_pid nproc 0 pid t.procs)) [
  | inl e ↦
      rw (kill, e)
        (fails
          (λ i lt. (find_pid-IsFound nproc 0 nproc pid t.procs refl).miss e i (omega arith) lt))
  | inr (i, e) ↦
      let (lo, lt, p, before) = (find_pid-IsFound nproc 0 nproc pid t.procs refl).hit i e in
      elim (Bool-cases (is_sleeping (t.procs i).state)) [
        | inl asleep ↦
            rw (kill, e, asleep)
              (wakes i lt p (λ k less. before k (omega arith) less) (ground (arith, asleep)))
        | inr awake ↦
            rw (kill, e, awake)
              (marks i lt p (λ k less. before k (omega arith) less) (ground (arith, awake)))
      ]
]

-- the first unused slot is the one that `allocproc` finds
find_unused-some :
    (k i j : ℕ) (ps : ℕ → Proc)
    → i ≤ j
    → j < i + k
    → (ps j).state ≡ unused
    → ((a : ℕ) → i ≤ a → a < j → (ps a).state ≢ unused)
    → find_unused k i ps ≡ some j
unfolding find_unused
find_unused-some zero i j ps lo hi e before = absurd (omega arith)
find_unused-some (suc k) i j ps lo hi e before = elim (dec_lt i j) [
  | yes p ↦
      let busy : is_unused (ps i).state ≡ false = ground (arith, before i (omega arith) p) in
      rw busy (
        find_unused-some k (i + 1) j ps (omega arith) (omega arith) e
          (λ a low high. before a (omega arith) high))
  | no p ↦
      let same : i ≡ j = omega arith in
      let free : is_unused (ps i).state ≡ true = ground arith in rw free (ap some same)
]

find_pid-some :
    (k i j pid : ℕ) (ps : ℕ → Proc)
    → i ≤ j
    → j < i + k
    → (ps j).pid ≡ pid
    → ((a : ℕ) → i ≤ a → a < j → (ps a).pid ≢ pid)
    → find_pid k i pid ps ≡ some j
unfolding find_pid
find_pid-some zero i j pid ps lo hi e before = absurd (omega arith)
find_pid-some (suc k) i j pid ps lo hi e before = elim (dec_lt i j) [
  | yes p ↦
      let other : ((ps i).pid == pid) ≡ false = ground (arith, before i (omega arith) p) in
      rw other (
        find_pid-some k (i + 1) j pid ps (omega arith) (omega arith) e
          (λ a low high. before a (omega arith) high))
  | no p ↦
      let same : i ≡ j = omega arith in
      let hit : ((ps i).pid == pid) ≡ true = ground arith in rw hit (ap some same)
]

-- A slot that is free, with pid 0, and before which none is free or has that pid.
pub record IsFirstFree (t : Table) (j : ℕ) : Type 0 where
  pub slot : j < nproc
  pub free : (t.procs j).state ≡ unused
  pub no_pid : (t.procs j).pid ≡ 0
  pub before : (k : ℕ) → k < j → ((t.procs k).state ≢ unused) × ((t.procs k).pid ≢ 0)

abbrev marked : Table → ℕ → Table
marked t j = record t { procs = update t.procs j (mark_killed (t.procs j)) }

kill_zero : (t : Table) (j : ℕ) → IsFirstFree t j → kill 0 t ≡ (marked t j, true)
unfolding kill
kill_zero t j f =
    rw
      (
        kill,
        find_pid-some nproc 0 j 0 t.procs (omega arith) f.slot f.no_pid
            (λ k lo hi. (f.before k hi).1),
      )
      refl

allocproc-marked :
    (a : ℕ) (t : Table) (j : ℕ)
    → IsFirstFree t j
    → let (u, r) = allocproc (some a) (marked t j) in (r ≡ some j) × ((u.procs j).killed ≡ true)
unfolding allocproc alloc_at give_stack
allocproc-marked a t j f =
    rw
      (
        allocproc,
        find_unused-some nproc 0 j (marked t j).procs (omega arith) f.slot (ground (arith, f.free))
            (λ k lo hi. ground (arith, f.before k hi)),
      )
      (refl, ground arith)

-- Where the first free slot of the table has pid 0, `kill` of pid 0 succeeds, and the next process
-- that `allocproc` makes starts out killed.
pub allocproc-kill_zero :
    (a : ℕ) (t : Table) (j : ℕ)
    → IsFirstFree t j
    → let (t', found) = kill 0 t in
      let (u, r) = allocproc (some a) t' in
      (found ≡ true) × (r ≡ some j) × ((u.procs j).killed ≡ true)
allocproc-kill_zero a t j f =
    let (slot, marked) = allocproc-marked a t j f in rw (kill_zero t j f) (refl, slot, marked)

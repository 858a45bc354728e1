-- ===== src/Proc/Zombies/Exit.antt =====
-- exit, in a sound table.
use os_hw.Prelude.{
  ℕ, ◌<◌, ◌≡◌, ◌≢◌, refl, subst, sym, ◌∙◌, inl, inr, true, false, Option, none, some, List, ◌↔◌,
  arith, ◌==◌, Bool-cases, ==→eq, ==→ne, ne→==, ==_refl,
}
use os_hw.Prelude.Bytes.{update}
use os_hw.Prelude.Outcome.{ok}
use os_hw.Proc.{
  Proc, Table, Chan, of_proc, zombie, unused, running, is_slot, nproc, wake_parent, closed,
  hand_over, exit, Event,
}
use os_hw.Proc.Follows.{
  Waits, Follows, Follows-awake, Follows-zombie, wakeup1-Follows, wakeup1-awake, parent-wakeup1,
}
use os_hw.Proc.Exit.{Adopted, adopt-Adopted}
use os_hw.Proc.Zombies.{IsSound}

eq_of_some : (i j : ℕ) → some i ≡ some j → i ≡ j
eq_of_some i j e = cc

-- A table in which processes may have been woken.
record Woken (ps qs : ℕ → Proc) : Type 0 where
  parent : (j : ℕ) → (qs j).parent ≡ (ps j).parent
  dead : (j : ℕ) → ((ps j).state ≡ zombie) ↔ ((qs j).state ≡ zombie)
  gone : (j : ℕ) → (qs j).state ≡ unused → (ps j).state ≡ unused
  waiting : (j : ℕ) → Waits j (qs j) → Waits j (ps j)

Follows-gone : {c : Chan} {p q : Proc} → Follows c p q → q.state ≡ unused → p.state ≡ unused
Follows-gone f e = ground (arith, f.state)

Follows-Waits : {c : Chan} {p q : Proc} (i : ℕ) → Follows c p q → Waits i q → Waits i p
Follows-Waits i f w = ground (arith, f.state, f.chan)

wake_parent-Woken : (o : Option ℕ) (ps : ℕ → Proc) → Woken ps (wake_parent o ps)
unfolding wake_parent
wake_parent-Woken none ps = record {
  parent = λ j. refl;
  dead = λ j. ((λ e. e), λ e. e);
  gone = λ j e. e;
  waiting = λ j w. w;
}
wake_parent-Woken (some i) ps = record {
  parent = parent-wakeup1 (of_proc i) ps;
  dead = λ j. Follows-zombie (wakeup1-Follows (of_proc i) ps j);
  gone = λ j. Follows-gone (wakeup1-Follows (of_proc i) ps j);
  waiting = λ j. Follows-Waits j (wakeup1-Follows (of_proc i) ps j);
}

wake_parent-awake :
    (o : Option ℕ) (i : ℕ) (ps : ℕ → Proc) → o ≡ some i → i < nproc → ¬ Waits i (wake_parent o ps i)
unfolding wake_parent
wake_parent-awake none i ps e lt = cc
wake_parent-awake (some j) i ps e lt =
    let same : j ≡ i = ground arith in rw same (wakeup1-awake i ps lt)

closed-Woken : (curr : ℕ) (ps : ℕ → Proc) → Woken ps (update ps curr (closed (ps curr)))
closed-Woken curr ps = record {
  parent = λ j. ground arith;
  dead = λ j. ((λ e. ground arith), λ e. ground arith);
  gone = λ j e. ground arith;
  waiting = λ j w. ground arith;
}

module _ (curr : ℕ) (t : Table) (s : IsSound t) (lt : curr < nproc) where
  -- the table before the children are handed over
  abbrev before : ℕ → Proc
  before = wake_parent (t.procs curr).parent (update t.procs curr (closed (t.procs curr)))

  abbrev left : ℕ → Proc
  left = hand_over curr t

  before_lem : Woken t.procs before
  before_lem =
      let a = closed-Woken curr t.procs in
      let b =
        wake_parent-Woken (t.procs curr).parent (update t.procs curr (closed (t.procs curr))) in
      record {
        parent = λ j. b.parent j ∙ a.parent j;
        dead = λ j. ((λ e. (b.dead j).0 ((a.dead j).0 e)), λ e. (a.dead j).1 ((b.dead j).1 e));
        gone = λ j e. a.gone j (b.gone j e);
        waiting = λ j w. a.waiting j (b.waiting j w);
      }

  left_lem : Adopted 0 nproc curr t.initproc before left
  unfolding hand_over
  left_lem = adopt-Adopted curr t.initproc before s.init_slot

  left-dead : (j : ℕ) → (left j).state ≡ zombie → (t.procs j).state ≡ zombie
  left-dead j e = (before_lem.dead j).1 ((Follows-zombie (left_lem.follows j)).1 e)

  left-Waits : (j : ℕ) → Waits j (left j) → Waits j (t.procs j)
  left-Waits j w = before_lem.waiting j (Follows-Waits j (left_lem.follows j) w)

  parent-left_kept :
      (j : ℕ) → is_slot (t.procs j).parent curr ≡ false → (left j).parent ≡ (t.procs j).parent
  parent-left_kept j e = left_lem.kept j (rw (before_lem.parent j) e) ∙ before_lem.parent j

  parent-left_moved :
      (j : ℕ)
      → j < nproc
      → is_slot (t.procs j).parent curr ≡ true
      → (left j).parent ≡ some t.initproc
  parent-left_moved j small e = left_lem.moved j (omega arith) small (rw (before_lem.parent j) e)

  -- the parent of the process that exits is awake
  left-awake_parent : (i : ℕ) → (t.procs curr).parent ≡ some i → i < nproc → ¬ Waits i (left i)
  left-awake_parent i e small =
      Follows-awake i (left_lem.follows i) (wake_parent-awake (t.procs curr).parent i _ e small)

  -- init is awake if it is handed a zombie
  left-awake_init :
      (j : ℕ)
      → j < nproc
      → is_slot (t.procs j).parent curr ≡ true
      → (t.procs j).state ≡ zombie
      → ¬ Waits t.initproc (left t.initproc)
  left-awake_init j small e z =
      left_lem.awake j (omega arith) small (rw (before_lem.parent j) e) ((before_lem.dead j).0 z)

  exited : Table
  exited = record t { procs = update left curr (record (left curr) { state = zombie }) }

  exited-ne : (j : ℕ) → curr ≢ j → exited.procs j ≡ left j
  unfolding exited
  exited-ne j ne = rw (ne→== curr j ne) refl

  parent-exited : (j : ℕ) → (exited.procs j).parent ≡ (left j).parent
  unfolding exited
  parent-exited j = elim (Bool-cases (curr == j)) [
    | inl e ↦ rw (e, ==→eq curr j e) refl
    | inr e ↦ rw e refl
  ]

  awake-exited : ¬ Waits curr (exited.procs curr)
  unfolding exited
  awake-exited w = ground (arith, ==_refl curr)

  left_init : (left t.initproc).parent ≡ none
  left_init = parent-left_kept t.initproc (rw s.init_root refl) ∙ s.init_root

  exited_own : (j : ℕ) → j < nproc → (left j).parent ≢ some j
  exited_own j small q = elim (Bool-cases (is_slot (t.procs j).parent curr)) [
    | inr e ↦ s.own j small (sym (parent-left_kept j e) ∙ q)
    | inl e ↦ ground (arith, parent-left_moved j small e, left_init)
  ]

  exited_noticed :
      (i j : ℕ)
      → i < nproc
      → j < nproc
      → (left j).parent ≡ some i
      → (exited.procs j).state ≡ zombie
      → ¬ Waits i (left i)
  exited_noticed i j li lj q z w = elim (Bool-cases (is_slot (t.procs j).parent curr)) [
    | inl e ↦
        left-awake_init j lj e (dead_of j (not_self j e) z)
          (subst (λ k. Waits k (left k)) (eq_of_some _ _ (sym q ∙ parent-left_moved j lj e)) w)
    | inr e ↦ elim (Bool-cases (curr == j)) [
      | inl c ↦ left-awake_parent i (rw (==→eq curr j c) (sym (parent-left_kept j e) ∙ q)) li w
      | inr c ↦
          s.noticed i j li lj (sym (parent-left_kept j e) ∙ q) (dead_of j (==→ne curr j c) z)
            (left-Waits i w)
    ]
  ]
    where
      dead_of : (j : ℕ) → curr ≢ j → (exited.procs j).state ≡ zombie → (t.procs j).state ≡ zombie
      dead_of j ne z = left-dead j (rw (exited-ne j ne) at z)

      not_self : (j : ℕ) → is_slot (t.procs j).parent curr ≡ true → curr ≢ j
      not_self j e same = ground (arith, s.own curr lt)

  exited-IsSound : (t.procs curr).state ≡ running → curr ≢ t.initproc → IsSound exited
  exited-IsSound run ne =
      let same = exited-ne t.initproc ne in
      let init : exited.initproc ≡ t.initproc = unfold exited in refl in
      record {
        init_slot = rw init s.init_slot;
        init_alive =
            rw (init, same)
              (
                (λ e. s.init_alive.0 (before_lem.gone _ (Follows-gone (left_lem.follows _) e))),
                λ e. s.init_alive.1 (left-dead _ e),
              );
        init_root = rw (init, same) left_init;
        own = λ j small q. exited_own j small (sym (parent-exited j) ∙ q);
        noticed = λ i j li lj q z w. elim (Bool-cases (curr == i)) [
          | inl e ↦ awake-exited (subst (λ k. Waits k (exited.procs k)) (sym (==→eq curr i e)) w)
          | inr e ↦
              exited_noticed i j li lj (sym (parent-exited j) ∙ q) z
                (rw (exited-ne i (==→ne curr i e)) at w)
        ];
      }

exit-exited :
    (curr : ℕ) (t : Table) (s : IsSound t) (lt : curr < nproc) {t' : Table} {events : List Event}
    → (curr == t.initproc) ≡ false
    → exit curr t ≡ ok (t', events)
    → exited curr t s lt ≡ t'
unfolding exit exited
exit-exited curr t s lt c e = ground arith

-- A process that exits leaves its parent awake, and init if it has zombies among its children.
pub exit-IsSound :
    (curr : ℕ) (t : Table) {t' : Table} {events : List Event}
    → curr < nproc
    → (t.procs curr).state ≡ running
    → exit curr t ≡ ok (t', events)
    → IsSound t
    → IsSound t'
unfolding exit
exit-IsSound curr t lt run e s = elim (Bool-cases (curr == t.initproc)) [
  | inl c ↦ ground arith
  | inr c ↦
      subst IsSound (exit-exited curr t s lt c e)
        (exited-IsSound curr t s lt run (==→ne curr t.initproc c))
]

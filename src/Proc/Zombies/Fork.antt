-- ===== src/Proc/Zombies/Fork.antt =====
-- fork, in a sound table.
use os_hw.Prelude.{
  ℕ, zero, suc, ◌+◌, ◌≡◌, ◌≢◌, refl, subst, sym, ◌∙◌, ◌⊎◌, inl, inr, Option, none, some, arith,
  ◌==◌, Bool-cases, ==→eq,
}
use os_hw.Prelude.Bytes.{update}
use os_hw.Proc.{
  Proc, Table, sleeping, zombie, unused, running, find_unused, nproc, alloc_at, fork_at, give_stack,
  finish_fork, child, allocproc, fork,
}
use os_hw.Proc.Zombies.{IsSound}

find_unused-unused :
    (k i : ℕ) (ps : ℕ → Proc) (j : ℕ) → find_unused k i ps ≡ some j → (ps j).state ≡ unused
unfolding find_unused
find_unused-unused zero i ps j e = cc
find_unused-unused (suc k) i ps j e = ground (arith, find_unused-unused k (i + 1) ps j)

-- A slot that was unused, and what a call of `fork` by `curr` may have put there.
record Born (curr : ℕ) (p q : Proc) : Type 0 where
  free : p.state ≡ unused
  undead : q.state ≢ zombie
  awake : q.state ≢ sleeping
  parent : (q.parent ≡ p.parent) ⊎ (q.parent ≡ some curr)

-- Each slot is as it was, or one that `fork` has filled or given up.
record Spawned (curr : ℕ) (t u : Table) : Type 0 where
  init : u.initproc ≡ t.initproc
  slot : (j : ℕ) → (u.procs j ≡ t.procs j) ⊎ Born curr (t.procs j) (u.procs j)

-- `fork` once the table has been searched for an unused slot
abbrev fork_in : (stack dir : Option ℕ) → (curr : ℕ) → Table → Option ℕ → Table
fork_in stack dir curr t found = (fork_at dir curr (alloc_at stack t found)).table

-- A slot of the table that is written with a process fit to be `Born`.
slot-update :
    (curr i : ℕ) (t : Table) (q : Proc) (j : ℕ)
    → Born curr (t.procs i) q
    → (update t.procs i q j ≡ t.procs j) ⊎ Born curr (t.procs j) (update t.procs i q j)
slot-update curr i t q j b = elim (Bool-cases (i == j)) [
  | inl e ↦ inr (rw e (subst (λ a. Born curr (t.procs a) q) (==→eq i j e) b))
  | inr e ↦ inl (rw e refl)
]

update-update :
    {A : Type 0} (f : ℕ → A) (i : ℕ) (x y : A) (j : ℕ)
    → update (update f i x) i y j ≡ update f i y j
update-update f i x y j = ground arith

fork_in-Spawned :
    (stack dir : Option ℕ) (curr : ℕ) (t : Table) (found : Option ℕ)
    → ((i : ℕ) → found ≡ some i → (t.procs i).state ≡ unused)
    → (t.procs curr).state ≡ running
    → Spawned curr t (fork_in stack dir curr t found)
unfolding fork_at alloc_at give_stack finish_fork child
fork_in-Spawned stack dir curr t none h run = record { init = refl; slot = λ j. inl refl }
fork_in-Spawned none dir curr t (some i) h run = record {
  init = refl;
  slot = λ j. rw update-update (
      slot-update curr i t _ j (record {
        free = h i refl;
        undead = λ e. cc;
        awake = λ e. cc;
        parent = inl (ground arith);
      }));
}
fork_in-Spawned (some a) none curr t (some i) h run = record {
  init = refl;
  slot = λ j.
      rw (update-update, update-update)
        (slot-update curr i t _ j (record {
          free = h i refl;
          undead = λ e. cc;
          awake = λ e. cc;
          parent = inl (ground arith);
        }));
}
fork_in-Spawned (some a) (some d) curr t (some i) h run = record {
  init = refl;
  slot = λ j.
      rw (update-update, update-update)
        (slot-update curr i t _ j
          (record { free = h i refl; undead = λ e. cc; awake = λ e. cc; parent = inr refl }));
}

fork-Spawned :
    (stack dir : Option ℕ) (curr : ℕ) (t : Table)
    → (t.procs curr).state ≡ running
    → Spawned curr t (fork stack dir curr t).table
unfolding fork allocproc
fork-Spawned stack dir curr t run =
    fork_in-Spawned stack dir curr t (find_unused nproc 0 t.procs)
      (λ i e. find_unused-unused nproc 0 t.procs i e) run

-- A new process is no zombie and waits for none.
pub fork-IsSound :
    (stack dir : Option ℕ) (curr : ℕ) (t : Table)
    → (t.procs curr).state ≡ running
    → IsSound t
    → IsSound (fork stack dir curr t).table
fork-IsSound stack dir curr t run s =
    let f = fork-Spawned stack dir curr t run in
    let old : (fork stack dir curr t).table.procs t.initproc ≡ t.procs t.initproc =
      elim (f.slot t.initproc) [ inl e ↦ e | inr b ↦ absurd (s.init_alive.0 b.free) ] in
    record {
      init_slot = rw f.init s.init_slot;
      init_alive = rw (f.init, old) s.init_alive;
      init_root = rw (f.init, old) s.init_root;
      own = λ j lt q. elim (f.slot j) [
        | inl e ↦ s.own j lt (rw e at q)
        | inr b ↦ elim b.parent [ inl e ↦ s.own j lt (sym e ∙ q) | inr e ↦ ground (arith, b.free) ]
      ];
      noticed = λ i j li lj q z w. elim (f.slot j) [
        | inr b ↦ b.undead z
        | inl e ↦ elim (f.slot i) [
          | inr c ↦ c.awake w.0
          | inl d ↦ s.noticed i j li lj (rw e at q) (rw e at z) (rw d at w)
        ]
      ];
    }

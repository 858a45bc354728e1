-- ===== src/Proc/Exit.antt =====
-- exit: the loop that hands the children of the process to init.
use os_hw.Prelude.{
  ℕ, zero, suc, ◌+◌, ◌≤◌, ◌<◌, ◌≡◌, ◌≢◌, refl, subst, ◌∙◌, inl, inr, Bool, true, false, some, arith,
  ◌==◌, Bool-cases, ==→eq, dec_lt,
}
use os_hw.Prelude.Bytes.{update}
use os_hw.Proc.{Proc, zombie, of_proc, is_zombie, is_slot, nproc, adopt_one, adopt_from}
use os_hw.Proc.Follows.{
  Waits, Follows, Follows-refl, Follows-trans, Follows-parent, Follows-awake, Follows-zombie,
  wakeup1-Follows, wakeup1-awake, parent-wakeup1,
}

-- What the slots from `i` to `e` of the table `r` have become, when the children of `curr` among
-- them in the table `ps` are handed to `init`.
pub record Adopted (i e curr init : ℕ) (ps r : ℕ → Proc) : Type 0 where
  pub follows : (j : ℕ) → Follows (of_proc init) (ps j) (r j)
  pub moved : (j : ℕ) → i ≤ j → j < e → is_slot (ps j).parent curr ≡ true → (r j).parent ≡ some init
  pub kept : (j : ℕ) → is_slot (ps j).parent curr ≡ false → (r j).parent ≡ (ps j).parent
  pub early : (j : ℕ) → j < i → (r j).parent ≡ (ps j).parent
  pub late : (j : ℕ) → e ≤ j → (r j).parent ≡ (ps j).parent
  pub awake :
      (j : ℕ)
      → i ≤ j
      → j < e
      → is_slot (ps j).parent curr ≡ true
      → (ps j).state ≡ zombie
      → ¬ Waits init (r init)

module _ (i curr init : ℕ) (ps : ℕ → Proc) (valid : init < nproc) where
  abbrev moved_table : ℕ → Proc
  moved_table = update ps i (record (ps i) { parent = some init })

  moved-Follows : (j : ℕ) → Follows (of_proc init) (ps j) (moved_table j)
  moved-Follows j = elim (Bool-cases (i == j)) [
    | inl e ↦ rw (e, ==→eq i j e) (Follows-parent (of_proc init) (ps j) (some init))
    | inr e ↦ rw e (Follows-refl (of_proc init) (ps j))
  ]

  parent-moved_self : (j : ℕ) → i ≤ j → j < i + 1 → (moved_table j).parent ≡ some init
  parent-moved_self j lo hi = ground arith

  parent-moved_ne : (j : ℕ) → i ≢ j → (moved_table j).parent ≡ (ps j).parent
  parent-moved_ne j ne = ground arith

  only : (P : ℕ → Type 0) (j : ℕ) → i ≤ j → j < i + 1 → P j → P i
  only P j lo hi h = let e : j ≡ i = omega arith in subst P e h

  adopt_one-Adopted : Adopted i (i + 1) curr init ps (adopt_one i curr init ps)
  unfolding adopt_one
  adopt_one-Adopted = elim (Bool-cases (is_slot (ps i).parent curr)) [
    | inr e ↦ rw e (record {
      follows = λ j. Follows-refl (of_proc init) (ps j);
      moved =
          λ j lo hi q. absurd (clash e (only (λ a. is_slot (ps a).parent curr ≡ true) j lo hi q));
      kept = λ j q. refl;
      early = λ j lt. refl;
      late = λ j lt. refl;
      awake =
          λ j lo hi q. absurd (clash e (only (λ a. is_slot (ps a).parent curr ≡ true) j lo hi q));
    })
    | inl e ↦ elim (Bool-cases (is_zombie (ps i).state)) [
      | inl z ↦
          rw (e, z)
            (record {
              follows = λ j.
                  Follows-trans (moved-Follows j) (wakeup1-Follows (of_proc init) moved_table j);
              moved = λ j lo hi q.
                  parent-wakeup1 (of_proc init) moved_table j ∙ parent-moved_self j lo hi;
              kept = λ j q.
                  parent-wakeup1 (of_proc init) moved_table j ∙ parent-moved_ne j (other e q);
              early = λ j lt.
                  parent-wakeup1 (of_proc init) moved_table j ∙ parent-moved_ne j (omega arith);
              late = λ j lt.
                  parent-wakeup1 (of_proc init) moved_table j ∙ parent-moved_ne j (omega arith);
              awake = λ j lo hi q st. wakeup1-awake init moved_table valid;
            })
      | inr z ↦
          rw (e, z)
            (record {
              follows = moved-Follows;
              moved = λ j lo hi q. parent-moved_self j lo hi;
              kept = λ j q. parent-moved_ne j (other e q);
              early = λ j lt. parent-moved_ne j (omega arith);
              late = λ j lt. parent-moved_ne j (omega arith);
              awake = λ j lo hi q st.
                  absurd (not_zombie z (only (λ a. (ps a).state ≡ zombie) j lo hi st));
            })
    ]
  ]
    where
      clash : {b : Bool} → b ≡ false → b ≡ true → ⊥
      clash e q = cc

      other :
          is_slot (ps i).parent curr ≡ true → {j : ℕ} → is_slot (ps j).parent curr ≡ false → i ≢ j
      other e {j} q same = ground arith

      not_zombie : is_zombie (ps i).state ≡ false → (ps i).state ≡ zombie → ⊥
      not_zombie z st = ground arith

-- The rest of the loop after the turn at slot `i`.
Adopted-cons :
    {i e curr init : ℕ} {ps qs r : ℕ → Proc}
    → i + 1 ≤ e
    → Adopted i (i + 1) curr init ps qs
    → Adopted (i + 1) e curr init qs r
    → Adopted i e curr init ps r
Adopted-cons {i} {curr} {init} {ps} {qs} le a b = record {
  follows = λ j. Follows-trans (a.follows j) (b.follows j);
  moved = λ j lo hi q. elim (dec_lt i j) [
    | yes p ↦ b.moved j (omega arith) hi (rw (a.late j (omega arith)) q)
    | no p ↦ b.early j (omega arith) ∙ a.moved j lo (omega arith) q
  ];
  kept = λ j q. b.kept j (rw (a.kept j q) q) ∙ a.kept j q;
  early = λ j lt. b.early j (omega arith) ∙ a.early j lt;
  late = λ j far. b.late j far ∙ a.late j (omega arith);
  awake = λ j lo hi q st. elim (dec_lt i j) [
    | yes p ↦
        b.awake j (omega arith) hi (rw (a.late j (omega arith)) q)
          ((Follows-zombie (a.follows j)).0 st)
    | no p ↦ Follows-awake init (b.follows init) (a.awake j lo (omega arith) q st)
  ];
}

adopt_from-Adopted :
    (k i e curr init : ℕ) (ps : ℕ → Proc)
    → init < nproc
    → i + k ≡ e
    → Adopted i e curr init ps (adopt_from k i curr init ps)
unfolding adopt_from
adopt_from-Adopted zero i e curr init ps valid q = record {
  follows = λ j. Follows-refl (of_proc init) (ps j);
  moved = λ j lo hi. absurd (omega arith);
  kept = λ j r. refl;
  early = λ j lt. refl;
  late = λ j far. refl;
  awake = λ j lo hi. absurd (omega arith);
}
adopt_from-Adopted (suc k) i e curr init ps valid q =
    Adopted-cons (omega arith) (adopt_one-Adopted i curr init ps valid)
      (adopt_from-Adopted k (i + 1) e curr init (adopt_one i curr init ps) valid (omega arith))

-- The loop of `exit`, where `init` has a slot of the table, hands every child of the process to
-- `init`, changes no other parent, wakes only processes that sleep on `init`, and leaves `init` not
-- asleep in `wait` if one of those children is a zombie.
pub adopt-Adopted :
    (curr init : ℕ) (ps : ℕ → Proc)
    → init < nproc
    → Adopted 0 nproc curr init ps (adopt_from nproc 0 curr init ps)
adopt-Adopted curr init ps valid = adopt_from-Adopted nproc 0 nproc curr init ps valid refl

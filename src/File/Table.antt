-- ===== src/File/Table.antt =====
-- filealloc, filedup and fileclose: the counts of references of the table of open files.
use os_hw.Prelude.{
  ℕ, zero, suc, ◌+◌, ◌-◌, ◌<◌, ◌≤◌, ◌≡◌, refl, ap, subst, ◌≢◌, ◌⊎◌, inl, inr, true, Option, none,
  some, ltb, if◌then◌else◌, ◌==◌, ==→eq, ==→ne, ==_refl, Bool-cases, fun_ext, arith,
}
use os_hw.Prelude.Bytes.{update}
use os_hw.Prelude.Outcome.{Outcome, ok, panic, ◌>>=◌}
use os_hw.Fs.{Fs}
use os_hw.File.{
  File, Files, nfile, set_file, find_file, filealloc, filedup, fileclose, close_last, put_inode,
  FileType, fd_none, fd_pipe, fd_inode,
}

-- Slot `i` is the first free one among the `k` from `b` on.
record IsFirstFree (k b : ℕ) (file : ℕ → File) (i : ℕ) : Type 0 where
  from : b ≤ i
  range : i < b + k
  free : (file i).ref ≡ 0
  before : (j : ℕ) → b ≤ j → j < i → (file j).ref ≢ 0

find_file-cases :
    (k b : ℕ) (file : ℕ → File)
    → ((i : ℕ) × IsFirstFree k b file i × (find_file k b file ≡ some i))
      ⊎ (((j : ℕ) → b ≤ j → j < b + k → (file j).ref ≢ 0) × (find_file k b file ≡ none))
unfolding find_file
find_file-cases zero b file = inr (λ j lo hi. absurd (omega arith), refl)
find_file-cases (suc k) b file =
    let rest = find_file-cases k (b + 1) file in
    elim (Bool-cases ((file b).ref == 0)) [
      | inl here ↦ inl (
        b,
        record {
          from = omega arith;
          range = omega arith;
          free = ==→eq _ _ here;
          before = λ j lo hi. absurd (omega arith);
        },
        rw here refl,
      )
      | inr used ↦
          let not_here : (j : ℕ) → (b == j) ≡ true → (file j).ref ≢ 0 =
            λ j e. subst (λ j. (file j).ref ≢ 0) (==→eq b j e) (==→ne _ _ used) in
          elim rest [
            | inl (i, first, run) ↦ inl (
              i,
              record {
                from = let h = first.from in omega arith;
                range = let h = first.range in omega arith;
                free = first.free;
                before = λ j lo hi. elim (Bool-cases (b == j)) [
                  | inl e ↦ not_here j e
                  | inr e ↦ first.before j (ground (arith, e)) hi
                ];
              },
              rw used run,
            )
            | inr (none_free, run) ↦ inr (
              λ j lo hi. elim (Bool-cases (b == j)) [
                | inl e ↦ not_here j e
                | inr e ↦ none_free j (ground (arith, e)) (omega arith)
              ],
              rw used run,
            )
          ]
    ]

-- `filealloc` gives the first slot without references one reference and changes no other slot; it
-- returns 0 where each of the 100 slots has references.
pub filealloc-IsFirstFree :
    (s : Files)
    → ((i : ℕ) × (i < nfile)
        × ((s.file i).ref ≡ 0)
        × ((j : ℕ) → j < i → (s.file j).ref ≢ 0)
        × (filealloc s ≡ some (i, set_file s i (record (s.file i) { ref = 1 }))))
      ⊎ (((j : ℕ) → j < nfile → (s.file j).ref ≢ 0) × (filealloc s ≡ none))
unfolding filealloc
filealloc-IsFirstFree s = elim (find_file-cases nfile 0 s.file) [
  | inl (i, first, run) ↦
      let h = first.range in
      inl (i, omega arith, first.free, λ j lt. first.before j (omega arith) lt, rw run refl)
  | inr (full, run) ↦ inr (λ j lt. full j (omega arith) (omega arith), rw run refl)
]

given_back :
    (s : Files) (f x : ℕ)
    → update
        (update s.file f (record (s.file f) { ref = (s.file f).ref + 1 }))
        f
        (record (s.file f) { ref = (s.file f).ref + 1 - 1 })
        x
      ≡ s.file x
given_back s f x = elim (Bool-cases (f == x)) [
  | inl e ↦
      let back : (s.file f).ref + 1 - 1 ≡ (s.file f).ref = omega arith in
      rw (e, back) (ap s.file (==→eq f x e))
  | inr e ↦ rw e refl
]

-- A reference that `filedup` takes to an open file, `fileclose` gives back: the table is as it was,
-- and nothing is closed.
pub fileclose-filedup :
    (f : ℕ) (s : Files)
    → 0 < (s.file f).ref
    → (s' : Files) × (filedup f s ≡ ok s') × (fileclose f s' ≡ ok (some s))
unfolding filedup fileclose
fileclose-filedup f s pos =
    let in_use : ltb 0 (s.file f).ref ≡ true = ground arith in
    let more : ltb 0 ((s.file f).ref + 1) ≡ true = ground arith in
    let left : ltb 0 ((s.file f).ref + 1 - 1) ≡ true = ground arith in
    (
      set_file s f (record (s.file f) { ref = (s.file f).ref + 1 }),
      rw in_use refl,
      rw (==_refl f, more, left)
          (ap (λ g. ok (some (record s { file = g }))) (fun_ext (given_back s f))),
    )

-- The call leaves each count of references as `r` says, where it returns.
abbrev pub HasRefs : (r : ℕ → ℕ) → Outcome (Option Files) → Type 0
HasRefs r panic = Unit {0}
HasRefs r (ok none) = Unit {0}
HasRefs r (ok (some s)) = (x : ℕ) → (s.file x).ref ≡ r x

close_last-HasRefs : (p : File) (s : Files) → HasRefs (λ x. (s.file x).ref) (close_last p s)
unfolding close_last
close_last-HasRefs p s = by_type p.type refl
  where
    of_inode :
        (r : Outcome (Option Fs))
        → HasRefs
            (λ x. (s.file x).ref)
            (r >>= (λ o. elim o [ none ↦ ok none | some fs ↦ ok (some (record s { fs = fs })) ]))
    of_inode panic = tt
    of_inode (ok none) = tt
    of_inode (ok (some fs)) = λ x. refl

    by_type : (t : FileType) → p.type ≡ t → HasRefs (λ x. (s.file x).ref) (close_last p s)
    by_type fd_none e = rw e (λ x. refl)
    by_type fd_pipe e = rw e (λ x. refl)
    by_type fd_inode e = rw e (of_inode (put_inode p.ip s.fs))

-- `fileclose` of an open file gives up one reference of it, and changes no other count.
pub fileclose-HasRefs :
    (f : ℕ) (s : Files)
    → HasRefs (λ x. if f == x then (s.file f).ref - 1 else (s.file x).ref) (fileclose f s)
unfolding fileclose
fileclose-HasRefs f s = elim (Bool-cases (ltb 0 (s.file f).ref)) [
  | inr unused ↦ rw unused tt
  | inl used ↦ elim (Bool-cases (ltb 0 ((s.file f).ref - 1))) [
    | inl more ↦
        rw (used, more) (λ x. elim (Bool-cases (f == x)) [ inl e ↦ rw e refl | inr e ↦ rw e refl ])
    | inr last ↦
        rw (used, last)
          (subst
            (λ r. HasRefs r (
              close_last (s.file f) (set_file s f (record (s.file f) { ref = 0; type = fd_none }))))
            (fun_ext (λ x. elim (Bool-cases (f == x)) [
              | inl e ↦ rw e (let h = last in ground (arith, h, used))
              | inr e ↦ rw e refl
            ]))
            (close_last-HasRefs (s.file f)
              (set_file s f (record (s.file f) { ref = 0; type = fd_none }))))
  ]
]

-- `filedup` of an open file takes one.
pub filedup-HasRefs :
    (f : ℕ) (s : Files)
    → 0 < (s.file f).ref
    → (s' : Files) × (filedup f s ≡ ok s')
      × ((x : ℕ) → (s'.file x).ref ≡ (if f == x then (s.file f).ref + 1 else (s.file x).ref))
unfolding filedup
filedup-HasRefs f s pos =
    let used : ltb 0 (s.file f).ref ≡ true = ground arith in
    (
      set_file s f (record (s.file f) { ref = (s.file f).ref + 1 }),
      rw used refl,
      λ x. elim (Bool-cases (f == x)) [ inl e ↦ rw e refl | inr e ↦ rw e refl ],
    )

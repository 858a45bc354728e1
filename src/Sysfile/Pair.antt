-- ===== src/Sysfile/Pair.antt =====
-- sys_pipe, on every path: the counts of references against the descriptors.
use os_hw.Prelude.{
  ℕ, ◌+◌, ◌≡◌, refl, ◌∙◌, ap, subst, fun_ext, ◌⊎◌, inl, inr, Bool, true, false, Option, none, some,
  ◌==◌, if◌then◌else◌, Bool-cases, ==→eq, ==_refl, arith,
}
use os_hw.Prelude.Bytes.{update}
use os_hw.Prelude.Outcome.{Outcome, ok, panic, ◌>>=◌}
use os_hw.Kalloc.{Kmem, kalloc}
use os_hw.Args.{argptr}
use os_hw.Pipe.{new_pipe}
use os_hw.File.{File, fd_pipe, Files, set_file, filealloc, fileclose}
use os_hw.File.Table.{HasRefs, filealloc-IsFirstFree, fileclose-HasRefs}
use os_hw.Sysfile.{Caller, nofile, fdalloc}
use os_hw.Sysfile.Pipes.{
  close_both, set_ends, pipe_page, pipealloc, unwind, first_fd, pipe_fds, pipe_at, sys_pipe,
}
use os_hw.Sysfile.Counts.{is_file, uses, uses-update, IsCounted, find_fd-cases}

abbrev refs : Files → ℕ → ℕ
refs s x = (s.file x).ref

-- `fileclose` of a file takes away what its reference added.
fileclose_back :
    (r : ℕ → ℕ) (f : ℕ) (s : Files)
    → ((x : ℕ) → refs s x ≡ r x + is_file x (some f))
    → HasRefs r (fileclose f s)
fileclose_back r f s more =
    subst (λ r. HasRefs r (fileclose f s))
      (fun_ext (λ x. elim (Bool-cases (f == x)) [
        | inl e ↦
            let same : refs s f ≡ refs s x = ap (refs s) (==→eq f x e) in
            let one : is_file x (some f) ≡ 1 = rw e refl in rw e (omega (arith, more x, one, same))
        | inr e ↦ let no : is_file x (some f) ≡ 0 = rw e refl in rw e (omega (arith, more x, no))
      ]))
      (fileclose-HasRefs f s)

close_both_back :
    (r : ℕ → ℕ) (f0 f1 : ℕ) (s : Files)
    → ((x : ℕ) → refs s x ≡ r x + is_file x (some f0) + is_file x (some f1))
    → HasRefs r (close_both f0 f1 s)
unfolding close_both
close_both_back r f0 f1 s more =
    second (fileclose f0 s)
      (fileclose_back (λ x. r x + is_file x (some f1)) f0 s (λ x. more x ∙ omega arith))
  where
    second :
        (o : Outcome (Option Files))
        → HasRefs (λ x. r x + is_file x (some f1)) o
        → HasRefs r (o >>= (λ o. elim o [ none ↦ ok none | some s' ↦ fileclose f1 s' ]))
    second panic h = tt
    second (ok none) h = tt
    second (ok (some s')) h = fileclose_back r f1 s' h

refs-set_file :
    (s : Files) (i : ℕ) (p : File) (x : ℕ)
    → refs (set_file s i p) x ≡ (if i == x then p.ref else refs s x)
refs-set_file s i p x = elim (Bool-cases (i == x)) [
  | inl e ↦ rw (refs, e) refl
  | inr e ↦ rw (refs, e) refl
]

-- a change of other fields
set_file_same :
    (s : Files) (i : ℕ) (p : File) (x : ℕ) → p.ref ≡ refs s i → refs (set_file s i p) x ≡ refs s x
set_file_same s i p x same = refs-set_file s i p x ∙ elim (Bool-cases (i == x)) [
  | inl e ↦ rw e (same ∙ ap (refs s) (==→eq i x e))
  | inr e ↦ rw e refl
]

filealloc-refs :
    (s : Files)
    → ((i : ℕ) × (s' : Files) × (filealloc s ≡ some (i, s'))
        × ((x : ℕ) → refs s' x ≡ refs s x + is_file x (some i)))
      ⊎ (filealloc s ≡ none)
filealloc-refs s = elim (filealloc-IsFirstFree s) [
  | inr (full, run) ↦ inr run
  | inl (i, lt, free, before, run) ↦ inl (
    i,
    set_file s i (record (s.file i) { ref = 1 }),
    run,
    λ x. refs-set_file s i (record (s.file i) { ref = 1 }) x ∙ elim (Bool-cases (i == x)) [
      | inl e ↦
          let same : refs s i ≡ refs s x = ap (refs s) (==→eq i x e) in
          rw e (omega (arith, free, same))
      | inr e ↦ rw e (omega arith)
    ],
  )
]

-- What `pipealloc` leaves.
abbrev pub HasEnds : (r : ℕ → ℕ) → Outcome (Option (Option (ℕ × ℕ) × Files × Kmem)) → Type 0
HasEnds r panic = Unit {0}
HasEnds r (ok none) = Unit {0}
HasEnds r (ok (some (none, s, k))) = (x : ℕ) → refs s x ≡ r x
HasEnds r (ok (some (some (f0, f1), s, k))) =
    (x : ℕ) → refs s x ≡ r x + is_file x (some f0) + is_file x (some f1)

ends_back :
    (r : ℕ → ℕ) (k : Kmem) (o : Outcome (Option Files))
    → HasRefs r o
    → HasEnds r (o >>= (λ o. elim o [ none ↦ ok none | some s' ↦ ok (some (none, s', k)) ]))
ends_back r k panic h = tt
ends_back r k (ok none) h = tt
ends_back r k (ok (some s)) h = h

refs-set_ends : (f0 f1 p : ℕ) (s : Files) (x : ℕ) → refs (set_ends f0 f1 p s) x ≡ refs s x
refs-set_ends f0 f1 p s x =
    let s' = record s { pipes = update s.pipes p (new_pipe (s.pipes p).buf) } in
    let r0 = record (s'.file f0) { type = fd_pipe; readable = true; writable = false; pipe = p } in
    let r = set_file s' f0 r0 in
    set_file_same r f1
      (record (r.file f1) { type = fd_pipe; readable = false; writable = true; pipe = p }) x refl
    ∙ set_file_same s' f0 r0 x refl

pipe_page-HasEnds :
    (r : ℕ → ℕ) (f0 f1 : ℕ) (s : Files) (pk : ℕ × Kmem)
    → ((x : ℕ) → refs s x ≡ r x + is_file x (some f0) + is_file x (some f1))
    → HasEnds r (pipe_page f0 f1 s pk)
unfolding pipe_page
pipe_page-HasEnds r f0 f1 s (p, k) more = elim (Bool-cases (p == 0)) [
  | inl full ↦ rw full (ends_back r k (close_both f0 f1 s) (close_both_back r f0 f1 s more))
  | inr page ↦ rw page (λ x. refs-set_ends f0 f1 p s x ∙ more x)
]

-- pipealloc adds one reference to each of two files, or leaves all counts as they were.
pub pipealloc-HasEnds : (s : Files) (k : Kmem) → HasEnds (refs s) (pipealloc s k)
unfolding pipealloc
pipealloc-HasEnds s k = elim (filealloc-refs s) [
  | inr none_free ↦ rw none_free (λ x. refl)
  | inl (f0, s1, run, first) ↦ elim (filealloc-refs s1) [
    | inr none_free ↦
        rw (run, none_free)
          (ends_back (refs s) k (fileclose f0 s1) (fileclose_back (refs s) f0 s1 first))
    | inl (f1, s2, run', second) ↦
        rw (run, run')
          (pipe_page-HasEnds (refs s) f0 f1 s2 (kalloc k)
            (λ x. second x ∙ ap (λ n. n + is_file x (some f1)) (first x)))
  ]
]

-- what `sys_pipe` leaves
abbrev Pipes : (others : ℕ → ℕ) → Outcome (Option (Bool × Caller × Kmem)) → Type 0
Pipes others panic = Unit {0}
Pipes others (ok none) = Unit {0}
Pipes others (ok (some (done, c', k'))) = IsCounted others c'

module _ (others : ℕ → ℕ) (c : Caller) (v : IsCounted others c) (rf wf : ℕ) (s : Files)
    (ends : (x : ℕ) → refs s x ≡ refs c.files x + is_file x (some rf) + is_file x (some wf)) where
  -- `unwind` from a table of descriptors that holds what the one of `c` does
  unwind-Pipes :
      (k : Kmem) (ofile : ℕ → Option ℕ)
      → ((x : ℕ) → uses nofile ofile x ≡ uses nofile c.ofile x)
      → Pipes others (unwind rf wf (record c { ofile = ofile; files = s }) k)
  unfolding unwind
  unwind-Pipes k ofile same =
      of_files (close_both rf wf s) (close_both_back (refs c.files) rf wf s ends)
    where
      of_files :
          (o : Outcome (Option Files))
          → HasRefs (refs c.files) o
          → Pipes others (
              o >>= (λ o. elim o [
                | none ↦ ok none
                | some s' ↦ ok (some (false, record c { ofile = ofile; files = s' }, k))
              ]))
      of_files panic h = tt
      of_files (ok none) h = tt
      of_files (ok (some s')) h = λ x. h x ∙ omega (arith, v x, same x)

  first_fd-Pipes :
      (fd : ℕ) (k : Kmem)
      → Pipes others
          (first_fd fd rf wf (record c { files = s }) (fdalloc rf (record c { files = s })) k)
  unfolding fdalloc
  first_fd-Pipes fd k = elim (find_fd-cases nofile 0 c.ofile) [
    | inr (full, run) ↦ rw run (unwind-Pipes k c.ofile (λ x. refl))
    | inl (fd0, lt, free, run) ↦
        let o1 = update c.ofile fd0 (some rf) in
        let up : (x : ℕ)
            → uses nofile o1 x + is_file x (c.ofile fd0)
              ≡ uses nofile c.ofile x + is_file x (some rf) =
          λ x. uses-update nofile c.ofile fd0 (some rf) x (omega arith) in
        let was : (x : ℕ) → is_file x (c.ofile fd0) ≡ 0 = λ x. ap (is_file x) free in
        elim (find_fd-cases nofile 0 o1) [
          | inr (full, run') ↦
              rw (run, run')
                (unwind-Pipes k (update o1 fd0 none) (λ x.
                  let down = uses-update nofile o1 fd0 none x (omega arith) in
                  let here : is_file x (o1 fd0) ≡ is_file x (some rf) = rw (==_refl fd0) refl in
                  omega (arith, up x, was x, down, here)))
          | inl (fd1, lt', free', run') ↦
              rw (run, run')
                (λ x.
                  let more = uses-update nofile o1 fd1 (some wf) x (omega arith) in
                  let was' = ap (is_file x) free' in
                  omega (arith, up x, was x, more, was', ends x, v x))
        ]
  ]

-- While each count of references is that of the descriptors, of this process and of others, it is
-- so again after a sys_pipe that returns, whichever of the files, the page or the descriptors was
-- missing, if any.
pub sys_pipe-IsCounted :
    (others : ℕ → ℕ) (c : Caller) (k : Kmem) (made : Bool) (c' : Caller) (k' : Kmem)
    → IsCounted others c
    → sys_pipe c k ≡ ok (some (made, c', k'))
    → IsCounted others c'
unfolding sys_pipe
sys_pipe-IsCounted others c k made c' k' v run =
    subst (Pipes others) run (of_args (argptr c.user 0 8))
  where
    of_ends :
        (fd : ℕ) (o : Outcome (Option (Option (ℕ × ℕ) × Files × Kmem)))
        → HasEnds (refs c.files) o
        → Pipes others (o >>= pipe_fds fd c)
    of_ends fd panic h = tt
    of_ends fd (ok none) h = tt
    of_ends fd (ok (some (none, s, k))) h = λ x. h x ∙ v x
    of_ends fd (ok (some (some (rf, wf), s, k))) h = first_fd-Pipes others c v rf wf s h fd k

    of_args : (a : Option ℕ) → Pipes others (pipe_at a c k)
    of_args none = v
    of_args (some fd) = of_ends fd (pipealloc c.files k) (pipealloc-HasEnds c.files k)

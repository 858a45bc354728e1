-- ===== src/Inode/Cache.antt =====
-- iget, idup and iput: the entries of the inode cache.
use os_hw.Prelude.{
  ℕ, zero, suc, ◌+◌, ◌-◌, ◌%◌, ◌^◌, ◌≤◌, ◌<◌, ◌≡◌, ◌≢◌, refl, ap, subst, ◌∙◌, inl, inr, Bool, true,
  false, ◌&&◌, none, some, Option, arith, ltb, ◌==◌, ==_refl, ==→eq, Bool-cases, dec_lt, fun_ext,
}
use os_hw.Prelude.Bytes.{update}
use os_hw.Prelude.Outcome.{Outcome, ok, panic}
use os_hw.Fs.{Fs, Inode}
use os_hw.Inode.{ninode, set_inode, scan_icache, get_entry, iget, idup, iput, drop_ref}

-- The entry is in use for inode `inum` of `dev`.
abbrev pub caches : ℕ → ℕ → Inode → Bool
caches dev inum p = ltb 0 p.ref && (p.dev == dev) && (p.inum == inum)

-- What the search finds among the entries from `i` to `e`.
record Found (i e dev inum : ℕ) (f : ℕ → Inode) (hit empty : Option ℕ) : Type 0 where
  cached : (j : ℕ) → hit ≡ some j → (i ≤ j) × (j < e) × (caches dev inum (f j) ≡ true)
  missing : hit ≡ none → (j : ℕ) → i ≤ j → j < e → caches dev inum (f j) ≡ false
  free : (j : ℕ) → hit ≡ none → empty ≡ some j → (i ≤ j) × (j < e) × ((f j).ref ≡ 0)
  full : hit ≡ none → empty ≡ none → (j : ℕ) → i ≤ j → j < e → (f j).ref ≢ 0

from_here :
    (i e : ℕ) (P : ℕ → Type 0)
    → P i
    → ((j : ℕ) → i + 1 ≤ j → j < e → P j)
    → (j : ℕ) → i ≤ j
    → j < e
    → P j
from_here i e P here later j lo hi = elim (dec_lt i j) [
  | yes p ↦ later j (omega arith) hi
  | no p ↦ let same : i ≡ j = omega arith in subst P same here
]

scan_icache-Found :
    (k i e dev inum : ℕ) (f : ℕ → Inode)
    → i + k ≡ e
    → let (hit, empty) = scan_icache k i dev inum f in Found i e dev inum f hit empty
unfolding scan_icache
scan_icache-Found zero i e dev inum f q = record {
  cached = λ j h. cc;
  missing = λ h j lo hi. absurd (omega arith);
  free = λ j h g. cc;
  full = λ h g j lo hi. absurd (omega arith);
}
scan_icache-Found (suc k) i e dev inum f q =
    let rest = scan_icache-Found k (i + 1) e dev inum f (omega arith) in
    elim (Bool-cases (caches dev inum (f i))) [
      | inl c ↦ rw c (record {
        cached = λ j h.
            let same : i ≡ j = ground arith in
            subst (λ a. (i ≤ a) × (a < e) × (caches dev inum (f a) ≡ true)) same
              (omega arith, omega arith, c);
        missing = λ h. cc;
        free = λ j h. cc;
        full = λ h. cc;
      })
      | inr c ↦ elim (Bool-cases ((f i).ref == 0)) [
        | inl z ↦
            rw (c, z)
              (record {
                cached = λ j h. let (lo, hi, t) = rest.cached j h in (omega arith, hi, t);
                missing =
                    λ h. from_here i e (λ j. caches dev inum (f j) ≡ false) c (rest.missing h);
                free = λ j h g.
                    let same : i ≡ j = ground arith in
                    subst (λ a. (i ≤ a) × (a < e) × ((f a).ref ≡ 0)) same
                      (omega arith, omega arith, ground arith);
                full = λ h g. cc;
              })
        | inr z ↦
            rw (c, z)
              (record {
                cached = λ j h. let (lo, hi, t) = rest.cached j h in (omega arith, hi, t);
                missing =
                    λ h. from_here i e (λ j. caches dev inum (f j) ≡ false) c (rest.missing h);
                free = λ j h g. let (lo, hi, t) = rest.free j h g in (omega arith, hi, t);
                full = λ h g. from_here i e (λ j. (f j).ref ≢ 0) (ground arith) (rest.full h g);
              })
      ]
    ]

-- How `iget` ends: with the entry that caches the inode, with a free one made for it, or in a
-- panic.
pub data Gotten (dev inum : ℕ) (fs : Fs) : Outcome (ℕ × Fs) → Type 0 where
  cached :
      (i : ℕ)
      → i < ninode
      → caches dev inum (fs.inode i) ≡ true
      → Gotten dev inum fs
          (ok (i, set_inode fs i (record (fs.inode i) { ref = (fs.inode i).ref + 1 })))
  recycled :
      (i : ℕ)
      → i < ninode
      → (fs.inode i).ref ≡ 0
      → ((j : ℕ) → j < ninode → caches dev inum (fs.inode j) ≡ false)
      → Gotten dev inum fs (
          ok (
            i,
            set_inode fs i (record (fs.inode i) {
              dev = dev;
              inum = inum;
              ref = 1;
              busy = false;
              valid = false;
            }),
          ))
  full :
      ((j : ℕ) → j < ninode → caches dev inum (fs.inode j) ≡ false)
      → ((j : ℕ) → j < ninode → (fs.inode j).ref ≢ 0)
      → Gotten dev inum fs panic

get_entry-Gotten :
    (dev inum : ℕ) (fs : Fs) (hit empty : Option ℕ)
    → Found 0 ninode dev inum fs.inode hit empty
    → Gotten dev inum fs (get_entry dev inum fs hit empty)
unfolding get_entry
get_entry-Gotten dev inum fs (some i) empty f = let (lo, hi, c) = f.cached i refl in cached i hi c
get_entry-Gotten dev inum fs none none f =
    full (λ j lt. f.missing refl j (omega arith) lt) (λ j lt. f.full refl refl j (omega arith) lt)
get_entry-Gotten dev inum fs none (some i) f =
    let (lo, hi, z) = f.free i refl refl in
    recycled i hi z (λ j lt. f.missing refl j (omega arith) lt)

-- `iget` takes one more reference to the entry that caches the inode, if one does. If none does it
-- makes one of the free entries the inode's, with one reference and nothing read yet, and panics
-- when there is no free entry.
pub iget-Gotten : (dev inum : ℕ) (fs : Fs) → Gotten dev inum fs (iget dev inum fs)
unfolding iget
iget-Gotten dev inum fs =
    let (hit, empty) = scan_icache ninode 0 dev inum fs.inode in
    get_entry-Gotten dev inum fs hit empty
      (scan_icache-Found ninode 0 ninode dev inum fs.inode refl)

-- No inode has two entries in use.
abbrev pub IsUnique : Fs → Type 0
IsUnique fs =
    (dev inum i j : ℕ)
    → i < ninode
    → j < ninode
    → caches dev inum (fs.inode i) ≡ true
    → caches dev inum (fs.inode j) ≡ true
    → i ≡ j

-- a change to the count of references of an entry in use
counted :
    (fs : Fs) (i n : ℕ) (dev inum j : ℕ)
    → 0 < (fs.inode i).ref
    → caches dev inum (update fs.inode i (record (fs.inode i) { ref = n }) j) ≡ true
    → caches dev inum (fs.inode j) ≡ true
counted fs i n dev inum j pos c = elim (Bool-cases (i == j)) [
  | inl e ↦
      let same : i ≡ j = ground arith in
      subst (λ a. caches dev inum (fs.inode a) ≡ true) same (let c' = rw e at c in ground arith)
  | inr e ↦ rw e at c
]

Gotten-IsUnique :
    (dev inum : ℕ) (fs : Fs) {r : Outcome (ℕ × Fs)} {i : ℕ} {fs' : Fs}
    → IsUnique fs
    → Gotten dev inum fs r
    → r ≡ ok (i, fs')
    → IsUnique fs' × (caches dev inum (fs'.inode i) ≡ true)
Gotten-IsUnique dev inum fs {i} {fs'} u (cached k lt c) e =
    let pos : 0 < (fs.inode k).ref = ground arith in
    let n = (fs.inode k).ref + 1 in
    let same : set_inode fs k (record (fs.inode k) { ref = n }) ≡ fs' = ground arith in
    let slot : k ≡ i = ground arith in
    subst (λ g. IsUnique g × (caches dev inum (g.inode i) ≡ true)) same
      (
        (λ d m a b la lb ca cb.
            u d m a b la lb (counted fs k n d m a pos ca) (counted fs k n d m b pos cb)),
        ground arith,
      )
Gotten-IsUnique dev inum fs {i} {fs'} u (recycled k lt z missing) e =
    let p : Inode = record (fs.inode k) {
      dev = dev;
      inum = inum;
      ref = 1;
      busy = false;
      valid = false;
    } in
    let same : set_inode fs k p ≡ fs' = ground arith in
    let slot : k ≡ i = ground arith in
    subst (λ g. IsUnique g × (caches dev inum (g.inode i) ≡ true)) same
      (
        (λ d m a b la lb ca cb. elim (Bool-cases (k == a)) [
          | inl ea ↦ elim (Bool-cases (k == b)) [
            | inl eb ↦ ground arith
            | inr eb ↦ absurd (ground (arith, missing b lb))
          ]
          | inr ea ↦ elim (Bool-cases (k == b)) [
            | inl eb ↦ absurd (ground (arith, missing a la))
            | inr eb ↦ u d m a b la lb (rw ea at ca) (rw eb at cb)
          ]
        ]),
        ground arith,
      )
Gotten-IsUnique dev inum fs u (full missing all_used) e = cc

-- `iget` never makes a second entry for an inode: when no inode has two entries in use, none has
-- after a call that returns, and the entry returned is the inode's.
pub iget-IsUnique :
    (dev inum : ℕ) (fs : Fs) {i : ℕ} {fs' : Fs}
    → IsUnique fs
    → iget dev inum fs ≡ ok (i, fs')
    → IsUnique fs' × (caches dev inum (fs'.inode i) ≡ true)
iget-IsUnique dev inum fs u e = Gotten-IsUnique dev inum fs u (iget-Gotten dev inum fs) e

iput-shared :
    (i : ℕ) (fs : Fs) → 0 < (fs.inode i).ref → iput i (idup i fs) ≡ ok (drop_ref i (idup i fs))
unfolding iput idup
iput-shared i fs pos =
    let shared : ((fs.inode i).ref + 1 == 1) ≡ false = ground arith in rw (==_refl i, shared) refl

dropped :
    (i : ℕ) (fs : Fs) (j : ℕ)
    → (fs.inode i).ref + 1 < 2 ^ 32
    → (drop_ref i (idup i fs)).inode j ≡ fs.inode j
unfolding idup
dropped i fs j small = elim (Bool-cases (i == j)) [
  | inl e ↦
      let back : ((fs.inode i).ref + 1 + 2 ^ 32 - 1) % 2 ^ 32 ≡ (fs.inode i).ref = omega arith in
      rw (e, ==_refl i, back) (ap fs.inode (==→eq i j e))
  | inr e ↦ rw e refl
]

-- A reference that `idup` takes to an entry in use, `iput` gives back: the cache is as it was.
pub iput-idup :
    (i : ℕ) (fs : Fs)
    → 0 < (fs.inode i).ref
    → (fs.inode i).ref + 1 < 2 ^ 32
    → iput i (idup i fs) ≡ ok fs
unfolding idup
iput-idup i fs pos small =
    iput-shared i fs pos
    ∙ ap (λ f. ok (record fs { inode = f })) (fun_ext (λ j. dropped i fs j small))

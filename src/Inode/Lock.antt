-- ===== src/Inode/Lock.antt =====
-- ilock and iunlock of an inode that is in the cache.
use os_hw.Prelude.{
  ℕ, ◌<◌, ◌≡◌, refl, sym, ◌∙◌, ap, true, false, some, ltb, ◌==◌, ==→eq, ==_refl, Bool-cases, inl,
  inr, fun_ext, arith,
}
use os_hw.Prelude.Bytes.{update}
use os_hw.Prelude.Outcome.{ok}
use os_hw.Fs.{Fs}
use os_hw.Inode.{set_inode, ilock, iunlock, load}

-- the file system with the inode locked
abbrev pub locked : Fs → ℕ → Fs
locked fs i = set_inode fs i (record (fs.inode i) { busy = true })

-- `ilock` of an inode that was read already only locks it.
pub ilock-locked :
    (i : ℕ) (fs : Fs)
    → 0 < (fs.inode i).ref
    → (fs.inode i).busy ≡ false
    → (fs.inode i).valid ≡ true
    → ilock i fs ≡ ok (some (locked fs i))
unfolding ilock load
ilock-locked i fs pos free valid =
    let used : ltb 0 (fs.inode i).ref ≡ true = ground arith in
    rw (used, free, ==_refl i, valid) refl

unlocked :
    (i : ℕ) (fs : Fs) (j : ℕ)
    → (fs.inode i).busy ≡ false
    → update (locked fs i).inode i (record (fs.inode i) { busy = false }) j ≡ fs.inode j
unlocked i fs j free = elim (Bool-cases (i == j)) [
  | inl e ↦ rw e (ap (λ b. record (fs.inode i) { busy = b }) (sym free) ∙ ap fs.inode (==→eq i j e))
  | inr e ↦ rw e refl
]

-- `iunlock` gives back what `ilock` locked.
pub iunlock-locked :
    (i : ℕ) (fs : Fs)
    → 0 < (fs.inode i).ref
    → (fs.inode i).busy ≡ false
    → iunlock i (locked fs i) ≡ ok fs
unfolding iunlock
iunlock-locked i fs pos free =
    let used : ltb 0 (fs.inode i).ref ≡ true = ground arith in
    rw (==_refl i, used)
      (ap (λ f. ok (record fs { inode = f })) (fun_ext (λ j. unlocked i fs j free)))

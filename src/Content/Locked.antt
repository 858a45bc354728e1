-- ===== src/Content/Locked.antt =====
-- readi of an inode that the caller has locked.
use os_hw.Prelude.{
  ℕ, ◌+◌, ◌-◌, ◌/◌, ◌^◌, ◌≤◌, ◌<◌, ◌≡◌, refl, sym, ◌∙◌, ap, subst, ◌≢◌, Bool, min, ==_refl,
}
use os_hw.Prelude.Bytes.{Bytes}
use os_hw.Prelude.Outcome.{ok}
use os_hw.Log.{bsize}
use os_hw.Fs.{Fs}
use os_hw.Inode.Lock.{locked}
use os_hw.Content.{readi, moved, t_dev}
use os_hw.Content.Map.{addr_of, IsMapped}
use os_hw.Content.Read.{with_file, readi-with_file}

module _ (fs : Fs) (i : ℕ) where
  addr_of-locked : (b : ℕ) → addr_of (locked fs i) i b ≡ addr_of fs i b
  addr_of-locked b = rw (==_refl i) refl

  IsMapped-locked : (b : ℕ) → IsMapped fs i b → IsMapped (locked fs i) i b
  IsMapped-locked b m = record {
    range = m.range;
    address = λ z. m.address (sym (addr_of-locked b) ∙ z);
    indirect = λ le. rw (==_refl i) (m.indirect le);
  }

  with_file-locked :
      (d off n : ℕ) (dst : Bytes) (x : ℕ)
      → with_file (locked fs i) i d off n dst x ≡ with_file fs i d off n dst x
  with_file-locked d off n dst x = rw (==_refl i) refl

-- `readi` of a file gives the same with the file locked.
pub readi-locked :
    (can_read : ℕ → Bool) (i d off n : ℕ) (dst : Bytes) (fs : Fs)
    → (fs.inode i).type ≢ t_dev
    → off ≤ (fs.inode i).size
    → off + n < 2 ^ 32
    → ((p : ℕ) → p < (fs.inode i).size → IsMapped fs i (p / bsize))
    → let m = min n ((fs.inode i).size - off) in
      (dst' : Bytes) × (readi can_read i d off n dst (locked fs i)
        ≡ ok (moved m, dst', locked fs i))
      × ((x : ℕ) → dst' x ≡ with_file fs i d off m dst x)
readi-locked can_read i d off n dst fs file within small mapped =
    let kind : ((locked fs i).inode i).type ≡ (fs.inode i).type = rw (==_refl i) refl in
    let size : ((locked fs i).inode i).size ≡ (fs.inode i).size = rw (==_refl i) refl in
    let (dst', run, bytes) =
      readi-with_file can_read i d off n dst (locked fs i) (subst (λ k. k ≢ t_dev) (sym kind) file)
        (subst (λ z. off ≤ z) (sym size) within) small
        (λ p lt. IsMapped-locked fs i (p / bsize) (mapped p (subst (λ z. p < z) size lt))) in
    let all = ap (λ z. min n (z - off)) size in
    (
      dst',
      run ∙ ap (λ m. ok (moved m, dst', locked fs i)) all,
      λ x.
          bytes x
          ∙ ap (λ m. with_file (locked fs i) i d off m dst x) all
          ∙ with_file-locked fs i d off (min n ((fs.inode i).size - off)) dst x,
    )

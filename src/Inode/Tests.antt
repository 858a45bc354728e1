-- ===== src/Inode/Tests.antt =====
-- The entries of a cache with a file and a directory.
use os_hw.Prelude.{ℕ, zero, suc, ◌≡◌, refl, true, some, arith, ◌==◌, if◌then◌else◌}
use os_hw.Prelude.Bytes.{update}
use os_hw.Prelude.Outcome.{Outcome, ok, panic}
use os_hw.Fs.{Fs}
use os_hw.Fs.Tests.{fs, inodes, unread}
use os_hw.Inode.{iget, iupdate, ilock}
use os_hw.Inode.Cache.{caches, IsUnique, iget-IsUnique}
use os_hw.Inode.Layout.{IsInode, IsSame, ilock-iupdate}

-- the number of the inode that an entry in use caches tells which entry it is
slot_of : (dev inum i : ℕ) → caches dev inum (inodes i) ≡ true → i ≡ (if inum == 5 then 0 else 1)
slot_of dev inum zero c = ground arith
slot_of dev inum (suc zero) c = ground arith
slot_of dev inum (suc (suc i)) c = cc

fs-IsUnique : IsUnique fs
fs-IsUnique dev inum i j li lj ci cj = ground (arith, slot_of dev inum i ci, slot_of dev inum j cj)

abbrev gotten : Outcome (ℕ × Fs) → ℕ × Fs
gotten (ok r) = r
gotten panic = (0, fs)

get_run : iget 1 7 fs ≡ ok (gotten (iget 1 7 fs))
unfolding iget
get_run = refl

iget-IsUnique_example :
    IsUnique (gotten (iget 1 7 fs)).1
    × (caches 1 7 ((gotten (iget 1 7 fs)).1.inode (gotten (iget 1 7 fs)).0) ≡ true)
iget-IsUnique_example = iget-IsUnique 1 7 fs fs-IsUnique get_run

file-IsInode : IsInode (inodes 0)
file-IsInode = record {
  type = omega arith;
  major = omega arith;
  minor = omega arith;
  nlink = omega arith;
  size = omega arith;
  addrs = λ i lt. omega arith;
}

-- the file has a second entry, not read yet
abbrev fs_unread : Fs
fs_unread = record fs { inode = update inodes 2 unread }

ilock-iupdate_example :
    (fs' fs'' : Fs) × (iupdate 0 fs_unread ≡ ok fs')
    × (ilock 2 fs' ≡ ok (some fs''))
    × IsSame (fs''.inode 2) (inodes 0)
    × ((fs''.inode 2).busy ≡ true)
ilock-iupdate_example =
    ilock-iupdate 7 0 2 fs_unread
      (record { fits = omega arith; on_disk = omega arith; busy = omega arith; few = omega arith })
      file-IsInode (omega arith) refl (omega arith) refl refl

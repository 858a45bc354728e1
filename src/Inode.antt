-- ===== src/Inode.antt =====
-- fs.c: the inodes. A pointer to an inode is its slot in `icache`. `ref` counts what is in use, so
-- it is not negative. The locks are left out: a function runs alone until it would sleep.
pub mod Cache
pub mod Layout
pub mod Lock
pub mod Tests
use os_hw.Prelude.{
  ℕ, zero, suc, ◌+◌, ◌-◌, ◌*◌, ◌/◌, ◌%◌, ◌^◌, Bool, true, false, not, ◌&&◌, ◌||◌, Option, none,
  some, ltb, ◌==◌, if◌then◌else◌,
}
use os_hw.Prelude.Bytes.{Bytes, update, get_word, put_word, get_half, put_half}
use os_hw.Prelude.Outcome.{Outcome, ok, panic, ◌>>=◌}
use os_hw.Log.{bsize}
use os_hw.Str.{memset}
use os_hw.Fs.{Fs, Inode, Superblock, block, put_block, readsb, bfree}

abbrev pub ninode : ℕ
ninode = 50

abbrev pub ndirect : ℕ
ndirect = 12

abbrev pub nindirect : ℕ
nindirect = bsize / 4

abbrev pub dinode_size : ℕ
dinode_size = 64

-- inodes in a block, the block of an inode, and its offset there
abbrev pub ipb : ℕ
ipb = bsize / dinode_size

abbrev pub iblock : Superblock → ℕ → ℕ
iblock sb inum = inum / ipb + sb.inodestart

abbrev pub dip : ℕ → ℕ
dip inum = inum % ipb * dinode_size

abbrev pub set_inode : Fs → ℕ → Inode → Fs
set_inode fs i p = record fs { inode = update fs.inode i p }

pub iinit : Fs → Fs
iinit fs = record fs { sb = readsb fs }

-- the search of `iget`: the first entry in use for the inode, and the first free one before it
pub scan_icache : (k i : ℕ) → (dev inum : ℕ) → (ℕ → Inode) → Option ℕ × Option ℕ
scan_icache zero i dev inum f = (none, none)
scan_icache (suc k) i dev inum f =
    let rest = scan_icache k (i + 1) dev inum f in
    if ltb 0 (f i).ref && ((f i).dev == dev) && ((f i).inum == inum)
    then (some i, none)
    else (rest.0, if (f i).ref == 0 then some i else rest.1)

-- `iget` after its search
get_entry : (dev inum : ℕ) → Fs → Option ℕ → Option ℕ → Outcome (ℕ × Fs)
get_entry dev inum fs (some i) empty =
    ok (i, set_inode fs i (record (fs.inode i) { ref = (fs.inode i).ref + 1 }))
get_entry dev inum fs none none = panic
get_entry dev inum fs none (some i) = ok (
  i,
  set_inode fs i
      (record (fs.inode i) { dev = dev; inum = inum; ref = 1; busy = false; valid = false }),
)

pub iget : (dev inum : ℕ) → Fs → Outcome (ℕ × Fs)
unfolding scan_icache get_entry
iget dev inum fs =
    let found = scan_icache ninode 0 dev inum fs.inode in get_entry dev inum fs found.0 found.1

pub idup : ℕ → Fs → Fs
idup i fs = set_inode fs i (record (fs.inode i) { ref = (fs.inode i).ref + 1 })

-- The loop of `ialloc`, with `k` inodes left from `inum` on.
pub ialloc_from : (k inum : ℕ) → (dev type : ℕ) → Fs → Outcome (ℕ × Fs)
ialloc_from zero inum dev type fs = panic
ialloc_from (suc k) inum dev type fs =
    let b = iblock fs.sb inum in
    let h = block fs b in
    elim (get_half h (dip inum) == 0) [
      | true ↦
          put_block fs b (put_half (memset (dip inum) 0 dinode_size h) (dip inum) type)
          >>= iget dev inum
      | false ↦ ialloc_from k (inum + 1) dev type fs
    ]

pub ialloc : (dev type : ℕ) → Fs → Outcome (ℕ × Fs)
unfolding ialloc_from
ialloc dev type fs = ialloc_from (fs.sb.ninodes - 1) 1 dev type fs

-- `memmove` of the words of `addrs`, from `i` on, to and from the disk
pub put_addrs : (k i : ℕ) → (base : ℕ) → (ℕ → ℕ) → Bytes → Bytes
put_addrs zero i base f h = h
put_addrs (suc k) i base f h = put_addrs k (i + 1) base f (put_word h (base + 12 + 4 * i) (f i))

abbrev pub get_addrs : (base : ℕ) → Bytes → (ℕ → ℕ) → ℕ → ℕ
get_addrs base h old i = if ltb i (ndirect + 1) then get_word h (base + 12 + 4 * i) else old i

-- `struct dinode` at `base`: type, major, minor, nlink, size, addrs
pub put_dinode : (base : ℕ) → Inode → Bytes → Bytes
unfolding put_addrs
put_dinode base p h = put_addrs (ndirect + 1) 0 base p.addrs (
    put_word
      (put_half (put_half (put_half (put_half h base p.type) (base + 2) p.major) (base + 4) p.minor)
        (base + 6) p.nlink)
      (base + 8) p.size)

pub get_dinode : (base : ℕ) → Bytes → Inode → Inode
get_dinode base h p = record p {
  type = get_half h base;
  major = get_half h (base + 2);
  minor = get_half h (base + 4);
  nlink = get_half h (base + 6);
  size = get_word h (base + 8);
  addrs = get_addrs base h p.addrs;
  valid = true;
}

pub iupdate : ℕ → Fs → Outcome Fs
unfolding put_dinode
iupdate i fs =
    let p = fs.inode i in
    let b = iblock fs.sb p.inum in put_block fs b (put_dinode (dip p.inum) p (block fs b))

-- `ilock` once the inode is busy: it is read from the disk if it is not valid.
load : ℕ → Fs → Outcome (Option Fs)
unfolding get_dinode
load i fs =
    let p = fs.inode i in
    let q = get_dinode (dip p.inum) (block fs (iblock fs.sb p.inum)) p in
    if p.valid then ok (some fs) else if q.type == 0 then panic else ok (some (set_inode fs i q))

-- One pass: `none` when the caller sleeps until the inode is free, and tries again.
pub ilock : ℕ → Fs → Outcome (Option Fs)
unfolding load
ilock i fs =
    let p = fs.inode i in
    if not (ltb 0 p.ref)
    then panic
    else if p.busy
    then ok none
    else load i (set_inode fs i (record p { busy = true }))

pub iunlock : ℕ → Fs → Outcome Fs
iunlock i fs =
    let p = fs.inode i in
    if not p.busy || not (ltb 0 p.ref)
    then panic
    else ok (set_inode fs i (record p { busy = false }))

-- the first loop of `itrunc`
pub free_direct : (k n : ℕ) → ℕ → Fs → Outcome Fs
free_direct zero n i fs = ok fs
free_direct (suc k) n i fs =
    let a = (fs.inode i).addrs n in
    elim (a == 0) [
      | true ↦ free_direct k (n + 1) i fs
      | false ↦ bfree fs a >>= (λ fs'.
          let p = fs'.inode i in
          free_direct k (n + 1) i (set_inode fs' i (record p { addrs = update p.addrs n 0 })))
    ]

-- the second loop, over the words of the indirect block `addr`
pub free_indirect : (k j : ℕ) → (addr : ℕ) → Fs → Outcome Fs
free_indirect zero j addr fs = ok fs
free_indirect (suc k) j addr fs =
    let a = get_word (block fs addr) (4 * j) in
    elim (a == 0) [
      | true ↦ free_indirect k (j + 1) addr fs
      | false ↦ bfree fs a >>= free_indirect k (j + 1) addr
    ]

-- the part of `itrunc` for the indirect block
free_rest : ℕ → Fs → Outcome Fs
unfolding free_indirect
free_rest i fs =
    let addr = (fs.inode i).addrs ndirect in
    if addr == 0
    then ok fs
    else free_indirect nindirect 0 addr fs >>= (λ fs'. bfree fs' addr) >>= (λ fs'.
      let p = fs'.inode i in ok (set_inode fs' i (record p { addrs = update p.addrs ndirect 0 })))

pub itrunc : ℕ → Fs → Outcome Fs
unfolding free_direct free_rest
itrunc i fs =
    free_direct ndirect 0 i fs
    >>= free_rest i
    >>= (λ fs'. iupdate i (set_inode fs' i (record (fs'.inode i) { size = 0 })))

-- `ip->ref--`
abbrev pub drop_ref : ℕ → Fs → Fs
drop_ref i fs =
    set_inode fs i (record (fs.inode i) { ref = ((fs.inode i).ref + 2 ^ 32 - 1) % 2 ^ 32 })

-- the part of `iput` that frees an inode with no links
free_inode : ℕ → Fs → Outcome Fs
free_inode i fs =
    if (fs.inode i).busy
    then panic
    else itrunc i (set_inode fs i (record (fs.inode i) { busy = true }))
      >>= (λ fs'. iupdate i (set_inode fs' i (record (fs'.inode i) { type = 0 })))
      >>= (λ fs'. ok (set_inode fs' i (record (fs'.inode i) { busy = false; valid = false })))

pub iput : ℕ → Fs → Outcome Fs
unfolding free_inode
iput i fs =
    let p = fs.inode i in
    if (p.ref == 1) && p.valid && (p.nlink == 0)
    then (free_inode i fs >>= (λ fs'. ok (drop_ref i fs')))
    else ok (drop_ref i fs)

pub iunlockput : ℕ → Fs → Outcome Fs
iunlockput i fs = iunlock i fs >>= iput i

-- `struct stat`
pub record Stat : Type 0 where
  pub type : ℕ
  pub dev : ℕ
  pub ino : ℕ
  pub nlink : ℕ
  pub size : ℕ

pub stati : ℕ → Fs → Stat
stati i fs =
    let p = fs.inode i in
    record { type = p.type; dev = p.dev; ino = p.inum; nlink = p.nlink; size = p.size }

-- ===== src/Fs/Tests.antt =====
-- A file system of 1000 blocks, whose blocks from 60 on are free but for those of two inodes.
use os_hw.Prelude.{
  ℕ, zero, suc, ◌+◌, ◌<◌, ◌≡◌, ◌≢◌, refl, Bool, true, false, not, ◌&&◌, none, arith, ltb, ◌==◌,
  if◌then◌else◌, [],
}
use os_hw.Prelude.Bits.{bit_at}
use os_hw.Prelude.Bytes.{Bytes, get_word, put_word}
use os_hw.Prelude.Outcome.{ok}
use os_hw.Store.{Disk}
use os_hw.Fs.{Fs, Inode, Superblock, readsb, balloc, bfree}
use os_hw.Fs.Room.{HasRoom}
use os_hw.Fs.Bitmap.{used, OffBitmap, IsTaken, balloc-IsTaken, IsFreed, bfree-IsFreed}

abbrev pub sb : Superblock
sb = record {
  size = 1000;
  nblocks = 900;
  ninodes = 200;
  nlog = 31;
  logstart = 2;
  inodestart = 33;
  bmapstart = 58;
}

abbrev sb_block : Bytes
sb_block =
    put_word
      (put_word
        (put_word (put_word (put_word (put_word (put_word (λ _. 0) 0 1000) 4 900) 8 200) 12 31) 16
          2)
        20 33)
      24 58

-- the blocks up to 59 are in use
abbrev bitmap : Bytes
bitmap i = if ltb i 7 then 255 else if i == 7 then 15 else 0

-- a directory of two entries: a free one, and "hi" for inode 5
abbrev pub directory : Bytes
directory i = if i == 16 then 5 else if i == 18 then b'h' else if i == 19 then b'i' else 0

abbrev disk : Disk
disk b =
    if b == 1 then sb_block else if b == 58 then bitmap else if b == 90 then directory else (λ _. 0)

abbrev pub no_inode : Inode
no_inode = record {
  dev = 0;
  inum = 0;
  ref = 0;
  busy = false;
  valid = false;
  type = 0;
  major = 0;
  minor = 0;
  nlink = 0;
  size = 0;
  addrs = λ _. 0;
}

-- a file of 700 bytes, from block 70 on
abbrev pub file : Inode
file = record no_inode {
  dev = 1;
  inum = 5;
  ref = 1;
  busy = true;
  valid = true;
  type = 2;
  nlink = 1;
  size = 700;
  addrs = λ n. 70 + n;
}

-- a directory, from block 90 on
abbrev pub folder : Inode
folder = record file { inum = 1; type = 1; size = 32; addrs = λ n. 90 + n }

-- the file once more, not read yet
abbrev pub unread : Inode
unread = record no_inode { dev = 1; inum = 5; ref = 1 }

abbrev pub inodes : ℕ → Inode
inodes zero = file
inodes (suc zero) = folder
inodes (suc (suc i)) = no_inode

abbrev pub fs : Fs
fs = record {
  log = record {
    start = 2;
    size = 31;
    outstanding = 1;
    committing = false;
    dev = 1;
    n = 0;
    block = λ _. 0;
  };
  store = record { disk = disk; pinned = λ _. none; past = [] };
  sb = sb;
  inode = inodes;
}

pub fs-HasRoom : HasRoom 8 fs
fs-HasRoom = record {
  fits = omega arith;
  on_disk = omega arith;
  busy = omega arith;
  few = omega arith;
}

all_below : ℕ → (ℕ → Bool) → Bool
all_below zero p = true
all_below (suc n) p = p n && all_below n p

all_below-lt : (n : ℕ) (p : ℕ → Bool) (x : ℕ) → all_below n p ≡ true → x < n → p x ≡ true
unfolding all_below
all_below-lt zero p x h lt = absurd (omega arith)
all_below-lt (suc n) p x h lt = ground (arith, all_below-lt n p x)

used_table : all_below 60 (λ c. not (used fs c == 0)) ≡ true
unfolding all_below bit_at
used_table = refl

used_below : (c : ℕ) → c < 60 → used fs c ≢ 0
used_below c lt z =
    let t = all_below-lt 60 (λ c. not (used fs c == 0)) c used_table lt in ground arith

free_60 : used fs 60 ≡ 0
unfolding bit_at
free_60 = refl

off_60 : OffBitmap fs 60
off_60 c lt e = absurd (omega arith)

balloc-IsTaken_example : (fs' : Fs) × (balloc fs ≡ ok (60, fs')) × IsTaken 6 fs 60 fs'
balloc-IsTaken_example = balloc-IsTaken 6 fs 60 fs-HasRoom (omega arith) free_60 used_below off_60

sb_read : readsb fs ≡ fs.sb
unfolding readsb get_word put_word
sb_read = refl

bfree-IsFreed_example : (fs' : Fs) × (bfree fs 59 ≡ ok fs') × IsFreed 7 fs 59 fs'
bfree-IsFreed_example = bfree-IsFreed 7 fs 59 fs-HasRoom sb_read (used_below 59 (omega arith))

-- ===== src/Fs/Bitmap.antt =====
-- balloc and bfree, over the bitmap as a set of blocks.
use os_hw.Prelude.{
  ℕ, zero, suc, ◌+◌, ◌-◌, ◌*◌, ◌/◌, ◌%◌, ◌≤◌, ◌<◌, ◌≡◌, ◌≢◌, refl, sym, ap, subst, ◌∙◌, inl, inr,
  true, false, none, some, arith, ltb, ◌==◌, ne→==, eq→==, ==_refl, Bool-cases, dec_lt,
}
use os_hw.Prelude.Bits.{
  bit_at, set_bit, clear_bit, bit_at-set_self, bit_at-set_ne, bit_at-clear_self, bit_at-clear_ne,
}
use os_hw.Prelude.Bytes.{Bytes, update}
use os_hw.Prelude.Outcome.{ok, panic}
use os_hw.Log.{bsize}
use os_hw.Str.{memset}
use os_hw.Str.Move.{memset_lem}
use os_hw.Fs.{
  Fs, Superblock, block, bpb, bblock, put_block, bzero, scan_bits, take_block, balloc_from, balloc,
  bfree, readsb,
}
use os_hw.Fs.Room.{HasRoom, put_block-IsPut}

-- the bit of block `a` in a block of the bitmap, and in the file system
abbrev pub bit_in : Bytes → ℕ → ℕ
bit_in h bi = bit_at (h (bi / 8)) (bi % 8)

abbrev pub used : Fs → ℕ → ℕ
used fs a = bit_in (block fs (bblock fs.sb a)) (a % bpb)

scan_bits-some :
    (k bi b size t : ℕ) (h : Bytes)
    → bi ≤ t
    → t < bi + k
    → b + t < size
    → bit_in h t ≡ 0
    → ((j : ℕ) → bi ≤ j → j < t → bit_in h j ≢ 0)
    → scan_bits k bi b size h ≡ some t
unfolding scan_bits
scan_bits-some zero bi b size t h lo hi lt e before = absurd (omega arith)
scan_bits-some (suc k) bi b size t h lo hi lt e before = elim (dec_lt bi t) [
  | yes p ↦
      let busy : (bit_in h bi == 0) ≡ false = ne→== _ _ (before bi (omega arith) p) in
      let in_range : ltb (b + bi) size ≡ true = ground arith in
      rw (in_range, busy)
        (scan_bits-some k (bi + 1) b size t h (omega arith) (omega arith) lt e
          (λ j low high. before j (omega arith) high))
  | no p ↦
      let same : bi ≡ t = omega arith in
      let free : (bit_in h bi == 0) ≡ true = eq→== _ _ (subst (λ j. bit_in h j ≡ 0) (sym same) e) in
      let in_range : ltb (b + bi) size ≡ true = ground arith in rw (in_range, free) (ap some same)
]

scan_bits-none :
    (k bi b size : ℕ) (h : Bytes)
    → ((j : ℕ) → bi ≤ j → j < bi + k → b + j < size → bit_in h j ≢ 0)
    → scan_bits k bi b size h ≡ none
unfolding scan_bits
scan_bits-none zero bi b size h full = refl
scan_bits-none (suc k) bi b size h full = elim (dec_lt (b + bi) size) [
  | yes p ↦
      let busy : (bit_in h bi == 0) ≡ false = ne→== _ _ (full bi (omega arith) (omega arith) p) in
      let in_range : ltb (b + bi) size ≡ true = ground arith in
      rw (in_range, busy)
        (scan_bits-none k (bi + 1) b size h (λ j low high. full j (omega arith) (omega arith)))
  | no p ↦ let out : ltb (b + bi) size ≡ false = ground arith in rw out
]

-- the bit of block `b + j`, where `b` is the first block of its group
used_in :
    (fs : Fs) (b j : ℕ)
    → b % bpb ≡ 0
    → j < bpb
    → used fs (b + j) ≡ bit_in (block fs (bblock fs.sb b)) j
used_in fs b j e lt =
    let q : (b + j) / bpb ≡ b / bpb = omega arith in
    let r : (b + j) % bpb ≡ j = omega arith in rw (q, r)

balloc_from-take :
    (k b a : ℕ) (fs : Fs)
    → b % bpb ≡ 0
    → b ≤ a
    → a < b + k * bpb
    → a < fs.sb.size
    → used fs a ≡ 0
    → ((c : ℕ) → b ≤ c → c < a → used fs c ≢ 0)
    → balloc_from k b fs ≡ take_block fs a
unfolding balloc_from
balloc_from-take zero b a fs e lo hi lt free before = absurd (omega arith)
balloc_from-take (suc k) b a fs e lo hi lt free before = elim (dec_lt a (b + bpb)) [
  | yes p ↦
      let here : b + (a - b) ≡ a = omega arith in
      let found =
        scan_bits-some bpb 0 b fs.sb.size (a - b) (block fs (bblock fs.sb b)) (omega arith)
          (omega arith) (omega arith)
          (sym (used_in fs b (a - b) e (omega arith)) ∙ ap (used fs) here ∙ free)
          (λ j low high q.
            before (b + j) (omega arith) (omega arith) (used_in fs b j e (omega arith) ∙ q)) in
      rw (balloc_from, found) (ap (take_block fs) here)
  | no p ↦
      let full =
        scan_bits-none bpb 0 b fs.sb.size (block fs (bblock fs.sb b)) (λ j low high inside q.
          before (b + j) (omega arith) (omega arith) (used_in fs b j e (omega arith) ∙ q)) in
      rw (balloc_from, full)
        (balloc_from-take k (b + bpb) a fs (omega arith) (omega arith) (omega arith) lt free
          (λ c low high. before c (omega arith) high))
]

balloc_from-panic :
    (k b : ℕ) (fs : Fs)
    → b % bpb ≡ 0
    → ((c : ℕ) → c < fs.sb.size → used fs c ≢ 0)
    → balloc_from k b fs ≡ panic
unfolding balloc_from
balloc_from-panic zero b fs e full = refl
balloc_from-panic (suc k) b fs e full =
    let none_free =
      scan_bits-none bpb 0 b fs.sb.size (block fs (bblock fs.sb b))
        (λ j low high inside q. full (b + j) inside (used_in fs b j e (omega arith) ∙ q)) in
    rw (balloc_from, none_free) (balloc_from-panic k (b + bpb) fs (omega arith) full)

-- Block `a` is none of the bitmap's.
abbrev pub OffBitmap : Fs → ℕ → Type 0
OffBitmap fs a = (c : ℕ) → c < fs.sb.size → bblock fs.sb c ≢ a

-- What taking block `a` does, with room for `k` more blocks in the log.
pub record IsTaken (k : ℕ) (fs : Fs) (a : ℕ) (fs' : Fs) : Type 0 where
  pub room : HasRoom k fs'
  pub zeroed : (i : ℕ) → i < bsize → block fs' a i ≡ 0
  pub used_here : used fs' a ≡ 1
  pub used_other : (c : ℕ) → c < fs.sb.size → a ≢ c → used fs' c ≡ used fs c
  pub other : (c : ℕ) → a ≢ c → bblock fs.sb a ≢ c → block fs' c ≡ block fs c
  pub sb : fs'.sb ≡ fs.sb
  pub inode : fs'.inode ≡ fs.inode

-- a block of the bitmap with the bit of block `a` set or cleared
changed_bits :
    (fs : Fs) (a c : ℕ) (x : ℕ → ℕ)
    → (block fs (bblock fs.sb c) ≡ x)
    → used fs c ≡ bit_in x (c % bpb)
changed_bits fs a c x e = ap (λ h. bit_in h (c % bpb)) e

memset-zero : (h : Bytes) (i : ℕ) → i < bsize → memset 0 0 bsize h i ≡ 0
memset-zero h i lt = memset_lem 0 0 bsize h i ∙ ground arith

bit_in-set_self :
    (h : Bytes) (i : ℕ) → bit_in (update h (i / 8) (set_bit (h (i / 8)) (i % 8))) i ≡ 1
bit_in-set_self h i = rw (==_refl (i / 8)) (bit_at-set_self (h (i / 8)) (i % 8))

bit_in-clear_self :
    (h : Bytes) (i : ℕ) → bit_in (update h (i / 8) (clear_bit (h (i / 8)) (i % 8))) i ≡ 0
bit_in-clear_self h i = rw (==_refl (i / 8)) (bit_at-clear_self (h (i / 8)) (i % 8))

bit_in-set_ne :
    (h : Bytes) (i j : ℕ)
    → i ≢ j
    → bit_in (update h (i / 8) (set_bit (h (i / 8)) (i % 8))) j ≡ bit_in h j
bit_in-set_ne h i j ne = elim (Bool-cases (i / 8 == j / 8)) [
  | inl e ↦
      let same : i / 8 ≡ j / 8 = ground arith in
      rw e (
        bit_at-set_ne (h (i / 8)) (i % 8) (j % 8) (λ q. ne (omega arith))
        ∙ ap (λ k. bit_at (h k) (j % 8)) same)
  | inr e ↦ rw e refl
]

bit_in-clear_ne :
    (h : Bytes) (i j : ℕ)
    → i ≢ j
    → bit_in (update h (i / 8) (clear_bit (h (i / 8)) (i % 8))) j ≡ bit_in h j
bit_in-clear_ne h i j ne = elim (Bool-cases (i / 8 == j / 8)) [
  | inl e ↦
      let same : i / 8 ≡ j / 8 = ground arith in
      rw e (
        bit_at-clear_ne (h (i / 8)) (i % 8) (j % 8) (λ q. ne (omega arith))
        ∙ ap (λ k. bit_at (h k) (j % 8)) same)
  | inr e ↦ rw e refl
]

-- the content of the bitmap block of `a` once `a` is taken, and once it is freed
abbrev taken_bits : Fs → ℕ → Bytes
taken_bits fs a =
    let bi = a % bpb in
    let h = block fs (bblock fs.sb a) in update h (bi / 8) (set_bit (h (bi / 8)) (bi % 8))

abbrev freed_bits : Fs → ℕ → Bytes
freed_bits fs a =
    let bi = a % bpb in
    let h = block fs (bblock fs.sb a) in update h (bi / 8) (clear_bit (h (bi / 8)) (bi % 8))

-- The bits once block `x` of the bitmap, that of `a`, is written.
module _ (fs fs' : Fs) (a : ℕ) (h : Bytes) (sb : fs'.sb ≡ fs.sb)
    (here : block fs' (bblock fs.sb a) ≡ h)
    (other : (c : ℕ) → bblock fs.sb a ≢ c → block fs' c ≡ block fs c) where
  used_written : (c : ℕ) → bblock fs.sb a ≡ bblock fs.sb c → used fs' c ≡ bit_in h (c % bpb)
  used_written c e =
      ap (λ (s : Superblock). bit_in (block fs' (bblock s c)) (c % bpb)) sb
      ∙ ap (λ x. bit_in x (c % bpb)) (ap (block fs') (sym e) ∙ here)

  used_unwritten : (c : ℕ) → bblock fs.sb a ≢ bblock fs.sb c → used fs' c ≡ used fs c
  used_unwritten c ne =
      ap (λ (s : Superblock). bit_in (block fs' (bblock s c)) (c % bpb)) sb
      ∙ ap (λ x. bit_in x (c % bpb)) (other (bblock fs.sb c) ne)

  used_rest :
      ((j : ℕ) → a % bpb ≢ j → bit_in h j ≡ bit_in (block fs (bblock fs.sb a)) j)
      → (c : ℕ) → a ≢ c
      → used fs' c ≡ used fs c
  used_rest bits c ne = elim (Bool-cases (bblock fs.sb a == bblock fs.sb c)) [
    | inr q ↦ used_unwritten c (λ e. ground arith)
    | inl q ↦
        let e : bblock fs.sb a ≡ bblock fs.sb c = ground arith in
        used_written c e
        ∙ bits (c % bpb) (λ r. ne (omega arith))
        ∙ ap (λ b. bit_in (block fs b) (c % bpb)) e
  ]

-- the zeroing of a block that is none of the bitmap's
used_zeroed :
    (fs fs' : Fs) (a c : ℕ)
    → fs'.sb ≡ fs.sb
    → ((b : ℕ) → a ≢ b → block fs' b ≡ block fs b)
    → bblock fs.sb c ≢ a
    → used fs' c ≡ used fs c
used_zeroed fs fs' a c sb other ne =
    ap (λ (s : Superblock). bit_in (block fs' (bblock s c)) (c % bpb)) sb
    ∙ ap (λ x. bit_in x (c % bpb)) (other (bblock fs.sb c) (λ e. ne (sym e)))

take_block-IsTaken :
    (k : ℕ) (fs : Fs) (a : ℕ)
    → HasRoom (suc (suc k)) fs
    → a < fs.sb.size
    → OffBitmap fs a
    → (fs' : Fs) × (take_block fs a ≡ ok (a, fs')) × IsTaken k fs a fs'
unfolding take_block bzero
take_block-IsTaken k fs a room lt off =
    let (fs₁, run₁, p) = put_block-IsPut (suc k) fs (bblock fs.sb a) (taken_bits fs a) room in
    let (fs₂, run₂, q) = put_block-IsPut k fs₁ a (memset 0 0 bsize (block fs₁ a)) p.room in
    let bits₁ =
      used_rest fs fs₁ a (taken_bits fs a) p.sb p.here p.other
        (bit_in-set_ne (block fs (bblock fs.sb a)) (a % bpb)) in
    (
      fs₂,
      rw (run₁, run₂) refl,
      record {
        room = q.room;
        zeroed = λ i less. ap (λ (h : Bytes). h i) q.here ∙ memset-zero (block fs₁ a) i less;
        used_here =
            used_zeroed fs₁ fs₂ a a q.sb q.other (rw p.sb (off a lt))
            ∙ used_written fs fs₁ a (taken_bits fs a) p.sb p.here p.other a refl
            ∙ bit_in-set_self (block fs (bblock fs.sb a)) (a % bpb);
        used_other =
            λ c less ne. used_zeroed fs₁ fs₂ a c q.sb q.other (rw p.sb (off c less)) ∙ bits₁ c ne;
        other = λ c ne apart. q.other c ne ∙ p.other c apart;
        sb = q.sb ∙ p.sb;
        inode = q.inode ∙ p.inode;
      },
    )

-- When a block is free, `balloc` returns the first one that is, marked as used and zeroed up to
-- its size; the bits of the other blocks, and all blocks but that one and its block of the bitmap,
-- stay as they were. The log has room for two more blocks, and the block found is none of the
-- bitmap's.
pub balloc-IsTaken :
    (k : ℕ) (fs : Fs) (a : ℕ)
    → HasRoom (suc (suc k)) fs
    → a < fs.sb.size
    → used fs a ≡ 0
    → ((c : ℕ) → c < a → used fs c ≢ 0)
    → OffBitmap fs a
    → (fs' : Fs) × (balloc fs ≡ ok (a, fs')) × IsTaken k fs a fs'
unfolding balloc
balloc-IsTaken k fs a room lt free before off =
    let (fs', run, t) = take_block-IsTaken k fs a room lt off in
    (
      fs',
      balloc_from-take _ 0 a fs refl (omega arith) (omega arith) lt free (λ c low. before c) ∙ run,
      t,
    )

-- When every block is in use, `balloc` panics.
pub balloc-panic : (fs : Fs) → ((c : ℕ) → c < fs.sb.size → used fs c ≢ 0) → balloc fs ≡ panic
unfolding balloc
balloc-panic fs full = balloc_from-panic _ 0 fs refl full

-- What freeing block `a` does, with room for `k` more blocks in the log.
pub record IsFreed (k : ℕ) (fs : Fs) (a : ℕ) (fs' : Fs) : Type 0 where
  pub room : HasRoom k fs'
  pub free_here : used fs' a ≡ 0
  pub used_other : (c : ℕ) → a ≢ c → used fs' c ≡ used fs c
  pub other : (c : ℕ) → bblock fs.sb a ≢ c → block fs' c ≡ block fs c
  pub sb : fs'.sb ≡ fs.sb
  pub inode : fs'.inode ≡ fs.inode

bfree_same :
    (fs : Fs) (a : ℕ)
    → readsb fs ≡ fs.sb
    → (used fs a == 0) ≡ false
    → bfree fs a ≡ put_block fs (bblock fs.sb a) (freed_bits fs a)
unfolding bfree
bfree_same fs a same busy = rw (same, busy) refl

-- Freeing a block that is in use marks it as free, and keeps the bits of all others and all blocks
-- but the one of the bitmap. `sb` is what the super block on the disk says, and the log has room.
pub bfree-IsFreed :
    (k : ℕ) (fs : Fs) (a : ℕ)
    → HasRoom (suc k) fs
    → readsb fs ≡ fs.sb
    → used fs a ≢ 0
    → (fs' : Fs) × (bfree fs a ≡ ok fs') × IsFreed k fs a fs'
bfree-IsFreed k fs a room same busy =
    let (fs', run, p) = put_block-IsPut k fs (bblock fs.sb a) (freed_bits fs a) room in
    (
      fs',
      bfree_same fs a same (ne→== _ _ busy) ∙ run,
      record {
        room = p.room;
        free_here =
            used_written fs fs' a (freed_bits fs a) p.sb p.here p.other a refl
            ∙ bit_in-clear_self (block fs (bblock fs.sb a)) (a % bpb);
        used_other =
            used_rest fs fs' a (freed_bits fs a) p.sb p.here p.other
              (bit_in-clear_ne (block fs (bblock fs.sb a)) (a % bpb));
        other = p.other;
        sb = p.sb;
        inode = p.inode;
      },
    )

-- Freeing a block that is free panics.
pub bfree-panic : (fs : Fs) (a : ℕ) → readsb fs ≡ fs.sb → used fs a ≡ 0 → bfree fs a ≡ panic
unfolding bfree
bfree-panic fs a same free = rw (same, free) refl

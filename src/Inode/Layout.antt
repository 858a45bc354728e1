-- ===== src/Inode/Layout.antt =====
-- The inode on the disk: what `iupdate` stores, and `ilock` reads.
use os_hw.Prelude.{
  ℕ, zero, suc, ◌+◌, ◌*◌, ◌^◌, ◌≤◌, ◌<◌, ◌≡◌, ◌≢◌, refl, sym, ap, subst, ◌∙◌, ◌⊎◌, inl, inr, true,
  false, arith, ltb, ◌==◌, dec_lt, Bool-cases, ==→eq, ==→ne, ne→==, ==_refl, some,
}
use os_hw.Prelude.Bytes.{
  Bytes, get_word, put_word, get_half, put_half, get_word-put_word_self, get_word-put_word_ne,
}
use os_hw.Prelude.Outcome.{ok}
use os_hw.Fs.{Fs, Inode, block}
use os_hw.Fs.Room.{HasRoom, put_block-IsPut}
use os_hw.Inode.{
  ndirect, dinode_size, iblock, dip, set_inode, put_addrs, put_dinode, get_dinode, iupdate, ilock,
  load,
}

get_half-put_half_self : (m : Bytes) (a v : ℕ) → v < 2 ^ 16 → get_half (put_half m a v) a ≡ v
unfolding get_half put_half
get_half-put_half_self m a v h = ground arith

get_half-put_half_ne :
    (m : Bytes) (a b v : ℕ) → (a + 2 ≤ b) ⊎ (b + 2 ≤ a) → get_half (put_half m a v) b ≡ get_half m b
unfolding get_half put_half
get_half-put_half_ne m a b v (inl h) = ground arith
get_half-put_half_ne m a b v (inr h) = ground arith

get_half-put_word :
    (m : Bytes) (a b v : ℕ) → (b + 2 ≤ a) → get_half (put_word m a v) b ≡ get_half m b
unfolding get_half put_word
get_half-put_word m a b v h = ground arith

put_half-other : (m : Bytes) (a v c : ℕ) → (c < a) ⊎ (a + 2 ≤ c) → put_half m a v c ≡ m c
unfolding put_half
put_half-other m a v c h = ground arith

put_word-other : (m : Bytes) (a v c : ℕ) → (c < a) ⊎ (a + 4 ≤ c) → put_word m a v c ≡ m c
unfolding put_word
put_word-other m a v c h = ground arith

-- The words of `addrs` lie from `base + 12 + 4 * i` on.
put_addrs-half :
    (k i base b : ℕ) (f : ℕ → ℕ) (h : Bytes)
    → b + 2 ≤ base + 12
    → get_half (put_addrs k i base f h) b ≡ get_half h b
unfolding put_addrs
put_addrs-half zero i base b f h le = refl
put_addrs-half (suc k) i base b f h le =
    put_addrs-half k (i + 1) base b f _ le
    ∙ get_half-put_word h (base + 12 + 4 * i) b (f i) (omega arith)

put_addrs-below :
    (k i base b : ℕ) (f : ℕ → ℕ) (h : Bytes)
    → b + 4 ≤ base + 12 + 4 * i
    → get_word (put_addrs k i base f h) b ≡ get_word h b
unfolding put_addrs
put_addrs-below zero i base b f h le = refl
put_addrs-below (suc k) i base b f h le =
    put_addrs-below k (i + 1) base b f _ (omega arith)
    ∙ get_word-put_word_ne h (base + 12 + 4 * i) b (f i) (inr (omega arith))

put_addrs-entry :
    (k i t base : ℕ) (f : ℕ → ℕ) (h : Bytes)
    → i ≤ t
    → t < i + k
    → f t < 2 ^ 32
    → get_word (put_addrs k i base f h) (base + 12 + 4 * t) ≡ f t
unfolding put_addrs
put_addrs-entry zero i t base f h le lt w = absurd (omega arith)
put_addrs-entry (suc k) i t base f h le lt w = elim (dec_lt i t) [
  | yes p ↦ put_addrs-entry k (i + 1) t base f _ (omega arith) (omega arith) w
  | no p ↦
      let e : t ≡ i = omega arith in
      put_addrs-below k (i + 1) base (base + 12 + 4 * t) f _ (omega arith)
      ∙ rw e (get_word-put_word_self h (base + 12 + 4 * i) (f i) (subst (λ a. f a < 2 ^ 32) e w))
]

put_addrs-other :
    (k i base c : ℕ) (f : ℕ → ℕ) (h : Bytes)
    → (c < base + 12) ⊎ (base + 12 + 4 * (i + k) ≤ c)
    → put_addrs k i base f h c ≡ h c
unfolding put_addrs
put_addrs-other zero i base c f h out = refl
put_addrs-other (suc k) i base c f h out =
    put_addrs-other k (i + 1) base c f _ (omega arith)
    ∙ put_word-other h (base + 12 + 4 * i) (f i) c (omega arith)

-- The fields of an inode fit into their places on the disk.
pub record IsInode (p : Inode) : Type 0 where
  pub type : p.type < 2 ^ 16
  pub major : p.major < 2 ^ 16
  pub minor : p.minor < 2 ^ 16
  pub nlink : p.nlink < 2 ^ 16
  pub size : p.size < 2 ^ 32
  pub addrs : (i : ℕ) → i < ndirect + 1 → p.addrs i < 2 ^ 32

-- Two inodes agree in what is on the disk.
pub record IsSame (p q : Inode) : Type 0 where
  pub type : p.type ≡ q.type
  pub major : p.major ≡ q.major
  pub minor : p.minor ≡ q.minor
  pub nlink : p.nlink ≡ q.nlink
  pub size : p.size ≡ q.size
  pub addrs : (i : ℕ) → i < ndirect + 1 → p.addrs i ≡ q.addrs i

abbrev halves : ℕ → Inode → Bytes → Bytes
halves base p h =
    put_half (put_half (put_half (put_half h base p.type) (base + 2) p.major) (base + 4) p.minor)
      (base + 6) p.nlink

halves_lem :
    (base : ℕ) (p : Inode) (h : Bytes)
    → IsInode p
    → let m = halves base p h in
      (get_half m base ≡ p.type)
      × (get_half m (base + 2) ≡ p.major)
      × (get_half m (base + 4) ≡ p.minor)
      × (get_half m (base + 6) ≡ p.nlink)
unfolding get_half put_half
halves_lem base p h v =
    let t : p.type < 2 ^ 16 = v.type in
    let a : p.major < 2 ^ 16 = v.major in
    let i : p.minor < 2 ^ 16 = v.minor in
    let l : p.nlink < 2 ^ 16 = v.nlink in (ground arith, ground arith, ground arith, ground arith)

get_dinode-put_dinode :
    (base : ℕ) (p q : Inode) (h : Bytes)
    → IsInode p
    → IsSame (get_dinode base (put_dinode base p h) q) p
unfolding get_dinode put_dinode
get_dinode-put_dinode base p q h v =
    let (t, a, i, l) = halves_lem base p h v in
    let up = λ (b : ℕ) (le : b + 2 ≤ base + 8).
      put_addrs-half 13 0 base b p.addrs (put_word (halves base p h) (base + 8) p.size)
        (omega arith)
      ∙ get_half-put_word (halves base p h) (base + 8) b p.size le in
    record {
      type = up base (omega arith) ∙ t;
      major = up (base + 2) (omega arith) ∙ a;
      minor = up (base + 4) (omega arith) ∙ i;
      nlink = up (base + 6) (omega arith) ∙ l;
      size =
          put_addrs-below 13 0 base (base + 8) p.addrs _ (omega arith)
          ∙ get_word-put_word_self (halves base p h) (base + 8) p.size v.size;
      addrs = λ j lt.
          let in_range : ltb j (ndirect + 1) ≡ true = ground arith in
          rw in_range
            (put_addrs-entry 13 0 j base p.addrs _ (omega arith) (omega arith) (v.addrs j lt));
    }

put_dinode-other :
    (base c : ℕ) (p : Inode) (h : Bytes)
    → (c < base) ⊎ (base + dinode_size ≤ c)
    → put_dinode base p h c ≡ h c
unfolding put_dinode
put_dinode-other base c p h out =
    put_addrs-other 13 0 base c p.addrs _ (omega arith)
    ∙ put_word-other (halves base p h) (base + 8) p.size c (omega arith)
    ∙ put_half-other _ (base + 6) p.nlink c (omega arith)
    ∙ put_half-other _ (base + 4) p.minor c (omega arith)
    ∙ put_half-other _ (base + 2) p.major c (omega arith)
    ∙ put_half-other h base p.type c (omega arith)

-- the inode `inum` as it is on the disk; `p` has the fields that are not there
abbrev pub on_disk : Fs → ℕ → Inode → Inode
on_disk fs inum p = get_dinode (dip inum) (block fs (iblock fs.sb inum)) p

-- What `iupdate` of entry `i` leaves.
pub record IsUpdated (k : ℕ) (fs : Fs) (i : ℕ) (fs' : Fs) : Type 0 where
  pub room : HasRoom k fs'
  pub stored : (q : Inode) → IsSame (on_disk fs' (fs.inode i).inum q) (fs.inode i)
  pub others :
      (inum c : ℕ)
      → inum ≢ (fs.inode i).inum
      → c < dinode_size
      → block fs' (iblock fs.sb inum) (dip inum + c) ≡ block fs (iblock fs.sb inum) (dip inum + c)
  pub other : (b : ℕ) → iblock fs.sb (fs.inode i).inum ≢ b → block fs' b ≡ block fs b
  pub sb : fs'.sb ≡ fs.sb
  pub inode : fs'.inode ≡ fs.inode

-- `iupdate` of an inode whose fields fit stores all of it that is on the disk in its place, and
-- changes no other byte of that block and no other block. The log has room for one more block.
pub iupdate-IsUpdated :
    (k i : ℕ) (fs : Fs)
    → HasRoom (suc k) fs
    → IsInode (fs.inode i)
    → (fs' : Fs) × (iupdate i fs ≡ ok fs') × IsUpdated k fs i fs'
unfolding iupdate
iupdate-IsUpdated k i fs room v =
    let p = fs.inode i in
    let b = iblock fs.sb p.inum in
    let (fs', run, w) = put_block-IsPut k fs b (put_dinode (dip p.inum) p (block fs b)) room in
    (
      fs',
      run,
      record {
        room = w.room;
        stored = λ q. rw (w.sb, w.here) (get_dinode-put_dinode (dip p.inum) p q (block fs b) v);
        others = λ inum c ne lt. elim (Bool-cases (b == iblock fs.sb inum)) [
          | inl e ↦
              let same : b ≡ iblock fs.sb inum = ==→eq b _ e in
              subst (λ x. block fs' x (dip inum + c) ≡ block fs x (dip inum + c)) same
                (ap (λ (h : Bytes). h (dip inum + c)) w.here
                  ∙ put_dinode-other (dip p.inum) (dip inum + c) p (block fs b) (omega arith))
          | inr e ↦ ap (λ (h : Bytes). h (dip inum + c)) (w.other (iblock fs.sb inum) (==→ne b _ e))
        ];
        other = w.other;
        sb = w.sb;
        inode = w.inode;
      },
    )

-- `ilock` of an entry that is in use, free and not yet read
ilock-load :
    (j : ℕ) (fs : Fs)
    → 0 < (fs.inode j).ref
    → (fs.inode j).busy ≡ false
    → (fs.inode j).valid ≡ false
    → (on_disk fs (fs.inode j).inum (record (fs.inode j) { busy = true })).type ≢ 0
    → ilock j fs
      ≡ ok (
          some (
            set_inode
              (set_inode fs j (record (fs.inode j) { busy = true }))
              j
              (on_disk fs (fs.inode j).inum (record (fs.inode j) { busy = true }))))
unfolding ilock load
ilock-load j fs pos free unread typed =
    let used : ltb 0 (fs.inode j).ref ≡ true = ground arith in
    rw (used, free, ==_refl j, unread, ne→== _ _ typed) refl

-- What `iupdate` stores of an inode that fits and has a type, `ilock` reads: after it the entry of
-- that inode, in use, not locked and not yet read, is locked and has the same content. The log has
-- room for one more block.
pub ilock-iupdate :
    (k i j : ℕ) (fs : Fs)
    → HasRoom (suc k) fs
    → IsInode (fs.inode i)
    → (fs.inode i).type ≢ 0
    → (fs.inode j).inum ≡ (fs.inode i).inum
    → 0 < (fs.inode j).ref
    → (fs.inode j).busy ≡ false
    → (fs.inode j).valid ≡ false
    → (fs' fs'' : Fs) × (iupdate i fs ≡ ok fs')
      × (ilock j fs' ≡ ok (some fs''))
      × IsSame (fs''.inode j) (fs.inode i)
      × ((fs''.inode j).busy ≡ true)
unfolding get_dinode
ilock-iupdate k i j fs room v typed same pos free unread =
    let (fs', run, u) = iupdate-IsUpdated k i fs room v in
    let q : Inode = record (fs'.inode j) { busy = true } in
    let entry : fs'.inode j ≡ fs.inode j = ap (λ f. f j) u.inode in
    let there : IsSame (on_disk fs' (fs'.inode j).inum q) (fs.inode i) =
      subst (λ n. IsSame (on_disk fs' n q) (fs.inode i))
        (sym (ap (λ (p : Inode). p.inum) entry ∙ same)) (u.stored q) in
    (
      fs',
      _,
      run,
      ilock-load j fs' (rw entry pos) (rw entry free) (rw entry unread)
          (λ z. typed (sym there.type ∙ z)),
      rw (==_refl j) there,
      rw (==_refl j) refl,
    )

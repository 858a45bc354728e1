-- ===== src/File/Transfer.antt =====
-- fileread: reading a file through its descriptor, which keeps the offset.
use os_hw.Prelude.{
  ℕ, zero, suc, ◌+◌, ◌-◌, ◌/◌, ◌%◌, ◌^◌, ◌≤◌, ◌<◌, ◌≡◌, refl, sym, ◌∙◌, ap, subst, ◌≢◌, Bool, true,
  false, ◌&&◌, Option, some, is_some, min, ltb, leb, ◌==◌, ==→eq, ==_refl, Bool-cases, inl, inr,
  fun_ext, arith,
}
use os_hw.Prelude.Bytes.{Bytes, update}
use os_hw.Prelude.Outcome.{ok, ◌>>=◌}
use os_hw.Log.{bsize}
use os_hw.Fs.{Fs}
use os_hw.Inode.Lock.{locked, ilock-locked, iunlock-locked}
use os_hw.Content.{t_dev}
use os_hw.Content.Map.{IsMapped}
use os_hw.Content.Read.{with_file}
use os_hw.Content.Locked.{readi-locked}
use os_hw.File.{File, Files, fd_inode, advance, returned, returned_of, read_locked, fileread}

-- The file is open for reading on an inode that is no device, in the cache, read and not locked,
-- below 2^31 bytes, with a block for each of its parts; the offset is within it.
pub record IsOpen (s : Files) (f : ℕ) : Type 0 where
  pub readable : (s.file f).readable ≡ true
  pub type : (s.file f).type ≡ fd_inode
  pub ref : 0 < (s.fs.inode (s.file f).ip).ref
  pub unlocked : (s.fs.inode (s.file f).ip).busy ≡ false
  pub valid : (s.fs.inode (s.file f).ip).valid ≡ true
  pub regular : (s.fs.inode (s.file f).ip).type ≢ t_dev
  pub small : (s.fs.inode (s.file f).ip).size < 2 ^ 31
  pub within : (s.file f).off ≤ (s.fs.inode (s.file f).ip).size
  pub mapped :
      (p : ℕ) → p < (s.fs.inode (s.file f).ip).size → IsMapped s.fs (s.file f).ip (p / bsize)

-- the files once the offset of `f` is `off`
abbrev pub at_offset : Files → (f off : ℕ) → Files
at_offset s f off = record s { file = update s.file f (record (s.file f) { off = off }) }

module _ (dev_read : ℕ → Option (ℕ → ℕ → Bytes → ℕ × Bytes)) (s : Files) (f d n : ℕ) (mem : Bytes)
    (opened : IsOpen s f) where
  -- what `fileread` reads and returns
  abbrev size : ℕ
  size = (s.fs.inode (s.file f).ip).size

  abbrev count : ℕ
  count = min n (size - (s.file f).off)

  read_locked-done :
      (s.file f).off + n < 2 ^ 32
      → (mem' : Bytes) × (read_locked dev_read f d n mem s (locked s.fs (s.file f).ip)
          ≡ ok (count, mem', advance f count s))
        × ((x : ℕ) → mem' x ≡ with_file s.fs (s.file f).ip d (s.file f).off count mem x)
  unfolding read_locked returned_of
  read_locked-done small =
      let ip = (s.file f).ip in
      let (mem', run, bytes) =
        readi-locked (λ major. is_some (dev_read major)) ip d (s.file f).off n mem s.fs
          (opened.regular) (opened.within) small (opened.mapped) in
      let unlock = iunlock-locked ip s.fs (opened.ref) (opened.unlocked) in
      (mem', rw (run, unlock) refl, bytes)

same_file :
    (s : Files) (f x : ℕ)
    → update s.file f (record (s.file f) { off = (s.file f).off + 0 }) x ≡ s.file x
same_file s f x = elim (Bool-cases (f == x)) [
  | inl e ↦
      let none_more : (s.file f).off + 0 ≡ (s.file f).off = omega arith in
      rw (e, none_more) (ap s.file (==→eq f x e))
  | inr e ↦ rw e refl
]

advance_lem :
    (s : Files) (f r : ℕ)
    → (s.file f).off + r < 2 ^ 31
    → advance f r s ≡ at_offset s f ((s.file f).off + r)
advance_lem s f zero small = sym (ap (λ g. record s { file = g }) (fun_ext (same_file s f)))
advance_lem s f (suc r) small =
    let some_bytes : (ltb 0 (suc r) && ltb (suc r) (2 ^ 31)) ≡ true = ground arith in
    let sum : ((s.file f).off + suc r) % 2 ^ 32 ≡ (s.file f).off + suc r = omega arith in
    rw (some_bytes, sum) refl

fileread-locked :
    (dev_read : ℕ → Option (ℕ → ℕ → Bytes → ℕ × Bytes)) (killed : Bool) (f d n : ℕ) (mem : Bytes)
    (s : Files)
    → IsOpen s f
    → fileread dev_read killed f d n mem s ≡ (
        read_locked dev_read f d n mem s (locked s.fs (s.file f).ip)
        >>= (λ r. ok (some (returned r.0, r.1, r.2))))
unfolding fileread
fileread-locked dev_read killed f d n mem s opened =
    let lock = ilock-locked (s.file f).ip s.fs (opened.ref) (opened.unlocked) (opened.valid) in
    rw (opened.readable, opened.type, lock) refl

-- `fileread` of a file on an inode copies the bytes from the offset on, `n` of them or as many as
-- there are, returns how many, moves the offset past them and changes nothing else.
pub fileread-at_offset :
    (dev_read : ℕ → Option (ℕ → ℕ → Bytes → ℕ × Bytes)) (killed : Bool) (f d n : ℕ) (mem : Bytes)
    (s : Files)
    → IsOpen s f
    → (s.file f).off + n < 2 ^ 32
    → let ip = (s.file f).ip in
      let count = min n ((s.fs.inode ip).size - (s.file f).off) in
      (mem' : Bytes) × (fileread dev_read killed f d n mem s
        ≡ ok (some (returned count, mem', at_offset s f ((s.file f).off + count))))
      × ((x : ℕ) → mem' x ≡ with_file s.fs ip d (s.file f).off count mem x)
fileread-at_offset dev_read killed f d n mem s opened small =
    let (mem', run, bytes) = read_locked-done dev_read s f d n mem opened small in
    let size = opened.small in
    let moved_on = advance_lem s f (count dev_read s f d n mem opened) (omega arith) in
    (
      mem',
      fileread-locked dev_read killed f d n mem s opened
          ∙ rw run (
              ap (λ t. ok (some (returned (count dev_read s f d n mem opened), mem', t))) moved_on),
      bytes,
    )

IsOpen-at_offset :
    (s : Files) (f off : ℕ)
    → off ≤ (s.fs.inode (s.file f).ip).size
    → IsOpen s f
    → IsOpen (at_offset s f off) f
IsOpen-at_offset s f off within opened = record {
  readable = rw (==_refl f) (opened.readable);
  type = rw (==_refl f) (opened.type);
  ref = rw (==_refl f) (opened.ref);
  unlocked = rw (==_refl f) (opened.unlocked);
  valid = rw (==_refl f) (opened.valid);
  regular = rw (==_refl f) (opened.regular);
  small = rw (==_refl f) (opened.small);
  within = rw (==_refl f) within;
  mapped = rw (==_refl f) (opened.mapped);
}

moved_again :
    (s : Files) (f off off' x : ℕ) (p : File)
    → p ≡ record (s.file f) { off = off' }
    → update (at_offset s f off).file f p x ≡ (at_offset s f off').file x
moved_again s f off off' x p same = elim (Bool-cases (f == x)) [
  | inl e ↦ rw e same
  | inr e ↦ rw e refl
]

fileread-again :
    (dev_read : ℕ → Option (ℕ → ℕ → Bytes → ℕ × Bytes)) (killed : Bool) (f d n off : ℕ)
    (mem : Bytes) (s : Files)
    → IsOpen s f
    → off ≤ (s.fs.inode (s.file f).ip).size
    → off + n < 2 ^ 32
    → let ip = (s.file f).ip in
      let r = min n ((s.fs.inode ip).size - off) in
      (mem' : Bytes) × (fileread dev_read killed f d n mem (at_offset s f off)
        ≡ ok (some (returned r, mem', at_offset s f (off + r))))
      × ((x : ℕ) → mem' x ≡ with_file s.fs ip d off r mem x)
fileread-again dev_read killed f d n off mem s opened within small =
    let ip = (s.file f).ip in
    let r = min n ((s.fs.inode ip).size - off) in
    let s' = at_offset s f off in
    let here : s'.file f ≡ record (s.file f) { off = off } = rw (==_refl f) refl in
    let (mem', run, bytes) =
      fileread-at_offset dev_read killed f d n mem s' (IsOpen-at_offset s f off within opened)
        (subst (λ p. p.off + n < 2 ^ 32) (sym here) small) in
    subst
      (λ p.
        let c = min n ((s.fs.inode p.ip).size - p.off) in
        (fileread dev_read killed f d n mem s'
            ≡ ok (
                some (
                  returned c,
                  mem',
                  record s' { file = update s'.file f (record p { off = p.off + c }) },
                )))
          × ((x : ℕ) → mem' x ≡ with_file s.fs p.ip d p.off c mem x)
        → (mem' : Bytes) × (fileread dev_read killed f d n mem s'
            ≡ ok (some (returned r, mem', at_offset s f (off + r))))
          × ((x : ℕ) → mem' x ≡ with_file s.fs ip d off r mem x))
      (sym here)
      (λ (run, bytes). (
        mem',
        run
            ∙ ap (λ g. ok (some (returned r, mem', record s { file = g })))
                (fun_ext (λ x. moved_again s f off (off + r) x _ refl)),
        bytes,
      ))
      (run, bytes)

-- The bytes of a file in two pieces, the second after the first.
with_file-split :
    (fs : Fs) (i d off a b : ℕ) (mem mem₁ : Bytes) (x : ℕ)
    → mem₁ x ≡ with_file fs i d off a mem x
    → with_file fs i d off (a + b) mem x ≡ with_file fs i (d + a) (off + a) b mem₁ x
with_file-split fs i d off a b mem mem₁ x first =
    elim (Bool-cases (leb (d + a) x && ltb x (d + a + b))) [
      | inl second ↦
          let whole : (leb d x && ltb x (d + (a + b))) ≡ true = ground arith in
          let place : off + (x - d) ≡ off + a + (x - (d + a)) = ground (arith, second) in
          rw (second, whole, place) refl
      | inr beyond ↦
          let same : (leb d x && ltb x (d + (a + b))) ≡ (leb d x && ltb x (d + a)) = ground arith in
          rw (beyond, same) (sym first)
    ]

-- Two reads of a file in a row leave in memory, and return together, what one read of the sum of
-- the two counts does, and leave the offset there too. The file is readable, on an inode that is
-- no device, in the cache, read and not locked, below 2^31 bytes and with a block for each of its
-- parts; the offset is within it, and with both counts it is below 2^32.
pub fileread-fileread :
    (dev_read : ℕ → Option (ℕ → ℕ → Bytes → ℕ × Bytes)) (killed : Bool) (f d n₁ n₂ : ℕ)
    (mem : Bytes) (s : Files)
    → IsOpen s f
    → (s.file f).off + n₁ + n₂ < 2 ^ 32
    → (r₁ r₂ : ℕ) × (mem₁ mem₂ mem₃ : Bytes) × (s₁ s₂ : Files) × (fileread dev_read killed f d n₁
          mem s
        ≡ ok (some (returned r₁, mem₁, s₁)))
      × (fileread dev_read killed f (d + r₁) n₂ mem₁ s₁ ≡ ok (some (returned r₂, mem₂, s₂)))
      × (fileread dev_read killed f d (n₁ + n₂) mem s ≡ ok (some (returned (r₁ + r₂), mem₃, s₂)))
      × ((x : ℕ) → mem₃ x ≡ mem₂ x)
fileread-fileread dev_read killed f d n₁ n₂ mem s opened small =
    let ip = (s.file f).ip in
    let off = (s.file f).off in
    let left = (s.fs.inode ip).size - off in
    let r₁ = min n₁ left in
    let within = opened.within in
    let (mem₁, run₁, bytes₁) =
      fileread-at_offset dev_read killed f d n₁ mem s opened (omega arith) in
    let (mem₂, run₂, bytes₂) =
      fileread-again dev_read killed f (d + r₁) n₂ (off + r₁) mem₁ s opened (omega arith)
        (omega arith) in
    let (mem₃, run₃, bytes₃) =
      fileread-at_offset dev_read killed f d (n₁ + n₂) mem s opened (omega arith) in
    let r₂ = min n₂ ((s.fs.inode ip).size - (off + r₁)) in
    let s₂ = at_offset s f (off + (r₁ + r₂)) in
    let sum : min (n₁ + n₂) left ≡ r₁ + r₂ = omega arith in
    let place : off + r₁ + r₂ ≡ off + (r₁ + r₂) = omega arith in
    (
      r₁,
      r₂,
      mem₁,
      mem₂,
      mem₃,
      at_offset s f (off + r₁),
      s₂,
      run₁,
      run₂ ∙ ap (λ o. ok (some (returned r₂, mem₂, at_offset s f o))) place,
      run₃ ∙ ap (λ r. ok (some (returned r, mem₃, at_offset s f (off + r)))) sum,
      λ x.
          bytes₃ x
          ∙ ap (λ r. with_file s.fs ip d off r mem x) sum
          ∙ with_file-split s.fs ip d off r₁ r₂ mem mem₁ x (bytes₁ x)
          ∙ sym (bytes₂ x),
    )

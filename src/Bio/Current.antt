-- ===== src/Bio/Current.antt =====
-- The cache as the kernel sees it: the current content of each block.
use os_hw.Prelude.{
  ℕ, ◌<◌, ◌≡◌, ◌∙◌, sym, subst, inl, inr, true, false, arith, ltb, ◌==◌, Bool-cases,
}
use os_hw.Prelude.Bytes.{Bytes, update}
use os_hw.Store.{Disk}
use os_hw.Bio.{Buf, Cache, nbuf, binit, set_buf}
use os_hw.Bio.Lookup.{mem, mem-slots}

-- No two buffers cache one block of the disk, the list holds exactly the slots, a buffer that
-- no one uses, read from the disk and not dirty, is as its block on the disk, and a dirty one has
-- been read or written.
pub record IsCoherent (c : Cache) : Type 0 where
  pub unique :
      (i j : ℕ)
      → i < nbuf
      → j < nbuf
      → (c.bufs i).dev ≡ 1
      → (c.bufs j).dev ≡ 1
      → (c.bufs i).blockno ≡ (c.bufs j).blockno
      → i ≡ j
  pub listed : (i : ℕ) → mem i c.order ≡ ltb i nbuf
  pub settled :
      (i : ℕ)
      → i < nbuf
      → (c.bufs i).dev ≡ 1
      → (c.bufs i).busy ≡ false
      → (c.bufs i).dirty ≡ false
      → (c.bufs i).valid ≡ true
      → (c.bufs i).bytes ≡ c.disk (c.bufs i).blockno
  pub filled : (i : ℕ) → i < nbuf → (c.bufs i).dirty ≡ true → (c.bufs i).valid ≡ true

-- `x` is the current content of block `b`: that of the buffer that caches it, or of the disk.
pub data Current (c : Cache) (b : ℕ) (x : Bytes) : Type 0 where
  cached :
      (i : ℕ)
      → i < nbuf
      → (c.bufs i).dev ≡ 1
      → (c.bufs i).blockno ≡ b
      → (c.bufs i).valid ≡ true
      → x ≡ (c.bufs i).bytes
      → Current c b x
  uncached :
      ((i : ℕ) → i < nbuf → (c.bufs i).dev ≡ 1 → (c.bufs i).blockno ≡ b → (c.bufs i).valid ≡ false)
      → x ≡ c.disk b
      → Current c b x

-- The caller has the buffer in slot `i`, of block `b`.
pub record Held (c : Cache) (i b : ℕ) : Type 0 where
  pub slot : i < nbuf
  pub busy : (c.bufs i).busy ≡ true
  pub dev : (c.bufs i).dev ≡ 1
  pub blockno : (c.bufs i).blockno ≡ b

pub binit-IsCoherent : (d : Disk) → IsCoherent (binit d)
unfolding binit
binit-IsCoherent d = record {
  unique = λ i j li lj p q e. absurd (ground arith);
  listed = λ i. mem-slots nbuf i;
  settled = λ i li p q e v. absurd (ground arith);
  filled = λ i li d. absurd (ground arith);
}

-- A buffer of block `b` that is valid has its current content.
pub Current-Held :
    (c : Cache) {i b : ℕ} {x : Bytes}
    → IsCoherent c
    → Held c i b
    → (c.bufs i).valid ≡ true
    → Current c b x
    → (c.bufs i).bytes ≡ x
Current-Held c {i} {x} s h v (cached k lt d e w q) =
    let same : i ≡ k = s.unique i k h.slot lt h.dev d (h.blockno ∙ sym e) in
    subst (λ j. (c.bufs j).bytes ≡ x) (sym same) (sym q)
Current-Held c {i} s h v (uncached none_valid q) =
    absurd (ground (arith, none_valid i h.slot h.dev h.blockno))

-- One buffer changes, and goes on caching its block, with the same content.
module _ (c : Cache) (i : ℕ) (q : Buf) (kept : q.dev ≡ (c.bufs i).dev)
    (same_block : q.blockno ≡ (c.bufs i).blockno) where
  changed_unique :
      IsCoherent c
      → (j k : ℕ) → j < nbuf
      → k < nbuf
      → (update c.bufs i q j).dev ≡ 1
      → (update c.bufs i q k).dev ≡ 1
      → (update c.bufs i q j).blockno ≡ (update c.bufs i q k).blockno
      → j ≡ k
  changed_unique s j k lj lk dj dk e =
      s.unique j k lj lk (dev_lem j dj) (dev_lem k dk) (block_lem j ∙ e ∙ sym (block_lem k))
    where
      dev_lem : (j : ℕ) → (update c.bufs i q j).dev ≡ 1 → (c.bufs j).dev ≡ 1
      dev_lem j h = ground arith

      block_lem : (j : ℕ) → (c.bufs j).blockno ≡ (update c.bufs i q j).blockno
      block_lem j = ground arith

  pub busy-IsCoherent :
      q.busy ≡ true → (q.dirty ≡ true → q.valid ≡ true) → IsCoherent c → IsCoherent (set_buf c i q)
  busy-IsCoherent busy keeps s = record {
    unique = changed_unique s;
    listed = s.listed;
    settled = λ j lt d idle clean v. elim (Bool-cases (i == j)) [
      | inl e ↦ absurd (ground arith)
      | inr e ↦ rw e (s.settled j lt (rw e at d) (rw e at idle) (rw e at clean) (rw e at v))
    ];
    filled = λ j lt d. elim (Bool-cases (i == j)) [
      | inl e ↦ rw e (keeps (rw e at d))
      | inr e ↦ rw e (s.filled j lt (rw e at d))
    ];
  }

  pub changed-Current :
      q.valid ≡ (c.bufs i).valid
      → q.bytes ≡ (c.bufs i).bytes
      → (b : ℕ) (x : Bytes) → Current c b x
      → Current (set_buf c i q) b x
  changed-Current same_valid same_bytes b x (cached k lt d e v r) =
      cached k lt (ground arith) (ground arith) (ground arith) (ground arith)
  changed-Current same_valid same_bytes b x (uncached h r) =
      uncached (λ k lt d e. ground (arith, h k lt)) r

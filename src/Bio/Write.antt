-- ===== src/Bio/Write.antt =====
-- bwrite and brelse, by the process that has the buffer.
use os_hw.Prelude.{
  ℕ, ◌<◌, ◌≡◌, ◌≢◌, ◌∙◌, ◌⊎◌, ap, refl, inl, inr, true, false, List, [], ◌∷◌, ◌++◌, arith, ltb, leb,
  ◌==◌, ne→==, ==_refl, fun_ext, Bool-cases,
}
use os_hw.Prelude.Bytes.{Bytes, update}
use os_hw.Prelude.Outcome.{ok}
use os_hw.Bio.{Cache, nbuf, wakeup, without, iderw, bwrite, brelse}
use os_hw.Bio.Lookup.{mem, mem-without}
use os_hw.Bio.Current.{IsCoherent, Current, cached, uncached, Held}

-- What `bwrite` of the buffer in slot `i`, of block `b`, leaves.
pub record IsWritten (c : Cache) (i b : ℕ) (c' : Cache) : Type 0 where
  pub coherent : IsCoherent c'
  pub held : Held c' i b
  pub clean : ((c'.bufs i).valid ≡ true) × ((c'.bufs i).dirty ≡ false)
  pub bytes : (c'.bufs i).bytes ≡ (c.bufs i).bytes
  pub stored : c'.disk b ≡ (c.bufs i).bytes
  pub other : (a : ℕ) → b ≢ a → c'.disk a ≡ c.disk a
  pub current : Current c' b (c.bufs i).bytes
  pub same : (a : ℕ) (x : Bytes) → b ≢ a → Current c a x → Current c' a x

module _ (size : ℕ) (c : Cache) (i b : ℕ) (s : IsCoherent c) (h : Held c i b) where
  abbrev stored_cache : Cache
  stored_cache = record c {
    disk = update c.disk (c.bufs i).blockno (c.bufs i).bytes;
    bufs = update c.bufs i (record (c.bufs i) { dirty = false; valid = true });
  }

  stored_unique :
      (j k : ℕ)
      → j < nbuf
      → k < nbuf
      → (stored_cache.bufs j).dev ≡ 1
      → (stored_cache.bufs k).dev ≡ 1
      → (stored_cache.bufs j).blockno ≡ (stored_cache.bufs k).blockno
      → j ≡ k
  stored_unique j k lj lk dj dk e = s.unique j k lj lk (ground arith) (ground arith) (ground arith)

  stored-Current : (a : ℕ) (x : Bytes) → b ≢ a → Current c a x → Current stored_cache a x
  stored-Current a x ne (cached k l d e v r) =
      cached k l (ground arith) (ground arith) (ground arith) (ground arith)
  stored-Current a x ne (uncached none_valid r) =
      uncached
        (λ j lj dj ej. elim (Bool-cases (i == j)) [
          | inl p ↦ absurd (ground (arith, h.blockno))
          | inr p ↦ rw p (none_valid j lj (rw p at dj) (rw p at ej))
        ])
        (ground (arith, h.blockno))

  stored-IsCoherent : IsCoherent stored_cache
  stored-IsCoherent = record {
    unique = stored_unique;
    listed = s.listed;
    settled = λ j l d free clean v. elim (Bool-cases (i == j)) [
      | inl e ↦ absurd (ground (arith, h.busy))
      | inr e ↦
          let apart : (c.bufs i).blockno ≢ (c.bufs j).blockno =
            λ meet. absurd (ground (arith, s.unique i j h.slot l h.dev (rw e at d) meet)) in
          let old = s.settled j l (rw e at d) (rw e at free) (rw e at clean) (rw e at v) in
          rw (e, ne→== (c.bufs i).blockno (c.bufs j).blockno apart) old
    ];
    filled = λ j l d. ground (arith, s.filled j l);
  }

  stored-IsWritten : IsWritten c i b stored_cache
  stored-IsWritten = record {
    coherent = stored-IsCoherent;
    held = record {
      slot = h.slot;
      busy = ground (arith, h.busy);
      dev = ground (arith, h.dev);
      blockno = ground (arith, h.blockno);
    };
    clean = (ground arith, ground arith);
    bytes = ground arith;
    stored = ground (arith, h.blockno);
    other = λ a ne. ground (arith, h.blockno);
    current =
        cached i h.slot (ground (arith, h.dev)) (ground (arith, h.blockno)) (ground arith)
          (ground arith);
    same = stored-Current;
  }

  -- the cache as `bwrite` builds it, in two stores to the buffer
  abbrev stored_twice : Cache
  stored_twice = record c {
    disk = update c.disk (c.bufs i).blockno (c.bufs i).bytes;
    bufs =
        update (update c.bufs i (record (c.bufs i) { dirty = true })) i
          (record (c.bufs i) { dirty = false; valid = true });
  }

  bwrite-stored_twice : b < size → bwrite size c i ≡ ok stored_twice
  unfolding bwrite iderw
  bwrite-stored_twice room =
      let in_range : leb size (c.bufs i).blockno ≡ false = ground (arith, h.blockno) in
      rw (h.busy, ==_refl i) (ground (arith, h.dev))

  bwrite-stored : b < size → bwrite size c i ≡ ok stored_cache
  bwrite-stored room =
      bwrite-stored_twice room
      ∙ ap (λ bs. ok (record stored_cache { bufs = bs })) (fun_ext (λ j. ground arith))

-- From a coherent cache, `bwrite` of a buffer that the caller holds, of a block on the disk,
-- returns a coherent one. The block holds the bytes of the buffer on the disk and in the cache, and
-- every other block is as it was in both.
pub bwrite-IsWritten :
    (size : ℕ) (c : Cache) (i b : ℕ)
    → IsCoherent c
    → Held c i b
    → b < size
    → (c' : Cache) × (bwrite size c i ≡ ok c') × IsWritten c i b c'
bwrite-IsWritten size c i b s h room = (
  stored_cache size c i b s h,
  bwrite-stored size c i b s h room,
  stored-IsWritten size c i b s h,
)

-- What `brelse` leaves of a list that had slot `i` between `newer` and `older`.
pub record IsReleased (c : Cache) (i : ℕ) (newer older : List ℕ) (c' : Cache) : Type 0 where
  pub coherent : IsCoherent c'
  pub free : (c'.bufs i).busy ≡ false
  pub recent : c'.order ≡ i ∷ (newer ++ older)
  pub same : (a : ℕ) (x : Bytes) → Current c a x → Current c' a x
  pub disk : c'.disk ≡ c.disk

-- The slots of a list that has not `i` stay.
without-absent : (i : ℕ) (js : List ℕ) → mem i js ≡ false → without i js ≡ js
without-absent i [] absent = refl
without-absent i (j ∷ js) absent = elim (Bool-cases (i == j)) [
  | inl e ↦ absurd (ground arith)
  | inr e ↦ rw e (ap (λ l. j ∷ l) (without-absent i js (ground arith)))
]

without-middle :
    (i : ℕ) (newer older : List ℕ)
    → mem i newer ≡ false
    → mem i older ≡ false
    → without i (newer ++ i ∷ older) ≡ newer ++ older
without-middle i [] older no_newer no_older = rw (==_refl i) (without-absent i older no_older)
without-middle i (j ∷ js) older no_newer no_older = elim (Bool-cases (i == j)) [
  | inl e ↦ absurd (ground arith)
  | inr e ↦ rw e (ap (λ l. j ∷ l) (without-middle i js older (ground arith) no_older))
]

module _ (c : Cache) (i b : ℕ) (s : IsCoherent c) (h : Held c i b)
    (kept : ((c.bufs i).dirty ≡ true) ⊎ ((c.bufs i).bytes ≡ c.disk b)) where
  abbrev released : Cache
  released = record c {
    order = i ∷ without i c.order;
    bufs = update c.bufs i (record (c.bufs i) { busy = false });
  }

  released-settled :
      (j : ℕ)
      → j < nbuf
      → (released.bufs j).dev ≡ 1
      → (released.bufs j).busy ≡ false
      → (released.bufs j).dirty ≡ false
      → (released.bufs j).valid ≡ true
      → (released.bufs j).bytes ≡ c.disk (released.bufs j).blockno
  released-settled j l d free clean v = elim (Bool-cases (i == j)) [
    | inl e ↦ ground (arith, h.blockno)
    | inr e ↦ rw e (s.settled j l (rw e at d) (rw e at free) (rw e at clean) (rw e at v))
  ]

  released-listed : (k : ℕ) → mem k released.order ≡ ltb k nbuf
  released-listed k = mem-without i k c.order ∙ ground (arith, s.listed k, h.slot)

  released_unique :
      (j k : ℕ)
      → j < nbuf
      → k < nbuf
      → (released.bufs j).dev ≡ 1
      → (released.bufs k).dev ≡ 1
      → (released.bufs j).blockno ≡ (released.bufs k).blockno
      → j ≡ k
  released_unique j k lj lk dj dk e =
      s.unique j k lj lk (ground arith) (ground arith) (ground arith)

  released-Current : (a : ℕ) (x : Bytes) → Current c a x → Current released a x
  released-Current a x (cached k l d e v r) =
      cached k l (ground arith) (ground arith) (ground arith) (ground arith)
  released-Current a x (uncached none_valid r) =
      uncached (λ j lj dj ej. ground (arith, none_valid j lj)) r

  released-IsReleased :
      (newer older : List ℕ)
      → c.order ≡ newer ++ i ∷ older
      → mem i newer ≡ false
      → mem i older ≡ false
      → IsReleased c i newer older released
  released-IsReleased newer older at no_newer no_older = record {
    coherent = record {
      unique = released_unique;
      listed = released-listed;
      settled = released-settled;
      filled = λ j l d. ground (arith, s.filled j l);
    };
    free = ground arith;
    recent =
        ap (λ l. i ∷ without i l) at
        ∙ ap (λ l. i ∷ l) (without-middle i newer older no_newer no_older);
    same = released-Current;
    disk = refl;
  }

-- From a coherent cache whose list has the slot once, `brelse` of a buffer that the caller holds
-- returns a coherent one, moves it to the head of the list, where the others stay in their order,
-- calls wakeup of the buffer, and changes no content and no block on the disk, if the buffer is
-- dirty or as its block on the disk.
pub brelse-IsReleased :
    (c : Cache) (i b : ℕ) (newer older : List ℕ)
    → IsCoherent c
    → Held c i b
    → ((c.bufs i).dirty ≡ true) ⊎ ((c.bufs i).bytes ≡ c.disk b)
    → c.order ≡ newer ++ i ∷ older
    → mem i newer ≡ false
    → mem i older ≡ false
    → (c' : Cache) × (brelse c i ≡ ok (c', wakeup i ∷ [])) × IsReleased c i newer older c'
unfolding brelse
brelse-IsReleased c i b newer older s h kept at no_newer no_older = (
  released c i b s h kept,
  rw h.busy refl,
  released-IsReleased c i b s h kept newer older at no_newer no_older,
)

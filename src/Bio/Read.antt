-- ===== src/Bio/Read.antt =====
-- bread: the buffer that it returns.
use os_hw.Prelude.{
  ℕ, ◌≡◌, ◌∙◌, subst, refl, inl, inr, true, false, Option, none, some, arith, ◌==◌, ==→eq,
  Bool-cases,
}
use os_hw.Prelude.Bytes.{Bytes}
use os_hw.Prelude.Outcome.{Outcome, ok, panic, ◌>>=◌}
use os_hw.Bio.{Cache, set_buf, with_slot, bget, iderw, fill, bread}
use os_hw.Bio.Current.{IsCoherent, Current, cached, uncached, Held, Current-Held, busy-IsCoherent}
use os_hw.Bio.Get.{Gets, bget-Gets}

-- What a call of `bread` for block `b` does to the cache, when it returns the buffer in slot `i`.
pub record IsRead (c : Cache) (b : ℕ) (c' : Cache) (i : ℕ) : Type 0 where
  pub coherent : IsCoherent c'
  pub held : Held c' i b
  pub valid : (c'.bufs i).valid ≡ true
  pub content : (x : Bytes) → Current c b x → (c'.bufs i).bytes ≡ x
  pub same : (a : ℕ) (x : Bytes) → Current c a x → Current c' a x
  pub disk : c'.disk ≡ c.disk

valid-IsRead : (c c' : Cache) (b i : ℕ) → Gets c b c' i → (c'.bufs i).valid ≡ true → IsRead c b c' i
valid-IsRead c c' b i g v = record {
  coherent = g.coherent;
  held = g.held;
  valid = v;
  content = λ x cur. Current-Held c' g.coherent g.held v (g.same b x cur);
  same = g.same;
  disk = g.disk;
}

abbrev loaded : Cache → ℕ → Cache
loaded c i = set_buf c i (record (c.bufs i) { bytes = c.disk (c.bufs i).blockno; valid = true })

-- the buffer in slot `i`, not valid yet, is read from the disk
module _ (c : Cache) (i b : ℕ) (s : IsCoherent c) (h : Held c i b)
    (v : (c.bufs i).valid ≡ false) where
  loaded-Current : (a : ℕ) (x : Bytes) → Current c a x → Current (loaded c i) a x
  loaded-Current a x (cached k l d e w r) = elim (Bool-cases (i == k)) [
    | inl q ↦ absurd (ground arith)
    | inr q ↦ cached k l (rw q d) (rw q e) (rw q w) (rw q r)
  ]
  loaded-Current a x (uncached none_valid r) = elim (Bool-cases (b == a)) [
    | inl q ↦
        let block : (c.bufs i).blockno ≡ a = h.blockno ∙ ==→eq b a q in
        cached i h.slot (ground (arith, h.dev)) (ground arith) (ground arith) (r ∙ ground arith)
    | inr q ↦
        uncached
          (λ j lj dj ej. elim (Bool-cases (i == j)) [
            | inl p ↦ absurd (ground (arith, h.blockno))
            | inr p ↦ rw p (none_valid j lj (rw p at dj) (rw p at ej))
          ])
          r
  ]

  loaded-IsCoherent : IsCoherent (loaded c i)
  loaded-IsCoherent =
      busy-IsCoherent c i (record (c.bufs i) { bytes = c.disk (c.bufs i).blockno; valid = true })
        refl refl h.busy (λ d. refl) s

  loaded-IsRead : (c₀ : Cache) → Gets c₀ b c i → IsRead c₀ b (loaded c i) i
  loaded-IsRead c₀ g =
      let held : Held (loaded c i) i b = record {
        slot = h.slot;
        busy = ground (arith, h.busy);
        dev = ground (arith, h.dev);
        blockno = ground (arith, h.blockno);
      } in
      let same =
        λ (a : ℕ) (x : Bytes) (cur : Current c₀ a x). loaded-Current a x (g.same a x cur) in
      record {
        coherent = loaded-IsCoherent;
        held = held;
        valid = ground arith;
        content =
            λ x cur. Current-Held (loaded c i) loaded-IsCoherent held (ground arith) (same b x cur);
        same = same;
        disk = g.disk;
      }

iderw-loaded :
    (size : ℕ) (c : Cache) (i : ℕ) {c' : Cache}
    → (c.bufs i).dirty ≡ false
    → iderw size c i ≡ ok c'
    → loaded c i ≡ c'
unfolding iderw
iderw-loaded size c i clean e = ground arith

-- a `>>=` that returns
returns_of_bind :
    (r : Outcome Cache) (j : ℕ) {c' : Cache} {i : ℕ}
    → (r >>= with_slot j) ≡ ok (some (c', i))
    → (r ≡ ok c') × (j ≡ i)
returns_of_bind (ok d) j e = (ground arith, ground arith)
returns_of_bind panic j e = cc

fill-IsRead :
    (size : ℕ) (c₀ : Cache) (b : ℕ) (r : Outcome (Option (Cache × ℕ))) {c' : Cache} {i : ℕ}
    → ((c : Cache) (j : ℕ) → r ≡ ok (some (c, j)) → Gets c₀ b c j)
    → (r >>= fill size) ≡ ok (some (c', i))
    → IsRead c₀ b c' i
unfolding fill
fill-IsRead size c₀ b panic g e = cc
fill-IsRead size c₀ b (ok none) g e = cc
fill-IsRead size c₀ b (ok (some (c, j))) {c'} {i} g e =
    let got = g c j refl in
    elim (Bool-cases (c.bufs j).valid) [
      | inl v ↦
          let same : c ≡ c' = ground arith in
          let slot : j ≡ i = ground arith in
          subst (λ d. IsRead c₀ b d i) same
            (subst (λ k. IsRead c₀ b c k) slot (valid-IsRead c₀ c b j got v))
      | inr v ↦
          let (read, slot) = returns_of_bind (iderw size c j) j (rw v at e) in
          let same = iderw-loaded size c j (got.fresh v) read in
          subst (λ d. IsRead c₀ b d i) same
            (subst (λ k. IsRead c₀ b (loaded c j) k) slot
              (loaded-IsRead c j b got.coherent got.held v c₀ got))
    ]

-- When `bread` of a block of the disk, from a coherent cache, returns a buffer, that is held by the
-- caller and has the current content of the block, the cache is still coherent, no block has come
-- to have another content, and the disk is as it was: a buffer that is dirty was not given away.
pub bread-IsRead :
    (size : ℕ) (c : Cache) (b : ℕ) {c' : Cache} {i : ℕ}
    → IsCoherent c
    → bread size 1 b c ≡ ok (some (c', i))
    → IsRead c b c' i
unfolding bread
bread-IsRead size c b s e = fill-IsRead size c b (bget 1 b c) (λ d j q. bget-Gets c b s q) e

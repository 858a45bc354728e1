-- ===== src/Vm/Grow.antt =====
-- A new page table: what `walkpgdir` adds to a page directory.
use os_hw.Prelude.{
  ℕ, ◌+◌, ◌*◌, ◌%◌, ◌^◌, ◌<◌, ◌≡◌, refl, sym, ◌∙◌, ap, subst, ◌≢◌, ◌⊎◌, inl, inr, true, false, List,
  ◌∷◌, ◌==◌, Bool-cases, ==→eq, ==→ne, arith, bit_or,
}
use os_hw.Prelude.Bits.{bit_at, bit_or-flags}
use os_hw.Prelude.Bytes.{get_word, put_word, get_word-put_word_self, get_word-put_word_ne}
use os_hw.Kalloc.{page_size, v2p, Kmem}
use os_hw.Kalloc.Pages.{IsPage, occurs, IsWithin, IsChain-within, IsFree}
use os_hw.Vm.Words.{
  entries_ne, zeroed, zeroed-IsWithin, get_word-zeroed, put_word-IsWithin, get_word-within,
}
use os_hw.Vm.Tables.{pde_at, table, mapping, IsSpace}
use os_hw.Vm.{p2v, pdx, ptx, pte_addr, present}

-- The table is made from the page `p`, the first in the free list, for `va`.
module _ (end pgdir : ℕ) (k : Kmem) (p : ℕ) (l : List ℕ) (s : IsSpace end pgdir k (p ∷ l)) (va : ℕ)
    (absent : present (pde_at k.mem pgdir (pdx va)) ≡ false) where
  abbrev w : ℕ
  w = bit_or (v2p p) 7

  abbrev pub grown : Kmem
  grown = record {
    mem = put_word (zeroed p k.mem) (pgdir + 4 * pdx va) w;
    freelist = get_word k.mem p;
  }

  p-IsPage : IsPage end p
  p-IsPage = s.chain.1

  p_ne_pgdir : p ≢ pgdir
  p_ne_pgdir e = let used = s.dir_used in ground (arith, e)

  w_lem : (w ≡ v2p p + 7) × (table w ≡ p) × (present w ≡ true) × (w < 2 ^ 32)
  unfolding bit_at
  w_lem =
      let aligned = p-IsPage.aligned in
      let word = p-IsPage.word in
      let sum : w ≡ v2p p + 7 = bit_or-flags (v2p p) 7 (omega arith) (omega arith) in
      let back : p2v (pte_addr (v2p p + 7)) ≡ p = omega arith in
      (sum, ap table sum ∙ back, rw sum (ground arith), rw sum (omega arith))

  dir-IsWithin : IsWithin pgdir (zeroed p k.mem) grown.mem
  dir-IsWithin = put_word-IsWithin pgdir (pdx va) w (zeroed p k.mem) (omega arith)

  -- an entry of neither page
  other_word :
      (q j : ℕ)
      → q % page_size ≡ 0
      → q ≢ p
      → q ≢ pgdir
      → j < 1024
      → get_word grown.mem (q + 4 * j) ≡ get_word k.mem (q + 4 * j)
  other_word q j aligned ne_p ne_dir lt =
      get_word-within pgdir q j (zeroed p k.mem) grown.mem (s.dir.aligned) aligned
        (λ e. ne_dir (sym e)) lt dir-IsWithin
      ∙ get_word-within p q j k.mem (zeroed p k.mem) (p-IsPage.aligned) aligned (λ e. ne_p (sym e))
          lt (zeroed-IsWithin p k.mem)

  pde_at-grown : pde_at grown.mem pgdir (pdx va) ≡ w
  pde_at-grown = get_word-put_word_self (zeroed p k.mem) (pgdir + 4 * pdx va) w (w_lem.3)

  pde_at-grown_ne :
      (i : ℕ) → i < 1024 → pdx va ≢ i → pde_at grown.mem pgdir i ≡ pde_at k.mem pgdir i
  pde_at-grown_ne i lt ne =
      get_word-put_word_ne (zeroed p k.mem) (pgdir + 4 * pdx va) (pgdir + 4 * i) w
        (entries_ne pgdir (pdx va) i ne)
      ∙ get_word-within p pgdir i k.mem (zeroed p k.mem) (p-IsPage.aligned) (s.dir.aligned)
          p_ne_pgdir lt (zeroed-IsWithin p k.mem)

  -- Each entry of the directory is as it was, or is the new one.
  pde_at-cases :
      (i : ℕ)
      → i < 1024
      → ((pdx va ≡ i) × (pde_at grown.mem pgdir i ≡ w))
        ⊎ ((pdx va ≢ i) × (pde_at grown.mem pgdir i ≡ pde_at k.mem pgdir i))
  pde_at-cases i lt = elim (Bool-cases (pdx va == i)) [
    | inl e ↦
        inl (==→eq _ _ e, subst (λ i. pde_at grown.mem pgdir i ≡ w) (==→eq _ _ e) pde_at-grown)
    | inr e ↦ inr (==→ne _ _ e, pde_at-grown_ne i lt (==→ne _ _ e))
  ]

  old_table_ne :
      (i : ℕ) → i < 1024 → present (pde_at k.mem pgdir i) ≡ true → table (pde_at k.mem pgdir i) ≢ p
  old_table_ne i lt there e = let used = s.used i lt there in ground (arith, e)

  rest_used : (q : ℕ) → occurs q (p ∷ l) ≡ false → occurs q l ≡ false
  rest_used q h = ground (arith, h)

  grown-IsFree : IsFree end grown l
  grown-IsFree =
      let (head, page, once, rest) = s.chain in
      IsChain-within end pgdir (zeroed p k.mem) grown.mem (get_word k.mem p) l (s.dir.aligned)
        (rest_used pgdir s.dir_used) dir-IsWithin
        (IsChain-within end p k.mem (zeroed p k.mem) (get_word k.mem p) l (page.aligned) once
          (zeroed-IsWithin p k.mem) rest)

  -- A fact about each table: those that were there, and the new one.
  each :
      (P : ℕ → Type 0)
      → P p
      → ((i : ℕ)
          → i < 1024
          → present (pde_at k.mem pgdir i) ≡ true
          → P (table (pde_at k.mem pgdir i)))
      → (i : ℕ) → i < 1024
      → present (pde_at grown.mem pgdir i) ≡ true
      → P (table (pde_at grown.mem pgdir i))
  each P new old i lt = elim (pde_at-cases i lt) [
    | inl (_, e) ↦ λ _. subst P (sym (ap table e ∙ w_lem.1)) new
    | inr (_, e) ↦ subst (λ e. present e ≡ true → P (table e)) (sym e) (old i lt)
  ]

  pub grown-IsSpace : IsSpace end pgdir grown l
  grown-IsSpace = record {
    chain = grown-IsFree;
    dir = s.dir;
    dir_used = rest_used pgdir (s.dir_used);
    page = each (IsPage end) p-IsPage (s.page);
    used =
        each (λ q. occurs q l ≡ false) (s.chain.2)
          (λ i lt there. rest_used (table (pde_at k.mem pgdir i)) (s.used i lt there));
    apart = each (λ q. q ≢ pgdir) p_ne_pgdir (s.apart);
    distinct = λ i j hi hj ne. elim (pde_at-cases i hi) [
      | inl (at_i, e) ↦ λ pi pj.
          subst (λ q. q ≢ table (pde_at grown.mem pgdir j)) (sym (ap table e ∙ w_lem.1))
            (elim (pde_at-cases j hj) [
              | inl (at_j, _) ↦ absurd (ne (sym at_i ∙ at_j))
              | inr (_, f) ↦
                  subst (λ f. present f ≡ true → p ≢ table f) (sym f)
                    (λ there q. old_table_ne j hj there (sym q)) pj
            ])
      | inr (at_i, e) ↦ λ pi pj. elim (pde_at-cases j hj) [
        | inl (_, f) ↦
            subst (λ q. table (pde_at grown.mem pgdir i) ≢ q) (sym (ap table f ∙ w_lem.1))
              (subst (λ e. present e ≡ true → table e ≢ p) (sym e) (old_table_ne i hi) pi)
        | inr (_, f) ↦ λ q.
            s.distinct i j hi hj ne (subst (λ e. present e ≡ true) e pi)
              (subst (λ e. present e ≡ true) f pj) (ap table (sym e) ∙ q ∙ ap table f)
      ]
    ];
  }

  -- The new table has no entries, so that the directory maps what it did.
  pub mapping-grown : (x : ℕ) → mapping grown.mem pgdir x ≡ mapping k.mem pgdir x
  mapping-grown x = elim (pde_at-cases (pdx x) (omega arith)) [
    | inl (at, e) ↦
        let was : present (pde_at k.mem pgdir (pdx x)) ≡ false =
          subst (λ i. present (pde_at k.mem pgdir i) ≡ false) at absent in
        rw (e, was, w_lem.2, w_lem.1)
          (get_word-within pgdir p (ptx x) (zeroed p k.mem) grown.mem (s.dir.aligned)
              (p-IsPage.aligned) (λ q. p_ne_pgdir (sym q)) (omega arith) dir-IsWithin
            ∙ get_word-zeroed p (ptx x) k.mem (omega arith))
    | inr (ne, e) ↦ elim (Bool-cases (present (pde_at k.mem pgdir (pdx x)))) [
      | inr none_there ↦ rw (e, none_there) refl
      | inl there ↦
          rw (e, there)
            (other_word (table (pde_at k.mem pgdir (pdx x))) (ptx x)
              ((s.page (pdx x) (omega arith) there).aligned)
              (old_table_ne (pdx x) (omega arith) there) (s.apart (pdx x) (omega arith) there)
              (omega arith))
    ]
  ]

  pub pde_at_grown_present : present (pde_at grown.mem pgdir (pdx va)) ≡ true
  pde_at_grown_present = ap present pde_at-grown ∙ w_lem.2

  pub table_grown : table (pde_at grown.mem pgdir (pdx va)) ≡ p
  table_grown = ap table pde_at-grown ∙ w_lem.1

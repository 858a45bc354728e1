-- ===== src/Vm/Tables.antt =====
-- A page directory and its page tables, as a map from pages to entries.
use os_hw.Prelude.{
  ℕ, ◌+◌, ◌*◌, ◌/◌, ◌^◌, ◌<◌, ◌≡◌, refl, sym, ◌∙◌, ap, subst, ◌≢◌, inl, inr, true, false, List,
  ◌==◌, if◌then◌else◌, Bool-cases, ==→eq, ==→ne, arith,
}
use os_hw.Prelude.Bytes.{Bytes, get_word, get_word-put_word_self, get_word-put_word_ne}
use os_hw.Kalloc.{page_size, Kmem}
use os_hw.Kalloc.Pages.{IsPage, occurs, IsWithin, IsChain-within, IsFree}
use os_hw.Vm.Words.{entries_ne, put_word-IsWithin, get_word-within}
use os_hw.Vm.{p2v, pdx, ptx, pte_addr, present, set_word}

-- the entry `i` of the page directory, and the page table that an entry points to
abbrev pub pde_at : Bytes → (pgdir i : ℕ) → ℕ
pde_at m pgdir i = get_word m (pgdir + 4 * i)

abbrev pub table : ℕ → ℕ
table e = p2v (pte_addr e)

-- the entry for `va`, 0 where there is no page table
abbrev pub mapping : Bytes → (pgdir va : ℕ) → ℕ
mapping m pgdir va =
    let e = pde_at m pgdir (pdx va) in if present e then get_word m (table e + 4 * ptx va) else 0

-- The page directory and the page tables are pages, all different, none of them in the free list.
pub record IsSpace (end pgdir : ℕ) (k : Kmem) (l : List ℕ) : Type 0 where
  pub chain : IsFree end k l
  pub dir : IsPage end pgdir
  pub dir_used : occurs pgdir l ≡ false
  pub page :
      (i : ℕ)
      → i < 1024
      → present (pde_at k.mem pgdir i) ≡ true
      → IsPage end (table (pde_at k.mem pgdir i))
  pub used :
      (i : ℕ)
      → i < 1024
      → present (pde_at k.mem pgdir i) ≡ true
      → occurs (table (pde_at k.mem pgdir i)) l ≡ false
  pub apart :
      (i : ℕ)
      → i < 1024
      → present (pde_at k.mem pgdir i) ≡ true
      → table (pde_at k.mem pgdir i) ≢ pgdir
  pub distinct :
      (i j : ℕ)
      → i < 1024
      → j < 1024
      → i ≢ j
      → present (pde_at k.mem pgdir i) ≡ true
      → present (pde_at k.mem pgdir j) ≡ true
      → table (pde_at k.mem pgdir i) ≢ table (pde_at k.mem pgdir j)

-- The same directory over another memory.
pub IsSpace-same :
    (end pgdir : ℕ) (k k' : Kmem) (l : List ℕ)
    → IsSpace end pgdir k l
    → IsFree end k' l
    → ((i : ℕ) → i < 1024 → pde_at k'.mem pgdir i ≡ pde_at k.mem pgdir i)
    → IsSpace end pgdir k' l
IsSpace-same end pgdir k k' l s chain same = record {
  chain = chain;
  dir = s.dir;
  dir_used = s.dir_used;
  page =
      λ i lt. subst (λ e. present e ≡ true → IsPage end (table e)) (sym (same i lt)) (s.page i lt);
  used = λ i lt.
      subst (λ e. present e ≡ true → occurs (table e) l ≡ false) (sym (same i lt)) (s.used i lt);
  apart = λ i lt. subst (λ e. present e ≡ true → table e ≢ pgdir) (sym (same i lt)) (s.apart i lt);
  distinct = λ i j hi hj ne pi pj e.
      s.distinct i j hi hj ne (subst (λ e. present e ≡ true) (same i hi) pi)
        (subst (λ e. present e ≡ true) (same j hj) pj)
        (ap table (sym (same i hi)) ∙ e ∙ ap table (same j hj));
}

-- A store to the entry for `va` in its page table.
module _ (end pgdir : ℕ) (k : Kmem) (l : List ℕ) (s : IsSpace end pgdir k l) (va v : ℕ)
    (there : present (pde_at k.mem pgdir (pdx va)) ≡ true) where
  abbrev pub t : ℕ
  t = table (pde_at k.mem pgdir (pdx va))

  abbrev pub stored : Kmem
  stored = set_word k (t + 4 * ptx va) v

  t-IsPage : IsPage end t
  t-IsPage = s.page (pdx va) (omega arith) there

  stored-IsWithin : IsWithin t k.mem stored.mem
  stored-IsWithin = put_word-IsWithin t (ptx va) v k.mem (omega arith)

  pde_at-stored : (i : ℕ) → i < 1024 → pde_at stored.mem pgdir i ≡ pde_at k.mem pgdir i
  pde_at-stored i lt =
      get_word-within t pgdir i k.mem stored.mem (t-IsPage.aligned) (s.dir.aligned)
        (s.apart (pdx va) (omega arith) there) lt stored-IsWithin

  pub stored-IsSpace : IsSpace end pgdir stored l
  stored-IsSpace =
      IsSpace-same end pgdir k stored l s
        (IsChain-within end t k.mem stored.mem k.freelist l (t-IsPage.aligned)
          (s.used (pdx va) (omega arith) there) stored-IsWithin (s.chain))
        pde_at-stored

  pub mapping-stored : v < 2 ^ 32 → mapping stored.mem pgdir va ≡ v
  mapping-stored small =
      rw (pde_at-stored (pdx va) (omega arith), there)
        (get_word-put_word_self k.mem (t + 4 * ptx va) v small)

  pub mapping-stored_ne :
      (w : ℕ)
      → va < 2 ^ 32
      → w < 2 ^ 32
      → w / page_size ≢ va / page_size
      → mapping stored.mem pgdir w ≡ mapping k.mem pgdir w
  mapping-stored_ne w small small' ne =
      let same_pde = pde_at-stored (pdx w) (omega arith) in
      elim (Bool-cases (present (pde_at k.mem pgdir (pdx w)))) [
        | inr absent ↦ rw (same_pde, absent) refl
        | inl found ↦
            rw (same_pde, found)
              (elim (Bool-cases (pdx va == pdx w)) [
                | inl e ↦
                    let same : pdx va ≡ pdx w = ==→eq _ _ e in
                    subst
                      (λ i.
                        get_word stored.mem (table (pde_at k.mem pgdir i) + 4 * ptx w)
                        ≡ get_word k.mem (table (pde_at k.mem pgdir i) + 4 * ptx w))
                      same
                      (get_word-put_word_ne k.mem (t + 4 * ptx va) (t + 4 * ptx w) v
                        (entries_ne t (ptx va) (ptx w) (λ q. ne (omega arith))))
                | inr e ↦
                    get_word-within t (table (pde_at k.mem pgdir (pdx w))) (ptx w) k.mem stored.mem
                      (t-IsPage.aligned) ((s.page (pdx w) (omega arith) found).aligned)
                      (s.distinct (pdx va) (pdx w) (omega arith) (omega arith) (==→ne _ _ e) there
                        found)
                      (omega arith) stored-IsWithin
              ])
      ]

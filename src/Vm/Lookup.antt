-- ===== src/Vm/Lookup.antt =====
-- mappages as a whole, and uva2ka after it.
use os_hw.Prelude.{
  ℕ, suc, ◌+◌, ◌-◌, ◌*◌, ◌/◌, ◌%◌, ◌^◌, ◌≤◌, ◌<◌, ◌≡◌, refl, ◌∙◌, ap, inl, inr, Bool, true, false,
  not, List, length, if◌then◌else◌, Bool-cases, arith, ◌==◌,
}
use os_hw.Prelude.Bits.{bit_at}
use os_hw.Prelude.Bytes.{get_word}
use os_hw.Prelude.Outcome.{ok}
use os_hw.Kalloc.{page_size, Kmem}
use os_hw.Vm.{p2v, pdx, ptx, pte_addr, present, user, page_round_down, map_from, mappages}
use os_hw.Vm.User.{uva2ka}
use os_hw.Vm.Tables.{pde_at, table, mapping, IsSpace}
use os_hw.Vm.Space.{pte, pte_lem, walkpgdir_found, present_zero}
use os_hw.Vm.Range.{IsRange, IsMappedRange, map_from-IsMappedRange}

-- `mappages` of whole pages is its loop over them.
mappages-map_from :
    (pgdir a pa perm n : ℕ) (k : Kmem)
    → IsRange a pa perm n
    → mappages pgdir a (suc n * page_size) pa perm k
      ≡ map_from (suc n) pgdir a (a + n * page_size) pa perm k
unfolding mappages
mappages-map_from pgdir a pa perm n k r =
    let aligned = r.aligned in
    let fits = r.fits in
    let first : page_round_down a ≡ a = omega arith in
    let last : page_round_down ((a + suc n * page_size + 2 ^ 32 - 1) % 2 ^ 32) ≡ a + n * page_size =
      omega arith in
    let rounds : (a + n * page_size + 2 ^ 32 - a) % 2 ^ 32 / page_size + 1 ≡ suc n = omega arith in
    rw (first, last, rounds) refl

-- Over pages without entries `mappages` maps each of them to its physical page and returns 0, or
-- returns -1 and the free list had no more than `n` pages; all other pages stay as they were, and
-- the page tables are still apart from each other and from the free list.
pub mappages-IsMappedRange :
    (end pgdir a pa perm n : ℕ) (k : Kmem) (l : List ℕ)
    → IsSpace end pgdir k l
    → IsRange a pa perm n
    → ((j : ℕ) → j ≤ n → present (mapping k.mem pgdir (a + j * page_size)) ≡ false)
    → (done : Bool) × (k' : Kmem) × (l' : List ℕ) × (mappages pgdir a (suc n * page_size) pa perm k
        ≡ ok (done, k'))
      × IsMappedRange end pgdir a pa perm n k l done k' l'
mappages-IsMappedRange end pgdir a pa perm n k l s r free =
    let (done, k', l', run, m) = map_from-IsMappedRange end pgdir a pa perm n k l s r free in
    (done, k', l', mappages-map_from pgdir a pa perm n k r ∙ run, m)

-- `uva2ka` reads the entry that the directory has for the page.
uva2ka-mapping :
    (pgdir va : ℕ) (k : Kmem)
    → present (mapping k.mem pgdir va) ≡ true
    → uva2ka pgdir va k
      ≡ (if user (mapping k.mem pgdir va) then table (mapping k.mem pgdir va) else 0)
unfolding uva2ka
uva2ka-mapping pgdir va k there = elim (Bool-cases (present (pde_at k.mem pgdir (pdx va)))) [
  | inr absent ↦ absurd (present_zero (rw absent at there))
  | inl found ↦
      let walk = walkpgdir_found pgdir va false k found in
      let full : present (get_word k.mem (table (pde_at k.mem pgdir (pdx va)) + 4 * ptx va))
          ≡ true =
        rw found at there in
      rw (walk, full, found)
        (negated (user (get_word k.mem (table (pde_at k.mem pgdir (pdx va)) + 4 * ptx va))) _)
]
  where
    negated : (b : Bool) (x : ℕ) → (if not b then 0 else x) ≡ (if b then x else 0)
    negated true x = refl
    negated false x = refl

-- every address of a page has the entry of the page
mapping-page :
    (a o : ℕ) (k : Kmem) (pgdir : ℕ)
    → a % page_size ≡ 0
    → o < page_size
    → mapping k.mem pgdir (a + o) ≡ mapping k.mem pgdir a
mapping-page a o k pgdir aligned small =
    let same_pdx : pdx (a + o) ≡ pdx a = omega arith in
    let same_ptx : ptx (a + o) ≡ ptx a = omega arith in rw (same_pdx, same_ptx) refl

-- the fields of an entry for user memory
pte-fields :
    (pa perm : ℕ)
    → pa % page_size ≡ 0
    → perm < page_size
    → (present (pte pa perm) ≡ true)
      × (user (pte pa perm) ≡ user perm)
      × (pte_addr (pte pa perm) ≡ pa)
unfolding bit_at
pte-fields pa perm aligned small =
    let e = pte_lem pa perm aligned small in
    let bit : ((pa + perm) / 2 * 2 + 1) / 2 / 2 % 2 ≡ perm / 2 / 2 % 2 = omega arith in
    rw e (ground arith, ap (λ b. b == 1) bit, omega arith)

-- After `mappages` returned 0 for pages that had no entries, `uva2ka` gives for each address in
-- them the kernel's address of its physical page if the permissions have `PTE_U`, and 0 otherwise;
-- `mappages` returns 0 if the free list has more than `n` pages.
pub uva2ka-mappages :
    (end pgdir a pa perm n : ℕ) (k : Kmem) (l : List ℕ)
    → IsSpace end pgdir k l
    → IsRange a pa perm n
    → ((j : ℕ) → j ≤ n → present (mapping k.mem pgdir (a + j * page_size)) ≡ false)
    → n < length l
    → (k' : Kmem) × (mappages pgdir a (suc n * page_size) pa perm k ≡ ok (true, k'))
      × ((j o : ℕ)
          → j ≤ n
          → o < page_size
          → uva2ka pgdir (a + j * page_size + o) k'
            ≡ (if user perm then p2v (pa + j * page_size) else 0))
uva2ka-mappages end pgdir a pa perm n k l s r free many =
    let (done, k', l', run, m) = mappages-IsMappedRange end pgdir a pa perm n k l s r free in
    let all : done ≡ true = elim (Bool-cases done) [
      | inl e ↦ e
      | inr e ↦ absurd (let few = m.few e in omega arith)
    ] in
    (
      k',
      rw all at run,
      λ j o le lt.
          let aligned = r.aligned in
          let phys_aligned = r.phys_aligned in
          let at : mapping k'.mem pgdir (a + j * page_size + o) ≡ pte (pa + j * page_size) perm =
            mapping-page (a + j * page_size) o k' pgdir (omega arith) lt ∙ m.mapped all j le in
          let (there, same, addr) = pte-fields (pa + j * page_size) perm (omega arith) (r.flags) in
          uva2ka-mapping pgdir (a + j * page_size + o) k' (ap present at ∙ there)
          ∙ rw (at, same, addr) refl,
    )

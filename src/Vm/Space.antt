-- ===== src/Vm/Space.antt =====
-- walkpgdir and mappages for one page, over a page directory as a map.
use os_hw.Prelude.{
  ℕ, ◌+◌, ◌*◌, ◌/◌, ◌%◌, ◌^◌, ◌≤◌, ◌<◌, ◌≡◌, refl, sym, ◌∙◌, ap, ◌≢◌, ◌⊎◌, inl, inr, Bool, true,
  false, none, some, List, [], ◌∷◌, length, ◌==◌, Bool-cases, ne→==, arith, bit_or,
}
use os_hw.Prelude.Bits.{bit_at, bit_or-flags, bit_or_one}
use os_hw.Prelude.Bytes.{get_word}
use os_hw.Prelude.Outcome.{ok, panic}
use os_hw.Kalloc.{page_size, Kmem}
use os_hw.Kalloc.Pages.{IsPage-nonzero, kalloc-first, kalloc_empty}
use os_hw.Vm.Tables.{
  pde_at, table, mapping, IsSpace, stored, stored-IsSpace, mapping-stored, mapping-stored_ne,
}
use os_hw.Vm.Grow.{grown, grown-IsSpace, mapping-grown, pde_at_grown_present, table_grown}
use os_hw.Vm.{pdx, ptx, present, walkpgdir, set_pte, map_page}

-- the entry that `mappages` stores
abbrev pub pte : (pa perm : ℕ) → ℕ
pte pa perm = bit_or (bit_or pa perm) 1

pub pte_lem :
    (pa perm : ℕ) → pa % page_size ≡ 0 → perm < page_size → pte pa perm ≡ (pa + perm) / 2 * 2 + 1
pte_lem pa perm aligned small =
    ap (λ e. bit_or e 1) (bit_or-flags pa perm aligned small) ∙ bit_or_one (pa + perm)

-- What entering `v` for the page of `a` does; the free list goes from `l` to `l'`.
pub record IsEntered (end pgdir : ℕ) (k : Kmem) (l : List ℕ) (a v : ℕ) (k' : Kmem) (l' : List ℕ)
    : Type 0 where
  pub space : IsSpace end pgdir k' l'
  pub here : mapping k'.mem pgdir a ≡ v
  pub other :
      (x : ℕ)
      → x < 2 ^ 32
      → x / page_size ≢ a / page_size
      → mapping k'.mem pgdir x ≡ mapping k.mem pgdir x
  pub taken : length l ≤ length l' + 1

pub walkpgdir_found :
    (pgdir va : ℕ) (alloc : Bool) (k : Kmem)
    → present (pde_at k.mem pgdir (pdx va)) ≡ true
    → walkpgdir pgdir va alloc k ≡ (some (table (pde_at k.mem pgdir (pdx va)) + 4 * ptx va), k)
unfolding walkpgdir
walkpgdir_found pgdir va alloc k there = rw there refl

walkpgdir-grown :
    (end pgdir va p : ℕ) (k : Kmem) (l : List ℕ) (s : IsSpace end pgdir k (p ∷ l))
    (absent : present (pde_at k.mem pgdir (pdx va)) ≡ false)
    → walkpgdir pgdir va true k ≡ (some (p + 4 * ptx va), grown end pgdir k p l s va absent)
unfolding walkpgdir
walkpgdir-grown end pgdir va p k l s absent =
    let got = kalloc-first end p k l (s.chain) in
    let some_page : (p == 0) ≡ false = ne→== _ _ (IsPage-nonzero end p (s.chain.1)) in
    rw (absent, got, some_page) refl

walkpgdir_full :
    (end pgdir va : ℕ) (k : Kmem)
    → IsSpace end pgdir k []
    → present (pde_at k.mem pgdir (pdx va)) ≡ false
    → walkpgdir pgdir va true k ≡ (none, k)
unfolding walkpgdir
walkpgdir_full end pgdir va k s absent = rw (absent, kalloc_empty end k (s.chain)) refl

-- `map_page` where there is a page table
map_page_found :
    (end pgdir a pa perm : ℕ) (k : Kmem) (l : List ℕ)
    → IsSpace end pgdir k l
    → a < 2 ^ 32
    → pte pa perm < 2 ^ 32
    → present (pde_at k.mem pgdir (pdx a)) ≡ true
    → present (mapping k.mem pgdir a) ≡ false
    → (k' : Kmem) × (map_page pgdir a pa perm k ≡ ok (true, k'))
      × IsEntered end pgdir k l a (pte pa perm) k' l
unfolding map_page
map_page_found end pgdir a pa perm k l s small fits there free =
    let walk = walkpgdir_found pgdir a true k there in
    let empty : present (get_word k.mem (table (pde_at k.mem pgdir (pdx a)) + 4 * ptx a)) ≡ false =
      rw there at free in
    (
      stored end pgdir k l s a (pte pa perm) there,
      rw (walk, empty) refl,
      record {
        space = stored-IsSpace end pgdir k l s a (pte pa perm) there;
        here = mapping-stored end pgdir k l s a (pte pa perm) there fits;
        other = λ x lt ne. mapping-stored_ne end pgdir k l s a (pte pa perm) there x small lt ne;
        taken = omega arith;
      },
    )

-- `map_page` where it makes the page table first
map_page-grown :
    (end pgdir a pa perm p : ℕ) (k : Kmem) (l : List ℕ) (s : IsSpace end pgdir k (p ∷ l))
    (absent : present (pde_at k.mem pgdir (pdx a)) ≡ false)
    → map_page pgdir a pa perm k ≡ map_page pgdir a pa perm (grown end pgdir k p l s a absent)
unfolding map_page
map_page-grown end pgdir a pa perm p k l s absent =
    let g = grown end pgdir k p l s a absent in
    let again : walkpgdir pgdir a true g ≡ (some (p + 4 * ptx a), g) =
      walkpgdir_found pgdir a true g (pde_at_grown_present end pgdir k p l s a absent)
      ∙ ap (λ q. (some (q + 4 * ptx a), g)) (table_grown end pgdir k p l s a absent) in
    ap (set_pte pa perm) (walkpgdir-grown end pgdir a p k l s absent ∙ sym again)

-- A page without an entry gets one, or the free list is empty and nothing changes.
pub map_page-IsEntered :
    (end pgdir a pa perm : ℕ) (k : Kmem) (l : List ℕ)
    → IsSpace end pgdir k l
    → a < 2 ^ 32
    → pte pa perm < 2 ^ 32
    → present (mapping k.mem pgdir a) ≡ false
    → ((k' : Kmem) × (l' : List ℕ) × (map_page pgdir a pa perm k ≡ ok (true, k'))
        × IsEntered end pgdir k l a (pte pa perm) k' l')
      ⊎ ((l ≡ []) × (map_page pgdir a pa perm k ≡ ok (false, k)))
unfolding map_page
map_page-IsEntered end pgdir a pa perm k [] s small fits free =
    elim (Bool-cases (present (pde_at k.mem pgdir (pdx a)))) [
      | inl there ↦
          let (k', run, e) = map_page_found end pgdir a pa perm k [] s small fits there free in
          inl (k', [], run, e)
      | inr absent ↦ inr (refl, ap (set_pte pa perm) (walkpgdir_full end pgdir a k s absent))
    ]
map_page-IsEntered end pgdir a pa perm k (p ∷ l) s small fits free =
    elim (Bool-cases (present (pde_at k.mem pgdir (pdx a)))) [
      | inl there ↦
          let (k', run, e) = map_page_found end pgdir a pa perm k (p ∷ l) s small fits there free in
          inl (k', p ∷ l, run, e)
      | inr absent ↦
          let g = grown end pgdir k p l s a absent in
          let same = mapping-grown end pgdir k p l s a absent in
          let (k', run, e) =
            map_page_found end pgdir a pa perm g l (grown-IsSpace end pgdir k p l s a absent) small
              fits (pde_at_grown_present end pgdir k p l s a absent) (ap present (same a) ∙ free) in
          inl (
            k',
            l,
            map_page-grown end pgdir a pa perm p k l s absent ∙ run,
            record {
              space = e.space;
              here = e.here;
              other = λ x lt ne. e.other x lt ne ∙ same x;
              taken = omega arith;
            },
          )
    ]

pub present_zero : present 0 ≢ true
unfolding bit_at
present_zero h = ground (arith, h)

-- `mappages` of a page that is mapped already panics.
pub map_page_panic :
    (pgdir a pa perm : ℕ) (k : Kmem)
    → present (mapping k.mem pgdir a) ≡ true
    → map_page pgdir a pa perm k ≡ panic
unfolding map_page
map_page_panic pgdir a pa perm k there = elim (Bool-cases (present (pde_at k.mem pgdir (pdx a)))) [
  | inl table_there ↦
      let walk = walkpgdir_found pgdir a true k table_there in
      let full : present (get_word k.mem (table (pde_at k.mem pgdir (pdx a)) + 4 * ptx a)) ≡ true =
        rw table_there at there in
      rw (walk, full) refl
  | inr none_there ↦ absurd (present_zero (rw none_there at there))
]

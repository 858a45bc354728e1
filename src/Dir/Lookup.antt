-- ===== src/Dir/Lookup.antt =====
-- dirlookup: the first entry of a directory with the name.
use os_hw.Prelude.{
  ℕ, zero, suc, ◌+◌, ◌-◌, ◌*◌, ◌/◌, ◌^◌, ◌≤◌, ◌<◌, ◌≡◌, ◌≢◌, ne→==, ==→ne, ==→eq, refl, sym, ap,
  subst, ◌∙◌, inl, inr, Bool, true, false, not, ◌&&◌, Option, none, some, arith, min, ltb, leb,
  ◌==◌, eq→==, if◌then◌else◌, Bool-cases, dec_lt, fun_ext,
}
use os_hw.Prelude.Bytes.{Bytes, get_half}
use os_hw.Prelude.Outcome.{Outcome, ok, ◌>>=◌}
use os_hw.Log.{bsize}
use os_hw.Fs.{Fs}
use os_hw.Inode.{iget}
use os_hw.Content.{moved, t_dir, readi}
use os_hw.Content.Map.{IsMapped}
use os_hw.Content.Read.{with_file, readi-with_file}
use os_hw.Str.Compare.{SameString, strncmp-SameString, SameString-strncmp}
use os_hw.Dir.{dirsiz, dirent_size, entries, namecmp, look_entry, look_from, dirlookup}

-- The inode is a directory of `count` entries, whose parts all have blocks.
pub record IsDir (fs : Fs) (i count : ℕ) : Type 0 where
  pub type : (fs.inode i).type ≡ t_dir
  pub size : (fs.inode i).size ≡ dirent_size * count
  pub small : (fs.inode i).size < 2 ^ 31
  pub mapped : (p : ℕ) → p < (fs.inode i).size → IsMapped fs i (p / bsize)

-- the memory with entry `e` of the directory at `d`
abbrev pub with_entry : Fs → (i d e : ℕ) → Bytes → Bytes
with_entry fs i d e mem = with_file fs i d (dirent_size * e) dirent_size mem

-- Entry `e` is in use and has the name.
abbrev pub has_name : Fs → (i d name : ℕ) → Bytes → ℕ → Bool
has_name fs i d name mem e =
    let m = with_entry fs i d e mem in not (get_half m d == 0) && (namecmp name (d + 2) m == 0)

-- how the walk of `dirlookup` ends at entry `e`
abbrev pub entry_found : Fs → (i d e : ℕ) → Bytes → Outcome (Option (ℕ × ℕ) × Bytes × Fs)
entry_found fs i d e mem =
    let m = with_entry fs i d e mem in
    iget (fs.inode i).dev (get_half m d) fs >>= (λ (j, fs'). ok (some (j, dirent_size * e), m, fs'))

module _ (can_read : ℕ → Bool) (fs : Fs) (i count d name : ℕ) (dir : IsDir fs i count) where
  read_entry :
      (e : ℕ) (mem : Bytes)
      → e < count
      → readi can_read i d (dirent_size * e) dirent_size mem fs
        ≡ ok (moved dirent_size, with_entry fs i d e mem, fs)
  read_entry e mem lt =
      let (m, run, bytes) =
        readi-with_file can_read i d (dirent_size * e) dirent_size mem fs
          (λ z. absurd (omega (arith, dir.type))) (omega (arith, dir.size))
          (omega (arith, dir.size, dir.small)) dir.mapped in
      let all : min dirent_size ((fs.inode i).size - dirent_size * e) ≡ dirent_size =
        omega (arith, dir.size) in
      run
      ∙ ap (λ k. ok (moved k, m, fs)) all
      ∙ ap (λ x. ok (moved dirent_size, x, fs))
          (fun_ext bytes ∙ ap (λ k. with_file fs i d (dirent_size * e) k mem) all)

  -- reading another entry forgets the one read before
  with_entry_again :
      (e g : ℕ) (mem : Bytes)
      → with_entry fs i d g (with_entry fs i d e mem) ≡ with_entry fs i d g mem
  with_entry_again e g mem = fun_ext (λ x. again (leb d x && ltb x (d + dirent_size)) _ _ _)
    where
      again : (t : Bool) (a b c : ℕ) → (if t then a else if t then b else c) ≡ (if t then a else c)
      again true a b c = refl
      again false a b c = refl

  in_size : (e : ℕ) → e < count → ltb (dirent_size * e) (fs.inode i).size ≡ true
  in_size e lt = ground (arith, dir.size)

  look_from-skip :
      (k e : ℕ) (mem : Bytes)
      → e < count
      → has_name fs i d name mem e ≡ false
      → look_from can_read (suc k) (dirent_size * e) i d name mem fs
        ≡ look_from can_read k (dirent_size * (e + 1)) i d name (with_entry fs i d e mem) fs
  unfolding look_from look_entry
  look_from-skip k e mem lt miss =
      let next : dirent_size * e + dirent_size ≡ dirent_size * (e + 1) = omega arith in
      elim (Bool-cases (get_half (with_entry fs i d e mem) d == 0)) [
        | inl z ↦
            rw (look_from, in_size e lt, read_entry e mem lt)
              (rw (z) (ap (λ o. look_from can_read k o i d name (with_entry fs i d e mem) fs) next))
        | inr z ↦
            let other : (namecmp name (d + 2) (with_entry fs i d e mem) == 0) ≡ false =
              rw z at miss in
            rw (look_from, in_size e lt, read_entry e mem lt)
              (rw (z, other)
                (ap (λ o. look_from can_read k o i d name (with_entry fs i d e mem) fs) next))
      ]

  look_from-hit :
      (k e : ℕ) (mem : Bytes)
      → e < count
      → has_name fs i d name mem e ≡ true
      → look_from can_read (suc k) (dirent_size * e) i d name mem fs ≡ entry_found fs i d e mem
  unfolding look_from look_entry
  look_from-hit k e mem lt hit =
      let used : (get_half (with_entry fs i d e mem) d == 0) ≡ false = ground arith in
      let same : (namecmp name (d + 2) (with_entry fs i d e mem) == 0) ≡ true = ground arith in
      rw (look_from, in_size e lt, read_entry e mem lt) (rw (used, same) refl)

  has_name_again :
      (e g : ℕ) (mem : Bytes)
      → has_name fs i d name (with_entry fs i d e mem) g ≡ has_name fs i d name mem g
  has_name_again e g mem =
      ap (λ m. not (get_half m d == 0) && (namecmp name (d + 2) m == 0)) (with_entry_again e g mem)

  look_from-found :
      (k e g : ℕ) (mem : Bytes)
      → e ≤ g
      → g < e + k
      → g < count
      → has_name fs i d name mem g ≡ true
      → ((h : ℕ) → e ≤ h → h < g → has_name fs i d name mem h ≡ false)
      → look_from can_read k (dirent_size * e) i d name mem fs ≡ entry_found fs i d g mem
  look_from-found zero e g mem lo hi lt hit before = absurd (omega arith)
  look_from-found (suc k) e g mem lo hi lt hit before = elim (dec_lt e g) [
    | yes p ↦
        look_from-skip k e mem (omega arith) (before e (omega arith) p)
        ∙ look_from-found k (e + 1) g (with_entry fs i d e mem) (omega arith) (omega arith) lt
            (has_name_again e g mem ∙ hit)
            (λ h low high. has_name_again e h mem ∙ before h (omega arith) high)
        ∙ ap
            (λ (m : Bytes).
              iget (fs.inode i).dev (get_half m d) fs
              >>= (λ (j, fs'). ok (some (j, dirent_size * g), m, fs')))
            (with_entry_again e g mem)
    | no p ↦
        let same : g ≡ e = omega arith in
        look_from-hit k e mem (omega arith)
          (subst (λ h. has_name fs i d name mem h ≡ true) same hit)
        ∙ ap (λ h. entry_found fs i d h mem) (sym same)
  ]

  look_from-none :
      (k e : ℕ) (mem : Bytes)
      → e + k ≡ count
      → ((h : ℕ) → e ≤ h → h < count → has_name fs i d name mem h ≡ false)
      → (mem' : Bytes) × (look_from can_read k (dirent_size * e) i d name mem fs
          ≡ ok (none, mem', fs))
  unfolding look_from
  look_from-none zero e mem all missing = (mem, refl)
  look_from-none (suc k) e mem all missing =
      let (mem', run) =
        look_from-none k (e + 1) (with_entry fs i d e mem) (omega arith)
          (λ h low high. has_name_again e h mem ∙ missing h (omega arith) high) in
      (mem', look_from-skip k e mem (omega arith) (missing e (omega arith) (omega arith)) ∙ run)

  is_dir : ((fs.inode i).type == t_dir) ≡ true
  is_dir = eq→== _ _ dir.type

  all_entries : entries (fs.inode i).size ≡ count
  all_entries = omega (arith, dir.size)

  dirlookup-look :
      (mem : Bytes)
      → dirlookup can_read i d name mem fs
        ≡ look_from can_read count (dirent_size * 0) i d name mem fs
  unfolding dirlookup
  dirlookup-look mem = rw is_dir (ap (λ k. look_from can_read k 0 i d name mem fs) all_entries)

-- Entry `e` is in use, and its name is the string at `name` in its first 14 bytes, or up to where
-- that string ends.
abbrev pub HasName : Fs → (i d name : ℕ) → Bytes → ℕ → Type 0
HasName fs i d name mem e =
    let m = with_entry fs i d e mem in (get_half m d ≢ 0) × SameString name (d + 2) dirsiz m

HasName-has_name :
    (fs : Fs) (i d name : ℕ) (mem : Bytes) (e : ℕ)
    → HasName fs i d name mem e
    → has_name fs i d name mem e ≡ true
unfolding namecmp
HasName-has_name fs i d name mem e (used, same) =
    let m = with_entry fs i d e mem in
    rw (ne→== _ _ used, SameString-strncmp name (d + 2) dirsiz m same) refl

not_named :
    (fs : Fs) (i d name : ℕ) (mem : Bytes) (e : ℕ)
    → ((a : ℕ) → with_entry fs i d e mem a < 2 ^ 8)
    → ¬ HasName fs i d name mem e
    → has_name fs i d name mem e ≡ false
unfolding namecmp
not_named fs i d name mem e bytes other =
    let m = with_entry fs i d e mem in
    elim (Bool-cases (get_half m d == 0)) [
      | inl free ↦ rw free refl
      | inr used ↦ elim (Bool-cases (namecmp name (d + 2) m == 0)) [
        | inr differ ↦ rw (used, differ) refl
        | inl same ↦ absurd (
            other (==→ne _ _ used, strncmp-SameString name (d + 2) dirsiz m bytes (==→eq _ _ same)))
      ]
    ]

-- `dirlookup` of a name that a directory has finds the first entry in use whose name is the same in
-- the first 14 bytes, or up to where it ends, reads it to `de`, and gets its inode; it does not
-- change the file system otherwise. The directory has whole entries, a size below 2^31, and a block
-- for each of its parts; memory and directory hold bytes.
pub dirlookup-found :
    (can_read : ℕ → Bool) (fs : Fs) (i count d name g : ℕ) (mem : Bytes)
    → IsDir fs i count
    → ((e a : ℕ) → e < count → with_entry fs i d e mem a < 2 ^ 8)
    → g < count
    → HasName fs i d name mem g
    → ((h : ℕ) → h < g → ¬ HasName fs i d name mem h)
    → dirlookup can_read i d name mem fs ≡ entry_found fs i d g mem
dirlookup-found can_read fs i count d name g mem dir bytes lt hit before =
    dirlookup-look can_read fs i count d name dir mem
    ∙ look_from-found can_read fs i count d name dir count 0 g mem (omega arith) (omega arith) lt
        (HasName-has_name fs i d name mem g hit)
        (λ h low high. not_named fs i d name mem h (λ a. bytes h a (omega arith)) (before h high))

-- `dirlookup` of a name that no entry in use has finds nothing and leaves the file system alone.
pub dirlookup-none :
    (can_read : ℕ → Bool) (fs : Fs) (i count d name : ℕ) (mem : Bytes)
    → IsDir fs i count
    → ((h : ℕ) → h < count → has_name fs i d name mem h ≡ false)
    → (mem' : Bytes) × (dirlookup can_read i d name mem fs ≡ ok (none, mem', fs))
dirlookup-none can_read fs i count d name mem dir missing =
    let (mem', run) =
      look_from-none can_read fs i count d name dir count 0 mem (omega arith)
        (λ h low high. missing h high) in
    (mem', dirlookup-look can_read fs i count d name dir mem ∙ run)

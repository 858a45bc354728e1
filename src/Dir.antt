-- ===== src/Dir.antt =====
-- fs.c: directories and path names. `mem` is the kernel's memory: names and paths are at addresses
-- there, and so is the local `de` of the functions, at `d`. A call of `ilock` that would sleep ends
-- a walk with `asleep`.
pub mod Lookup
pub mod Elem
pub mod Tests
use os_hw.Prelude.{
  ℕ, zero, suc, ◌+◌, ◌-◌, ◌*◌, ◌/◌, ◌%◌, ◌^◌, Bool, true, false, not, ◌&&◌, ◌||◌, Option, none,
  some, ltb, leb, ◌==◌, if◌then◌else◌,
}
use os_hw.Prelude.Bytes.{Bytes, update, get_half, put_half}
use os_hw.Prelude.Outcome.{Outcome, ok, panic, ◌>>=◌}
use os_hw.Str.{memmove, strncmp, strncpy}
use os_hw.Fs.{Fs}
use os_hw.Inode.{iget, idup, ilock, iunlock, iput, iunlockput}
use os_hw.Content.{Moved, failed, by_device, moved, t_dir, readi, writei}

abbrev pub dirsiz : ℕ
dirsiz = 14

-- `sizeof(struct dirent)`: the number of the inode, and the name
abbrev pub dirent_size : ℕ
dirent_size = 2 + dirsiz

abbrev pub root_dev : ℕ
root_dev = 1

abbrev pub root_ino : ℕ
root_ino = 1

pub namecmp : ℕ → ℕ → Bytes → ℕ
namecmp s t m = strncmp s t dirsiz m

-- the result of `readi` or `writei` is `sizeof(de)`
abbrev pub is_entry : Moved → Bool
is_entry failed = false
is_entry (by_device _) = false
is_entry (moved n) = n == dirent_size

-- the rounds of a loop over a directory of `size` bytes
abbrev pub entries : ℕ → ℕ
entries size = (size + dirent_size - 1) / dirent_size

-- The body of the loop of `dirlookup` once entry `de` is read; `rest` is the rest of the loop.
pub look_entry :
    (off i d name : ℕ)
    → (rest : Bytes → Fs → Outcome (Option (ℕ × ℕ) × Bytes × Fs)) → Moved × Bytes × Fs
    → Outcome (Option (ℕ × ℕ) × Bytes × Fs)
look_entry off i d name rest (n, mem, fs) =
    if not (is_entry n)
    then panic
    else if get_half mem d == 0
    then rest mem fs
    else if namecmp name (d + 2) mem == 0
    then (iget (fs.inode i).dev (get_half mem d) fs >>= (λ (j, fs'). ok (some (j, off), mem, fs')))
    else rest mem fs

-- the body of the second loop of `dirlink`
pub free_entry :
    (off d : ℕ)
    → (rest : Bytes → Fs → Outcome (ℕ × Bytes × Fs)) → Moved × Bytes × Fs
    → Outcome (ℕ × Bytes × Fs)
free_entry off d rest (n, mem, fs) =
    if not (is_entry n)
    then panic
    else if get_half mem d == 0
    then ok (off, mem, fs)
    else rest mem fs

module _ (can_read : ℕ → Bool) where
  -- The loop of `dirlookup`, with `k` entries left from `off` on: the inode found and its offset.
  pub look_from : (k off : ℕ) → (i d name : ℕ) → Bytes → Fs → Outcome (Option (ℕ × ℕ) × Bytes × Fs)
  unfolding look_entry
  look_from zero off i d name mem fs = ok (none, mem, fs)
  look_from (suc k) off i d name mem fs =
      if ltb off (fs.inode i).size
      then (readi can_read i d off dirent_size mem fs
          >>= look_entry off i d name (look_from k (off + dirent_size) i d name))
      else ok (none, mem, fs)

  pub dirlookup : (i d name : ℕ) → Bytes → Fs → Outcome (Option (ℕ × ℕ) × Bytes × Fs)
  unfolding look_from
  dirlookup i d name mem fs =
      if not ((fs.inode i).type == t_dir)
      then panic
      else look_from (entries (fs.inode i).size) 0 i d name mem fs

  -- The second loop of `dirlink`: the offset of the first free entry, or of the end.
  pub free_from : (k off : ℕ) → (i d : ℕ) → Bytes → Fs → Outcome (ℕ × Bytes × Fs)
  unfolding free_entry
  free_from zero off i d mem fs = ok (off, mem, fs)
  free_from (suc k) off i d mem fs =
      if ltb off (fs.inode i).size
      then (readi can_read i d off dirent_size mem fs
          >>= free_entry off d (free_from k (off + dirent_size) i d))
      else ok (off, mem, fs)

module _ (can_read can_write : ℕ → Bool) where
  -- `dirlink` once it has the offset for the new entry
  add_entry : (i d name inum off : ℕ) → Bytes → Fs → Outcome (Bool × Bytes × Fs)
  add_entry i d name inum off mem fs =
      let mem' = put_half (strncpy dirsiz (d + 2) name mem) d inum in
      writei can_write i d off dirent_size mem' fs
      >>= (λ (n, fs'). if is_entry n then ok (true, mem', fs') else panic)

  -- `dirlink` after its call of `dirlookup`
  link_at : (i d name inum : ℕ) → Option (ℕ × ℕ) × Bytes × Fs → Outcome (Bool × Bytes × Fs)
  unfolding free_from add_entry
  link_at i d name inum (some (j, off), mem, fs) = iput j fs >>= (λ fs'. ok (false, mem, fs'))
  link_at i d name inum (none, mem, fs) =
      free_from can_read (entries (fs.inode i).size) 0 i d mem fs
      >>= (λ (off, mem', fs'). add_entry i d name inum off mem' fs')

  -- The Boolean is whether `dirlink` returns 0 (and not -1).
  pub dirlink : (i d name inum : ℕ) → Bytes → Fs → Outcome (Bool × Bytes × Fs)
  unfolding link_at
  dirlink i d name inum mem fs = dirlookup can_read i d name mem fs >>= link_at i d name inum

-- `while(*path == '/') path++`, with as many rounds as there are bytes of the path
pub skip_slashes : (fuel path : ℕ) → Bytes → ℕ
skip_slashes zero path m = path
skip_slashes (suc fuel) path m = elim (m path == b'/') [
  | true ↦ skip_slashes fuel (path + 1) m
  | false ↦ path
]

-- `while(*path != '/' && *path != 0) path++`
pub skip_name : (fuel path : ℕ) → Bytes → ℕ
skip_name zero path m = path
skip_name (suc fuel) path m = elim (not (m path == b'/') && not (m path == 0)) [
  | true ↦ skip_name fuel (path + 1) m
  | false ↦ path
]

-- the copy of the `len` bytes at `s` to `name`
abbrev pub copy_name : (name s len : ℕ) → Bytes → Bytes
copy_name name s len m =
    if leb dirsiz len then memmove name s dirsiz m else update (memmove name s len m) (name + len) 0

-- The rest of the path, and the memory; `none` when no name is left.
pub skipelem : (fuel path name : ℕ) → Bytes → Option ℕ × Bytes
unfolding skip_slashes skip_name
skipelem fuel path name m =
    let s = skip_slashes fuel path m in
    let e = skip_name fuel s m in
    let m' = copy_name name s (e - s) m in
    if m s == 0 then (none, m) else (some (skip_slashes fuel e m'), m')

-- How a walk along a path ends: at an inode, with 0, or in the `sleep` of `ilock`.
pub data Walk : Type 0 where
  at_inode : ℕ → Walk
  nowhere asleep : Walk

module _ (can_read : ℕ → Bool) where
  -- The loop of `namex`, with at most `k` names left: `fuel` is for the loops of `skipelem`.
  pub walk_from :
      (k : ℕ)
      → (fuel d path name : ℕ) → (parent : Bool) → (i : ℕ) → Bytes
      → Fs
      → Outcome (Walk × Bytes × Fs)
  walk_from zero fuel d path name parent i mem fs = panic
  walk_from (suc k) fuel d path name parent i mem fs =
      let r = skipelem fuel path name mem in
      elim r.0 [
        | none ↦
            if parent
            then (iput i fs >>= (λ fs'. ok (nowhere, r.1, fs')))
            else ok (at_inode i, r.1, fs)
        | some rest ↦ ilock i fs >>= (λ o. elim o [
          | none ↦ ok (asleep, r.1, fs)
          | some fs' ↦ elim ((fs'.inode i).type == t_dir) [
            | false ↦ iunlockput i fs' >>= (λ fs''. ok (nowhere, r.1, fs''))
            | true ↦ elim (parent && (r.1 rest == 0)) [
              | true ↦ iunlock i fs' >>= (λ fs''. ok (at_inode i, r.1, fs''))
              | false ↦ dirlookup can_read i d name r.1 fs' >>= (λ (found, mem', fs'').
                  iunlockput i fs'' >>= (λ fs3. elim found [
                    | none ↦ ok (nowhere, mem', fs3)
                    | some (j, off) ↦ walk_from k fuel d rest name parent j mem' fs3
                  ]))
            ]
          ]
        ])
      ]

  -- `cwd` is the current directory of the process. A path of `fuel` bytes has fewer names.
  pub namex :
      (fuel d cwd path name : ℕ) → (parent : Bool) → Bytes → Fs → Outcome (Walk × Bytes × Fs)
  unfolding walk_from
  namex fuel d cwd path name parent mem fs =
      if mem path == b'/'
      then (iget root_dev root_ino fs
          >>= (λ (i, fs'). walk_from fuel fuel d path name parent i mem fs'))
      else walk_from fuel fuel d path name parent cwd mem (idup cwd fs)

  pub namei : (fuel d cwd path name : ℕ) → Bytes → Fs → Outcome (Walk × Bytes × Fs)
  namei fuel d cwd path name mem fs = namex fuel d cwd path name false mem fs

  pub nameiparent : (fuel d cwd path name : ℕ) → Bytes → Fs → Outcome (Walk × Bytes × Fs)
  nameiparent fuel d cwd path name mem fs = namex fuel d cwd path name true mem fs

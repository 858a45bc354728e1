-- ===== src/Dir/Tests.antt =====
-- A directory with "hi", and the path "//hi/there".
use os_hw.Prelude.{
  ℕ, zero, suc, ◌+◌, ◌-◌, ◌*◌, ◌/◌, ◌%◌, ◌^◌, ◌<◌, ◌≡◌, ◌≢◌, refl, leb, ltb, ◌&&◌, Bool-cases, inl,
  inr, Bool, false, ◌||◌, some, arith, ◌==◌, if◌then◌else◌,
}
use os_hw.Prelude.Bytes.{Bytes, get_half}
use os_hw.Str.{strncmp}
use os_hw.Str.Compare.{strncmp-SameString}
use os_hw.Fs.Tests.{fs, directory}
use os_hw.Log.{bsize}
use os_hw.Content.Read.{file_byte}
use os_hw.Dir.{dirent_size, namecmp, dirlookup, skipelem}
use os_hw.Dir.Lookup.{IsDir, with_entry, has_name, HasName, entry_found, dirlookup-found}
use os_hw.Dir.Elem.{IsPathOf, IsNamed, skipelem-IsNamed}

no_device : ℕ → Bool
no_device _ = false

-- "hi" at 100, "ho" at 120, the path at 300
abbrev mem : Bytes
mem i =
    if i == 100
    then b'h'
    else if i == 101
    then b'i'
    else if i == 120
    then b'h'
    else if i == 121
    then b'o'
    else if (i == 300) || (i == 301) || (i == 304)
    then b'/'
    else if i == 302
    then b'h'
    else if i == 303
    then b'i'
    else if i == 305
    then b't'
    else 0

fs-IsDir : IsDir fs 1 2
fs-IsDir = record {
  type = refl;
  size = refl;
  small = omega arith;
  mapped = λ p lt. record {
    range = omega arith;
    address = λ z. ground arith;
    indirect = λ le. absurd (omega arith);
  };
}

mem_bytes : (a : ℕ) → mem a < 2 ^ 8
mem_bytes a = ground arith

directory_bytes : (a : ℕ) → directory a < 2 ^ 8
directory_bytes a = ground arith

file_bytes : (p : ℕ) → p < 32 → file_byte fs 1 p < 2 ^ 8
file_bytes p lt = let first : p / bsize ≡ 0 = omega arith in rw first (directory_bytes (p % bsize))

entry_bytes : (e a : ℕ) → e < 2 → with_entry fs 1 200 e mem a < 2 ^ 8
entry_bytes e a lt = elim (Bool-cases (leb 200 a && ltb a 216)) [
  | inl read ↦ rw read (file_bytes (dirent_size * e + (a - 200)) (ground (arith, read)))
  | inr kept ↦ rw kept (mem_bytes a)
]

used_hi : get_half (with_entry fs 1 200 1 mem) 200 ≢ 0
unfolding get_half
used_hi = omega arith

same_hi : strncmp 100 202 14 (with_entry fs 1 200 1 mem) ≡ 0
unfolding strncmp
same_hi = refl

has_hi : HasName fs 1 200 100 mem 1
has_hi = (
  used_hi,
  strncmp-SameString 100 202 14 (with_entry fs 1 200 1 mem) (λ a. entry_bytes 1 a (omega arith))
      same_hi,
)

free_first : get_half (with_entry fs 1 200 0 mem) 200 ≡ 0
unfolding get_half
free_first = refl

not_first : (h : ℕ) → h < 1 → ¬ HasName fs 1 200 100 mem h
not_first zero lt = λ named. named.0 free_first
not_first (suc h) lt = absurd (omega arith)

dirlookup-found_example : dirlookup no_device 1 200 100 mem fs ≡ entry_found fs 1 200 1 mem
dirlookup-found_example =
    dirlookup-found no_device fs 1 2 200 100 1 mem fs-IsDir entry_bytes (omega arith) has_hi
      not_first

no_ho : (h : ℕ) → h < 2 → has_name fs 1 200 120 mem h ≡ false
unfolding get_half namecmp strncmp
no_ho zero lt = refl
no_ho (suc zero) lt = refl
no_ho (suc (suc h)) lt = absurd (omega arith)

path-IsPathOf : IsPathOf 300 2 2 1 mem
path-IsPathOf = record {
  slashes = λ j lt. ground arith;
  nonempty = omega arith;
  name = λ j lt. (ground arith, ground arith);
  end = inl refl;
  more = λ j lt. ground arith;
  rest = λ e. cc;
}

skipelem-IsNamed_example :
    (m' : Bytes) × (skipelem 12 300 400 mem ≡ (some 305, m')) × IsNamed 400 302 2 mem m'
skipelem-IsNamed_example =
    skipelem-IsNamed 12 300 400 2 2 1 mem path-IsPathOf (omega arith) (inr (omega arith))

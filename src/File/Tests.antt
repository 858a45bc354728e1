-- ===== src/File/Tests.antt =====
-- file.c at work on a table with one open file, of 700 bytes.
use os_hw.Prelude.{ℕ, ◌+◌, ◌≡◌, refl, true, false, Option, none, some, arith, ◌==◌, if◌then◌else◌}
use os_hw.Prelude.Bytes.{Bytes}
use os_hw.Prelude.Outcome.{ok}
use os_hw.Pipe.{new_pipe}
use os_hw.Fs.Tests.{fs, inodes}
use os_hw.Content.Tests.{parts}
use os_hw.File.{File, Files, fd_none, fd_inode, set_file, returned, find_file, filealloc, fileread}
use os_hw.File.Transfer.{IsOpen, fileread-fileread}

abbrev no_device : ℕ → Option (ℕ → ℕ → Bytes → ℕ × Bytes)
no_device _ = none

abbrev closed : File
closed = record {
  type = fd_none;
  ref = 0;
  readable = false;
  writable = false;
  pipe = 0;
  ip = 0;
  off = 0;
}

abbrev opened : File
opened = record closed { type = fd_inode; ref = 1; readable = true; off = 650 }

abbrev files : Files
files = record {
  file = λ f. if f == 0 then opened else closed;
  pipes = λ _. new_pipe (λ _. 0);
  fs = record fs { inode = λ i. record (inodes i) { busy = false } };
}

files-IsOpen : IsOpen files 0
files-IsOpen = record {
  readable = refl;
  type = refl;
  ref = omega arith;
  unlocked = refl;
  valid = refl;
  regular = omega arith;
  small = omega arith;
  within = omega arith;
  mapped = λ p lt.
      let m = parts p lt in record { range = m.range; address = m.address; indirect = m.indirect };
}

fileread-fileread_example :
    (r₁ r₂ : ℕ) × (mem₁ mem₂ mem₃ : Bytes) × (s₁ s₂ : Files) × (fileread no_device false 0 100 30
        (λ _. 0)
        files
      ≡ ok (some (returned r₁, mem₁, s₁)))
    × (fileread no_device false 0 (100 + r₁) 40 mem₁ s₁ ≡ ok (some (returned r₂, mem₂, s₂)))
    × (fileread no_device false 0 100 (30 + 40) (λ _. 0) files
        ≡ ok (some (returned (r₁ + r₂), mem₃, s₂)))
    × ((x : ℕ) → mem₃ x ≡ mem₂ x)
fileread-fileread_example =
    fileread-fileread no_device false 0 100 30 40 (λ _. 0) files files-IsOpen (omega arith)

filealloc-files : filealloc files ≡ some (1, set_file files 1 (record closed { ref = 1 }))
unfolding filealloc find_file
filealloc-files = refl

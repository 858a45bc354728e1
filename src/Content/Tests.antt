-- ===== src/Content/Tests.antt =====
-- A file of 700 bytes, in the blocks 70 and 71.
use os_hw.Prelude.{ℕ, ◌+◌, ◌/◌, ◌<◌, ◌≡◌, Bool, false, arith, dec_lt}
use os_hw.Prelude.Bytes.{Bytes, get_word}
use os_hw.Prelude.Outcome.{ok}
use os_hw.Log.{bsize}
use os_hw.Fs.{Fs}
use os_hw.Fs.Tests.{fs, fs-HasRoom}
use os_hw.Content.{readi, writei, moved}
use os_hw.Content.Map.{IsMapped}
use os_hw.Content.Read.{with_file, readi-with_file}
use os_hw.Content.Write.{IsSeparate, readi-writei}

no_device : ℕ → Bool
no_device _ = false

blank : Bytes
blank _ = 0

words : Bytes
words i = i

first_parts : (bn : ℕ) → bn < 12 → IsMapped fs 0 bn
first_parts bn lt = record {
  range = omega arith;
  address = λ z. ground arith;
  indirect = λ le. absurd (omega arith);
}

pub parts : (p : ℕ) → p < 700 → IsMapped fs 0 (p / bsize)
parts p lt = first_parts (p / bsize) (omega arith)

-- no part is in the indirect block, which is all zeros
only_direct : (bn : ℕ) → IsMapped fs 0 bn → bn < 12
unfolding get_word
only_direct bn m = elim (dec_lt bn 12) [ yes p ↦ p | no p ↦ absurd (m.address (ground arith)) ]

fs-IsSeparate : IsSeparate fs 0
fs-IsSeparate = record {
  distinct = λ p q mp mq e. ground (arith, only_direct p mp, only_direct q mq);
  apart = λ p mp e. absurd (ground (arith, only_direct p mp));
}

readi-with_file_example :
    (dst' : Bytes) × (readi no_device 0 1000 600 200 blank fs ≡ ok (moved 100, dst', fs))
    × ((x : ℕ) → dst' x ≡ with_file fs 0 1000 600 100 blank x)
readi-with_file_example =
    readi-with_file no_device 0 1000 600 200 blank fs (omega arith) (omega arith) (omega arith)
      parts

readi-writei_example :
    (fs' : Fs) × (dst' : Bytes) × (writei no_device 0 40 500 100 words fs ≡ ok (moved 100, fs'))
    × (readi no_device 0 1000 500 100 blank fs' ≡ ok (moved 100, dst', fs'))
    × ((j : ℕ) → j < 100 → dst' (1000 + j) ≡ words (40 + j))
readi-writei_example =
    readi-writei no_device no_device 6 0 40 1000 500 100 words blank fs (omega arith) (omega arith)
      (omega arith) fs-HasRoom fs-IsSeparate parts

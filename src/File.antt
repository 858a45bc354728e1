-- ===== src/File.antt =====
-- file.c: the table of open files, over the pipes, the inodes and the log. A pointer to a file is
-- its slot, to a pipe its number. The locks are left out: a function runs alone until it would
-- sleep, and where that is in `begin_op` or `ilock` it ends with `none`. An `int` is its bit pattern.
pub mod Table
pub mod Transfer
pub mod Tests
use os_hw.Prelude.{
  ℕ, zero, suc, ◌+◌, ◌-◌, ◌*◌, ◌/◌, ◌%◌, ◌^◌, Bool, true, false, not, ◌&&◌, ◌||◌, Option, none,
  some, List, [], ◌∷◌, is_some, min, ltb, leb, ◌==◌, if◌then◌else◌,
}
use os_hw.Prelude.Bytes.{Bytes, update}
use os_hw.Prelude.Outcome.{Outcome, ok, panic, ◌>>=◌}
use os_hw.Store.{Store}
use os_hw.Log.{Log, log_size, rounds, begin_op, end_op}
use os_hw.Pipe.{Pipe, Closed, Turn, done, close, write_turn, read_turn}
use os_hw.Fs.{Fs, with_log}
use os_hw.Inode.{ilock, iunlock, iput, Stat, stati}
use os_hw.Content.{Moved, failed, by_device, moved, readi, writei}

abbrev pub nfile : ℕ
nfile = 100

pub data FileType : Type 0 where
  fd_none fd_pipe fd_inode : FileType

-- `struct file`
pub record File : Type 0 where
  pub type : FileType
  pub ref : ℕ
  pub readable : Bool
  pub writable : Bool
  pub pipe : ℕ
  pub ip : ℕ
  pub off : ℕ

-- `ftable`, the pipes and the file system
pub record Files : Type 0 where
  pub file : ℕ → File
  pub pipes : ℕ → Pipe
  pub fs : Fs

abbrev pub set_file : Files → ℕ → File → Files
set_file s f p = record s { file = update s.file f p }

-- the search of `filealloc`, with `k` slots left from `i` on
pub find_file : (k i : ℕ) → (ℕ → File) → Option ℕ
find_file zero i file = none
find_file (suc k) i file =
    let rest = find_file k (i + 1) file in if (file i).ref == 0 then some i else rest

-- `filealloc` once it has a slot; `none` for 0
abbrev pub claim_file : Files → Option ℕ → Option (ℕ × Files)
claim_file s none = none
claim_file s (some i) = some (i, set_file s i (record (s.file i) { ref = 1 }))

unfoldable pub filealloc : Files → Option (ℕ × Files)
unfolding find_file
filealloc s = claim_file s (find_file nfile 0 s.file)

pub filedup : ℕ → Files → Outcome Files
filedup f s =
    let p = s.file f in
    if not (ltb 0 p.ref) then panic else ok (set_file s f (record p { ref = p.ref + 1 }))

-- `begin_op(); iput(ip); end_op();`
put_inode : ℕ → Fs → Outcome (Option Fs)
put_inode ip fs = elim (begin_op fs.log) [
  | none ↦ ok none
  | some l ↦
      iput ip (record fs { log = l })
      >>= (λ fs'. end_op fs'.log fs'.store >>= with_log fs' >>= (λ fs''. ok (some fs'')))
]

-- `fileclose` once the last reference is gone; `p` is the file as it was
close_last : File → Files → Outcome (Option Files)
unfolding put_inode
close_last p s = elim p.type [
  | fd_none ↦ ok (some s)
  | fd_pipe ↦
      let c = close (s.pipes p.pipe) p.writable in
      ok (some (record s { pipes = update s.pipes p.pipe c.pipe }))
  | fd_inode ↦
      put_inode p.ip s.fs
      >>= (λ o. elim o [ none ↦ ok none | some fs ↦ ok (some (record s { fs = fs })) ])
]

unfoldable pub fileclose : ℕ → Files → Outcome (Option Files)
unfolding close_last
fileclose f s =
    let p = s.file f in
    if not (ltb 0 p.ref)
    then panic
    else if ltb 0 (p.ref - 1)
    then ok (some (set_file s f (record p { ref = p.ref - 1 })))
    else close_last p (set_file s f (record p { ref = 0; type = fd_none }))

-- How `filestat` ends; `none` for -1.
pub filestat : ℕ → Files → Outcome (Option (Option Stat × Files))
filestat f s =
    let p = s.file f in
    elim p.type [
      | fd_none ↦ ok (some (none, s))
      | fd_pipe ↦ ok (some (none, s))
      | fd_inode ↦ ilock p.ip s.fs >>= (λ o. elim o [
        | none ↦ ok none
        | some fs ↦
            iunlock p.ip fs >>= (λ fs'. ok (some (some (stati p.ip fs), record s { fs = fs' })))
      ])
    ]

-- the `int` -1
abbrev pub minus_one : ℕ
minus_one = 2 ^ 32 - 1

-- `if(r > 0) f->off += r;`
abbrev pub advance : (f r : ℕ) → Files → Files
advance f r s =
    let p = s.file f in
    if ltb 0 r && ltb r (2 ^ 31) then set_file s f (record p { off = (p.off + r) % 2 ^ 32 }) else s

-- The result of a read or a write: of a call of a pipe, or an `int`.
pub data Result (A W : Type 0) : Type 0 where
  piped : Turn A W → Result A W
  returned : ℕ → Result A W

-- `dev_read major` is `devsw[major].read`, if it is set: from `d` and `n` and the memory, what it
-- returns and the memory then.
module _ (dev_read : ℕ → Option (ℕ → ℕ → Bytes → ℕ × Bytes)) where
  -- what a call of `readi` returns
  pub returned_of : (d n : ℕ) → Moved × Bytes × Fs → ℕ × Bytes × Fs
  returned_of d n (failed, mem, fs) = (minus_one, mem, fs)
  returned_of d n (moved m, mem, fs) = (m, mem, fs)
  returned_of d n (by_device major, mem, fs) = elim (dev_read major) [
    | none ↦ (minus_one, mem, fs)
    | some read ↦ let r = read d n mem in (r.0, r.1, fs)
  ]

  -- `fileread` of an inode once it is locked
  pub read_locked : (f d n : ℕ) → Bytes → Files → Fs → Outcome (ℕ × Bytes × Files)
  unfolding returned_of
  read_locked f d n mem s fs =
      let p = s.file f in
      readi (λ major. is_some (dev_read major)) p.ip d p.off n mem fs >>= (λ t.
        let r = returned_of d n t in
        iunlock p.ip r.2 >>= (λ fs'. ok (r.0, r.1, advance f r.0 (record s { fs = fs' }))))

  -- The bytes of a pipe go to `d` in the memory of the process.
  pub fileread :
      (killed : Bool) (f d n : ℕ)
      → Bytes
      → Files
      → Outcome (Option (Result (List ℕ) (Unit {0}) × Bytes × Files))
  fileread killed f d n mem s =
      let p = s.file f in
      if not p.readable then ok (some (returned minus_one, mem, s)) else elim p.type [
        | fd_none ↦ panic
        | fd_pipe ↦
            let t = read_turn killed (s.pipes p.pipe) (rounds n) in
            ok (some (piped t.1, mem, record s { pipes = update s.pipes p.pipe t.0 }))
        | fd_inode ↦ ilock p.ip s.fs >>= (λ o. elim o [
          | none ↦ ok none
          | some fs ↦ read_locked f d n mem s fs >>= (λ r. ok (some (returned r.0, r.1, r.2)))
        ])
      ]

-- the `n` bytes from `s` on
pub bytes_from : (n s : ℕ) → Bytes → List ℕ
bytes_from zero s m = []
bytes_from (suc n) s m = m s ∷ bytes_from n (s + 1) m

-- `((LOGSIZE-1-1-2) / 2) * 512`
abbrev pub max_write : ℕ
max_write = (log_size - 1 - 1 - 2) / 2 * 512

-- `dev_write major` is `devsw[major].write`, if it is set: what it returns for `s`, `n`, the memory.
module _ (dev_write : ℕ → Option (ℕ → ℕ → Bytes → ℕ)) where
  -- what a call of `writei` returns
  pub written_of : (s n : ℕ) → Bytes → Moved × Fs → ℕ × Fs
  written_of s n src (failed, fs) = (minus_one, fs)
  written_of s n src (moved m, fs) = (m, fs)
  written_of s n src (by_device major, fs) = elim (dev_write major) [
    | none ↦ (minus_one, fs)
    | some write ↦ (write s n src, fs)
  ]

  -- one round of the loop of `filewrite` once the inode is locked
  pub write_locked : (f s n : ℕ) → Bytes → Files → Fs → Outcome (ℕ × Files)
  unfolding written_of
  write_locked f s n src t fs =
      let p = t.file f in
      writei (λ major. is_some (dev_write major)) p.ip s p.off n src fs >>= (λ w.
        let r = written_of s n src w in
        iunlock p.ip r.1
        >>= (λ fs'. end_op fs'.log fs'.store >>= with_log fs')
        >>= (λ fs''. ok (r.0, advance f r.0 (record t { fs = fs'' }))))

  pub write_chunk : (f s n : ℕ) → Bytes → Files → Outcome (Option (ℕ × Files))
  unfolding write_locked
  write_chunk f s n src t = elim (begin_op t.fs.log) [
    | none ↦ ok none
    | some l ↦ ilock (t.file f).ip (record t.fs { log = l }) >>= (λ o. elim o [
      | none ↦ ok none
      | some fs ↦ write_locked f s n src t fs >>= (λ r. ok (some r))
    ])
  ]

  -- The loop of `filewrite`, `i` bytes written: the bytes written at its end. A round that is not the
  -- last writes `max_write` bytes, which bounds the rounds.
  pub write_chunks : (fuel : ℕ) → (i f s n : ℕ) → Bytes → Files → Outcome (Option (ℕ × Files))
  unfolding write_chunk
  write_chunks zero i f s n src t = ok (some (i, t))
  write_chunks (suc fuel) i f s n src t =
      let n1 = min (n - i) max_write in
      if ltb i n
      then (write_chunk f (s + i) n1 src t >>= (λ o. elim o [
        | none ↦ ok none
        | some (r, t') ↦ elim (leb (2 ^ 31) r) [
          | true ↦ ok (some (i, t'))
          | false ↦ elim (r == n1) [ true ↦ write_chunks fuel (i + r) f s n src t' | false ↦ panic ]
        ]
      ]))
      else ok (some (i, t))

  pub filewrite :
      (killed : Bool) (f s n : ℕ)
      → Bytes
      → Files
      → Outcome (Option (Result (Unit {0}) (List ℕ) × Files))
  unfolding bytes_from write_chunks
  filewrite killed f s n src t =
      let p = t.file f in
      if not p.writable then ok (some (returned minus_one, t)) else elim p.type [
        | fd_none ↦ panic
        | fd_pipe ↦
            let r = write_turn killed (t.pipes p.pipe) (bytes_from (rounds n) s src) in
            ok (some (piped r.1, record t { pipes = update t.pipes p.pipe r.0 }))
        | fd_inode ↦ write_chunks (rounds n / max_write + 1) 0 f s (rounds n) src t >>= (λ o.
            elim o [
              | none ↦ ok none
              | some (i, t') ↦ ok (some (returned (if i == n then n else minus_one), t'))
            ])
      ]

-- ===== src/Log/Recover.antt =====
-- recover_from_log after a crash, from an empty log and from a full one.
use os_hw.Prelude.{ℕ, ◌≤◌, ◌<◌, ◌≡◌, ◌≢◌, refl, ◌∙◌, inl, inr, arith, ne→==}
use os_hw.Prelude.Bytes.{Bytes}
use os_hw.Store.{Disk, Store, boot}
use os_hw.Log.{Log, log_size, install_from, install_trans, read_head, write_head, recover_from_log}
use os_hw.Log.Head.{read_head-Lists}
use os_hw.Log.Area.{Outside, Placed, Empty, Logged, reset, recovered}
use os_hw.Log.Install.{Logged-home, install_trans-Logged}

pub ne-start : (l : Log) (b : ℕ) → 0 < l.size → Outside l b → l.start ≢ b
ne-start l b pos out e = ground arith

-- `write_head` leaves every block but the header alone.
pub write_head-other :
    (l : Log) (s : Store) (b : ℕ) → l.start ≢ b → (write_head l s).disk b ≡ s.disk b
unfolding write_head
write_head-other l s b ne = rw (ne→== l.start b ne)

pub recovered-Empty :
    {l : Log} {old : ℕ → Bytes} {d : Disk}
    → 0 < l.size
    → Empty l old d
    → (b : ℕ) → Outside l b
    → recovered l d b ≡ old b
unfolding recovered recover_from_log read_head install_trans
recovered-Empty {l} {d} pos e b out =
    write_head-other _ _ b (ne-start l b pos out) ∙ rw (e.none_listed, install_from) (e.home b out)

-- The log that `read_head` finds on a disk with a full log.
found : Log → Disk → Log
found l d = read_head (reset l) (boot d)

module _ {l : Log} {new : ℕ → Bytes} {d : Disk} (few : l.n ≤ log_size) (placed : Placed l)
    (g : Logged l new 0 d) where
  reads : ((found l d).n ≡ l.n) × ((i : ℕ) → i < l.n → (found l d).block i ≡ l.block i)
  unfolding found
  reads = read_head-Lists l (reset l) (boot d) few g.head

  same_place : ((found l d).start ≡ l.start) × ((found l d).size ≡ l.size)
  unfolding found read_head
  same_place = (refl, refl)

  in_found : {i : ℕ} → i < (found l d).n → i < l.n
  in_found lt = omega (arith, reads.0)

  found-Placed : Placed (found l d)
  found-Placed = record {
    room = omega (arith, placed.room, reads.0, same_place);
    apart = λ i lt.
        rw (same_place.0, same_place.1, reads.1 i (in_found lt)) (placed.apart i (in_found lt));
  }

  found-Logged : Logged (found l d) new 0 d
  found-Logged = record {
    head = record {
      count = rw (same_place.0, reads.0) g.head.count;
      entry = λ i lt. rw (same_place.0, reads.1 i (in_found lt)) (g.head.entry i (in_found lt));
    };
    copy = λ i lt. rw (same_place.0, reads.1 i (in_found lt)) (g.copy i (in_found lt));
    home = λ b out. elim (g.home b (rw (same_place.0, same_place.1) at out)) [
      | inl e ↦ inl e
      | inr (i, le, lt, e) ↦ inr (i, le, omega (arith, reads.0), reads.1 i lt ∙ e)
    ];
  }

  pub recovered-Logged : (b : ℕ) → Outside l b → recovered l d b ≡ new b
  unfolding recovered recover_from_log found read_head
  recovered-Logged b out =
      let few' : (found l d).n ≤ log_size = omega (arith, reads.0, few) in
      let done =
        install_trans-Logged found-Placed (Logged (found l d) new 0) (λ e q. q) (boot d) few'
          (λ b lo hi. refl) found-Logged tt in
      write_head-other _ _ b (ne-start l b (omega (arith, placed.room)) out)
      ∙ Logged-home found-Placed done.0 b out

-- ===== src/Cephfs/FileCache/Readers.antt =====
-- Interleavings of ReadAt and CloseFile on one path, and what holds after any of them.
use ceph_volsync_plugin.Base.{
  ℕ, zero, suc, ◌+◌, ◌-◌, ◌<◌, ◌≡◌, refl, ap, ◌∙◌, ◌⊎◌, inl, inr, Bool, true, false, Option, none,
  some, arith,
}
use ceph_volsync_plugin.Base.Int.{ℤ, pos, ◌+ℤ◌, ◌-ℤ◌}
use ceph_volsync_plugin.Cephfs.FileCache.{
  acquire, release, sync_and_release, Reader, start_read, keep_first, load_or_store,
  delete_acquired, close_file,
}

-- The entry of a path with `n` references.
abbrev pub entry_of : ℕ → Option ℤ
entry_of zero = none
entry_of (suc n) = some (pos (suc n))

release-entry_of : (n : ℕ) → (release (entry_of (suc n))).0 ≡ entry_of n
unfolding release ◌-ℤ◌
release-entry_of zero = refl
release-entry_of (suc n) = ground arith

pub acquire-entry_of :
    (valid opens : Bool) (n : ℕ)
    → ((acquire valid opens (entry_of n)) ≡ (entry_of n, false))
      ⊎ ((acquire valid opens (entry_of n)) ≡ (entry_of (suc n), true))
unfolding acquire ◌+ℤ◌
acquire-entry_of false opens n = inl refl
acquire-entry_of true true zero = inr refl
acquire-entry_of true false zero = inl refl
acquire-entry_of true opens (suc n) = inr (ground arith)

-- SyncAndRelease gives up exactly one reference, and closes the file with the last.
pub sync_and_release_once : (n : ℕ) → sync_and_release (entry_of (suc n)) ≡ entry_of n
unfolding sync_and_release ◌+ℤ◌
sync_and_release_once n =
    ap (λ e. (release (release e).0).0) more
    ∙ ap (λ e. (release e).0) (release-entry_of (suc n))
    ∙ release-entry_of n
  where
    more : some (pos (suc n) +ℤ pos 1) ≡ entry_of (suc (suc n))
    more = ground arith

abbrev pub marker : Bool → ℕ
marker true = 1
marker false = 0

-- The references that somebody holds.
abbrev pub holders : Reader → ℕ
holders r = r.reading + r.closing + marker r.acquired

-- The entry counts exactly those that hold a reference.
abbrev pub IsCounted : Reader → Type 0
IsCounted r = r.entry ≡ entry_of (holders r)

-- What the read workers and the drainer do on one path, in any order.
pub data Step : Reader → Reader → Type 0 where
  starts_read : (r : Reader) (valid opens : Bool) → Step r (start_read valid opens r)
  stores : (r : Reader) → 0 < r.reading → Step r (load_or_store r)
  deletes : (r : Reader) → Step r (delete_acquired r)
  closes : (r : Reader) → 0 < r.closing → Step r (close_file r)

pub data Reach (r : Reader) : Reader → Type 0 where
  here : Reach r r
  next : {s t : Reader} → Reach r s → Step s t → Reach r t

-- CloseFile was called only when ReadAt had stored the handle; CloseFile does not check this itself.
abbrev pub ReadFirst : {r s : Reader} → Reach r s → Type 0
ReadFirst here = Unit
ReadFirst (next p (deletes s)) = (s.acquired ≡ true) × ReadFirst p
ReadFirst (next p _) = ReadFirst p

abbrev pub unused : Reader
unused = record { entry = none; acquired = false; reading = 0; closing = 0 }

-- One reference is given up.
release-IsCounted :
    (e : Option ℤ) (m n : ℕ) → e ≡ entry_of m → m ≡ suc n → (release e).0 ≡ entry_of n
release-IsCounted e m n h k = ap (λ z. (release z).0) (h ∙ ap entry_of k) ∙ release-entry_of n

start_read-IsCounted :
    (valid opens : Bool) (r : Reader) → IsCounted r → IsCounted (start_read valid opens r)
unfolding start_read
start_read-IsCounted valid opens r c = elim (acquire-entry_of valid opens (holders r)) [
  | inl e ↦ rw (ap (acquire valid opens) c ∙ e) refl
  | inr e ↦ rw (ap (acquire valid opens) c ∙ e) (ap entry_of more_holders)
]
  where
    more_holders : suc (holders r) ≡ r.reading + 1 + r.closing + marker r.acquired
    more_holders = omega arith

load_or_store-IsCounted : (r : Reader) → 0 < r.reading → IsCounted r → IsCounted (load_or_store r)
unfolding load_or_store
load_or_store-IsCounted r h c = kept r.acquired refl
  where
    kept : (a : Bool) → r.acquired ≡ a → IsCounted (keep_first a r)
    kept true e =
        release-IsCounted r.entry (holders r) (holders (keep_first true r)) c (omega arith)
    kept false e = c ∙ ap entry_of (omega (arith, ap marker e))

delete_acquired-IsCounted :
    (r : Reader) → r.acquired ≡ true → IsCounted r → IsCounted (delete_acquired r)
unfolding delete_acquired
delete_acquired-IsCounted r e c = c ∙ ap entry_of (omega (arith, ap marker e))

close_file-IsCounted : (r : Reader) → 0 < r.closing → IsCounted r → IsCounted (close_file r)
unfolding close_file
close_file-IsCounted r h c =
    release-IsCounted r.entry (holders r) (r.reading + (r.closing - 1) + marker r.acquired) c
      (omega arith)

-- After any interleaving of ReadAt and CloseFile on a path in which each CloseFile begins when a
-- ReadAt has stored the handle and no CloseFile has taken it since: the refCount is the number of
-- those that hold a reference, and the file is in the cache exactly while there is one.
pub Reach-IsCounted : {r : Reader} (p : Reach unused r) → ReadFirst p → IsCounted r
Reach-IsCounted here o = refl
Reach-IsCounted (next p (starts_read s valid opens)) o =
    start_read-IsCounted valid opens s (Reach-IsCounted p o)
Reach-IsCounted (next p (stores s h)) o = load_or_store-IsCounted s h (Reach-IsCounted p o)
Reach-IsCounted (next p (deletes s)) (e, o) = delete_acquired-IsCounted s e (Reach-IsCounted p o)
Reach-IsCounted (next p (closes s h)) o = close_file-IsCounted s h (Reach-IsCounted p o)

-- ===== src/Cephfs/Destination/Balance.antt =====
-- The references that the write stream of the file system destination takes and gives back.
use Prim.Native.String.{String}
use text.Mathlib.Text.{◌==◌}
use text.Mathlib.TextEquality.{eq_iff}
use text.Mathlib.TextPositions.{eq_refl}
use ceph_volsync_plugin.Base.{
  Result, ok, err, ℕ, suc, ◌≡◌, ◌≢◌, refl, sym, ap, ◌∙◌, ◌⊎◌, inl, inr, Bool, true, false, List, [],
  ◌∷◌, Option, length, leb, Bool-cases, if◌then◌else◌,
}
use ceph_volsync_plugin.Base.Int.{ℤ}
use ceph_volsync_plugin.Pipeline.Send.{ChangedBlock}
use ceph_volsync_plugin.Rbd.Destination.{
  Device, write_block, collect_request_ids, Recv, request, eof, failed,
}
use ceph_volsync_plugin.Cephfs.FileCache.{acquire, sync_and_release}
use ceph_volsync_plugin.Cephfs.FileCache.Readers.{entry_of, acquire-entry_of, sync_and_release_once}
use ceph_volsync_plugin.Cephfs.Destination.{
  Files, Stream, update, is_open, is_valid, keep_file, look_up, keep_data, write_opened,
  write_file_block, write_file_blocks, StreamEnd, finished, recv_error, write_error, send_error,
  sync_error, waiting, Written, serve, release_files, clean_up, write_stream,
}

-- The references to a path while the stream holds `files`, where others hold `count`.
abbrev held : (String → ℕ) → List String → String → ℕ
held count files p = if is_open p files then suc (count p) else count p

abbrev Distinct : List String → Type 0
Distinct [] = Unit
Distinct (f ∷ fs) = (is_open f fs ≡ false) × Distinct fs

record Holds (count : String → ℕ) (s : Stream) : Type 0 where
  pub entries : (p : String) → s.cache p ≡ entry_of (held count s.files p)
  pub distinct : Distinct s.files

-- One entry changes to what it must be, the others stay.
update-entries :
    (p : String) {entry : Option ℤ} {cache wanted : String → Option ℤ}
    → entry ≡ wanted p
    → ((q : String) → q == p ≡ false → cache q ≡ wanted q)
    → (q : String) → update p entry cache q ≡ wanted q
update-entries p {entry} {cache} {wanted} e others q = elim (Bool-cases (q == p)) [
  | inl h ↦ simp h (e ∙ ap wanted (sym ((eq_iff q p).0 h)))
  | inr h ↦ simp h (others q h)
]

taken-Holds :
    (count : String → ℕ) (p : String) (s : Stream) (r : Option ℤ × Bool)
    → Holds count s
    → is_open p s.files ≡ false
    → ((r ≡ (entry_of (count p), false)) ⊎ (r ≡ (entry_of (suc (count p)), true)))
    → Holds count (keep_file p r s).0
taken-Holds count p s r h new (inl e) = rw e (record {
  entries = update-entries p (simp new refl) (λ q _. h.entries q);
  distinct = h.distinct;
})
taken-Holds count p s r h new (inr e) = rw e (record {
  entries = update-entries p (simp (eq_refl p) refl) (λ q n. simp n (h.entries q));
  distinct = (new, h.distinct);
})

look_up-Holds :
    (count : String → ℕ) (fs : Files) (p : String) (s : Stream)
    → Holds count s
    → Holds count (look_up fs p s).0
unfolding look_up
look_up-Holds count fs p s h = elim (Bool-cases (is_open p s.files)) [
  | inl e ↦ simp e h
  | inr e ↦
      let old : s.cache p ≡ entry_of (count p) = h.entries p ∙ simp e refl in
      simp e (
        taken-Holds count p s (acquire (is_valid p) (fs.opens p) (s.cache p)) h e
          (rw old (acquire-entry_of (is_valid p) (fs.opens p) (count p))))
]

write_opened-Holds :
    (count : String → ℕ) (fs : Files) (b : ChangedBlock) (r : Stream × Bool)
    → Holds count r.0
    → Holds count (write_opened fs b r).0
write_opened-Holds count fs b (s, false) h = h
write_opened-Holds count fs b (s, true) h =
    kept (write_block (fs.kernel b.file_path) b (s.store b.file_path))
  where
    kept : (o : Result Device Device) → Holds count (keep_data b.file_path o s).0
    kept (err dev) = record { entries = h.entries; distinct = h.distinct }
    kept (ok dev) = record { entries = h.entries; distinct = h.distinct }

write_file_blocks-Holds :
    (count : String → ℕ) (fs : Files) (bs : List ChangedBlock) (s : Stream)
    → Holds count s
    → Holds count (write_file_blocks fs bs s).0
unfolding write_file_blocks
write_file_blocks-Holds count fs [] s h = h
write_file_blocks-Holds count fs (b ∷ bs) s h =
    let r = write_file_block fs b s in
    let one : Holds count r.0 =
      unfold write_file_block in
      write_opened-Holds count fs b (look_up fs b.file_path s)
        (look_up-Holds count fs b.file_path s h) in
    elim (Bool-cases r.1) [
      | inl e ↦ simp e (write_file_blocks-Holds count fs bs r.0 one)
      | inr e ↦ simp e one
    ]

serve-Holds :
    (count : String → ℕ) (fs : Files) (send_ok : List ℕ → Bool) (rs : List Recv) (s : Stream)
    → Holds count s
    → Holds count (serve fs send_ok rs s).stream
unfolding serve
serve-Holds count fs send_ok [] s h = h
serve-Holds count fs send_ok (eof ∷ rs) s h = h
serve-Holds count fs send_ok (failed ∷ rs) s h = h
serve-Holds count fs send_ok (request bs ∷ rs) s h =
    let r = write_file_blocks fs bs s in
    let ids = collect_request_ids bs in
    let one = write_file_blocks-Holds count fs bs s h in
    let more = serve-Holds count fs send_ok rs r.0 one in
    elim (Bool-cases r.1) [
      | inr e ↦ simp e one
      | inl e ↦ elim (Bool-cases (leb (length ids) 0)) [
        | inl n ↦ simp (e, n) more
        | inr n ↦ elim (Bool-cases (send_ok ids)) [
          | inl k ↦ simp (e, n, k) more
          | inr k ↦ simp (e, n, k) one
        ]
      ]
    ]

release_files-each :
    (files : List String) (cache : String → Option ℤ) (p : String)
    → Distinct files
    → release_files files cache p
      ≡ (if is_open p files then sync_and_release (cache p) else cache p)
unfolding release_files
release_files-each [] cache p d = refl
release_files-each (f ∷ fs) cache p d =
    let rest = release_files-each fs (update f (sync_and_release (cache f)) cache) p d.1 in
    elim (Bool-cases (p == f)) [
      | inl e ↦
          let same = (eq_iff p f).0 e in
          let closed_once : is_open p fs ≡ false = rw same d.0 in
          rest ∙ simp (e, closed_once) (ap (λ q. sync_and_release (cache q)) (sym same))
      | inr e ↦ rest ∙ simp e refl
    ]

given_back :
    (count : String → ℕ) (s : Stream) (p : String)
    → Holds count s
    → release_files s.files s.cache p ≡ entry_of (count p)
given_back count s p h =
    release_files-each s.files s.cache p h.distinct ∙ back (is_open p s.files) refl
  where
    back :
        (b : Bool)
        → is_open p s.files ≡ b
        → (if is_open p s.files then sync_and_release (s.cache p) else s.cache p)
          ≡ entry_of (count p)
    back true e =
        simp e (ap sync_and_release (h.entries p ∙ simp e refl) ∙ sync_and_release_once (count p))
    back false e = simp e (h.entries p ∙ simp e refl)

-- However a write stream ends, and whatever it is sent: once it has ended, every path has the
-- references that it had before the stream, where nobody else uses the cache meanwhile.
pub write_stream-Balances :
    (count : String → ℕ) (fs : Files) (send_ok : List ℕ → Bool) (rs : List Recv) (s : Stream)
    → s.files ≡ []
    → ((p : String) → s.cache p ≡ entry_of (count p))
    → (write_stream fs send_ok rs s).end ≢ waiting
    → (p : String) → (write_stream fs send_ok rs s).stream.cache p ≡ s.cache p
unfolding write_stream
write_stream-Balances count fs send_ok rs s empty e n p =
    cleaned (serve fs send_ok rs s) (serve fs send_ok rs s).end
      (serve-Holds count fs send_ok rs s start) n refl
  where
    start : Holds count s
    start = record { entries = λ q. rw empty (e q); distinct = rw empty tt }

    cleaned :
        (w : Written) (x : StreamEnd)
        → Holds count w.stream
        → (clean_up fs x w).end ≢ waiting
        → x ≡ w.end
        → (clean_up fs x w).stream.cache p ≡ s.cache p
    cleaned w waiting h n q = absurd (n (sym q))
    cleaned w finished h n q = given_back count w.stream p h ∙ sym (e p)
    cleaned w recv_error h n q = given_back count w.stream p h ∙ sym (e p)
    cleaned w write_error h n q = given_back count w.stream p h ∙ sym (e p)
    cleaned w send_error h n q = given_back count w.stream p h ∙ sym (e p)
    cleaned w sync_error h n q = given_back count w.stream p h ∙ sym (e p)

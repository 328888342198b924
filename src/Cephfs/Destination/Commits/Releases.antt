-- ===== src/Cephfs/Destination/Commits/Releases.antt =====
-- The references that commits give up.
use Prim.Native.String.{String}
use text.Mathlib.Text.{◌==◌}
use text.Mathlib.TextEquality.{eq_iff}
use ceph_volsync_plugin.Base.{
  ℕ, zero, suc, ◌+◌, ◌-◌, ◌≡◌, refl, sym, ap, ◌∙◌, inl, inr, Bool, true, false, List, [], ◌∷◌, ◌++◌,
  append_assoc, concat, Option, Bool-cases, if◌then◌else◌, arith,
}
use ceph_volsync_plugin.Base.Int.{ℤ}
use ceph_volsync_plugin.Cephfs.FileCache.{sync_and_release}
use ceph_volsync_plugin.Cephfs.FileCache.Readers.{entry_of, sync_and_release_once}
use ceph_volsync_plugin.Cephfs.Destination.{Files, update, sync_fails}
use ceph_volsync_plugin.Cephfs.Destination.Commits.{
  CommitRecv, entries, eof, broken, CommitEnd, finished, recv_error, sync_error, send_error,
  waiting, Commits, Synced, sync_entries, stop, commit,
}

-- How often a path is in a list.
pub times : String → List String → ℕ
times p [] = 0
times p (q ∷ qs) = if p == q then suc (times p qs) else times p qs

-- The requests up to the end of the stream.
pub requests : List CommitRecv → List (List String)
requests [] = []
requests (entries ps ∷ rs) = ps ∷ requests rs
requests (_ ∷ rs) = []

times-append : (p : String) (ps qs : List String) → times p (ps ++ qs) ≡ times p ps + times p qs
unfolding times
times-append p [] qs = omega arith
times-append p (r ∷ ps) qs = ground (arith, times-append p ps qs)

sync_and_release_less : (n : ℕ) → sync_and_release (entry_of n) ≡ entry_of (n - 1)
unfolding sync_and_release
sync_and_release_less zero = refl
sync_and_release_less (suc n) =
    let less : n ≡ suc n - 1 = omega arith in sync_and_release_once n ∙ ap entry_of less

-- `ps` are the paths that gave up one reference each.
abbrev pub Released : (String → ℕ) → List String → (String → Option ℤ) → Type 0
Released count ps cache = (p : String) → cache p ≡ entry_of (count p - times p ps)

-- The last of the paths is one for which SyncAndRelease failed.
abbrev pub LastFails : Files → List String → Type 0
LastFails fs paths =
    (init : List String) × ((p : String) × ((entry : Option ℤ) × ((paths ≡ init ++ p ∷ [])
          × (sync_fails (fs.kernel p) entry ≡ true))))

record SyncsPart (fs : Files) (count : String → ℕ) (ps : List String) (s : Synced) : Type 0 where
  pub released : Released count s.paths s.cache
  pub tail : List String
  pub part_is : s.paths ++ tail ≡ ps
  pub all : s.ok ≡ true → s.paths ≡ ps
  pub cause : s.ok ≡ false → LastFails fs s.paths

less_one : (count : String → ℕ) → String → String → ℕ
less_one count p q = if q == p then count q - 1 else count q

update-less_one :
    (count : String → ℕ) (p : String) (cache : String → Option ℤ)
    → ((q : String) → cache q ≡ entry_of (count q))
    → (q : String) → update p (sync_and_release (cache p)) cache q ≡ entry_of (less_one count p q)
unfolding less_one
update-less_one count p cache h q = elim (Bool-cases (q == p)) [
  | inl e ↦ simp e (
      ap sync_and_release (h p)
      ∙ sync_and_release_less (count p)
      ∙ ap (λ r. entry_of (count r - 1)) (sym ((eq_iff q p).0 e)))
  | inr e ↦ simp e (h q)
]

less_one-times :
    (count : String → ℕ) (p q : String) (ps : List String)
    → less_one count p q - times q ps ≡ count q - times q (p ∷ ps)
unfolding less_one times
less_one-times count p q ps = ground arith

none_called :
    (count : String → ℕ) (cache : String → Option ℤ)
    → ((q : String) → cache q ≡ entry_of (count q))
    → Released count [] cache
unfolding times
none_called count cache h q = let all : count q ≡ count q - 0 = omega arith in h q ∙ ap entry_of all

sync_entries-SyncsPart :
    (fs : Files) (ps : List String) (count : String → ℕ) (cache : String → Option ℤ)
    → ((q : String) → cache q ≡ entry_of (count q))
    → SyncsPart fs count ps (sync_entries fs ps cache)
unfolding sync_entries
sync_entries-SyncsPart fs [] count cache h = record {
  released = none_called count cache h;
  tail = [];
  part_is = refl;
  all = λ e. refl;
  cause = λ k. absurd (cc k);
}
sync_entries-SyncsPart fs (p ∷ ps) count cache h =
    let now = update-less_one count p cache h in
    let next =
      sync_entries-SyncsPart fs ps (less_one count p) (update p (sync_and_release (cache p)) cache)
        now in
    elim (Bool-cases (sync_fails (fs.kernel p) (cache p))) [
      | inl e ↦ simp e (record {
        released =
            λ q. none_called (less_one count p) _ now q ∙ ap entry_of (less_one-times count p q []);
        tail = ps;
        part_is = refl;
        all = λ k. cc;
        cause = λ k. ([], (p, (cache p, (refl, e))));
      })
      | inr e ↦ simp e (record {
        released = λ q. next.released q ∙ ap entry_of (less_one-times count p q _);
        tail = next.tail;
        part_is = ap (◌∷◌ p) next.part_is;
        all = λ k. ap (◌∷◌ p) (next.all k);
        cause = λ k.
            let (init, (q, (entry, (e', f)))) = next.cause k in
            (p ∷ init, (q, (entry, (ap (◌∷◌ p) e', f))));
      })
    ]

-- How a stream ends, by its end: `others` are the requests without a response, and `rest` the paths
-- of the first of them that SyncAndRelease was called for.
abbrev pub Ending : (ℕ → Files) → (ℕ → Bool) → List (List String) → List String → CommitEnd → Type 0
Ending files sends others rest sync_error =
    (ps : List String) × ((more : List (List String)) × ((others ≡ ps ∷ more)
        × (((tail : List String) × (rest ++ tail ≡ ps)) × ((m : ℕ) × LastFails (files m) rest))))
Ending files sends others rest send_error =
    (more : List (List String)) × ((others ≡ rest ∷ more) × ((m : ℕ) × (sends m ≡ false)))
Ending files sends others rest _ = (others ≡ []) × (rest ≡ [])

pub record ReleasesAll (files : ℕ → Files) (sends : ℕ → Bool) (count : String → ℕ)
    (rs : List CommitRecv) (c : Commits) : Type 0 where
  pub others : List (List String)
  pub rest : List String
  pub in_order : c.sent ++ others ≡ requests rs
  pub released : Released count c.called c.cache
  pub called_is : c.called ≡ concat c.sent ++ rest
  pub ending : Ending files sends others rest c.end

last_request :
    (files : ℕ → Files) (sends : ℕ → Bool) (count : String → ℕ) (rs : List CommitRecv)
    (cache : String → Option ℤ) (ps : List String) (e : CommitEnd)
    → Released count ps cache
    → Ending files sends (requests rs) ps e
    → ReleasesAll files sends count rs (stop cache ps e)
last_request files sends count rs cache ps e r h = record {
  others = requests rs;
  rest = ps;
  in_order = refl;
  released = r;
  called_is = refl;
  ending = h;
}

times_twice :
    (count : String → ℕ) (p : String) (ps qs : List String)
    → count p - times p ps - times p qs ≡ count p - times p (ps ++ qs)
times_twice count p ps qs = omega (arith, times-append p ps qs)

-- Over any run of a commit stream: the responses name the paths of the first requests, each whole,
-- in order. SyncAndRelease is called for each of these paths in order, and then for the paths of the
-- next request: for all of them if its response cannot be sent, for a first part of them if one
-- fails. Every path loses one reference for each of these calls, down to none. If nothing but Recv
-- fails every request has its response.
pub commit-ReleasesAll :
    (files : ℕ → Files) (sends : ℕ → Bool) (n : ℕ) (rs : List CommitRecv) (count : String → ℕ)
    (cache : String → Option ℤ)
    → ((q : String) → cache q ≡ entry_of (count q))
    → ReleasesAll files sends count rs (commit files sends n rs cache)
unfolding commit requests
commit-ReleasesAll files sends n [] count cache h =
    last_request files sends count [] cache [] waiting (none_called count cache h) (refl, refl)
commit-ReleasesAll files sends n (broken ∷ rs) count cache h =
    last_request files sends count (broken ∷ rs) cache [] recv_error (none_called count cache h)
      (refl, refl)
commit-ReleasesAll files sends n (eof ∷ rs) count cache h =
    last_request files sends count (eof ∷ rs) cache [] finished (none_called count cache h)
      (refl, refl)
commit-ReleasesAll files sends n (entries ps ∷ rs) count cache h =
    let s = sync_entries (files n) ps cache in
    let part = sync_entries-SyncsPart (files n) ps count cache h in
    let next =
      commit-ReleasesAll files sends (suc n) rs (λ q. count q - times q s.paths) s.cache
        part.released in
    elim (Bool-cases s.ok) [
      | inr e ↦ simp e (
          last_request files sends count (entries ps ∷ rs) s.cache s.paths sync_error part.released
            (ps, (requests rs, (refl, ((part.tail, part.part_is), (n, part.cause e))))))
      | inl e ↦
          let more = commit files sends (suc n) rs s.cache in
          let whole : Released count ps s.cache = rw (part.all e) at part.released in
          elim (Bool-cases (sends n)) [
            | inr k ↦
                simp (e, k)
                  (last_request files sends count (entries ps ∷ rs) s.cache ps send_error whole
                    (requests rs, (refl, (n, k))))
            | inl k ↦
                simp (e, k)
                  (record {
                    others = next.others;
                    rest = next.rest;
                    in_order = ap (◌∷◌ ps) next.in_order;
                    released = λ q.
                        next.released q
                        ∙ ap entry_of (
                            ap (λ z. count q - times q z - times q more.called) (part.all e)
                            ∙ times_twice count q ps more.called);
                    called_is =
                        ap (λ z. ps ++ z) next.called_is
                        ∙ sym (append_assoc ps (concat more.sent) next.rest);
                    ending = next.ending;
                  })
          ]
    ]

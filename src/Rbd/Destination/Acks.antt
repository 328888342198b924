-- ===== src/Rbd/Destination/Acks.antt =====
-- The write stream of the destination writes whole requests and acknowledges them.
use ceph_volsync_plugin.Base.{
  ℕ, ◌≡◌, refl, sym, ap, ◌∙◌, inl, inr, Bool, true, false, List, [], ◌∷◌, ◌++◌, ok, ok_or_err,
  length, concat, Bool-cases, leb, arith, if◌then◌else◌,
}
use ceph_volsync_plugin.Pipeline.Send.{ChangedBlock}
use ceph_volsync_plugin.Rbd.Destination.{
  Device, Kernel, write_blocks, collect_request_ids, Recv, request, eof, failed, WriteEnd, finished,
  recv_error, send_error, open_error, write_error, sync_error, close_error, waiting, Served, stop,
  opened, close_end, write_loop, write,
}
use ceph_volsync_plugin.Rbd.Destination.Writes.{apply_all, apply_all-append, write_blocks-apply_all}
use ceph_volsync_plugin.Rbd.Destination.Damage.{Breaks, write_blocks-Breaks}

-- The requests that come before the stream ends.
unfoldable pub requests : List Recv → List (List ChangedBlock)
requests [] = []
requests (request bs ∷ rs) = bs ∷ requests rs
requests (_ ∷ rs) = []

-- The request numbers of the requests that have blocks.
unfoldable pub ids_of : List (List ChangedBlock) → List (List ℕ)
ids_of [] = []
ids_of ([] ∷ qs) = ids_of qs
ids_of ((b ∷ bs) ∷ qs) = collect_request_ids (b ∷ bs) ∷ ids_of qs

-- How a stream ends, by its end: `before` is the device with all requests that were written, `rest`
-- the requests after these, and `unsent` the acknowledgements of written requests that are missing.
abbrev pub Ending :
    Kernel
    → (List ℕ → Bool)
    → Device
    → List (List ChangedBlock)
    → List (List ℕ)
    → Device
    → WriteEnd
    → Type 0
Ending k send_ok before rest unsent dev open_error =
    (k.open_ok ≡ false) × ((unsent ≡ []) × (dev ≡ before))
Ending k send_ok before rest unsent dev write_error =
    (unsent ≡ [])
    × ((bs : List ChangedBlock) × ((more : List (List ChangedBlock)) × ((rest ≡ bs ∷ more)
            × Breaks k bs before dev)))
Ending k send_ok before rest unsent dev send_error =
    (ids : List ℕ) × ((unsent ≡ ids ∷ []) × ((send_ok ids ≡ false) × (dev ≡ before)))
Ending k send_ok before rest unsent dev _ = (rest ≡ []) × ((unsent ≡ []) × (dev ≡ before))

pub record Acknowledges (k : Kernel) (send_ok : List ℕ → Bool) (rs : List Recv) (dev : Device)
    (s : Served) : Type 0 where
  pub written : List (List ChangedBlock)
  pub rest : List (List ChangedBlock)
  pub unsent : List (List ℕ)
  pub in_order : written ++ rest ≡ requests rs
  pub acks : s.acked ++ unsent ≡ ids_of written
  pub ending : Ending k send_ok (apply_all (concat written) dev) rest unsent s.device s.end

-- A stream that ends before a request is written.
ended :
    (k : Kernel) (send_ok : List ℕ → Bool) (rs : List Recv) (dev d : Device) (e : WriteEnd)
    → Ending k send_ok dev (requests rs) [] d e
    → Acknowledges k send_ok rs dev (stop d e)
unfolding ids_of
ended k send_ok rs dev d e h = record {
  written = [];
  rest = requests rs;
  unsent = [];
  in_order = refl;
  acks = refl;
  ending = h;
}

-- A request that was written goes before what comes after it.
after_request :
    (k : Kernel) (send_ok : List ℕ → Bool) (bs : List ChangedBlock) (rs : List Recv) (dev : Device)
    {dev' : Device} (s : Served) (acked : List (List ℕ))
    → write_blocks k bs dev ≡ ok dev'
    → ((qs : List (List ChangedBlock)) (unsent : List (List ℕ))
        → s.acked ++ unsent ≡ ids_of qs
        → acked ++ unsent ≡ ids_of (bs ∷ qs))
    → Acknowledges k send_ok rs dev' s
    → Acknowledges k send_ok (request bs ∷ rs) dev (record s { acked = acked })
unfolding requests
after_request k send_ok bs rs dev s acked e more a =
    let joined =
      ap (apply_all (concat a.written)) (write_blocks-apply_all k bs dev e)
      ∙ sym (apply_all-append bs (concat a.written) dev) in
    record {
      written = bs ∷ a.written;
      rest = a.rest;
      unsent = a.unsent;
      in_order = ap (◌∷◌ bs) a.in_order;
      acks = more a.written a.unsent a.acks;
      ending = rw joined at a.ending;
    }

-- The acknowledgement of a request that was written cannot be sent.
not_sent :
    (k : Kernel) (send_ok : List ℕ → Bool) (bs : List ChangedBlock) (rs : List Recv) (dev : Device)
    {dev' : Device}
    → write_blocks k bs dev ≡ ok dev'
    → leb (length bs) 0 ≡ false
    → send_ok (collect_request_ids bs) ≡ false
    → Acknowledges k send_ok (request bs ∷ rs) dev (stop dev' send_error)
unfolding requests ids_of
not_sent k send_ok [] rs dev e n f = absurd (cc n)
not_sent k send_ok (b ∷ bs) rs dev e n f = record {
  written = (b ∷ bs) ∷ [];
  rest = requests rs;
  unsent = collect_request_ids (b ∷ bs) ∷ [];
  in_order = refl;
  acks = refl;
  ending = (
    collect_request_ids (b ∷ bs),
    (refl, (f, write_blocks-apply_all k (b ∷ bs) dev e ∙ sym (apply_all-append (b ∷ bs) [] dev))),
  );
}

no_ids :
    (bs : List ChangedBlock) (acked : List (List ℕ)) (qs : List (List ChangedBlock))
    (unsent : List (List ℕ))
    → leb (length bs) 0 ≡ true
    → acked ++ unsent ≡ ids_of qs
    → acked ++ unsent ≡ ids_of (bs ∷ qs)
unfolding ids_of
no_ids [] acked qs unsent n h = h
no_ids (b ∷ bs) acked qs unsent n h = absurd (ground arith)

some_ids :
    (bs : List ChangedBlock) (acked : List (List ℕ)) (qs : List (List ChangedBlock))
    (unsent : List (List ℕ))
    → leb (length bs) 0 ≡ false
    → acked ++ unsent ≡ ids_of qs
    → (collect_request_ids bs ∷ acked) ++ unsent ≡ ids_of (bs ∷ qs)
unfolding ids_of
some_ids [] acked qs unsent n h = absurd (cc n)
some_ids (b ∷ bs) acked qs unsent n h = ap (◌∷◌ (collect_request_ids (b ∷ bs))) h

write_loop-Acknowledges :
    (k : Kernel) (send_ok : List ℕ → Bool) (rs : List Recv) (dev : Device)
    → Acknowledges k send_ok rs dev (write_loop k send_ok rs dev)
unfolding write_loop requests
write_loop-Acknowledges k send_ok [] dev = ended k send_ok [] dev dev waiting (refl, (refl, refl))
write_loop-Acknowledges k send_ok (eof ∷ rs) dev =
    ended k send_ok (eof ∷ rs) dev dev finished (refl, (refl, refl))
write_loop-Acknowledges k send_ok (failed ∷ rs) dev =
    ended k send_ok (failed ∷ rs) dev dev recv_error (refl, (refl, refl))
write_loop-Acknowledges k send_ok (request bs ∷ rs) dev = elim (Bool-cases k.open_ok) [
  | inr o ↦ simp o (ended k send_ok (request bs ∷ rs) dev dev open_error (o, (refl, refl)))
  | inl o ↦ elim (ok_or_err (write_blocks k bs dev)) [
    | inl (broken, e) ↦
        simp (o, e)
          (ended k send_ok (request bs ∷ rs) dev broken write_error
            (refl, (bs, (requests rs, (refl, write_blocks-Breaks k bs dev e)))))
    | inr (dev', e) ↦
        let more = write_loop k send_ok rs dev' in
        let rest = write_loop-Acknowledges k send_ok rs dev' in
        elim (Bool-cases (leb (length bs) 0)) [
          | inl z ↦
              simp (o, e, z)
                (after_request k send_ok bs rs dev more more.acked e
                  (λ qs unsent. no_ids bs more.acked qs unsent z) rest)
          | inr n ↦ elim (Bool-cases (send_ok (collect_request_ids bs))) [
            | inl s ↦
                simp (o, e, n, s)
                  (after_request k send_ok bs rs dev more (collect_request_ids bs ∷ more.acked) e
                    (λ qs unsent. some_ids bs more.acked qs unsent n) rest)
            | inr s ↦ simp (o, e, n, s) (not_sent k send_ok bs rs dev e n s)
          ]
        ]
  ]
]

close_end-Ending :
    (k : Kernel) (send_ok : List ℕ → Bool) (before : Device) (rest : List (List ChangedBlock))
    (unsent : List (List ℕ)) (dev : Device) (o : Bool) (e : WriteEnd)
    → Ending k send_ok before rest unsent dev e
    → Ending k send_ok before rest unsent dev (close_end k o e)
close_end-Ending k send_ok before rest unsent dev true finished h = closed k.sync_ok k.close_ok
  where
    closed :
        (s c : Bool)
        → Ending k send_ok before rest unsent dev
            (if s then (if c then finished else close_error) else sync_error)
    closed true true = h
    closed true false = h
    closed false c = h
close_end-Ending k send_ok before rest unsent dev true recv_error h = h
close_end-Ending k send_ok before rest unsent dev true open_error h = h
close_end-Ending k send_ok before rest unsent dev true write_error h = h
close_end-Ending k send_ok before rest unsent dev true send_error h = h
close_end-Ending k send_ok before rest unsent dev true sync_error h = h
close_end-Ending k send_ok before rest unsent dev true close_error h = h
close_end-Ending k send_ok before rest unsent dev true waiting h = h
close_end-Ending k send_ok before rest unsent dev false e h = h

-- Over any run of the write stream: a first part of the requests is written, in their order, each
-- whole, and acknowledged in the same order, a request without blocks excepted, which has no
-- acknowledgement. If no call fails but Recv, Sync or Close, these are all requests that came, all are
-- acknowledged, and the device holds their blocks. A failed opening leaves the device as it was
-- after the last request. If a send fails only the acknowledgement that it was for is missing. If a
-- write fails, the blocks before it in its request are written too, and nothing outside of the range
-- of the block that failed differs.
pub write-Acknowledges :
    (k : Kernel) (send_ok : List ℕ → Bool) (rs : List Recv) (dev : Device)
    → Acknowledges k send_ok rs dev (write k send_ok rs dev)
unfolding write
write-Acknowledges k send_ok rs dev =
    let a = write_loop-Acknowledges k send_ok rs dev in
    let s = write_loop k send_ok rs dev in
    record {
      written = a.written;
      rest = a.rest;
      unsent = a.unsent;
      in_order = a.in_order;
      acks = a.acks;
      ending =
          close_end-Ending k send_ok (apply_all (concat a.written) dev) a.rest a.unsent s.device
            (opened rs) s.end a.ending;
    }

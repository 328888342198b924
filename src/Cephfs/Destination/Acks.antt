-- ===== src/Cephfs/Destination/Acks.antt =====
-- What the write stream of the file system destination writes, and what it acknowledges.
use Prim.Native.String.{String}
use ceph_volsync_plugin.Base.{
  append-nil, ℕ, ◌≡◌, ◌≢◌, refl, sym, ap, ◌∙◌, inl, inr, Bool, true, false, List, [], ◌∷◌, ◌++◌,
  append_assoc, concat, ◌≤◌, length, leb, Bool-cases, arith,
}
use ceph_volsync_plugin.Pipeline.Send.{ChangedBlock}
use ceph_volsync_plugin.Rbd.Destination.{Device, collect_request_ids, Recv, request, eof, failed}
use ceph_volsync_plugin.Rbd.Destination.Acks.{requests, ids_of}
use ceph_volsync_plugin.Rbd.Destination.Writes.{apply_all}
use ceph_volsync_plugin.Cephfs.Destination.{
  Files, Stream, write_file_blocks, StreamEnd, finished, recv_error, write_error, send_error,
  sync_error, waiting, Written, stop, serve, clean_up, end_with, write_stream,
}
use ceph_volsync_plugin.Cephfs.Destination.Blocks.{
  of_path, apply_files, apply_files-append, apply_files-of_path, blocks_of, Spares, longer,
  WritesPart, whole_part, write_file_blocks-WritesPart,
}

-- How a stream ends, by its end: `others` are the requests that were neither written whole and
-- acknowledged nor without blocks, and `tail` the blocks written of the first of them.
abbrev pub Ending :
    (List ℕ → Bool) → List (List ChangedBlock) → List ChangedBlock → StreamEnd → Type 0
Ending send_ok others tail write_error =
    (rest : List ChangedBlock) × (more : List (List ChangedBlock)) × (others
      ≡ (tail ++ rest) ∷ more)
Ending send_ok others tail send_error =
    (more : List (List ChangedBlock)) × (others ≡ tail ∷ more)
    × (send_ok (collect_request_ids tail) ≡ false)
Ending send_ok others tail _ = (others ≡ []) × (tail ≡ [])

-- What a stream leaves: the requests served and the others, the blocks written, the one that broke
-- and those left.
record Serves (send_ok : List ℕ → Bool) (rs : List Recv) (store : String → Device) (w : Written)
    : Type 0 where
  pub written : List ChangedBlock
  pub broken : List ChangedBlock
  pub left : List ChangedBlock
  pub served : List (List ChangedBlock)
  pub others : List (List ChangedBlock)
  pub tail : List ChangedBlock
  pub asked : served ++ others ≡ requests rs
  pub written_is : written ≡ concat served ++ tail
  pub in_order : written ++ (broken ++ left) ≡ blocks_of rs
  pub same :
      (p : String) (x : ℕ) → Spares p x broken → w.stream.store p x ≡ apply_files written store p x
  pub few : length broken ≤ 1
  pub acks : w.acked ≡ ids_of served
  pub ending : Ending send_ok others tail w.end
  pub unbroken : w.end ≢ write_error → broken ≡ []
  pub complete : w.end ≡ finished → left ≡ []

idle :
    (send_ok : List ℕ → Bool) (rs : List Recv) (s : Stream) (e : StreamEnd)
    → [] ≡ blocks_of rs
    → [] ≡ requests rs
    → Ending send_ok [] [] e
    → Serves send_ok rs s.store (stop s e)
unfolding ids_of
idle send_ok rs s e h q k = record {
  written = [];
  broken = [];
  left = [];
  served = [];
  others = [];
  tail = [];
  asked = q;
  written_is = refl;
  in_order = h;
  same = λ p x k. refl;
  few = omega arith;
  acks = refl;
  ending = k;
  unbroken = λ k. refl;
  complete = λ k. refl;
}

-- A request that was not acknowledged is the last.
last_request :
    (send_ok : List ℕ → Bool) (rs : List Recv) {bs : List ChangedBlock} {store : String → Device}
    {r : Stream × Bool} (e : StreamEnd)
    → (w : WritesPart bs store r) → e ≢ finished
    → (e ≢ write_error → w.broken ≡ [])
    → Ending send_ok (bs ∷ requests rs) w.written e
    → Serves send_ok (request bs ∷ rs) store (stop r.0 e)
unfolding blocks_of requests ids_of
last_request send_ok rs {bs} e w n b h = record {
  written = w.written;
  broken = w.broken;
  left = w.left ++ blocks_of rs;
  served = [];
  others = bs ∷ requests rs;
  tail = w.written;
  asked = refl;
  written_is = refl;
  in_order =
      longer w.written w.broken w.left (blocks_of rs) ∙ ap (λ z. z ++ blocks_of rs) w.in_order;
  same = w.same;
  few = w.few;
  acks = refl;
  ending = h;
  unbroken = b;
  complete = λ k. absurd (n k);
}

-- A request that was written goes before what is written after it.
after_request :
    (send_ok : List ℕ → Bool) (rs : List Recv) (bs : List ChangedBlock) {store : String → Device}
    {r : Stream × Bool} (w : Written) (acks : List (List ℕ))
    → WritesPart bs store r
    → r.1 ≡ true
    → ((qs : List (List ChangedBlock)) → w.acked ≡ ids_of qs → acks ≡ ids_of (bs ∷ qs))
    → Serves send_ok rs r.0.store w
    → Serves send_ok (request bs ∷ rs) store (record w { acked = acks })
unfolding blocks_of requests
after_request send_ok rs bs {store} w acks part good e next = record {
  written = bs ++ next.written;
  broken = next.broken;
  left = next.left;
  served = bs ∷ next.served;
  others = next.others;
  tail = next.tail;
  asked = ap (◌∷◌ bs) next.asked;
  written_is =
      ap (λ z. bs ++ z) next.written_is ∙ sym (append_assoc bs (concat next.served) next.tail);
  in_order =
      append_assoc bs next.written (next.broken ++ next.left) ∙ ap (λ z. bs ++ z) next.in_order;
  same = λ p x k.
      next.same p x k
      ∙ ap (λ st. apply_files next.written st p x) (whole_part part good)
      ∙ ap (λ st. st p x) (sym (apply_files-append bs next.written store));
  few = next.few;
  acks = e next.served next.acks;
  ending = next.ending;
  unbroken = next.unbroken;
  complete = next.complete;
}

-- A request without numbers has no acknowledgement, and another one has one.
no_ids :
    (bs : List ChangedBlock) (acks : List (List ℕ)) (qs : List (List ChangedBlock))
    → leb (length (collect_request_ids bs)) 0 ≡ true
    → acks ≡ ids_of qs
    → acks ≡ ids_of (bs ∷ qs)
unfolding ids_of collect_request_ids
no_ids [] acks qs h k = k
no_ids (b ∷ bs) acks qs h k = absurd (ground arith)

some_ids :
    (bs : List ChangedBlock) (acks : List (List ℕ)) (qs : List (List ChangedBlock))
    → leb (length (collect_request_ids bs)) 0 ≡ false
    → acks ≡ ids_of qs
    → collect_request_ids bs ∷ acks ≡ ids_of (bs ∷ qs)
unfolding ids_of collect_request_ids
some_ids [] acks qs h k = absurd (cc h)
some_ids (b ∷ bs) acks qs h k = ap (◌∷◌ (collect_request_ids (b ∷ bs))) k

-- The blocks written of a request are all of its blocks, or a first part.
whole_request :
    {bs : List ChangedBlock} {store : String → Device} {r : Stream × Bool}
    (w : WritesPart bs store r)
    → r.1 ≡ true
    → bs ≡ w.written
whole_request w e =
    let (no_broken, no_left) = w.all e in
    sym w.in_order
    ∙ ap (λ z. w.written ++ (z ++ w.left)) no_broken
    ∙ ap (λ z. w.written ++ z) no_left
    ∙ append-nil w.written

serve-Serves :
    (fs : Files) (send_ok : List ℕ → Bool) (rs : List Recv) (s : Stream)
    → Serves send_ok rs s.store (serve fs send_ok rs s)
unfolding serve blocks_of requests
serve-Serves fs send_ok [] s = idle send_ok [] s waiting refl refl (refl, refl)
serve-Serves fs send_ok (eof ∷ rs) s = idle send_ok (eof ∷ rs) s finished refl refl (refl, refl)
serve-Serves fs send_ok (failed ∷ rs) s =
    idle send_ok (failed ∷ rs) s recv_error refl refl (refl, refl)
serve-Serves fs send_ok (request bs ∷ rs) s =
    let r = write_file_blocks fs bs s in
    let part = write_file_blocks-WritesPart fs bs s in
    let ids = collect_request_ids bs in
    let w = serve fs send_ok rs r.0 in
    let next = serve-Serves fs send_ok rs r.0 in
    elim (Bool-cases r.1) [
      | inr e ↦ simp e (
          last_request send_ok rs write_error part (λ k. cc) (λ n. absurd (n refl))
            (part.broken ++ part.left, requests rs, ap (λ z. z ∷ requests rs) (sym part.in_order)))
      | inl e ↦ elim (Bool-cases (leb (length ids) 0)) [
        | inl n ↦
            simp (e, n)
              (after_request send_ok rs bs w w.acked part e (λ qs. no_ids bs w.acked qs n) next)
        | inr n ↦ elim (Bool-cases (send_ok ids)) [
          | inl k ↦
              simp (e, n, k)
                (after_request send_ok rs bs w (ids ∷ w.acked) part e
                  (λ qs. some_ids bs w.acked qs n) next)
          | inr k ↦
              simp (e, n, k)
                (last_request send_ok rs send_error part (λ k. cc) (λ n. (part.all e).0)
                  (
                    requests rs,
                    ap (λ z. z ∷ requests rs) (whole_request part e),
                    ap (λ z. send_ok (collect_request_ids z)) (sym (whole_request part e)) ∙ k,
                  ))
        ]
      ]
    ]

-- What the write stream has done once it has ended: each file holds what it held before and then
-- its own blocks that were written, in their order, but for the range of a block that broke; the
-- acknowledgements are those of the requests served.
pub record FilesServed (send_ok : List ℕ → Bool) (rs : List Recv) (store : String → Device)
    (w : Written) : Type 0 where
  pub written : List ChangedBlock
  pub broken : List ChangedBlock
  pub left : List ChangedBlock
  pub served : List (List ChangedBlock)
  pub others : List (List ChangedBlock)
  pub tail : List ChangedBlock
  pub asked : served ++ others ≡ requests rs
  pub written_is : written ≡ concat served ++ tail
  pub in_order : written ++ (broken ++ left) ≡ blocks_of rs
  pub file_is :
      (p : String) (x : ℕ)
      → Spares p x broken
      → w.stream.store p x ≡ apply_all (of_path p written) (store p) x
  pub few : length broken ≤ 1
  pub acks : w.acked ≡ ids_of served
  pub ending : Ending send_ok others tail w.end
  pub unbroken : w.end ≢ write_error → broken ≡ []
  pub complete : w.end ≡ finished → left ≡ []

end_with-finished : (b : Bool) (e : StreamEnd) → end_with b e ≡ finished → e ≡ finished
end_with-finished true finished h = refl
end_with-finished true recv_error h = cc
end_with-finished true write_error h = cc
end_with-finished true send_error h = cc
end_with-finished true sync_error h = cc
end_with-finished true waiting h = cc
end_with-finished false e h = h

end_with-write_error : (b : Bool) → end_with b write_error ≡ write_error
end_with-write_error true = refl
end_with-write_error false = refl

end_with-Ending :
    (send_ok : List ℕ → Bool) (others : List (List ChangedBlock)) (tail : List ChangedBlock)
    (b : Bool) (e : StreamEnd)
    → Ending send_ok others tail e
    → Ending send_ok others tail (end_with b e)
end_with-Ending send_ok others tail true finished h = h
end_with-Ending send_ok others tail true recv_error h = h
end_with-Ending send_ok others tail true write_error h = h
end_with-Ending send_ok others tail true send_error h = h
end_with-Ending send_ok others tail true sync_error h = h
end_with-Ending send_ok others tail true waiting h = h
end_with-Ending send_ok others tail false e h = h

at_end :
    (send_ok : List ℕ → Bool) (others : List (List ChangedBlock)) (tail : List ChangedBlock)
    {e f : StreamEnd}
    → e ≡ f
    → Ending send_ok others tail e
    → Ending send_ok others tail f
at_end send_ok others tail {e} {f} q h = rw (sym q) h

clean_up-Ending :
    (fs : Files) (send_ok : List ℕ → Bool) (others : List (List ChangedBlock))
    (tail : List ChangedBlock) (w : Written) (e : StreamEnd)
    → Ending send_ok others tail e
    → e ≡ w.end
    → Ending send_ok others tail (clean_up fs e w).end
clean_up-Ending fs send_ok others tail w waiting h q = at_end send_ok others tail q h
clean_up-Ending fs send_ok others tail w finished h q =
    end_with-Ending send_ok others tail _ finished h
clean_up-Ending fs send_ok others tail w recv_error h q =
    end_with-Ending send_ok others tail _ recv_error h
clean_up-Ending fs send_ok others tail w write_error h q =
    end_with-Ending send_ok others tail _ write_error h
clean_up-Ending fs send_ok others tail w send_error h q =
    end_with-Ending send_ok others tail _ send_error h
clean_up-Ending fs send_ok others tail w sync_error h q =
    end_with-Ending send_ok others tail _ sync_error h

cleaned :
    (fs : Files) (send_ok : List ℕ → Bool) (rs : List Recv) (store : String → Device) (w : Written)
    (e : StreamEnd)
    → e ≡ w.end
    → Serves send_ok rs store w
    → FilesServed send_ok rs store (clean_up fs e w)
cleaned fs send_ok rs store w e q h = record {
  written = h.written;
  broken = h.broken;
  left = h.left;
  served = h.served;
  others = h.others;
  tail = h.tail;
  asked = h.asked;
  written_is = h.written_is;
  in_order = h.in_order;
  file_is = λ p x k.
      ap (λ f. f x) (same e p)
      ∙ h.same p x k
      ∙ ap (λ f. f x) (apply_files-of_path h.written store p);
  few = h.few;
  acks = same_acked e ∙ h.acks;
  ending =
      clean_up-Ending fs send_ok h.others h.tail w e
        (at_end send_ok h.others h.tail (sym q) h.ending) q;
  unbroken = λ k. h.unbroken (λ b. k (broken_end e (q ∙ b)));
  complete = λ k. h.complete (sym q ∙ same_end e (λ x. sym x ∙ q) k);
}
  where
    same : (e : StreamEnd) (p : String) → (clean_up fs e w).stream.store p ≡ w.stream.store p
    same waiting p = refl
    same finished p = refl
    same recv_error p = refl
    same write_error p = refl
    same send_error p = refl
    same sync_error p = refl

    same_acked : (e : StreamEnd) → (clean_up fs e w).acked ≡ w.acked
    same_acked waiting = refl
    same_acked finished = refl
    same_acked recv_error = refl
    same_acked write_error = refl
    same_acked send_error = refl
    same_acked sync_error = refl

    broken_end : (e : StreamEnd) → e ≡ write_error → (clean_up fs e w).end ≡ write_error
    broken_end waiting k = cc
    broken_end finished k = cc
    broken_end recv_error k = cc
    broken_end write_error k = end_with-write_error _
    broken_end send_error k = cc
    broken_end sync_error k = cc

    same_end :
        (e : StreamEnd)
        → (e ≡ waiting → waiting ≡ w.end)
        → (clean_up fs e w).end ≡ finished
        → e ≡ finished
    same_end waiting n k = n refl ∙ k
    same_end finished n k = end_with-finished _ _ k
    same_end recv_error n k = end_with-finished _ _ k
    same_end write_error n k = end_with-finished _ _ k
    same_end send_error n k = end_with-finished _ _ k
    same_end sync_error n k = end_with-finished _ _ k

-- Whatever a write stream is sent and whatever fails: a first part of the blocks that came is
-- written, and only if the stream ends with a write error one more block may have broken; each file
-- holds what it held before and then the blocks of its own path that were written, in their order,
-- in every byte that is not in the range of the block that broke. These blocks are those of a first
-- part of the requests, served whole, and, after an error of a write or a send, a first part of the
-- next one's. The acknowledgements are those of the requests served, in order, none for a request
-- without blocks. If the stream ends with an error of a send, that of the next request could not be
-- sent and all of its blocks are written; if it ends with neither error, every request that came is
-- served, and no block is left.
pub write_stream-FilesServed :
    (fs : Files) (send_ok : List ℕ → Bool) (rs : List Recv) (s : Stream)
    → FilesServed send_ok rs s.store (write_stream fs send_ok rs s)
unfolding write_stream
write_stream-FilesServed fs send_ok rs s =
    let w = serve fs send_ok rs s in
    cleaned fs send_ok rs s.store w w.end refl (serve-Serves fs send_ok rs s)

-- ===== src/Pipeline/Send/Acks.antt =====
-- What the receiver of acknowledgements releases.
use ceph_volsync_plugin.Base.{
  ℕ, ◌≡◌, refl, ap, ◌∙◌, List, [], ◌∷◌, ◌++◌, length, length-append, arith,
}
use ceph_volsync_plugin.Pipeline.Types.{
  mem_in, mem_out, win_in, win_out, win_out-append, mem_out-append, win_in-append, mem_in-append,
}
use ceph_volsync_plugin.Pipeline.Send.{
  Recv, acks, eof, recv_error, recv_done, release_ids, ack_receiver,
}

-- The requests acknowledged before the stream ends, errs or is cancelled.
abbrev pub acked_ids : List Recv → List ℕ
acked_ids (acks ids ∷ rs) = ids ++ acked_ids rs
acked_ids _ = []

release_ids-win : (is : List ℕ) → win_out (release_ids is) ≡ is
release_ids-win [] = refl
release_ids-win (i ∷ is) = ap (◌∷◌ i) (release_ids-win is)

release_ids-mem :
    (is : List ℕ)
    → (mem_out (release_ids is) ≡ 0)
      × (win_in (release_ids is) ≡ [])
      × (mem_in (release_ids is) ≡ 0)
release_ids-mem [] = (refl, refl, refl)
release_ids-mem (i ∷ is) = release_ids-mem is

-- Over any run of the receiver: it releases the windows of exactly the acknowledged requests, in
-- the order of the acknowledgements, counts as many, and touches no memory.
pub ack_receiver_releases :
    (rs : List Recv)
    → let (calls, n, end) = ack_receiver rs in
      (win_out calls ≡ acked_ids rs)
      × (n ≡ length (acked_ids rs))
      × (win_in calls ≡ [])
      × (mem_out calls ≡ 0)
      × (mem_in calls ≡ 0)
unfolding ack_receiver
ack_receiver_releases [] = (refl, refl, refl, refl, refl)
ack_receiver_releases (eof ∷ rs) = (refl, refl, refl, refl, refl)
ack_receiver_releases (recv_error ∷ rs) = (refl, refl, refl, refl, refl)
ack_receiver_releases (recv_done ∷ rs) = (refl, refl, refl, refl, refl)
ack_receiver_releases (acks ids ∷ rs) =
    let more = ack_receiver_releases rs in
    let own = release_ids-mem ids in
    let later = (ack_receiver rs).0 in
    (
      win_out-append (release_ids ids) later ∙ rw (release_ids-win ids, more.0) refl,
      omega (arith, more.1, length-append ids (acked_ids rs)),
      win_in-append (release_ids ids) later ∙ rw (own.1, more.2) refl,
      mem_out-append (release_ids ids) later ∙ omega (arith, own.0, more.3),
      mem_in-append (release_ids ids) later ∙ omega (arith, own.2, more.4),
    )

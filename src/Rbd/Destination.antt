-- ===== src/Rbd/Destination.antt =====
-- RBDDataServer of internal/worker/rbd/destination.go, with zeroRange of rbd/zero.go and WriteZeros
-- of internal/worker/common/util.go. A device is a function from offsets to bytes; whether a
-- system call succeeds is the environment's answer.
pub mod Writes
pub mod Damage
pub mod Acks
pub mod Overlay
pub mod Sync
pub mod Commits
use ceph_volsync_plugin.Base.{
  ℕ, zero, suc, ◌+◌, ◌-◌, ◌*◌, Bool, true, false, ◌&&◌, List, [], ◌∷◌, ◌++◌, Result, ok, err,
  length, take, get_or, ltb, leb, ◌==◌, if◌then◌else◌,
}
use ceph_volsync_plugin.Pipeline.Send.{ChangedBlock}

abbrev pub Device : Type 0
Device = ℕ → ℕ

abbrev pub in_range : ℕ → ℕ → ℕ → Bool
in_range offset len x = leb offset x && ltb x (offset + len)

-- `len` zero bytes at `offset`.
unfoldable pub fill_zero : ℕ → ℕ → Device → Device
fill_zero offset len dev x = if in_range offset len x then 0 else dev x

-- WriteAt.
unfoldable pub write_at : ℕ → List ℕ → Device → Device
write_at offset bytes dev x =
    if in_range offset (length bytes) x then get_or bytes (x - offset) 0 else dev x

-- What the kernel answers: `zero_out` to the BLKZEROOUT ioctl, `write_ok` to a write, by offset and
-- length; the others to opening, syncing and closing the device. A failed ioctl has zeroed the first
-- `zeroed` bytes and a failed write has written the first `written` bytes, at most all of them.
pub record Kernel : Type 0 where
  pub zero_out : ℕ → ℕ → Bool
  pub zeroed : ℕ → ℕ → ℕ
  pub write_ok : ℕ → ℕ → Bool
  pub written : ℕ → ℕ → ℕ
  pub open_ok : Bool
  pub sync_ok : Bool
  pub close_ok : Bool

abbrev pub zero_buf_size : ℕ
zero_buf_size = 1024 * 1024

abbrev pub at_most : ℕ → ℕ → ℕ
at_most len n = if leb n len then n else len

-- The loop of WriteZeros; `err` is an error of a write, with what the device then holds. The fuel is
-- the length.
pub write_zeros : ℕ → Kernel → ℕ → ℕ → Device → Result Device Device
write_zeros zero k offset len dev = ok dev
write_zeros (suc fuel) k offset len dev =
    let n = if leb zero_buf_size len then zero_buf_size else len in
    let rest = write_zeros fuel k (offset + n) (len - n) (fill_zero offset n dev) in
    let broken = fill_zero offset (at_most n (k.written offset n)) dev in
    if ltb 0 len then (if k.write_ok offset n then rest else err broken) else ok dev

unfoldable pub zero_range : Kernel → ℕ → ℕ → Device → Result Device Device
unfolding write_zeros
zero_range k offset len dev =
    if k.zero_out offset len
    then ok (fill_zero offset len dev)
    else write_zeros len k offset len (fill_zero offset (at_most len (k.zeroed offset len)) dev)

abbrev pub write_data : Kernel → ChangedBlock → Device → Result Device Device
write_data k b dev =
    let n = length b.bytes in
    if k.write_ok b.offset n
    then ok (write_at b.offset b.bytes dev)
    else err (write_at b.offset (take (k.written b.offset n) b.bytes) dev)

unfoldable pub write_block : Kernel → ChangedBlock → Device → Result Device Device
unfolding zero_range
write_block k b dev = if b.is_zero then zero_range k b.offset b.len dev else write_data k b dev

-- writeBlocks: the device after all blocks, or what it holds at the first error.
unfoldable pub write_blocks : Kernel → List ChangedBlock → Device → Result Device Device
unfolding write_block
write_blocks k [] dev = ok dev
write_blocks k (b ∷ bs) dev = elim (write_block k b dev) [
  | err broken ↦ err broken
  | ok dev' ↦ write_blocks k bs dev'
]

unfoldable pub collect_request_ids : List ChangedBlock → List ℕ
collect_request_ids [] = []
collect_request_ids (b ∷ bs) = b.request_id ∷ collect_request_ids bs

-- What stream.Recv gives.
pub data Recv : Type 0 where
  request : List ChangedBlock → Recv
  eof failed : Recv

pub data WriteEnd : Type 0 where
  finished recv_error open_error write_error send_error : WriteEnd
  sync_error close_error waiting : WriteEnd

-- The device, the acknowledgements that were sent, and how the handler ended (`waiting`: it is
-- still in Recv).
pub record Served : Type 0 where
  pub device : Device
  pub acked : List (List ℕ)
  pub end : WriteEnd

abbrev pub stop : Device → WriteEnd → Served
stop dev e = record { device = dev; acked = []; end = e }

-- The loop of Write: an empty request is not acknowledged; a device that cannot be opened, a
-- failed write and a failed send end the stream. What a failed request wrote stays on the device.
unfoldable pub write_loop : Kernel → (List ℕ → Bool) → List Recv → Device → Served
unfolding write_blocks collect_request_ids
write_loop k send_ok [] dev = stop dev waiting
write_loop k send_ok (eof ∷ rs) dev = stop dev finished
write_loop k send_ok (failed ∷ rs) dev = stop dev recv_error
write_loop k send_ok (request bs ∷ rs) dev =
    if k.open_ok
    then elim (write_blocks k bs dev) [
      | err broken ↦ stop broken write_error
      | ok dev' ↦
          let more = write_loop k send_ok rs dev' in
          if leb (length bs) 0
          then more
          else if send_ok (collect_request_ids bs)
          then record more { acked = collect_request_ids bs ∷ more.acked }
          else stop dev' send_error
    ]
    else stop dev open_error

-- The device is open if a request came; a failed opening is another end of the loop.
abbrev pub opened : List Recv → Bool
opened (request bs ∷ rs) = true
opened _ = false

-- The deferred function of Write: its errors are returned only if there is no other.
abbrev pub close_end : Kernel → Bool → WriteEnd → WriteEnd
close_end k true finished =
    if k.sync_ok then (if k.close_ok then finished else close_error) else sync_error
close_end k _ e = e

unfoldable pub write : Kernel → (List ℕ → Bool) → List Recv → Device → Served
unfolding write_loop
write k send_ok rs dev =
    let s = write_loop k send_ok rs dev in record s { end = close_end k (opened rs) s.end }

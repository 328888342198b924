-- ===== src/Rbd/Source/Sync.antt =====
-- Sync of internal/worker/rbd/source.go: the set-up, the pipeline over the diff, the wait for the
-- acknowledgements, the commit and the signal. What other code answers is an input.
pub mod Blocks
pub mod Outcomes
mod Tests
use ceph_volsync_plugin.Base.{
  ℕ, zero, suc, ◌+◌, ◌-◌, ◌&&◌, Bool, true, false, List, [], ◌∷◌, Option, none, some, Result, ok,
  err, ◌==◌, if◌then◌else◌,
}
use ceph_volsync_plugin.Pipeline.Types.{ChangeBlock}
use ceph_volsync_plugin.Pipeline.Config.{Config, set_defaults}
use ceph_volsync_plugin.Rbd.Adapter.{DiffBlock, Adapter, new_adapter}
use ceph_volsync_plugin.Rbd.Adapter

pub data SyncError : Type 0 where
  config_error parent_error image_error size_error iterator_error device_error cert_error :
      SyncError
  exchange_error tls_error connect_error pipeline_error ack_error open_error send_error : SyncError
  receive_error signal_error : SyncError

-- Whether each call succeeds, in the order of the calls. Between them: the diff, of which the
-- feeder takes what `calls` calls of Next give before its context ends; `stages_ok` says that the
-- other stages of the pipeline end without an error, and `acked` that IsReleased answers true for
-- a request before the context ends.
pub record SyncAnswers : Type 0 where
  pub resolves_config : Bool
  pub resolves_parent : Bool
  pub opens_image : Bool
  pub gets_size : Bool
  pub makes_iterator : Bool
  pub opens_device : Bool
  pub makes_cert : Bool
  pub exchanges_certs : Bool
  pub builds_tls : Bool
  pub connects : Bool
  pub vol_size : ℕ
  pub from_snap_id : ℕ
  pub extents : List DiffBlock
  pub calls : ℕ
  pub stages_ok : Bool
  pub acked : ℕ → Bool
  pub opens_commit : Bool
  pub sends_commit : Bool
  pub receives_commit : Bool
  pub signals_done : Bool

-- The blocks that the feeder took, whether a commit was sent, and whether the end was signalled.
pub record Synced : Type 0 where
  pub given : List ChangeBlock
  pub committed : Bool
  pub signalled : Bool
  pub result : Result SyncError (Unit {0})

unfoldable pub sync_config : Config
unfolding set_defaults
sync_config = set_defaults (record {
  max_raw_memory_bytes = 0;
  max_window = 256;
  read_workers = 16;
  data_send_workers = 0;
  data_batch_max_count = 0;
  data_batch_max_bytes = 0;
  chunk_size = 0;
  read_chan_buf = 0;
})

abbrev pub adapter_of : SyncAnswers → Adapter
adapter_of a = new_adapter a.extents a.vol_size sync_config.chunk_size (a.from_snap_id == 0)

-- What the feeder leaves.
pub record Fed : Type 0 where
  pub adapter : Adapter
  pub given : List ChangeBlock
  pub ended : Bool

abbrev pub taken_by : Adapter × Option ChangeBlock → (Adapter → Fed) → Fed
taken_by (a, none) more = record { adapter = a; given = []; ended = true }
taken_by (a, some b) more = let rest = more a in record rest { given = b ∷ rest.given }

-- The loop of feeder over the adapter.
unfoldable pub feed_adapter : ℕ → Adapter → Fed
feed_adapter zero a = record { adapter = a; given = []; ended = false }
feed_adapter (suc calls) a = taken_by (Adapter.next a) (feed_adapter calls)

abbrev pub fails : List ChangeBlock → Bool → SyncError → Synced
fails given committed e = record {
  given = given;
  committed = committed;
  signalled = false;
  result = err e;
}

-- closeAndSignalDone.
abbrev pub close_and_signal_done : SyncAnswers → List ChangeBlock → Bool → Synced
close_and_signal_done a given committed = record {
  given = given;
  committed = committed;
  signalled = a.signals_done;
  result = if a.signals_done then ok tt else err signal_error;
}

-- The commit of the device.
unfoldable pub commit_sync : SyncAnswers → List ChangeBlock → Synced
commit_sync a given =
    if a.opens_commit
    then if a.sends_commit
      then if a.receives_commit
        then close_and_signal_done a given true
        else fails given true receive_error
      else fails given false send_error
    else fails given false open_error

-- What follows the pipeline; `last` is the number that the next block would have had.
abbrev pub wait_and_commit : SyncAnswers → List ChangeBlock → ℕ → Synced
wait_and_commit a given zero = close_and_signal_done a given false
wait_and_commit a given (suc last) =
    if a.acked last then commit_sync a given else fails given false ack_error

unfoldable pub run_pipeline : SyncAnswers → Synced
unfolding feed_adapter commit_sync
run_pipeline a =
    let f = feed_adapter a.calls (adapter_of a) in
    if a.stages_ok && f.ended
    then wait_and_commit a f.given f.adapter.req_id
    else fails f.given false pipeline_error

-- The steps before the pipeline: the first that fails ends Sync.
unfoldable pub set_up : List (Bool × SyncError) → Synced → Synced
set_up [] more = more
set_up ((good, e) ∷ steps) more =
    let rest = set_up steps more in if good then rest else fails [] false e

abbrev pub steps_of : SyncAnswers → List (Bool × SyncError)
steps_of a =
    (a.resolves_config, config_error)
    ∷ (a.resolves_parent, parent_error)
    ∷ (a.opens_image, image_error)
    ∷ (a.gets_size, size_error)
    ∷ (a.makes_iterator, iterator_error)
    ∷ (a.opens_device, device_error)
    ∷ (a.makes_cert, cert_error)
    ∷ (a.exchanges_certs, exchange_error)
    ∷ (a.builds_tls, tls_error)
    ∷ (a.connects, connect_error)
    ∷ []

unfoldable pub sync_rbd : SyncAnswers → Synced
unfolding set_up run_pipeline
sync_rbd a = set_up (steps_of a) (run_pipeline a)

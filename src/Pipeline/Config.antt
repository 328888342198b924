-- ===== src/Pipeline/Config.antt =====
-- Config of internal/worker/pipeline/config.go.
use ceph_volsync_plugin.Base.{
  ℕ, ◌*◌, ◌≤◌, ◌≡◌, refl, ◌↔◌, ◌⊎◌, inl, inr, ◌<◌, ◌||◌, Result, ok, err, arith, ltb, ◌==◌,
  if◌then◌else◌,
}

pub record Config : Type 0 where
  pub max_raw_memory_bytes : ℕ
  pub max_window : ℕ
  pub read_workers : ℕ
  pub data_send_workers : ℕ
  pub data_batch_max_count : ℕ
  pub data_batch_max_bytes : ℕ
  pub chunk_size : ℕ
  pub read_chan_buf : ℕ

abbrev default_chunk_size : ℕ
default_chunk_size = 16 * 1024 * 1024

abbrev min_chunk_size : ℕ
min_chunk_size = 64 * 1024

abbrev max_chunk_size : ℕ
max_chunk_size = 16 * 1024 * 1024

-- `if c.F == 0 { c.F = d }`
abbrev or_default : ℕ → ℕ → ℕ
or_default n d = if n == 0 then d else n

-- SetDefaults; the default of read_chan_buf looks at read_workers after its own default.
unfoldable pub set_defaults : Config → Config
set_defaults c =
    let read_workers = or_default c.read_workers 8 in
    record {
      max_raw_memory_bytes = or_default c.max_raw_memory_bytes (1024 * 1024 * 1024);
      max_window = or_default c.max_window 1024;
      read_workers = read_workers;
      data_send_workers = or_default c.data_send_workers 8;
      data_batch_max_count = or_default c.data_batch_max_count 16;
      data_batch_max_bytes = or_default c.data_batch_max_bytes (16 * 1024 * 1024);
      chunk_size = or_default c.chunk_size default_chunk_size;
      read_chan_buf = or_default c.read_chan_buf (read_workers * 2);
    }

pub data ConfigError : Type 0 where
  chunk_size_range chunk_exceeds_memory max_window_range read_workers_low : ConfigError
  data_send_workers_range batch_count_range : ConfigError

unfoldable pub validate : Config → Result ConfigError (Unit {0})
validate c =
    if ltb c.chunk_size min_chunk_size || ltb max_chunk_size c.chunk_size
    then err chunk_size_range
    else if ltb c.max_raw_memory_bytes c.chunk_size
    then err chunk_exceeds_memory
    else if ltb c.max_window 8 || ltb 4096 c.max_window
    then err max_window_range
    else if ltb c.read_workers 2
    then err read_workers_low
    else if ltb c.data_send_workers 1 || ltb 16 c.data_send_workers
    then err data_send_workers_range
    else if ltb c.data_batch_max_count 4 || ltb 256 c.data_batch_max_count
    then err batch_count_range
    else ok tt

-- The start of Pipeline.Run: the configuration that it goes on with, or its error.
unfoldable pub prepare : Config → Result ConfigError Config
unfolding set_defaults validate
prepare c = elim (validate (set_defaults c)) [ ok _ ↦ ok (set_defaults c) | err e ↦ err e ]

-- The documented ranges.
pub record IsValid (c : Config) : Type 0 where
  pub chunk_low : 64 * 1024 ≤ c.chunk_size
  pub chunk_high : c.chunk_size ≤ 16 * 1024 * 1024
  pub chunk_fits : c.chunk_size ≤ c.max_raw_memory_bytes
  pub window_low : 8 ≤ c.max_window
  pub window_high : c.max_window ≤ 4096
  pub readers : 2 ≤ c.read_workers
  pub senders_low : 1 ≤ c.data_send_workers
  pub senders_high : c.data_send_workers ≤ 16
  pub count_low : 4 ≤ c.data_batch_max_count
  pub count_high : c.data_batch_max_count ≤ 256

validate_sound : (c : Config) → validate c ≡ ok tt → IsValid c
unfolding validate
validate_sound c h = ground arith

validate_complete : (c : Config) → IsValid c → validate c ≡ ok tt
unfolding validate
validate_complete c v = ground arith

-- validate accepts exactly the configurations whose fields lie in the documented ranges.
pub validate_iff : (c : Config) → (validate c ≡ ok tt) ↔ IsValid c
validate_iff c = (validate_sound c, validate_complete c)

Result-cases : (r : Result ConfigError (Unit {0})) → (r ≡ ok tt) ⊎ ((x : ConfigError) × (r ≡ err x))
Result-cases (ok tt) = inl refl
Result-cases (err x) = inr (x, refl)

set_defaults_idem : (c : Config) → set_defaults (set_defaults c) ≡ set_defaults c
unfolding set_defaults
set_defaults_idem c = ground arith

-- A run goes on only with a configuration in the documented ranges, whose defaults are filled in:
-- filling them in again changes nothing, and the channels have room.
pub prepare_lem :
    (c d : Config)
    → prepare c ≡ ok d
    → IsValid d × (d ≡ set_defaults c) × (set_defaults d ≡ d) × (0 < d.read_chan_buf)
unfolding prepare
prepare_lem c d h = elim (Result-cases (validate (set_defaults c))) [
  | inl e ↦
      let same : set_defaults c ≡ d = ground (arith, e) in
      let valid : IsValid (set_defaults c) = validate_sound (set_defaults c) e in
      rw (← same) (valid, refl, set_defaults_idem c, unfold set_defaults in ground arith)
  | inr (x, e) ↦ absurd (refused x e)
]
  where
    refused : (x : ConfigError) → validate (set_defaults c) ≡ err x → ⊥
    refused x e = ground (arith, e)

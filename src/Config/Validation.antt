-- ===== src/Config/Validation.antt =====
-- src/config.rs: which configurations `validate` accepts.
use justdbd.Common.{ℕ, ◌≤◌, ◌<◌, ◌≡◌, ◌↔◌, true, arith}
use justdbd.Common.Float.{F64}
use justdbd.Common.Outcome.{ok}
use justdbd.Config.{Config, new, validate}

-- What the messages of `validate` ask for.
pub record IsSane {f : F64} (c : Config f) : Type 0 where
  pub memtable : 0 < c.memtable_size_threshold
  pub memtables : 0 < c.max_memtables
  pub multiplier : 10 ≤ c.level_size_multiplier
  pub levels : 0 < c.max_levels
  pub l0_size : 0 < c.l0_sstable_size
  pub l0_threshold : 0 < c.l0_compaction_threshold
  pub rate_low : f.le (f.literal 0 1) c.bloom_false_positive_rate ≡ true
  pub rate_high : f.le c.bloom_false_positive_rate (f.literal 1 0) ≡ true
  pub buffer : 0 < c.write_buffer_size
  pub sync : 0 < c.wal_sync_interval
  pub wal : 0 < c.max_wal_size
  pub threads : 0 < c.compaction_threads
  pub compactions : 0 < c.max_concurrent_compactions
  pub files : 0 < c.max_open_files

module _ {f : F64} (c : Config f) where
  validate_sound : validate c ≡ ok tt → IsSane c
  unfolding validate
  validate_sound h = ground arith

  validate_complete : IsSane c → validate c ≡ ok tt
  unfolding validate
  validate_complete v = ground arith

  -- `validate` accepts exactly the configurations that meet its fourteen conditions.
  pub validate_iff : (validate c ≡ ok tt) ↔ IsSane c
  validate_iff = (validate_sound, validate_complete)

new-IsSane :
    (f : F64) (cpus : ℕ)
    → 0 < cpus
    → f.le (f.literal 0 1) (f.literal 1 2) ≡ true
    → f.le (f.literal 1 2) (f.literal 1 0) ≡ true
    → IsSane (new {f = f} cpus)
unfolding new
new-IsSane f cpus h low high = ground arith

-- The default configuration is accepted, if at least one processor is reported and the rate 0.01
-- lies between 0 and 1.
pub validate-new :
    (f : F64) (cpus : ℕ)
    → 0 < cpus
    → f.le (f.literal 0 1) (f.literal 1 2) ≡ true
    → f.le (f.literal 1 2) (f.literal 1 0) ≡ true
    → validate (new {f = f} cpus) ≡ ok tt
validate-new f cpus h low high = validate_complete (new {f = f} cpus) (new-IsSane f cpus h low high)

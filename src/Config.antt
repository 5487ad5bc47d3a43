-- ===== src/Config.antt =====
-- src/config.rs: the configuration, its defaults, its builder methods and its validation. An `i32`
-- is its bit pattern, a `Duration` a number of nanoseconds, and the processor count an argument.
pub mod Validation
pub mod Levels
mod Tests
use justdbd.Common.{
  ℕ, zero, suc, ◌+◌, ◌*◌, ◌%◌, ◌/◌, ◌^◌, Bool, true, false, not, ◌&&◌, String, Option, none, some,
  ltb, ◌==◌, if◌then◌else◌,
}
use justdbd.Common.Float.{F64}
use justdbd.Common.Outcome.{Outcome, ok, err}

pub data CompressionType : Type 0 where
  uncompressed lz4 zstd : CompressionType

pub record Config (f : F64) : Type 0 where
  pub memtable_size_threshold : ℕ
  pub max_memtables : ℕ
  pub level_size_multiplier : ℕ
  pub max_levels : ℕ
  pub l0_sstable_size : ℕ
  pub l0_compaction_threshold : ℕ
  pub compression : CompressionType
  pub compression_level : ℕ
  pub enable_bloom_filters : Bool
  pub bloom_false_positive_rate : f.Carrier
  pub write_buffer_size : ℕ
  pub wal_sync_interval : ℕ
  pub max_wal_size : ℕ
  pub compaction_threads : ℕ
  pub compaction_interval : ℕ
  pub enable_compaction : Bool
  pub max_concurrent_compactions : ℕ
  pub enable_metrics : Bool
  pub cache_size : ℕ
  pub max_open_files : ℕ
  pub use_mmap : Bool
  pub verify_checksums : Bool
  pub paranoid_checks : Bool

module _ {f : F64} where
  -- `Config::new` and `Config::default`; the argument is what `num_cpus::get` answers
  unfoldable pub new : ℕ → Config f
  new cpus = record {
    memtable_size_threshold = 64 * 1024 * 1024;
    max_memtables = 2;
    level_size_multiplier = 10;
    max_levels = 7;
    l0_sstable_size = 2 * 1024 * 1024;
    l0_compaction_threshold = 4;
    compression = lz4;
    compression_level = 1;
    enable_bloom_filters = true;
    bloom_false_positive_rate = f.literal 1 2;
    write_buffer_size = 4 * 1024 * 1024;
    wal_sync_interval = 1000;
    max_wal_size = 64 * 1024 * 1024;
    compaction_threads = cpus;
    compaction_interval = 60 * 10 ^ 9;
    enable_compaction = true;
    max_concurrent_compactions = 2;
    enable_metrics = true;
    cache_size = 128 * 1024 * 1024;
    max_open_files = 10;
    use_mmap = true;
    verify_checksums = true;
    paranoid_checks = false;
  }

  unfoldable pub with_memtable_size : ℕ → Config f → Config f
  with_memtable_size size c = record c { memtable_size_threshold = size }

  unfoldable pub with_compression : CompressionType → Config f → Config f
  with_compression compression c = record c { compression = compression }

  pub with_compression_level : ℕ → Config f → Config f
  with_compression_level level c = record c { compression_level = level }

  pub with_bloom_filters : Bool → Config f → Config f
  with_bloom_filters enabled c = record c { enable_bloom_filters = enabled }

  pub with_bloom_false_positive_rate : f.Carrier → Config f → Config f
  with_bloom_false_positive_rate rate c = record c { bloom_false_positive_rate = rate }

  pub with_compaction : Bool → Config f → Config f
  with_compaction enabled c = record c { enable_compaction = enabled }

  pub with_compaction_threads : ℕ → Config f → Config f
  with_compaction_threads threads c = record c { compaction_threads = threads }

  pub with_metrics : Bool → Config f → Config f
  with_metrics enabled c = record c { enable_metrics = enabled }

  pub with_cache_size : ℕ → Config f → Config f
  with_cache_size size c = record c { cache_size = size }

  pub with_mmap : Bool → Config f → Config f
  with_mmap enabled c = record c { use_mmap = enabled }

  pub with_checksum_verification : Bool → Config f → Config f
  with_checksum_verification enabled c = record c { verify_checksums = enabled }

  pub with_paranoid_checks : Bool → Config f → Config f
  with_paranoid_checks enabled c = record c { paranoid_checks = enabled }

  -- the second half of `validate`, from the rate on
  validate_rest : Config f → Outcome String (Unit {0})
  validate_rest c =
      if not (
        f.le (f.literal 0 1) c.bloom_false_positive_rate
        && f.le c.bloom_false_positive_rate (f.literal 1 0))
      then err "bloom_false_positive_rate must be between 0.0 and 1.0"
      else if c.write_buffer_size == 0
      then err "write_buffer_size must be greater than 0"
      else if c.wal_sync_interval == 0
      then err "wal_sync_interval must be greater than 0"
      else if c.max_wal_size == 0
      then err "max_wal_size must be greater than 0"
      else if c.compaction_threads == 0
      then err "compaction_threads must be greater than 0"
      else if c.max_concurrent_compactions == 0
      then err "max_concurrent_compactions must be greater than 0"
      else if c.max_open_files == 0
      then err "max_open_files must be greater than 0"
      else ok tt

  unfoldable pub validate : Config f → Outcome String (Unit {0})
  unfolding validate_rest
  validate c =
      if c.memtable_size_threshold == 0
      then err "memtable_size_threshold must be greater than 0"
      else if c.max_memtables == 0
      then err "max_memtables must be greater than 0"
      else if ltb c.level_size_multiplier 10
      then err "level_size_multiplier must be at least 10"
      else if c.max_levels == 0
      then err "mmax_levels must be greater than 0"
      else if c.l0_sstable_size == 0
      then err "l0_sstable_size must be greater than 0"
      else if c.l0_compaction_threshold == 0
      then err "l0_compaction_threshold must be greater than 0"
      else validate_rest c

  -- `usize` products and powers wrap, and the exponent is cast to 32 bits
  unfoldable pub level_target_size : Config f → ℕ → ℕ
  level_target_size c level =
      if level == 0
      then c.l0_sstable_size * c.l0_compaction_threshold % 2 ^ 64
      else c.l0_sstable_size * (c.level_size_multiplier ^ (level % 2 ^ 32) % 2 ^ 64) % 2 ^ 64

  -- The call in the second branch is of the same level. `none` says that the stack of so many calls
  -- ran out.
  pub level_max_sstables : ℕ → Config f → ℕ → Option ℕ
  level_max_sstables zero c level = none
  level_max_sstables (suc stack) c level =
      let deeper = level_max_sstables stack c level in
      if level == 0
      then some c.l0_compaction_threshold
      else elim deeper [ none ↦ none | some n ↦ some (n / c.l0_sstable_size) ]

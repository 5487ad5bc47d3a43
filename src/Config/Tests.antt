-- ===== src/Config/Tests.antt =====
-- src/config.rs: examples.
use justdbd.Common.{◌*◌, ◌^◌, ◌≡◌, ◌↔◌, refl, true, false, none, arith}
use justdbd.Common.Whole.{whole}
use justdbd.Common.Outcome.{ok, err}
use justdbd.Config.{
  Config, zstd, new, with_memtable_size, with_compression, with_compression_level,
  with_bloom_filters, with_bloom_false_positive_rate, with_compaction, with_compaction_threads,
  with_metrics, with_cache_size, with_mmap, with_checksum_verification, with_paranoid_checks,
  validate, level_target_size, level_max_sstables,
}
use justdbd.Config.Levels.{level_max_sstables_diverges}
use justdbd.Config.Validation.{IsSane, validate_iff}

abbrev standard : Config whole
standard = new 4

validate_iff_example : (validate standard ≡ ok tt) ↔ IsSane standard
validate_iff_example = validate_iff standard

level_max_sstables_diverges_example : level_max_sstables 1000 standard 1 ≡ none
level_max_sstables_diverges_example = level_max_sstables_diverges standard 1000 1 (omega arith)

target_sizes :
    (level_target_size standard 0 ≡ 8 * 2 ^ 20)
    × (level_target_size standard 1 ≡ 20 * 2 ^ 20)
    × (level_target_size standard 2 ≡ 200 * 2 ^ 20)
unfolding level_target_size new
target_sizes = (refl, refl, refl)

abbrev built : Config whole
built = with_memtable_size 5 (
    with_compression zstd (
      with_compression_level 3 (
        with_bloom_filters false (
          with_bloom_false_positive_rate 1 (
            with_compaction false (
              with_compaction_threads 0 (
                with_metrics false (
                  with_cache_size 9 (
                    with_mmap false (
                      with_checksum_verification false
                        (with_paranoid_checks true standard)))))))))))

builders :
    (built.memtable_size_threshold ≡ 5)
    × (built.compression ≡ zstd)
    × (built.compaction_threads ≡ 0)
    × (validate built ≡ err "compaction_threads must be greater than 0")
unfolding validate with_memtable_size with_compression with_compression_level with_bloom_filters
    with_bloom_false_positive_rate with_compaction with_compaction_threads with_metrics
    with_cache_size with_mmap with_checksum_verification with_paranoid_checks new
builders = (refl, refl, refl, refl)

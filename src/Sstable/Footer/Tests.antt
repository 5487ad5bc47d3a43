-- ===== src/Sstable/Footer/Tests.antt =====
-- src/sstable.rs: examples of footers.
use justdbd.Common.{◌∷◌, [], ℕ, ◌≡◌, List, arith, length}
use justdbd.Common.Outcome.{ok}
use justdbd.Config.{zstd}
use justdbd.Sstable.Footer.{SstableMeta, footer_size, write_footer, load_metadata}
use justdbd.Sstable.Footer.RoundTrip.{versioned, load_metadata-write_footer}

abbrev small_table : SstableMeta
small_table = record {
  entry_count = 2;
  data_size = 60;
  index_size = 25;
  bloom_offset = 60;
  bloom_size = 68;
  compression = zstd;
  created_at = 1700000000000000;
  version = 1;
}

load_metadata-write_footer_example :
    (out : List ℕ) × (write_footer small_table ≡ ok out)
    × (length out ≡ footer_size)
    × (load_metadata out ≡ ok (versioned small_table))
load_metadata-write_footer_example = load_metadata-write_footer small_table (record {
  entry_count_fits = omega arith;
  data_size_fits = omega arith;
  index_size_fits = omega arith;
  bloom_offset_fits = omega arith;
  bloom_size_fits = omega arith;
  created_at_fits = omega arith;
})

abbrev torn : List ℕ
torn = 1 ∷ 0 ∷ []

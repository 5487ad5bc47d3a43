-- ===== src/Storage/Tables.antt =====
-- What src/storage.rs asks of the SSTable files of src/sstable.rs and of the file system. A table is
-- an open reader; what it caches is not seen from here.
use justdbd.Common.{ℕ, Bool, List, Option}
use justdbd.Common.Float.{F64}
use justdbd.Config.{Config}
use justdbd.Entry.Record.{Entry}
use justdbd.Error.{Result}
use justdbd.Storage.FileName.{FileName}

pub record Tables (f : F64) : Type 1 where
  pub Table : Type 0
  -- the files of the data directory
  pub Disk : Type 0
  pub might_contain : Table → List ℕ → Result Bool
  pub get : Table → List ℕ → Result (Option Entry)
  pub range : Table → (start end : List ℕ) → Result (List Entry)
  -- the iterator's entries, or its first error
  pub entries : Table → Result (List Entry)
  pub min_key : Table → List ℕ
  pub max_key : Table → List ℕ
  pub data_size : Table → ℕ
  pub entry_count : Table → ℕ
  pub created_at : Table → ℕ
  -- `build_from_vec` with the settings of the configuration, and `SSTableReader::open`
  pub create : Config f → FileName → List Entry → Disk → Result Table × Disk
  -- `remove_file`, whose error is only printed
  pub remove : Table → Disk → Disk
  -- the directories are created
  pub prepare : Disk → Result (Unit {0}) × Disk
  -- `read_dir`: the names of the files with the extension `sst`, and what opening each answers
  pub files : Disk → Result (List (List ℕ × Result Table))

-- ===== src/Storage/Sample.antt =====
-- Tables for the examples: a table is a list of entries with its file name, and the disk has room for
-- so many more tables.
use justdbd.Common.{
  ℕ, suc, zero, ◌+◌, true, false, List, [], ◌∷◌, Option, none, some, map, length, if◌then◌else◌,
}
use justdbd.Common.Outcome.{ok, err}
use justdbd.Common.Whole.{whole}
use justdbd.Config
use justdbd.Config.{Config}
use justdbd.Entry.{key_eq}
use justdbd.Entry.Record
use justdbd.Entry.Record.{Entry}
use justdbd.Error.{Result, io, other}
use justdbd.MemTable.{MemTable}
use justdbd.Storage.Engine.{Engine}
use justdbd.Storage.FileName.{FileName, format}
use justdbd.Storage.Tables.{Tables}

pub record Sample : Type 0 where
  pub name : FileName
  pub content : List Entry

pub record SampleDisk : Type 0 where
  pub room : ℕ
  pub kept : List Sample

unfoldable pub find_entry : List ℕ → List Entry → Option Entry
find_entry key [] = none
find_entry key (e ∷ es) =
    let later = find_entry key es in if key_eq key e.key then some e else later

unfoldable pub first_key : List Entry → List ℕ
first_key [] = []
first_key (e ∷ es) = e.key

unfoldable pub last_key : List Entry → List ℕ
last_key [] = []
last_key (e ∷ []) = e.key
last_key (e ∷ f ∷ es) = last_key (f ∷ es)

unfoldable pub create_in : ℕ → FileName → List Entry → SampleDisk → Result Sample × SampleDisk
create_in zero name es disk = (err (io other), disk)
create_in (suc n) name es disk =
    let made : Sample = record { name = name; content = es } in
    (ok made, record { room = n; kept = made ∷ disk.kept })

abbrev pub samples : Tables whole
samples = record {
  Table = Sample;
  Disk = SampleDisk;
  might_contain = λ table key. ok true;
  get = λ table key. ok (find_entry key table.content);
  range = λ table start end. ok table.content;
  entries = λ table. ok table.content;
  min_key = λ table. first_key table.content;
  max_key = λ table. last_key table.content;
  data_size = λ table. length table.content;
  entry_count = λ table. length table.content;
  created_at = λ table. table.name.timestamp;
  create = λ config name es disk. create_in disk.room name es disk;
  remove = λ table disk. record disk { room = disk.room + 1 };
  prepare = λ disk. (ok tt, disk);
  files = λ disk. ok (map (λ (s : Sample). (format s.name, ok s)) disk.kept);
}

abbrev pub settings : Config whole
settings = record (Config.new 4) { max_memtables = 2 }

-- A memtable with one entry.
abbrev pub holding : Entry → MemTable
holding e = record {
  entries = (e.key, e) ∷ [];
  size = Record.size e;
  count = 1;
  created_at = 0;
  sequence_counter = e.sequence + 1;
  max_size = 100;
  immutable = false;
}

abbrev pub engine : MemTable → List MemTable → List (ℕ × List Sample) → ℕ → Engine whole samples
engine m ms levels room = record {
  config = settings;
  memtable = m;
  immutable_memtables = ms;
  sstables = levels;
  sequence_counter = 9;
  is_closed = false;
  background_tasks = 1;
  disk = record { room = room; kept = [] };
}

-- ===== src/Sstable/Reader/Iterator.antt =====
-- src/sstable.rs: `SSTableIterator`. The two counters stay within the length of a vector and do not
-- wrap. Reading a block may fill the cache of the reader, which the iterator refers to.
pub mod Blocks
mod Tests
use justdbd.Common.{
  ℕ, zero, suc, ◌+◌, List, [], ◌∷◌, Option, none, some, leb, length, get_elem?, if◌then◌else◌,
}
use justdbd.Common.Outcome.{Outcome, ok, err, panic, Method, ◌>>=◌, ◌>>◌}
use justdbd.Entry.Record.{Entry}
use justdbd.Error.{StorageError}
use justdbd.Sstable.Block.{parse_block}
use justdbd.Sstable.Codec.{Codec}
use justdbd.Sstable.Index.{IndexEntry}
use justdbd.Sstable.Reader.{SstableReader, read_block}

pub record SstableIterator : Type 0 where
  pub reader : SstableReader
  pub current_block : ℕ
  pub current_entry : ℕ
  pub current_block_data : Option (List ℕ)
  pub current_block_entries : List Entry

abbrev pub IteratorMethod : Type 0 → Type 0
IteratorMethod A = Method SstableIterator StorageError A

-- `SSTableReader::iter` and `SSTableIterator::new`
unfoldable pub iter : SstableReader → SstableIterator
iter reader = record {
  reader = reader;
  current_block = 0;
  current_entry = 0;
  current_block_data = none;
  current_block_entries = [];
}

-- What a call of `next` answers: an entry, the end, or an error. `none` says that the rounds of its
-- loop ran out.
abbrev pub Answer : Type 0
Answer = Option (Outcome StorageError (Option Entry) × SstableIterator)

-- The end of the loop's body: `some answer` is a return, and `none` goes round again.
pub take_or_advance : IteratorMethod (Option (Option Entry))
take_or_advance it = elim (get_elem? it.current_block_entries it.current_entry) [
  | some entry ↦ (ok (some (some entry)), record it { current_entry = it.current_entry + 1 })
  | none ↦ (
    ok (if leb (length it.reader.index) (it.current_block + 1) then some none else none),
    record it {
      current_block = it.current_block + 1;
      current_block_data = none;
      current_block_entries = [];
    },
  )
]

module _ (codec : Codec) where
  -- a method of the reader
  read_current : IndexEntry → IteratorMethod (List ℕ)
  read_current e it =
      let (r, reader') = read_block codec e it.reader in (r, record it { reader = reader' })

  unfoldable pub load_current_block : IteratorMethod (Unit {0})
  unfolding read_current
  load_current_block it =
      if leb (length it.reader.index) it.current_block
      then (ok tt, it)
      else elim (get_elem? it.reader.index it.current_block) [
        | none ↦ (panic, it)
        | some e ↦
            (do
              block ← read_current e
              entries ← (λ s. (parse_block block, s))
              (λ s. (
                ok tt,
                record s {
                  current_block_data = some block;
                  current_block_entries = entries;
                  current_entry = 0;
                },
              )))
              it
      ]

  load_missing : IteratorMethod (Unit {0})
  unfolding load_current_block
  load_missing it = elim it.current_block_data [
    | some _ ↦ (ok tt, it)
    | none ↦ load_current_block it
  ]

  -- the body of the loop in `next`
  pub round : IteratorMethod (Option (Option Entry))
  unfolding load_missing take_or_advance
  round = do load_missing; take_or_advance

  -- so many rounds of the loop
  pub next_within : ℕ → SstableIterator → Answer
  unfolding round
  next_within zero it = none
  next_within (suc n) it =
      let (r, it') = round it in
      let more = next_within n it' in
      elim r [
        | ok (some answer) ↦ some (ok answer, it')
        | ok none ↦ more
        | err e ↦ some (err e, it')
        | panic ↦ some (panic, it')
      ]

  -- A round that goes round again has left a block behind, so the rounds are enough.
  unfoldable pub next : SstableIterator → Answer
  unfolding next_within
  next it = next_within (suc (length it.reader.index)) it

-- ===== src/Sstable/Writer/Adding/Entries.antt =====
-- src/sstable.rs: a writer to which entries have been added one after the other.
use justdbd.Common.{
  ℕ, ◌+◌, ◌%◌, ◌^◌, ◌<◌, ◌≡◌, refl, sym, ap, ◌∙◌, false, ◌&&◌, List, [], ◌∷◌, ◌++◌, append_assoc,
  append-nil, some, ltb, ◌==◌, arith, length, length-append, All, Bool-cases, inl, inr, if-true,
  if-false, if◌then◌else◌,
}
use justdbd.Common.Outcome.{ok, bind-ok, resume}
use justdbd.Bloom.{Hashes}
use justdbd.Bloom.Membership.{add-counts}
use justdbd.Config.{CompressionType}
use justdbd.Entry.Record.{Entry}
use justdbd.Sstable.Block.{entry_data}
use justdbd.Sstable.Block.Layout.{IsStorable, layout, entry_data-layout}
use justdbd.Sstable.Block.RoundTrip.{layouts, layouts-append}
use justdbd.Sstable.Codec.{Codec}
use justdbd.Sstable.File.Placed.{concat}
use justdbd.Sstable.Index.{IndexEntry}
use justdbd.Sstable.Writer.{
  SstableWriter, block_size, flush_current_block, flush_if_full, append_entry, add_to_filter,
  note_keys, is_out_of_order, add, add_all,
}
use justdbd.Sstable.Writer.Runs.{IsAppending}
use justdbd.Sstable.Writer.Adding.{IsRestoring, InOrder, pending, Holds, flush-Holds}

module _ (codec : Codec) (c : CompressionType) (h : IsAppending codec)
    (v : IsRestoring codec c) where
  -- The writer has the entries, in the blocks of its file and in the open block.
  pub record Has (w : SstableWriter) (es : List Entry) : Type 0 where
    pub parts : List (List Entry)
    pub open_part : List Entry
    pub holds : Holds codec c h v w parts open_part
    pub all : concat parts ++ open_part ≡ es

  concat-snoc :
      (parts : List (List Entry)) (part : List Entry)
      → concat (parts ++ part ∷ []) ≡ concat parts ++ part
  unfolding concat
  concat-snoc [] part = append-nil part
  concat-snoc (p ∷ ps) part =
      ap (λ l. p ++ l) (concat-snoc ps part) ∙ sym (append_assoc p (concat ps) part)

  -- The index behind an entry that is appended.
  pending-append :
      (open_part : List Entry) (e : Entry) (w : SstableWriter) (places : List IndexEntry)
      → w.current_block_entries ≡ length open_part
      → w.index ≡ places ++ pending open_part w.position
      → (if w.current_block_entries == 0
          then w.index ++ record { key = e.key; offset = w.position; size = 0 } ∷ []
          else w.index)
        ≡ places ++ pending (open_part ++ e ∷ []) w.position
  pending-append [] e w places count index =
      if-true {b = w.current_block_entries == 0} _ _ (ground (arith, count))
      ∙ ap (λ l. l ++ record { key = e.key; offset = w.position; size = 0 } ∷ [])
          (index ∙ append-nil places)
  pending-append (x ∷ xs) e w places count index =
      if-false {b = w.current_block_entries == 0} _ _ (ground (arith, count)) ∙ index

  append-Holds :
      (w : SstableWriter) (parts : List (List Entry)) (open_part : List Entry) (e : Entry)
      → Holds codec c h v w parts open_part
      → IsStorable e
      → length open_part + 1 < 2 ^ 64
      → Holds codec c h v (append_entry e w).1 parts (open_part ++ e ∷ [])
  unfolding append_entry layouts
  append-Holds w parts open_part e d storable few = record {
    places = d.places;
    same = d.same;
    sized = d.sized;
    block =
        rw (d.block, entry_data-layout e storable)
          (sym (
            layouts-append open_part (e ∷ [])
            ∙ ap (λ l. layouts open_part ++ l) (append-nil (layout e))));
    count = omega (arith, d.count, few, length-append open_part (e ∷ []));
    index = pending-append open_part e w d.places d.count d.index;
    placed = d.placed;
  }

  idle_cases :
      {A : Type 0} (block : List ℕ) (a b : A)
      → block ≡ []
      → elim block as (λ x. A) [ [] ↦ a | c ∷ cs ↦ b ] ≡ a
  idle_cases [] a b h = refl
  idle_cases (c ∷ cs) a b h = cc

  flush-idle : (w : SstableWriter) → w.current_block ≡ [] → flush_current_block codec w ≡ (ok tt, w)
  unfolding flush_current_block
  flush-idle w empty = idle_cases w.current_block _ _ empty

  -- What the flush of a block leaves, also when there is none.
  pub flush-Has :
      (w : SstableWriter) (es : List Entry)
      → Has w es
      → (w' : SstableWriter) × (flush_current_block codec w ≡ (ok tt, w'))
        × ((parts : List (List Entry)) × Holds codec c h v w' parts [] × (concat parts ≡ es))
        × (w'.max_key ≡ w.max_key)
  flush-Has w es a = go a.open_part a.holds a.all
    where
      go :
          (open_part : List Entry)
          → Holds codec c h v w a.parts open_part
          → concat a.parts ++ open_part ≡ es
          → (w' : SstableWriter) × (flush_current_block codec w ≡ (ok tt, w'))
            × ((parts : List (List Entry)) × Holds codec c h v w' parts [] × (concat parts ≡ es))
            × (w'.max_key ≡ w.max_key)
      go [] d all = (
        w,
        flush-idle w (d.block ∙ unfold layouts in refl),
        (a.parts, d, sym (append-nil (concat a.parts)) ∙ all),
        refl,
      )
      go (x ∷ xs) d all =
          let (w', run, kept, same) = flush-Holds codec c h v w a.parts x xs d in
          (w', run, (a.parts ++ (x ∷ xs) ∷ [], kept, concat-snoc a.parts (x ∷ xs) ∙ all), same)

  -- The flush before an entry that does not fit keeps the entries of the writer.
  room-Has :
      (size : ℕ) (w : SstableWriter) (es : List Entry)
      → Has w es
      → (w' : SstableWriter) × (flush_if_full codec size w ≡ (ok tt, w'))
        × Has w' es
        × (w'.max_key ≡ w.max_key)
  unfolding flush_if_full
  room-Has size w es a =
      elim (Bool-cases
        (ltb block_size (length w.current_block + size) && ltb 0 w.current_block_entries)) [
          | inl full ↦
              let (w', run, (parts, holds, all), same) = flush-Has w es a in
              (
                w',
                if-true _ _ full ∙ run,
                record {
                  parts = parts;
                  open_part = [];
                  holds = holds;
                  all = append-nil (concat parts) ∙ all;
                },
                same,
              )
          | inr fits ↦ (w, if-false _ _ fits, a, refl)
        ]

  module _ (hashes : Hashes) where
    filter-counts :
        (key : List ℕ) (w : SstableWriter)
        → 0 < w.bloom_filter.bit_count
        → add_to_filter codec hashes key w ≡ (
          ok tt,
          record w {
            bloom_filter = record (w.bloom_filter) {
              element_count = (w.bloom_filter.element_count + 1) % 2 ^ 64;
            };
          },
        )
    unfolding add_to_filter
    filter-counts key w sized =
        ap (λ r. resume r (λ filter s. (ok tt, record s { bloom_filter = filter })) w)
          (add-counts hashes key w.bloom_filter sized)

    -- A key above the greatest is noted and counted in the filter, and its entry is appended.
    add-Has :
        (e : Entry) (w : SstableWriter) (es : List Entry)
        → Has w es
        → is_out_of_order e.key w.max_key ≡ false
        → IsStorable e
        → length es + 1 < 2 ^ 64
        → (w' : SstableWriter) × (add codec hashes e w ≡ (ok tt, w'))
          × Has w' (es ++ e ∷ [])
          × (w'.max_key ≡ some e.key)
    unfolding add note_keys append_entry
    add-Has e w es a ordered storable few =
        let w1 = (note_keys e.key w).1 in
        let b = w1.bloom_filter in
        let w2 = record w1 {
          bloom_filter = record b { element_count = (b.element_count + 1) % 2 ^ 64 };
        } in
        let a2 : Has w2 es = record {
          parts = a.parts;
          open_part = a.open_part;
          holds = record {
            places = a.holds.places;
            same = a.holds.same;
            sized = a.holds.sized;
            block = a.holds.block;
            count = a.holds.count;
            index = a.holds.index;
            placed = a.holds.placed;
          };
          all = a.all;
        } in
        let (w3, run, a3, noted) = room-Has (length (entry_data e)) w2 es a2 in
        (
          (append_entry e w3).1,
          if-false _ _ ordered
              ∙ bind-ok (add_to_filter codec hashes e.key) _ w1
                  (filter-counts e.key w1 a.holds.sized)
              ∙ bind-ok (flush_if_full codec (length (entry_data e))) (λ _. append_entry e) w2 run,
          record {
            parts = a3.parts;
            open_part = a3.open_part ++ e ∷ [];
            holds = append-Holds w3 a3.parts a3.open_part e a3.holds storable (
                omega (arith, few, ap length a3.all, length-append (concat a3.parts) a3.open_part));
            all =
                sym (append_assoc (concat a3.parts) a3.open_part (e ∷ []))
                ∙ ap (λ l. l ++ e ∷ []) a3.all;
          },
          noted,
        )

    pub add_all-Has :
        (es old : List Entry) (w : SstableWriter)
        → Has w old
        → InOrder w.max_key es
        → All IsStorable es
        → length old + length es < 2 ^ 64
        → (w' : SstableWriter) × (add_all codec hashes es w ≡ (ok tt, w')) × Has w' (old ++ es)
    unfolding add_all InOrder
    add_all-Has [] old w a ordered storable few = (
      w,
      refl,
      record {
        parts = a.parts;
        open_part = a.open_part;
        holds = a.holds;
        all = a.all ∙ sym (append-nil old);
      },
    )
    add_all-Has (e ∷ es) old w a (first, ordered) (fits, storable) few =
        let (w1, run, a1, noted) = add-Has e w old a first fits (omega (arith, few)) in
        let (w2, run', a2) =
          add_all-Has es (old ++ e ∷ []) w1 a1 (rw noted ordered) storable
            (omega (arith, few, length-append old (e ∷ []))) in
        (
          w2,
          bind-ok (add codec hashes e) (λ _. add_all codec hashes es) w run ∙ run',
          record {
            parts = a2.parts;
            open_part = a2.open_part;
            holds = a2.holds;
            all = a2.all ∙ append_assoc old (e ∷ []) es;
          },
        )

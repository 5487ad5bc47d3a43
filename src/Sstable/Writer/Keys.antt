-- ===== src/Sstable/Writer/Keys.antt =====
-- src/sstable.rs: the steps of the writer that leave the keys of its index and its greatest key as they are.
use justdbd.Common.{
  ℕ, ◌≡◌, refl, ap, ◌∙◌, Bool, true, false, List, [], ◌∷◌, map, if◌then◌else◌, length,
}
use justdbd.Common.Bytes.{le_bytes}
use justdbd.Common.Outcome.{ok, err, panic, resume, ◌>>=◌, ◌>>◌}
use justdbd.Sstable.Block.{block_data}
use justdbd.Bloom
use justdbd.Bloom.{Hashes}
use justdbd.Error.{Result}
use justdbd.Sstable.Codec.{Codec}
use justdbd.Sstable.Index.{IndexEntry}
use justdbd.Sstable.Writer.{
  SstableWriter, WriterMethod, write_bytes, compress_block, close_block, set_last_size,
  flush_current_block, flush_if_full, add_to_filter,
}

abbrev pub index_keys : SstableWriter → List (List ℕ)
index_keys w = map (λ e. e.key) w.index

-- The keys of the index and the greatest key are as before.
pub record SameKeys (w w' : SstableWriter) : Type 0 where
  pub same_index : index_keys w' ≡ index_keys w
  pub same_max : w'.max_key ≡ w.max_key

SameKeys-self : (w : SstableWriter) → SameKeys w w
SameKeys-self w = record { same_index = refl; same_max = refl }

abbrev pub Keeps : {A : Type 0} → WriterMethod A → Type 0
Keeps m = (w : SstableWriter) → SameKeys w (m w).1

abbrev Step : Type 0
Step = Result (Unit {0}) × SstableWriter

module _ {A B : Type 0} where
  resume-Keeps :
      (r : Result A) (f : A → WriterMethod B) (w w' : SstableWriter)
      → SameKeys w w'
      → ((a : A) → Keeps (f a))
      → SameKeys w (resume r f w').1
  resume-Keeps (ok a) f w w' s h = record {
    same_index = (h a w').same_index ∙ s.same_index;
    same_max = (h a w').same_max ∙ s.same_max;
  }
  resume-Keeps (err e) f w w' s h = s
  resume-Keeps panic f w w' s h = s

  bind-Keeps :
      (m : WriterMethod A) (f : A → WriterMethod B)
      → Keeps m
      → ((a : A) → Keeps (f a))
      → Keeps (m >>= f)
  bind-Keeps m f hm hf w = resume-Keeps (m w).0 f w (m w).1 (hm w) hf

set_last_size-keys :
    (size : ℕ) (es : List IndexEntry)
    → map (λ (e : IndexEntry). e.key) (set_last_size size es) ≡ map (λ e. e.key) es
unfolding set_last_size
set_last_size-keys size [] = refl
set_last_size-keys size (e ∷ []) = refl
set_last_size-keys size (e ∷ f ∷ es) = ap (λ l. e.key ∷ l) (set_last_size-keys size (f ∷ es))

block_cases :
    {A : Type 0} (P : A → Type 0) (block : List ℕ) (a b : A)
    → P a
    → P b
    → P (elim block as (λ x. A) [ [] ↦ a | c ∷ cs ↦ b ])
block_cases P [] a b h k = h
block_cases P (c ∷ cs) a b h k = k

if_cases :
    {A : Type 0} (P : A → Type 0) (test : Bool) (a b : A) → P a → P b → P (if test then a else b)
if_cases P true a b h k = h
if_cases P false a b h k = k

module _ (codec : Codec) where
  write_bytes-Keeps : (bytes : List ℕ) → Keeps (write_bytes codec bytes)
  unfolding write_bytes
  write_bytes-Keeps bytes w =
      resume-Keeps (codec.write_all bytes w.content).0 _ w _
        (record { same_index = refl; same_max = refl })
        (λ a v. record { same_index = refl; same_max = refl })

  close_block-Keeps : (size : ℕ) → Keeps (close_block codec size)
  unfolding close_block
  close_block-Keeps size w = record { same_index = set_last_size-keys _ w.index; same_max = refl }

  -- the frame of a block
  write_frame : List ℕ → WriterMethod (Unit {0})
  write_frame compressed = do
    write_bytes codec (le_bytes 4 (codec.crc32 compressed))
    write_bytes codec compressed
    close_block codec (length compressed)

  write_frame-Keeps : (compressed : List ℕ) → Keeps (write_frame compressed)
  unfolding write_frame
  write_frame-Keeps compressed =
      bind-Keeps (write_bytes codec (le_bytes 4 (codec.crc32 compressed)))
        (λ _. write_bytes codec compressed >>= λ _. close_block codec (length compressed))
        (write_bytes-Keeps (le_bytes 4 (codec.crc32 compressed)))
        (λ _.
          bind-Keeps (write_bytes codec compressed) (λ _. close_block codec (length compressed))
            (write_bytes-Keeps compressed) (λ _. close_block-Keeps (length compressed)))

  flush_current_block-Keeps : Keeps (flush_current_block codec)
  unfolding flush_current_block write_frame
  flush_current_block-Keeps w =
      block_cases (λ (p : Step). SameKeys w p.1) w.current_block _ _ (SameKeys-self w)
        (bind-Keeps
          (λ s. (compress_block codec (block_data s.current_block_entries s.current_block) s, s))
          write_frame SameKeys-self write_frame-Keeps w)

  pub flush_if_full-Keeps : (size : ℕ) → Keeps (flush_if_full codec size)
  unfolding flush_if_full
  flush_if_full-Keeps size w =
      if_cases (λ (p : Step). SameKeys w p.1) _ _ _ (flush_current_block-Keeps w) (SameKeys-self w)

  pub add_to_filter-Keeps :
      (hashes : Hashes) (key : List ℕ) → Keeps (add_to_filter codec hashes key)
  unfolding add_to_filter
  add_to_filter-Keeps hashes key w =
      resume-Keeps (Bloom.add hashes key w.bloom_filter) _ w w (SameKeys-self w)
        (λ filter v. record { same_index = refl; same_max = refl })

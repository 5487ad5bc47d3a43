-- ===== src/Storage/Compaction/Split.antt =====
-- src/storage.rs: how `create_sstables_for_level` divides the entries among tables.
use justdbd.Common.{
  ℕ, ◌+◌, ◌≤◌, ◌≡◌, refl, ap, ◌∙◌, fun_ext, ◌⊎◌, inl, inr, true, false, List, [], ◌∷◌, ◌++◌,
  append_assoc, arith, length, All, Bool-cases,
}
use justdbd.Common.Float.{F64}
use justdbd.Common.Outcome.{return, ◌>>=◌}
use justdbd.Entry.Record
use justdbd.Entry.Record.{Entry}
use justdbd.MemTable.{Clock}
use justdbd.Storage.Compaction.{
  create_sstable, does_not_fit, fill_tables, target_size_of, create_sstables_for_level,
}
use justdbd.Storage.Engine.{Engine, EngineMethod}
use justdbd.Storage.Tables.{Tables}

pub sizes : List Entry → ℕ
sizes [] = 0
sizes (e ∷ es) = Record.size e + sizes es

-- A table has one entry, or its entries fit the target together.
pub Fits : ℕ → List Entry → Type 0
Fits target es = (length es ≡ 1) ⊎ ((1 ≤ length es) × (sizes es ≤ target))

-- all the entries of the parts
pub concat : List (List Entry) → List Entry
concat [] = []
concat (part ∷ parts) = part ++ concat parts

-- The parts that the loop makes of the entries, with those that it has taken and their size.
split : (target : ℕ) → List Entry → List Entry → ℕ → List (List Entry)
split target [] [] size = []
split target [] (c ∷ cs) size = (c ∷ cs) ∷ []
split target (e ∷ es) current size = elim (does_not_fit target size e current) [
  | true ↦ current ∷ split target es (e ∷ []) (Record.size e)
  | false ↦ split target es (current ++ e ∷ []) (size + Record.size e)
]

concat-split :
    (target : ℕ) (es current : List Entry) (size : ℕ)
    → concat (split target es current size) ≡ current ++ es
unfolding split concat
concat-split target [] [] size = refl
concat-split target [] (c ∷ cs) size = refl
concat-split target (e ∷ es) current size = elim (Bool-cases (does_not_fit target size e current)) [
  | inl full ↦
      rw (full, split) (ap (λ l. current ++ l) (concat-split target es (e ∷ []) (Record.size e)))
  | inr room ↦
      rw (room, split)
        (concat-split target es (current ++ e ∷ []) (size + Record.size e)
          ∙ append_assoc current (e ∷ []) es)
]

sizes-append : (xs ys : List Entry) → sizes (xs ++ ys) ≡ sizes xs + sizes ys
unfolding sizes
sizes-append [] ys = omega arith
sizes-append (x ∷ xs) ys = omega (arith, sizes-append xs ys)

-- What has been taken makes a table, if it is anything.
abbrev IsTaken : ℕ → List Entry → ℕ → Type 0
IsTaken target current size = (sizes current ≡ size) × (1 ≤ length current → Fits target current)

IsTaken-one : (target : ℕ) (e : Entry) → IsTaken target (e ∷ []) (Record.size e)
unfolding sizes Fits
IsTaken-one target e = (omega arith, λ h. inl refl)

IsTaken-more :
    (target : ℕ) (e : Entry) (current : List Entry) (size : ℕ)
    → IsTaken target current size
    → does_not_fit target size e current ≡ false
    → IsTaken target (current ++ e ∷ []) (size + Record.size e)
unfolding sizes Fits does_not_fit
IsTaken-more target e [] size v room = (ground (arith, v.0), λ h. inl refl)
IsTaken-more target e (c ∷ cs) size v room =
    let total = sizes-append (c ∷ cs) (e ∷ []) in
    (omega (arith, total, v.0), λ h. inr (omega arith, ground (arith, total, v.0)))

taken-IsTaken :
    (target : ℕ) (e : Entry) (current : List Entry) (size : ℕ)
    → IsTaken target current size
    → does_not_fit target size e current ≡ true
    → Fits target current
unfolding does_not_fit
taken-IsTaken target e [] size v full = cc
taken-IsTaken target e (c ∷ cs) size v full = v.1 (omega arith)

All-split :
    (target : ℕ) (es current : List Entry) (size : ℕ)
    → IsTaken target current size
    → All (Fits target) (split target es current size)
unfolding split
All-split target [] [] size v = tt
All-split target [] (c ∷ cs) size v = (v.1 (omega arith), tt)
All-split target (e ∷ es) current size v = elim (Bool-cases (does_not_fit target size e current)) [
  | inl full ↦
      rw (full, split)
        (
          taken-IsTaken target e current size v full,
          All-split target es (e ∷ []) (Record.size e) (IsTaken-one target e),
        )
  | inr room ↦
      rw (room, split)
        (All-split target es (current ++ e ∷ []) (size + Record.size e)
          (IsTaken-more target e current size v room))
]

module _ {f : F64} (t : Tables f) (now : Clock) (level : ℕ) where
  -- One table for each part, in their order.
  pub create_all : List (List Entry) → List t.Table → EngineMethod t (List t.Table)
  create_all [] tables = return tables
  create_all (part ∷ parts) tables =
      create_sstable t now level part >>= λ table. create_all parts (tables ++ table ∷ [])

  fill_tables-split :
      (target : ℕ) (es current : List Entry) (size : ℕ) (tables : List t.Table)
      → fill_tables t now level target es current size tables
        ≡ create_all (split target es current size) tables
  unfolding fill_tables split create_all
  fill_tables-split target [] [] size tables = refl
  fill_tables-split target [] (c ∷ cs) size tables = refl
  fill_tables-split target (e ∷ es) current size tables =
      elim (Bool-cases (does_not_fit target size e current)) [
        | inl full ↦
            rw (full, split, fill_tables)
              (ap
                (λ (k : t.Table → EngineMethod t (List t.Table)).
                  create_sstable t now level current >>= k)
                (fun_ext λ table.
                  fill_tables-split target es (e ∷ []) (Record.size e) (tables ++ table ∷ [])))
        | inr room ↦
            rw (room, split, fill_tables)
              (fill_tables-split target es (current ++ e ∷ []) (size + Record.size e) tables)
      ]

  -- The entries are divided, in their order and with none left out, into parts of which each has one
  -- entry or fits the target size of the level, and one table is created for each part in turn; an
  -- error or a panic of one ends the method.
  pub create_sstables_for_level-parts :
      (es : List Entry) (e : Engine f t)
      → (parts : List (List Entry)) × (create_sstables_for_level t now level es e
          ≡ create_all parts [] e)
        × (concat parts ≡ es)
        × All (Fits (target_size_of t level e)) parts
  unfolding create_sstables_for_level create_all concat sizes
  create_sstables_for_level-parts [] e = ([], refl, refl, tt)
  create_sstables_for_level-parts (x ∷ xs) e =
      let target = target_size_of t level e in
      (
        split target (x ∷ xs) [] 0,
        ap (λ (m : EngineMethod t (List t.Table)). m e) (fill_tables-split target (x ∷ xs) [] 0 []),
        concat-split target (x ∷ xs) [] 0,
        All-split target (x ∷ xs) [] 0 (start target),
      )
    where
      start : (target : ℕ) → IsTaken target [] 0
      start target = (refl, λ h. absurd (omega arith))

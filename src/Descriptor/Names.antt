-- ===== src/Descriptor/Names.antt =====
-- The names of MSTableDescriptor of cpp/arcae/descriptor.cc.
use casa_arrow.Base.{
  ℕ, ◌≡◌, ◌⊎◌, refl, ◌∙◌, ap, ap₂, Bool, true, List, [], ◌∷◌, map, if◌then◌else◌, inl, inr,
  Bool-cases, arith, ok, err, invalid, ◌>>=◌,
}
use casa_arrow.Base.Texts.{codes}
use casa_arrow.Descriptor.{
  MsTable, main, antenna, data_description, doppler, feed, field, flag_cmd, freq_offset, history,
  observation, pointing, polarization, processor, source, spectral_window, state, syscal, weather,
  table_names, upcase, same_name, table_named, ms_table_of, MsDescs, desc_of, ms_table_descriptor,
}

pub same_name_refl : (name : List ℕ) → same_name name name ≡ true
same_name_refl [] = refl
same_name_refl (c ∷ name) = let e = same_name_refl name in ground arith

pub same_name-≡ : (name other : List ℕ) → same_name name other ≡ true → name ≡ other
same_name-≡ [] [] e = refl
same_name-≡ [] (d ∷ other) e = absurd (cc)
same_name-≡ (c ∷ name) [] e = absurd (cc)
same_name-≡ (c ∷ name) (d ∷ other) e =
    let first : (c ≡ d) × (same_name name other ≡ true) = ground arith in
    ap₂ ◌∷◌ first.0 (same_name-≡ name other first.1)

-- The name of a table.
abbrev pub name_of_table : MsTable → List ℕ
name_of_table main = codes "MAIN"
name_of_table antenna = codes "ANTENNA"
name_of_table data_description = codes "DATA_DESCRIPTION"
name_of_table doppler = codes "DOPPLER"
name_of_table feed = codes "FEED"
name_of_table field = codes "FIELD"
name_of_table flag_cmd = codes "FLAG_CMD"
name_of_table freq_offset = codes "FREQ_OFFSET"
name_of_table history = codes "HISTORY"
name_of_table observation = codes "OBSERVATION"
name_of_table pointing = codes "POINTING"
name_of_table polarization = codes "POLARIZATION"
name_of_table processor = codes "PROCESSOR"
name_of_table source = codes "SOURCE"
name_of_table spectral_window = codes "SPECTRAL_WINDOW"
name_of_table state = codes "STATE"
name_of_table syscal = codes "SYSCAL"
name_of_table weather = codes "WEATHER"

-- A table is called by its name, in letters of either case, and the main table also by no name.
pub data IsCalled : List ℕ → MsTable → Type 0 where
  nameless : IsCalled [] main
  named :
      {name : List ℕ} {table : MsTable} → upcase name ≡ name_of_table table → IsCalled name table

table_named-name_of_table :
    (table : MsTable) → table_named (name_of_table table) table_names ≡ ok table
unfolding table_named
table_named-name_of_table main = refl
table_named-name_of_table antenna = refl
table_named-name_of_table data_description = refl
table_named-name_of_table doppler = refl
table_named-name_of_table feed = refl
table_named-name_of_table field = refl
table_named-name_of_table flag_cmd = refl
table_named-name_of_table freq_offset = refl
table_named-name_of_table history = refl
table_named-name_of_table observation = refl
table_named-name_of_table pointing = refl
table_named-name_of_table polarization = refl
table_named-name_of_table processor = refl
table_named-name_of_table source = refl
table_named-name_of_table spectral_window = refl
table_named-name_of_table state = refl
table_named-name_of_table syscal = refl
table_named-name_of_table weather = refl

-- The list gives each table its name.
abbrev NamesAgree : List (List ℕ × MsTable) → Type 0
NamesAgree names =
    map (λ (entry : List ℕ × MsTable). entry.0) names
    ≡ map (λ (entry : List ℕ × MsTable). name_of_table entry.1) names

table_named-cases :
    (name : List ℕ) (names : List (List ℕ × MsTable))
    → NamesAgree names
    → ((table : MsTable) × (table_named name names ≡ ok table) × (name ≡ name_of_table table))
      ⊎ (table_named name names ≡ err invalid)
unfolding table_named
table_named-cases name [] agree = inr refl
table_named-cases name ((other, table) ∷ names) agree =
    let first : other ≡ name_of_table table = cc in
    elim (Bool-cases (same_name name other)) [
      | inl same ↦ inl (
        table,
        ap (λ b. if b then ok table else table_named name names) same,
        same_name-≡ name other same ∙ first,
      )
      | inr differs ↦
          let skip : table_named name ((other, table) ∷ names) ≡ table_named name names =
            ap (λ b. if b then ok table else table_named name names) differs in
          elim (table_named-cases name names cc) [
            | inl (found, is_found, called) ↦ inl (found, skip ∙ is_found, called)
            | inr missing ↦ inr (skip ∙ missing)
          ]
    ]

table_named-empty : table_named [] table_names ≡ err invalid
unfolding table_named
table_named-empty = refl

IsCalled-ms_table_of :
    (name : List ℕ) (table : MsTable) → IsCalled name table → ms_table_of name ≡ ok table
unfolding ms_table_of
IsCalled-ms_table_of [] main nameless = refl
IsCalled-ms_table_of [] table (named called) =
    let none_called : table_named [] table_names ≡ ok table =
      ap (λ n. table_named n table_names) called ∙ table_named-name_of_table table in
    let missing = table_named-empty in absurd (cc)
IsCalled-ms_table_of (c ∷ name) table (named called) =
    ap (λ n. table_named n table_names) called ∙ table_named-name_of_table table

ms_table_of-cases :
    (name : List ℕ)
    → ((table : MsTable) × IsCalled name table × (ms_table_of name ≡ ok table))
      ⊎ (ms_table_of name ≡ err invalid)
unfolding ms_table_of
ms_table_of-cases [] = inl (main, nameless, refl)
ms_table_of-cases (c ∷ name) = elim (table_named-cases (upcase (c ∷ name)) table_names refl) [
  | inl (table, found, called) ↦ inl (table, named called, found)
  | inr missing ↦ inr missing
]

-- A name that calls a table, in letters of either case, calls no other table and gives the
-- descriptor of that table; the empty name calls the main table; every other name is an error.
pub ms_table_descriptor-IsCalled :
    {D : Type 0} (casa : MsDescs D) (name : List ℕ) (complete : Bool)
    → ((table : MsTable) × IsCalled name table
        × ((other : MsTable) → IsCalled name other → other ≡ table)
        × (ms_table_descriptor casa name complete ≡ ok (desc_of casa table complete)))
      ⊎ (((table : MsTable) → ¬ IsCalled name table)
          × (ms_table_descriptor casa name complete ≡ err invalid))
unfolding ms_table_descriptor
ms_table_descriptor-IsCalled casa name complete = elim (ms_table_of-cases name) [
  | inl (table, called, found) ↦ inl (
    table,
    called,
    λ other is_called. let again = IsCalled-ms_table_of name other is_called in cc,
    ap (λ r. r >>= λ t. ok (desc_of casa t complete)) found,
  )
  | inr missing ↦ inr (
    λ table called. let found = IsCalled-ms_table_of name table called in absurd (cc),
    ap (λ r. r >>= λ t. ok (desc_of casa t complete)) missing,
  )
]

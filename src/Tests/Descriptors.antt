-- ===== src/Tests/Descriptors.antt =====
-- Runs of cpp/arcae/descriptor.cc, with lists of numbered names for the descriptors of casacore.
use casa_arrow.Base.{
  ℕ, ◌+◌, ◌≡◌, ◌⊎◌, refl, ◌∙◌, sym, ap, true, false, List, [], ◌∷◌, ◌++◌, if◌then◌else◌, inl, inr,
  Bool-cases, some, ok, err, invalid,
}
use casa_arrow.Base.Texts.{codes}
use casa_arrow.Descriptor.{
  MsTable, same_name, MsDescs, desc_of, ms_table_descriptor, TableDescs, merge_required_and_user,
}
use casa_arrow.Descriptor.Merging.{
  over, first_named, without_named, IsTableDescs, merge_required_and_user-over,
}
use casa_arrow.Descriptor.Names.{IsCalled, ms_table_descriptor-IsCalled, same_name-≡}

-- A descriptor is the list of what it was made of.
abbrev numbered_descs : MsDescs (List ℕ)
numbered_descs = record {
  required = λ table. 0 ∷ [];
  required_columns = λ table. 3;
  predefined_columns = λ table. 5;
  add_predefined_column = λ table n td. n ∷ td;
  required_keywords = 1;
  predefined_keywords = 2;
  add_predefined_keyword = λ n td. (n + 100) ∷ td;
  remove_category = λ td. 1 ∷ td;
}

ms_table_descriptor-IsCalled_example :
    ((table : MsTable) × IsCalled (codes "Spectral_window") table
      × ((other : MsTable) → IsCalled (codes "Spectral_window") other → other ≡ table)
      × (ms_table_descriptor numbered_descs (codes "Spectral_window") true
          ≡ ok (desc_of numbered_descs table true)))
    ⊎ (((table : MsTable) → ¬ IsCalled (codes "Spectral_window") table)
        × (ms_table_descriptor numbered_descs (codes "Spectral_window") true ≡ err invalid))
ms_table_descriptor-IsCalled_example =
    ms_table_descriptor-IsCalled numbered_descs (codes "Spectral_window") true

abbrev Entry : Type 0
Entry = List ℕ × ℕ

-- Columns, hypercolumns and keywords.
abbrev Desc : Type 0
Desc = List Entry × List Entry × List ℕ

abbrev entry_name : Entry → List ℕ
entry_name entry = entry.0

abbrev remove_named : List ℕ → List Entry → List Entry
remove_named name [] = []
remove_named name (entry ∷ entries) =
    if same_name name entry.0 then remove_named name entries else entry ∷ remove_named name entries

abbrev table_descs : TableDescs Desc Entry ℕ (List ℕ)
table_descs = record {
  columns = λ d. d.0;
  name_of = entry_name;
  find_column = λ d name. first_named entry_name (λ entry. entry) d.0 name;
  remove_column = λ name d. (remove_named name d.0, d.1, d.2);
  add_column = λ c d. (c ∷ d.0, d.1, d.2);
  hypercolumns = λ d. d.1;
  find_hypercolumn = λ d name. first_named entry_name (λ entry. entry.1) d.1 name;
  remove_hypercolumn = λ name d. (d.0, remove_named name d.1, d.2);
  define_hypercolumn = λ name h d. (d.0, (name, h) ∷ d.1, d.2);
  keywords = λ d. d.2;
  merge_keywords = λ k d. (d.0, d.1, k ++ d.2);
}

first_named-remove_named :
    {A : Type 0} (value : Entry → A) (own : List ℕ) (entries : List Entry) (name : List ℕ)
    → first_named entry_name value (remove_named own entries) name
      ≡ without_named own (first_named entry_name value entries) name
first_named-remove_named value own [] name = elim (Bool-cases (same_name own name)) [
  | inl same ↦ rw same refl
  | inr differs ↦ rw differs refl
]
first_named-remove_named value own (entry ∷ entries) name =
    let rest = first_named-remove_named value own entries name in
    elim (Bool-cases (same_name own entry.0)) [
      | inl removed ↦
          let same : own ≡ entry.0 = same_name-≡ own entry.0 removed in
          elim (Bool-cases (same_name own name)) [
            | inl b ↦ rw (removed, rest, b) refl
            | inr b ↦
                let c : same_name entry.0 name ≡ false =
                  ap (λ n. same_name n name) (sym same) ∙ b in
                rw (removed, rest, b, c) refl
          ]
      | inr stays ↦ elim (Bool-cases (same_name entry.0 name)) [
        | inl c ↦
            let same : entry.0 ≡ name = same_name-≡ entry.0 name c in
            let b : same_name own name ≡ false = ap (same_name own) (sym same) ∙ stays in
            rw (stays, c, b) refl
        | inr c ↦ rw (stays, c, rest) refl
      ]
    ]

abbrev table_descs-IsTableDescs : IsTableDescs table_descs
table_descs-IsTableDescs = record {
  find-add = λ c d name new. refl;
  find-remove = λ own d name. first_named-remove_named (λ entry. entry) own d.0 name;
  find-define = λ own h d name new. refl;
  find-remove_hypercolumn = λ own d name. first_named-remove_named (λ entry. entry.1) own d.1 name;
  define-columns = λ own h d name. refl;
  remove-columns = λ own d name. refl;
  add-hypercolumns = λ c d name. refl;
  remove-hypercolumns = λ own d name. refl;
  keywords-columns = λ k d name. refl;
  keywords-hypercolumns = λ k d name. refl;
}

abbrev required_desc : Desc
required_desc = ((codes "TIME", 1) ∷ (codes "UVW", 2) ∷ [], [], 7 ∷ [])

abbrev user_desc : Desc
user_desc = ((codes "DATA", 3) ∷ (codes "UVW", 4) ∷ [], (codes "TILED", 5) ∷ [], 8 ∷ [])

-- The user's column stands in the place of the required one.
merged_uvw :
    table_descs.find_column
      (merge_required_and_user table_descs required_desc user_desc)
      (codes "UVW")
    ≡ some (codes "UVW", 4)
unfolding merge_required_and_user
merged_uvw = refl

merge_required_and_user-over_example :
    (table_descs.find_column
        (merge_required_and_user table_descs required_desc user_desc)
        (codes "UVW")
      ≡ over
          (first_named entry_name (λ c. c) user_desc.0 (codes "UVW"))
          (table_descs.find_column required_desc (codes "UVW")))
    × (table_descs.find_hypercolumn
          (merge_required_and_user table_descs required_desc user_desc)
          (codes "UVW")
        ≡ over
            (first_named entry_name (λ entry. entry.1) user_desc.1 (codes "UVW"))
            (table_descs.find_hypercolumn required_desc (codes "UVW")))
merge_required_and_user-over_example =
    merge_required_and_user-over table_descs table_descs-IsTableDescs required_desc user_desc
      (codes "UVW") (refl, (refl, tt)) (refl, tt)

-- ===== src/Descriptor.antt =====
-- cpp/arcae/descriptor.cc: the descriptors of the tables of a Measurement Set, and their merge with
-- the descriptor of a user. What casacore gives for a table, and its operations on descriptors, are
-- arguments. A name is the list of its code points.
pub mod Merging
pub mod Names
use casa_arrow.Base.{
  ℕ, zero, suc, ◌+◌, ◌-◌, Bool, true, false, not, ◌&&◌, ◌||◌, Option, some, none, List, [], ◌∷◌,
  map, if◌then◌else◌, leb, ◌==◌, Result, ok, err, invalid, ◌>>=◌,
}
use casa_arrow.Base.Texts.{codes}

-- The Measurement Set and its subtables.
pub data MsTable : Type 0 where
  main antenna data_description doppler feed field flag_cmd freq_offset history observation :
      MsTable
  pointing polarization processor source spectral_window state syscal weather : MsTable

abbrev pub table_names : List (List ℕ × MsTable)
table_names =
    (codes "MAIN", main)
    ∷ (codes "ANTENNA", antenna)
    ∷ (codes "DATA_DESCRIPTION", data_description)
    ∷ (codes "DOPPLER", doppler)
    ∷ (codes "FEED", feed)
    ∷ (codes "FIELD", field)
    ∷ (codes "FLAG_CMD", flag_cmd)
    ∷ (codes "FREQ_OFFSET", freq_offset)
    ∷ (codes "HISTORY", history)
    ∷ (codes "OBSERVATION", observation)
    ∷ (codes "POINTING", pointing)
    ∷ (codes "POLARIZATION", polarization)
    ∷ (codes "PROCESSOR", processor)
    ∷ (codes "SOURCE", source)
    ∷ (codes "SPECTRAL_WINDOW", spectral_window)
    ∷ (codes "STATE", state)
    ∷ (codes "SYSCAL", syscal)
    ∷ (codes "WEATHER", weather)
    ∷ []

-- toupper of a character
unfoldable pub to_upper : ℕ → ℕ
to_upper c = if leb b'a' c && leb c b'z' then c - 32 else c

-- upcase
abbrev pub upcase : List ℕ → List ℕ
upcase name = map to_upper name

abbrev pub same_name : List ℕ → List ℕ → Bool
same_name [] [] = true
same_name (c ∷ name) (d ∷ name') = c == d && same_name name name'
same_name _ _ = false

-- The chain of comparisons.
unfoldable pub table_named : List ℕ → List (List ℕ × MsTable) → Result MsTable
table_named name [] = err invalid
table_named name ((other, table) ∷ names) =
    if same_name name other then ok table else table_named name names

unfoldable pub ms_table_of : List ℕ → Result MsTable
unfolding table_named to_upper
ms_table_of [] = ok main
ms_table_of (c ∷ name) = table_named (upcase (c ∷ name)) table_names

-- What casacore gives for a table: its required descriptor, the numbers of its predefined columns
-- and keywords, and how one of these is added.
pub record MsDescs (D : Type 0) : Type 0 where
  pub required : MsTable → D
  pub required_columns : MsTable → ℕ
  pub predefined_columns : MsTable → ℕ
  pub add_predefined_column : MsTable → ℕ → D → D
  pub required_keywords : ℕ
  pub predefined_keywords : ℕ
  pub add_predefined_keyword : ℕ → D → D
  pub remove_category : D → D

module _ {D : Type 0} (casa : MsDescs D) where
  -- A loop that adds the things with the numbers from i on.
  unfoldable pub add_from : (ℕ → D → D) → ℕ → ℕ → D → D
  add_from add i zero td = td
  add_from add i (suc rounds) td = add_from add (i + 1) rounds (add i td)

  unfoldable pub add_columns : MsTable → D → D
  unfolding add_from
  add_columns table td =
      let first = casa.required_columns table + 1 in
      add_from (casa.add_predefined_column table) first (casa.predefined_columns table + 1 - first)
        td

  unfoldable pub main_ms_desc : Bool → D
  unfolding add_columns add_from
  main_ms_desc false = casa.remove_category (casa.required main)
  main_ms_desc true =
      add_from casa.add_predefined_keyword (casa.required_keywords + 1)
        (casa.predefined_keywords + 1 - (casa.required_keywords + 1))
        (add_columns main (casa.required main))

  unfoldable pub ms_subtable_desc : MsTable → Bool → D
  unfolding add_columns
  ms_subtable_desc table false = casa.required table
  ms_subtable_desc table true = add_columns table (casa.required table)

  abbrev pub is_main : MsTable → Bool
  is_main main = true
  is_main _ = false

  abbrev pub desc_of : MsTable → Bool → D
  desc_of table complete =
      if is_main table then main_ms_desc complete else ms_subtable_desc table complete

  unfoldable pub ms_table_descriptor : List ℕ → Bool → Result D
  unfolding ms_table_of
  ms_table_descriptor name complete = ms_table_of name >>= λ table. ok (desc_of table complete)

-- The operations of a TableDesc that the merge uses.
pub record TableDescs (D C H K : Type 0) : Type 0 where
  pub columns : D → List C
  pub name_of : C → List ℕ
  pub find_column : D → List ℕ → Option C
  pub remove_column : List ℕ → D → D
  pub add_column : C → D → D
  pub hypercolumns : D → List (List ℕ × H)
  pub find_hypercolumn : D → List ℕ → Option H
  pub remove_hypercolumn : List ℕ → D → D
  pub define_hypercolumn : List ℕ → H → D → D
  pub keywords : D → K
  pub merge_keywords : K → D → D

abbrev pub is_there : {A : Type 0} → Option A → Bool
is_there none = false
is_there (some x) = true

-- A loop over a vector.
unfoldable pub for_each : {A D : Type 0} → (A → D → D) → List A → D → D
for_each put [] d = d
for_each put (x ∷ xs) d = for_each put xs (put x d)

module _ {D C H K : Type 0} (casa : TableDescs D C H K) where
  open casa use {
    columns, name_of, find_column, remove_column, add_column, hypercolumns, find_hypercolumn,
    remove_hypercolumn, define_hypercolumn, keywords, merge_keywords,
  }

  -- A column of the user takes the place of a column with its name.
  unfoldable pub put_column : C → D → D
  put_column c result = add_column c (
      if is_there (find_column result (name_of c))
      then remove_column (name_of c) result
      else result)

  unfoldable pub put_hypercolumn : List ℕ × H → D → D
  put_hypercolumn (name, h) result =
      define_hypercolumn name h
        (if is_there (find_hypercolumn result name) then remove_hypercolumn name result else result)

  unfoldable pub merge_required_and_user : D → D → D
  unfolding for_each put_column put_hypercolumn
  merge_required_and_user required_td user_td = merge_keywords (keywords user_td) (
      for_each put_hypercolumn (hypercolumns user_td)
        (for_each put_column (columns user_td) required_td))

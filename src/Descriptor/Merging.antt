-- ===== src/Descriptor/Merging.antt =====
-- MergeRequiredAndUserTableDescs of cpp/arcae/descriptor.cc.
use casa_arrow.Base.{
  ℕ, ◌≡◌, refl, ◌∙◌, sym, ap, Bool, true, false, List, [], ◌∷◌, if◌then◌else◌, inl, inr, Bool-cases,
  Option, some, none,
}
use casa_arrow.Descriptor.{
  same_name, TableDescs, is_there, for_each, put_column, put_hypercolumn, merge_required_and_user,
}
use casa_arrow.Descriptor.Names.{same_name_refl, same_name-≡}

-- The first where it has something, else the second.
abbrev pub over : {A : Type 0} → Option A → Option A → Option A
over (some x) other = some x
over none other = other

module _ {X A : Type 0} (name_of : X → List ℕ) (value : X → A) where
  abbrev pub first_named : List X → List ℕ → Option A
  first_named [] name = none
  first_named (x ∷ xs) name =
      if same_name (name_of x) name then some (value x) else first_named xs name

  -- No two have one name.
  abbrev pub Distinct : List X → Type 0
  Distinct [] = Unit {0}
  Distinct (x ∷ xs) = (first_named xs (name_of x) ≡ none) × Distinct xs

-- What is looked up under a name when x is there and nothing else with its name.
abbrev pub with_named : {A : Type 0} → List ℕ → A → (List ℕ → Option A) → List ℕ → Option A
with_named own x found name = if same_name own name then some x else found name

abbrev pub without_named : {A : Type 0} → List ℕ → (List ℕ → Option A) → List ℕ → Option A
without_named own found name = if same_name own name then none else found name

-- What casacore promises: a thing that is added where none has its name is found; one that is
-- removed is not; others stay. Columns, hypercolumns and keywords do not touch each other.
pub record IsTableDescs {D C H K : Type 0} (casa : TableDescs D C H K) : Type 0 where
  pub find-add :
      (c : C) (d : D) (name : List ℕ)
      → casa.find_column d (casa.name_of c) ≡ none
      → casa.find_column (casa.add_column c d) name
        ≡ with_named (casa.name_of c) c (casa.find_column d) name
  pub find-remove :
      (own : List ℕ) (d : D) (name : List ℕ)
      → casa.find_column (casa.remove_column own d) name
        ≡ without_named own (casa.find_column d) name
  pub find-define :
      (own : List ℕ) (h : H) (d : D) (name : List ℕ)
      → casa.find_hypercolumn d own ≡ none
      → casa.find_hypercolumn (casa.define_hypercolumn own h d) name
        ≡ with_named own h (casa.find_hypercolumn d) name
  pub find-remove_hypercolumn :
      (own : List ℕ) (d : D) (name : List ℕ)
      → casa.find_hypercolumn (casa.remove_hypercolumn own d) name
        ≡ without_named own (casa.find_hypercolumn d) name
  pub define-columns :
      (own : List ℕ) (h : H) (d : D) (name : List ℕ)
      → casa.find_column (casa.define_hypercolumn own h d) name ≡ casa.find_column d name
  pub remove-columns :
      (own : List ℕ) (d : D) (name : List ℕ)
      → casa.find_column (casa.remove_hypercolumn own d) name ≡ casa.find_column d name
  pub add-hypercolumns :
      (c : C) (d : D) (name : List ℕ)
      → casa.find_hypercolumn (casa.add_column c d) name ≡ casa.find_hypercolumn d name
  pub remove-hypercolumns :
      (own : List ℕ) (d : D) (name : List ℕ)
      → casa.find_hypercolumn (casa.remove_column own d) name ≡ casa.find_hypercolumn d name
  pub keywords-columns :
      (k : K) (d : D) (name : List ℕ)
      → casa.find_column (casa.merge_keywords k d) name ≡ casa.find_column d name
  pub keywords-hypercolumns :
      (k : K) (d : D) (name : List ℕ)
      → casa.find_hypercolumn (casa.merge_keywords k d) name ≡ casa.find_hypercolumn d name

over-with_named :
    {A : Type 0} (own : List ℕ) (x : A) (others : Option A) (found : List ℕ → Option A)
    (name : List ℕ)
    → (same_name own name ≡ true → others ≡ none)
    → over others (with_named own x found name)
      ≡ over (if same_name own name then some x else others) (found name)
over-with_named own x others found name alone = elim (Bool-cases (same_name own name)) [
  | inl same ↦
      ap (λ o. over o (with_named own x found name)) (alone same)
      ∙ ap (λ (b : Bool). if b then some x else found name) same
      ∙ sym (ap (λ (b : Bool). over (if b then some x else others) (found name)) same)
  | inr differs ↦
      ap (λ (b : Bool). over others (if b then some x else found name)) differs
      ∙ sym (ap (λ (b : Bool). over (if b then some x else others) (found name)) differs)
]

-- Replacing one thing after another lays all of them over what was there.
for_each-over :
    {D X A : Type 0} (name_of : X → List ℕ) (value : X → A) (find : D → List ℕ → Option A)
    (put : X → D → D)
    → ((x : X) (d : D) (name : List ℕ)
        → find (put x d) name ≡ with_named (name_of x) (value x) (find d) name)
    → (xs : List X) (d : D) (name : List ℕ) → Distinct name_of value xs
    → find (for_each put xs d) name ≡ over (first_named name_of value xs name) (find d name)
unfolding for_each
for_each-over name_of value find put find-put [] d name distinct = refl
for_each-over name_of value find put find-put (x ∷ xs) d name (new, distinct) =
    for_each-over name_of value find put find-put xs (put x d) name distinct
    ∙ ap (over (first_named name_of value xs name)) (find-put x d name)
    ∙ over-with_named (name_of x) (value x) (first_named name_of value xs name) (find d) name
        (λ same. ap (first_named name_of value xs) (sym (same_name-≡ (name_of x) name same)) ∙ new)

-- What is put takes the place of what has its name.
put-with_named :
    {D A : Type 0} (find : D → List ℕ → Option A) (add : A → D → D) (remove : List ℕ → D → D)
    (own : List ℕ) (x : A)
    → ((d : D) (name : List ℕ)
        → find d own ≡ none
        → find (add x d) name ≡ with_named own x (find d) name)
    → ((d : D) (name : List ℕ) → find (remove own d) name ≡ without_named own (find d) name)
    → (d : D) (name : List ℕ)
    → find (add x (if is_there (find d own) then remove own d else d)) name
      ≡ with_named own x (find d) name
put-with_named {A = A} find add remove own x find-add find-remove d name =
    by_cases (find d own) refl
  where
    removed : with_named own x (find (remove own d)) name ≡ with_named own x (find d) name
    removed = elim (Bool-cases (same_name own name)) [
      | inl same ↦
          ap (λ (b : Bool). if b then some x else find (remove own d) name) same
          ∙ sym (ap (λ (b : Bool). if b then some x else find d name) same)
      | inr differs ↦
          ap (λ (b : Bool). if b then some x else find (remove own d) name) differs
          ∙ find-remove d name
          ∙ ap (λ (b : Bool). if b then none else find d name) differs
          ∙ sym (ap (λ (b : Bool). if b then some x else find d name) differs)
    ]

    by_cases :
        (there : Option A)
        → find d own ≡ there
        → find (add x (if is_there (find d own) then remove own d else d)) name
          ≡ with_named own x (find d) name
    by_cases none e =
        ap (λ o. find (add x (if is_there o then remove own d else d)) name) e ∙ find-add d name e
    by_cases (some y) e =
        ap (λ o. find (add x (if is_there o then remove own d else d)) name) e
        ∙ find-add (remove own d) name (
            find-remove d own
            ∙ ap (λ (b : Bool). if b then none else find d own) (same_name_refl own))
        ∙ removed

put_keeps :
    {D A : Type 0} (find : D → List ℕ → Option A) (add remove : D → D)
    → ((d : D) (name : List ℕ) → find (add d) name ≡ find d name)
    → ((d : D) (name : List ℕ) → find (remove d) name ≡ find d name)
    → (there : Bool) (d : D) (name : List ℕ)
    → find (add (if there then remove d else d)) name ≡ find d name
put_keeps find add remove added removed true d name = added (remove d) name ∙ removed d name
put_keeps find add remove added removed false d name = added d name

for_each_keeps :
    {D X A : Type 0} (find : D → List ℕ → Option A) (put : X → D → D)
    → ((x : X) (d : D) (name : List ℕ) → find (put x d) name ≡ find d name)
    → (xs : List X) (d : D) (name : List ℕ) → find (for_each put xs d) name ≡ find d name
unfolding for_each
for_each_keeps find put keeps [] d name = refl
for_each_keeps find put keeps (x ∷ xs) d name =
    for_each_keeps find put keeps xs (put x d) name ∙ keeps x d name

module _ {D C H K : Type 0} (casa : TableDescs D C H K) (laws : IsTableDescs casa) where
  put_column-with_named :
      (c : C) (d : D) (name : List ℕ)
      → casa.find_column (put_column casa c d) name
        ≡ with_named (casa.name_of c) c (casa.find_column d) name
  unfolding put_column
  put_column-with_named c =
      put-with_named casa.find_column casa.add_column casa.remove_column (casa.name_of c) c
        (laws.find-add c) (laws.find-remove (casa.name_of c))

  put_hypercolumn-with_named :
      (entry : List ℕ × H) (d : D) (name : List ℕ)
      → casa.find_hypercolumn (put_hypercolumn casa entry d) name
        ≡ with_named entry.0 entry.1 (casa.find_hypercolumn d) name
  unfolding put_hypercolumn
  put_hypercolumn-with_named (own, h) =
      put-with_named casa.find_hypercolumn (casa.define_hypercolumn own) casa.remove_hypercolumn own
        h (laws.find-define own h) (laws.find-remove_hypercolumn own)

  -- Each step of one loop keeps what the other loop finds.
  put_hypercolumn-columns :
      (entry : List ℕ × H) (d : D) (name : List ℕ)
      → casa.find_column (put_hypercolumn casa entry d) name ≡ casa.find_column d name
  unfolding put_hypercolumn
  put_hypercolumn-columns (own, h) d name =
      put_keeps casa.find_column (casa.define_hypercolumn own h) (casa.remove_hypercolumn own)
        (laws.define-columns own h) (laws.remove-columns own)
        (is_there (casa.find_hypercolumn d own)) d name

  put_column-hypercolumns :
      (c : C) (d : D) (name : List ℕ)
      → casa.find_hypercolumn (put_column casa c d) name ≡ casa.find_hypercolumn d name
  unfolding put_column
  put_column-hypercolumns c d name =
      put_keeps casa.find_hypercolumn (casa.add_column c) (casa.remove_column (casa.name_of c))
        (laws.add-hypercolumns c) (laws.remove-hypercolumns (casa.name_of c))
        (is_there (casa.find_column d (casa.name_of c))) d name

  -- Where no two columns of the user have one name, and no two hypercolumns, a column of the merged
  -- descriptor is the user's column with its name, or else the required one, and a hypercolumn is
  -- the user's, or else the required one.
  pub merge_required_and_user-over :
      (required user : D) (name : List ℕ)
      → Distinct casa.name_of (λ c. c) (casa.columns user)
      → Distinct (λ (entry : List ℕ × H). entry.0) (λ entry. entry.1) (casa.hypercolumns user)
      → (casa.find_column (merge_required_and_user casa required user) name
          ≡ over
              (first_named casa.name_of (λ c. c) (casa.columns user) name)
              (casa.find_column required name))
        × (casa.find_hypercolumn (merge_required_and_user casa required user) name
            ≡ over
                (first_named
                  (λ (entry : List ℕ × H). entry.0)
                  (λ entry. entry.1)
                  (casa.hypercolumns user)
                  name)
                (casa.find_hypercolumn required name))
  unfolding merge_required_and_user
  merge_required_and_user-over required user name columns hypercolumns =
      let with_columns = for_each (put_column casa) (casa.columns user) required in
      let merged = for_each (put_hypercolumn casa) (casa.hypercolumns user) with_columns in
      (
        laws.keywords-columns (casa.keywords user) merged name
            ∙ for_each_keeps casa.find_column (put_hypercolumn casa) put_hypercolumn-columns
                (casa.hypercolumns user) with_columns name
            ∙ for_each-over casa.name_of (λ c. c) casa.find_column (put_column casa)
                put_column-with_named (casa.columns user) required name columns,
        laws.keywords-hypercolumns (casa.keywords user) merged name
            ∙ for_each-over (λ (entry : List ℕ × H). entry.0) (λ entry. entry.1)
                casa.find_hypercolumn (put_hypercolumn casa) put_hypercolumn-with_named
                (casa.hypercolumns user) with_columns name hypercolumns
            ∙ ap
                (over (
                  first_named (λ (entry : List ℕ × H). entry.0) (λ entry. entry.1)
                    (casa.hypercolumns user) name))
                (for_each_keeps casa.find_hypercolumn (put_column casa) put_column-hypercolumns
                  (casa.columns user) required name),
      )

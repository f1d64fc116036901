-- ===== src/Enum/Names.antt =====
-- The names of an enum's values: searching, printing and parsing one value.
use mulle_obj_c.Base.{
  ℕ, ◌≡◌, refl, true, false, ◌++◌, none, some, List, [], ◌∷◌, ◌==◌, length, drop, Bool-cases, inl,
  inr, ==_iff, if◌then◌else◌,
}
use mulle_obj_c.Enum.{
  Text, Entry, ok, read, has_prefix, starts_with_digit, atoll, table_search, match_name,
  enum_parse_strict, enum_parse, enum_text,
}

pub has_prefix-append : (key rest : Text) → has_prefix key (key ++ rest) ≡ true
unfolding has_prefix
has_prefix-append [] rest = refl
has_prefix-append (k ∷ key) rest =
    let same : (k == k) ≡ true = (==_iff k k).1 refl in rw (same) (has_prefix-append key rest)

-- The name of a line, where there is one.
abbrev pub HasName : Text → Entry → Type 0
HasName name e = e.name ≡ some name

-- Every line has a name, and none of the names begins `s`.
abbrev pub NoneBegins : Text → List Entry → Type 0
NoneBegins s [] = Unit
NoneBegins s (e ∷ table) =
    ((key : Text) × (e.name ≡ some key) × (has_prefix key s ≡ false)) × NoneBegins s table

-- No line has the value.
abbrev pub NoneHas : (item_len value : ℕ) → List Entry → Type 0
NoneHas item_len value [] = Unit
NoneHas item_len value (e ∷ table) =
    ((v : ℕ) × (read item_len e ≡ some v) × ((value == v) ≡ false)) × NoneHas item_len value table

module _ (item_len : ℕ) where
  -- The search passes over lines that have other values.
  table_search-append :
      (earlier later : List Entry) (value : ℕ)
      → NoneHas item_len value earlier
      → table_search item_len (earlier ++ later) value ≡ table_search item_len later value
  unfolding table_search
  table_search-append [] later value h = refl
  table_search-append (e ∷ earlier) later value h =
      rw (h.0.1, table_search, h.0.2) (table_search-append earlier later value h.1)

  -- The match passes over lines whose names do not begin the text.
  pub match_name-append :
      (earlier later : List Entry) (s : Text)
      → NoneBegins s earlier
      → match_name item_len (earlier ++ later) s ≡ match_name item_len later s
  unfolding match_name
  match_name-append [] later s h = refl
  match_name-append (e ∷ earlier) later s h =
      rw (h.0.1, match_name, h.0.2) (match_name-append earlier later s h.1)

  table_search-here :
      (e : Entry) (later : List Entry) (value : ℕ)
      → read item_len e ≡ some value
      → table_search item_len (e ∷ later) value ≡ ok e.name
  unfolding table_search
  table_search-here e later value h =
      let same : (value == value) ≡ true = (==_iff value value).1 refl in
      rw (table_search, h, same) refl

  pub match_name-here :
      (e : Entry) (later : List Entry) (name rest : Text) (value : ℕ)
      → HasName name e
      → read item_len e ≡ some value
      → match_name item_len (e ∷ later) (name ++ rest)
        ≡ ok (some (value, drop (length name) (name ++ rest)))
  unfolding match_name
  match_name-here e later name rest value named h = rw (named, has_prefix-append name rest, h) refl

  -- Let a line of the table have a name and a value. Let the lines before it have names and other
  -- values, and let none of these names begin a text that the name of the line begins, and that does
  -- not start with a digit. Then the value prints as the name, and the text, so also the name itself,
  -- parses to the value.
  pub enum_parse-enum_text :
      (print_hex : ℕ → Text) (earlier later : List Entry) (e : Entry) (name rest : Text) (value : ℕ)
      → HasName name e
      → read item_len e ≡ some value
      → NoneHas item_len value earlier
      → NoneBegins (name ++ rest) earlier
      → starts_with_digit (some (name ++ rest)) ≡ false
      → (enum_text item_len print_hex (earlier ++ (e ∷ later)) value ≡ ok name)
        × (enum_parse item_len (earlier ++ (e ∷ later)) (some (name ++ rest)) ≡ ok value)
  unfolding enum_text enum_parse enum_parse_strict
  enum_parse-enum_text print_hex earlier later e name rest value named h fresh free digit = (
    rw
        (
          enum_text,
          table_search-append earlier (e ∷ later) value fresh,
          table_search-here e later value h,
          named,
        )
        refl,
    rw
        (
          digit,
          enum_parse_strict,
          match_name-append earlier (e ∷ later) (name ++ rest) free,
          match_name-here e later name rest value named h,
        )
        refl,
  )

  table_search-none :
      (table : List Entry) (value : ℕ)
      → NoneHas item_len value table
      → table_search item_len table value ≡ ok none
  unfolding table_search
  table_search-none [] value h = refl
  table_search-none (e ∷ table) value h =
      rw (table_search, h.0.1, h.0.2) (table_search-none table value h.1)

  -- A value that no line has prints as "0" when it is 0 and else as what `print_hex` makes of it.
  -- Where that is digits behind "0x", either text parses to 0. All lines have values that can be read.
  pub enum_parse-unlisted :
      (print_hex digits : ℕ → Text) (table : List Entry) (value : ℕ)
      → ((n : ℕ) → print_hex n ≡ b'0' ∷ b'x' ∷ digits n)
      → NoneHas item_len value table
      → let text : Text = if value == 0 then b'0' ∷ [] else b'0' ∷ b'x' ∷ digits value in
        (enum_text item_len print_hex table value ≡ ok text)
        × (enum_parse item_len table (some text) ≡ ok 0)
  unfolding enum_text enum_parse atoll
  enum_parse-unlisted print_hex digits table value hex fresh = elim (Bool-cases (value == 0)) [
    | inl zero_value ↦
        rw (zero_value) (rw (enum_text, table_search-none table value fresh, zero_value) refl, refl)
    | inr other ↦
        rw (other)
          (rw (enum_text, table_search-none table value fresh, other, hex value) refl, refl)
  ]

-- ===== src/Enum/Flags.antt =====
-- The flags of an options type: parsing a text of names joined by `|`.
use Prim.Native.Nat.{bit_or}
use mathlib.Core.Path.{subst}
use mulle_obj_c.Base.{
  ℕ, zero, suc, ◌≤◌, ◌<◌, ◌≡◌, ◌≢◌, refl, sym, ap, ◌∙◌, false, ◌++◌, Option, none, some, List, [],
  ◌∷◌, ◌==◌, ◌⊎◌, inl, inr, arith, length, drop, Bool-cases, List-cases, Option-cases, All,
}
use mulle_obj_c.Enum.{
  Text, Entry, Result, ok, aborted, out_of_fuel, read, has_prefix, match_name, skip_bar,
  options_loop, options_parse_strict,
}
use mulle_obj_c.Enum.Names.{HasName, NoneBegins, match_name-append, match_name-here}

abbrev pub NoEmptyName : List Entry → Type 0
NoEmptyName = All (λ e. e.name ≢ some [])

length-drop : (n : ℕ) (s : Text) → length (drop n s) ≤ length s
length-drop zero s = omega arith
length-drop (suc n) [] = omega arith
length-drop (suc n) (c ∷ s) = omega (arith, length-drop n s)

length-skip_bar : (s : Text) → length (skip_bar s) ≤ length s
unfolding skip_bar
length-skip_bar [] = omega arith
length-skip_bar (c ∷ []) = omega arith
length-skip_bar (c ∷ d ∷ s) = elim (Bool-cases (c == b'|')) [
  | inl bar ↦ rw (bar) (omega arith)
  | inr other ↦ rw (other) (omega arith)
]

drop-append : (name rest : Text) → drop (length name) (name ++ rest) ≡ rest
drop-append [] rest = refl
drop-append (c ∷ name) rest = drop-append name rest

-- What a search for a name gives: nothing, an abort, or less text than before.
abbrev MatchCases : Result (Option (ℕ × Text)) → ℕ → Type 0
MatchCases r n =
    (r ≡ ok none)
    ⊎ ((r ≡ aborted)
        ⊎ ((value : ℕ) × (rest : Text) × (r ≡ ok (some (value, rest))) × (length rest ≤ n)))

module _ (item_len : ℕ) where
  match_name-cases :
      (table : List Entry) (c : ℕ) (s : Text)
      → NoEmptyName table
      → MatchCases (match_name item_len table (c ∷ s)) (length s)
  unfolding match_name
  match_name-cases [] c s h = inl refl
  match_name-cases (e ∷ table) c s h = elim (Option-cases e.name) [
    | inl nameless ↦ inl (rw (match_name, nameless) refl)
    | inr (key, named) ↦ elim (List-cases key) [
      | inl empty ↦ absurd (h.0 (named ∙ ap some empty))
      | inr (k, key', nonempty) ↦ elim (Bool-cases (has_prefix key (c ∷ s))) [
        | inl begins ↦ elim (Option-cases (read item_len e)) [
          | inl unreadable ↦ inr (inl (rw (match_name, named, begins, unreadable) refl))
          | inr (v, readable) ↦ inr (
              inr (
                v,
                drop (length key) (c ∷ s),
                rw (match_name, named, begins, readable) refl,
                rw (nonempty) (length-drop (length key') s),
              ))
        ]
        | inr other ↦ rw (match_name, named, other) (match_name-cases table c s h.1)
      ]
    ]
  ]

  -- With names that are not empty, parsing flags ends in fewer rounds than the text has bytes, or
  -- one more.
  pub options_loop-ends :
      (fuel : ℕ) (table : List Entry) (s : Text) (value : ℕ)
      → NoEmptyName table
      → length s < fuel
      → options_loop item_len fuel table s value ≢ out_of_fuel
  unfolding options_loop
  options_loop-ends zero table s value h enough = absurd (omega (arith, enough))
  options_loop-ends (suc fuel) table [] value h enough = λ e. cc
  options_loop-ends (suc fuel) table (c ∷ s) value h enough = elim (match_name-cases table c s h) [
    | inl missing ↦ rw (options_loop, missing) (λ e. cc)
    | inr (inl stopped) ↦ rw (options_loop, stopped) (λ e. cc)
    | inr (inr (v, rest, found, shorter)) ↦
        rw (options_loop, found)
          (options_loop-ends fuel table (skip_bar rest) (bit_or value v) h
            (omega (arith, shorter, enough, length-skip_bar rest)))
  ]

  skip_bar-nonempty : (c : ℕ) (s : Text) → (d : ℕ) × (t : Text) × (skip_bar (c ∷ s) ≡ d ∷ t)
  unfolding skip_bar
  skip_bar-nonempty c [] = (c, [], refl)
  skip_bar-nonempty c (d ∷ s) = elim (Bool-cases (c == b'|')) [
    | inl bar ↦ (d, s, rw (bar) refl)
    | inr other ↦ (c, d ∷ s, rw (other) refl)
  ]

  -- An empty name in the table's first line keeps the parser of flags in its loop for good, at
  -- any text but the empty one.
  pub options_loop-hangs :
      (fuel : ℕ) (e : Entry) (table : List Entry) (bits c : ℕ) (s : Text) (value : ℕ)
      → HasName [] e
      → read item_len e ≡ some bits
      → options_loop item_len fuel (e ∷ table) (c ∷ s) value ≡ out_of_fuel
  unfolding options_loop
  options_loop-hangs zero e table bits c s value named h = refl
  options_loop-hangs (suc fuel) e table bits c s value named h =
      let (d, t, stays) = skip_bar-nonempty c s in
      rw (options_loop, match_name-here item_len e table [] (c ∷ s) bits named h, stays)
        (options_loop-hangs fuel e table bits d t (bit_or value bits) named h)

append-nil : (s : Text) → s ++ [] ≡ s
append-nil [] = refl
append-nil (c ∷ s) = ap (λ t. c ∷ t) (append-nil s)

-- No `|` stands in the text.
abbrev pub Barless : Text → Type 0
Barless = All (λ c. (c == b'|') ≡ false)

has_prefix-bar :
    (key name rest : Text)
    → Barless key
    → has_prefix key name ≡ false
    → has_prefix key (name ++ (b'|' ∷ rest)) ≡ false
unfolding has_prefix
has_prefix-bar [] name rest h other = cc
has_prefix-bar (k ∷ key) [] rest h other = rw (h.0) refl
has_prefix-bar (k ∷ key) (c ∷ name) rest h other = elim (Bool-cases (k == c)) [
  | inl same ↦
      let other' : has_prefix key name ≡ false = rw (same) at other in
      rw (same) (has_prefix-bar key name rest h.1 other')
  | inr differs ↦ rw (differs) refl
]

NoneBegins-bar :
    (earlier : List Entry) (name rest : Text)
    → All (λ e. (key : Text) → e.name ≡ some key → Barless key) earlier
    → NoneBegins name earlier
    → NoneBegins (name ++ (b'|' ∷ rest)) earlier
NoneBegins-bar [] name rest plain h = h
NoneBegins-bar (e ∷ earlier) name rest plain h =
    let (key, named, other) = h.0 in
    (
      (key, named, has_prefix-bar key name rest (plain.0 key named) other),
      NoneBegins-bar earlier name rest plain.1 h.1,
    )

-- A flag of the table: its name is not empty, and no earlier line's name begins it or has a `|`.
pub record Flag (item_len : ℕ) (table : List Entry) : Type 0 where
  pub first : ℕ
  pub more : Text
  pub bits : ℕ
  pub earlier : List Entry
  pub line : Entry
  pub later : List Entry
  pub stands : table ≡ earlier ++ (line ∷ later)
  pub named : HasName (first ∷ more) line
  pub readable : read item_len line ≡ some bits
  pub unshadowed : NoneBegins (first ∷ more) earlier
  pub plain : All (λ e. (key : Text) → e.name ≡ some key → Barless key) earlier

module _ (item_len : ℕ) (table : List Entry) where
  -- The names of flags, joined by `|`, and their bits together.
  abbrev pub joined : List (Flag item_len table) → Text
  joined [] = []
  joined (f ∷ []) = f.first ∷ f.more
  joined (f ∷ g ∷ flags) = (f.first ∷ f.more) ++ (b'|' ∷ joined (g ∷ flags))

  abbrev pub together : List (Flag item_len table) → ℕ → ℕ
  together [] value = value
  together (f ∷ flags) value = together flags (bit_or value f.bits)

  match_name-flag :
      (f : Flag item_len table) (rest : Text)
      → NoneBegins ((f.first ∷ f.more) ++ rest) f.earlier
      → match_name item_len table ((f.first ∷ f.more) ++ rest) ≡ ok (some (f.bits, rest))
  match_name-flag f rest free =
      let name : Text = f.first ∷ f.more in
      subst (λ t. match_name item_len t (name ++ rest) ≡ ok (some (f.bits, rest))) (sym f.stands)
        (match_name-append item_len f.earlier (f.line ∷ f.later) (name ++ rest) free
          ∙ match_name-here item_len f.line f.later name rest f.bits f.named f.readable
          ∙ ap (λ t. ok (some (f.bits, t))) (drop-append name rest))

  match_name-last :
      (f : Flag item_len table)
      → match_name item_len table (f.first ∷ f.more) ≡ ok (some (f.bits, []))
  match_name-last f =
      let name : Text = f.first ∷ f.more in
      let whole : name ++ [] ≡ name = append-nil name in
      subst (λ t. match_name item_len table t ≡ ok (some (f.bits, []))) whole
        (match_name-flag f [] (subst (λ t. NoneBegins t f.earlier) (sym whole) f.unshadowed))

  match_name-bar :
      (f : Flag item_len table) (rest : Text)
      → match_name item_len table ((f.first ∷ f.more) ++ (b'|' ∷ rest))
        ≡ ok (some (f.bits, b'|' ∷ rest))
  match_name-bar f rest =
      match_name-flag f (b'|' ∷ rest)
        (NoneBegins-bar f.earlier (f.first ∷ f.more) rest f.plain f.unshadowed)

  skip_bar-joined :
      (g : Flag item_len table) (flags : List (Flag item_len table))
      → skip_bar (b'|' ∷ joined (g ∷ flags)) ≡ joined (g ∷ flags)
  unfolding skip_bar
  skip_bar-joined g [] = refl
  skip_bar-joined g (f ∷ flags) = refl

  options_loop-joined :
      (fuel : ℕ) (flags : List (Flag item_len table)) (value : ℕ)
      → length flags < fuel
      → options_loop item_len fuel table (joined flags) value ≡ ok (some (together flags value))
  unfolding options_loop skip_bar
  options_loop-joined zero flags value enough = absurd (omega (arith, enough))
  options_loop-joined (suc fuel) [] value enough = refl
  options_loop-joined (suc fuel) (f ∷ []) value enough =
      rw (options_loop, match_name-last f)
        (options_loop-joined fuel [] (bit_or value f.bits) (omega (arith, enough)))
  options_loop-joined (suc fuel) (f ∷ g ∷ flags) value enough =
      rw (options_loop, match_name-bar f (joined (g ∷ flags)), skip_bar-joined g flags)
        (options_loop-joined fuel (g ∷ flags) (bit_or value f.bits) (omega (arith, enough)))

  -- The names of flags of the table, joined by `|`, parse to the flags' bits together, with one
  -- round of fuel more than there are flags. No name on the way is empty, is the beginning of one
  -- that stands later, or has a `|` in it.
  pub options_parse_strict-joined :
      (fuel : ℕ) (flags : List (Flag item_len table))
      → length flags < fuel
      → options_parse_strict item_len fuel table (some (joined flags))
        ≡ ok (some (together flags 0))
  unfolding options_parse_strict
  options_parse_strict-joined fuel flags enough = options_loop-joined fuel flags 0 enough

-- ===== src/Enum/Examples.antt =====
-- The names of a small table, with runs of its functions and the theorems at it.
use mulle_obj_c.Base.{◌+◌, ℕ, ◌≡◌, ◌≢◌, refl, some, List, [], ◌∷◌, ◌++◌, arith}
use mulle_obj_c.Enum.{
  Text, Entry, Result, ok, out_of_fuel, read, has_prefix, atoll, table_search, match_name,
  enum_parse_strict, enum_parse, enum_text, skip_bar, options_loop, options_parse_strict,
  options_parse, char_at, all_have, prefix_loop, prefix_length,
}
use mulle_obj_c.Enum.Names.{enum_parse-enum_text, enum_parse-unlisted}
use mulle_obj_c.Enum.Flags.{
  Flag, together, options_parse_strict-joined, options_loop-ends, options_loop-hangs,
}

abbrev red : Text
red = b'r' ∷ b'e' ∷ b'd' ∷ []

abbrev rose : Text
rose = b'r' ∷ b'o' ∷ b's' ∷ b'e' ∷ []

-- "red" is 1, "rose" is 2 and "red" again is 4, in four bytes.
abbrev red_line : Entry
red_line = record { name = some red; value = 1 }

abbrev rose_line : Entry
rose_line = record { name = some rose; value = 2 }

abbrev lines : List Entry
lines = red_line ∷ rose_line ∷ record { name = some red; value = 4 } ∷ []

-- Values up to 9 have one digit.
abbrev hex_digits : ℕ → Text
hex_digits n = (n + b'0') ∷ []

abbrev print_hex : ℕ → Text
print_hex n = b'0' ∷ b'x' ∷ hex_digits n

rose_text : enum_text 4 print_hex lines 2 ≡ ok rose
unfolding enum_text table_search read
rose_text = refl

red_or_rose : options_parse 4 9 lines (some (red ++ (b'|' ∷ rose))) ≡ ok 3
unfolding options_parse options_parse_strict options_loop match_name has_prefix read skip_bar
red_or_rose = refl

bad_size : enum_parse_strict 3 lines (some red) ≡ Result.aborted
unfolding enum_parse_strict match_name has_prefix read
bad_size = refl

digits : enum_parse 4 lines (some (b'1' ∷ b'2' ∷ b'x' ∷ [])) ≡ ok 12
unfolding enum_parse atoll
digits = refl

enum_parse-enum_text_example :
    (enum_text 4 print_hex lines 2 ≡ ok rose)
    × (enum_parse 4 lines (some (rose ++ (b's' ∷ []))) ≡ ok 2)
unfolding read has_prefix
enum_parse-enum_text_example =
    enum_parse-enum_text 4 print_hex (red_line ∷ []) (record { name = some red; value = 4 } ∷ [])
      rose_line rose (b's' ∷ []) 2 refl refl ((1, refl, refl), tt) ((red, refl, refl), tt) refl

abbrev red_flag : Flag 4 lines
red_flag = record {
  first = b'r';
  more = b'e' ∷ b'd' ∷ [];
  bits = 1;
  earlier = [];
  line = red_line;
  later = rose_line ∷ record { name = some red; value = 4 } ∷ [];
  stands = refl;
  named = refl;
  readable = unfold read in refl;
  unshadowed = tt;
  plain = tt;
}

options_parse_strict-joined_example :
    options_parse_strict 4 3 lines (some (red ++ (b'|' ∷ red)))
    ≡ ok (some (together 4 lines (red_flag ∷ red_flag ∷ []) 0))
options_parse_strict-joined_example =
    options_parse_strict-joined 4 lines 3 (red_flag ∷ red_flag ∷ []) (omega arith)

options_loop-ends_example : options_loop 4 5 lines (rose ++ []) 0 ≢ out_of_fuel
options_loop-ends_example =
    options_loop-ends 4 5 lines rose 0 (λ e. cc, (λ e. cc, (λ e. cc, tt))) (omega arith)

abbrev nameless : Entry
nameless = record { name = some []; value = 0 }

options_loop-hangs_example : options_loop 4 1000 (nameless ∷ lines) red 0 ≡ out_of_fuel
unfolding read
options_loop-hangs_example =
    options_loop-hangs 4 1000 nameless lines 0 (b'r') (b'e' ∷ b'd' ∷ []) 0 refl refl

common_prefix : prefix_length (rose ∷ red ∷ []) ≡ 1
unfolding prefix_length prefix_loop all_have char_at
common_prefix = refl

enum_parse-unlisted_example :
    (enum_text 1 print_hex lines 9 ≡ ok (b'0' ∷ b'x' ∷ b'9' ∷ []))
    × (enum_parse 1 lines (some (b'0' ∷ b'x' ∷ b'9' ∷ [])) ≡ ok 0)
unfolding read
enum_parse-unlisted_example =
    enum_parse-unlisted 1 print_hex hex_digits lines 9 (λ n. refl)
      ((1, refl, refl), ((2, refl, refl), ((4, refl, refl), tt)))

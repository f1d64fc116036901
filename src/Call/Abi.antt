-- ===== src/Call/Abi.antt =====
-- The calling convention that src/function/MulleObjCFunctions.h uses: a method takes one parameter,
-- which is a word or the address of a block that is also for the result.
use mulle_obj_c.Base.{ℕ, zero, suc, ◌+◌, ◌-◌, ◌*◌, ◌^◌, List, [], ◌∷◌, ltb, if◌then◌else◌}

-- Values in a parameter block. A floating point value is its bit pattern.
abbrev pub Block : Type 0
Block = List ℕ

pub data Parameter : Type 0 where
  word : ℕ → Parameter
  block : Block → Parameter

-- What a method returned, what stands in its parameter's block then, and the state of all else.
pub record Returned (World : Type 0) : Type 0 where
  pub value : ℕ
  pub block : Block
  pub world : World

-- mulle-objc-runtime: `mulle_objc_object_call`, `mulle_objc_objects_call` and
-- `mulle_objc_implementation_invoke`; what stands in a block on the stack that nobody wrote; and the
-- conversion of a `long double` to a `double`
pub record CallRuntime : Type 1 where
  pub World : Type 0
  pub object_call : World → (obj sel : ℕ) → Parameter → Returned World
  pub objects_call : World → (objects : List ℕ) → (sel : ℕ) → Parameter → World
  pub implementation_invoke : World → (imp obj sel : ℕ) → Parameter → Returned World
  pub stack : Block
  pub to_double : ℕ → ℕ

abbrev pub cell : Block → ℕ → ℕ
cell [] i = 0
cell (x ∷ b) zero = x
cell (x ∷ b) (suc i) = cell b i

-- The machine has 64-bit pointers and an LP64 C compiler.
abbrev pub char_mod : ℕ
char_mod = 2 ^ 8

abbrev pub short_mod : ℕ
short_mod = 2 ^ 16

abbrev pub int_mod : ℕ
int_mod = 2 ^ 32

abbrev pub pointer_mod : ℕ
pointer_mod = 2 ^ 64

abbrev pub size_of_long : ℕ
size_of_long = 8

abbrev pub size_of_long_long : ℕ
size_of_long_long = 8

abbrev pub size_of_pointer : ℕ
size_of_pointer = 8

-- `(intptr_t) value` of a signed type with `m` patterns
abbrev pub sign_extend : (m value : ℕ) → ℕ
sign_extend m value = if ltb (value * 2) m then value else value + pointer_mod - m

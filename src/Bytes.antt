-- ===== src/Bytes.antt =====
-- src/function/NSByteOrder.h: numbers in the byte order of the host, big and little.
pub mod Agree
mod Examples
use mulle_obj_c.Base.{ℕ, Bool, if◌then◌else◌}

pub data Width : Type 0 where
  width16 width32 width64 : Width

pub data Kind : Type 0 where
  float double long_double : Kind

-- mulle-c11: the functions `mulle_swap_uint16`, `mulle_big_uint16_to_host` and so on for the
-- widths, those for the kinds of floating point numbers, with a type for each of them and for its
-- swapped form, and those on ten bytes
pub record ByteOrder : Type 1 where
  pub swap : Width → ℕ → ℕ
  pub big_to_host : Width → ℕ → ℕ
  pub host_to_big : Width → ℕ → ℕ
  pub little_to_host : Width → ℕ → ℕ
  pub host_to_little : Width → ℕ → ℕ
  pub Bytes : Type 0
  pub swap_bytes : Bytes → Bytes
  pub Float : Kind → Type 0
  pub SwappedFloat : Kind → Type 0
  pub float_to_swapped : (kind : Kind) → Float kind → SwappedFloat kind
  pub swapped_to_float : (kind : Kind) → SwappedFloat kind → Float kind
  pub swap_floating : (kind : Kind) → SwappedFloat kind → SwappedFloat kind
  pub big_to_float : (kind : Kind) → SwappedFloat kind → Float kind
  pub float_to_big : (kind : Kind) → Float kind → SwappedFloat kind
  pub little_to_float : (kind : Kind) → SwappedFloat kind → Float kind
  pub float_to_little : (kind : Kind) → Float kind → SwappedFloat kind

-- The values of `enum MulleObjCByteOrder`
pub data Order : Type 0 where
  unknown_byte_order little_endian big_endian : Order

-- `NSHostByteOrder`, by what the compiler says
unfoldable pub host_byte_order : (is_big_endian : Bool) → Order
host_byte_order is_big_endian = if is_big_endian then big_endian else little_endian

-- `lp64` is whether the compiler has `__LP64__`.
module _ (bo : ByteOrder) (lp64 : Bool) where
  unfoldable pub swap_uint16 : ℕ → ℕ
  swap_uint16 value = bo.swap width16 value

  unfoldable pub swap_uint32 : ℕ → ℕ
  swap_uint32 value = bo.swap width32 value

  unfoldable pub swap_short : ℕ → ℕ
  swap_short value = bo.swap width16 value

  unfoldable pub swap_int : ℕ → ℕ
  swap_int value = bo.swap width32 value

  unfoldable pub swap_long_long : ℕ → ℕ
  swap_long_long value = bo.swap width64 value

  unfoldable pub swap_long : ℕ → ℕ
  swap_long value = if lp64 then bo.swap width64 value else bo.swap width32 value

  unfoldable pub swap_10_bytes : bo.Bytes → bo.Bytes
  swap_10_bytes value = bo.swap_bytes value

  unfoldable pub swap_big_short_to_host : ℕ → ℕ
  swap_big_short_to_host value = bo.big_to_host width16 value

  unfoldable pub swap_big_int_to_host : ℕ → ℕ
  swap_big_int_to_host value = bo.big_to_host width32 value

  unfoldable pub swap_big_long_to_host : ℕ → ℕ
  swap_big_long_to_host value =
      if lp64 then bo.big_to_host width64 value else bo.big_to_host width32 value

  unfoldable pub swap_big_long_long_to_host : ℕ → ℕ
  swap_big_long_long_to_host value = bo.big_to_host width64 value

  unfoldable pub swap_host_short_to_big : ℕ → ℕ
  swap_host_short_to_big value = bo.host_to_big width16 value

  unfoldable pub swap_host_int_to_big : ℕ → ℕ
  swap_host_int_to_big value = bo.host_to_big width32 value

  unfoldable pub swap_host_long_to_big : ℕ → ℕ
  swap_host_long_to_big value =
      if lp64 then bo.host_to_big width64 value else bo.host_to_big width32 value

  unfoldable pub swap_host_long_long_to_big : ℕ → ℕ
  swap_host_long_long_to_big value = bo.host_to_big width64 value

  unfoldable pub swap_little_short_to_host : ℕ → ℕ
  swap_little_short_to_host value = bo.little_to_host width16 value

  unfoldable pub swap_little_int_to_host : ℕ → ℕ
  swap_little_int_to_host value = bo.little_to_host width32 value

  unfoldable pub swap_little_long_to_host : ℕ → ℕ
  swap_little_long_to_host value =
      if lp64 then bo.little_to_host width64 value else bo.little_to_host width32 value

  unfoldable pub swap_little_long_long_to_host : ℕ → ℕ
  swap_little_long_long_to_host value = bo.little_to_host width64 value

  unfoldable pub swap_host_short_to_little : ℕ → ℕ
  swap_host_short_to_little value = bo.host_to_little width16 value

  unfoldable pub swap_host_int_to_little : ℕ → ℕ
  swap_host_int_to_little value = bo.host_to_little width32 value

  unfoldable pub swap_host_long_to_little : ℕ → ℕ
  swap_host_long_to_little value =
      if lp64 then bo.host_to_little width64 value else bo.host_to_little width32 value

  unfoldable pub swap_host_long_long_to_little : ℕ → ℕ
  swap_host_long_long_to_little value = bo.host_to_little width64 value

  unfoldable pub convert_host_float_to_swapped : bo.Float float → bo.SwappedFloat float
  convert_host_float_to_swapped value = bo.float_to_swapped float value

  unfoldable pub convert_swapped_float_to_host : bo.SwappedFloat float → bo.Float float
  convert_swapped_float_to_host value = bo.swapped_to_float float value

  unfoldable pub swap_float : bo.SwappedFloat float → bo.SwappedFloat float
  swap_float value = bo.swap_floating float value

  unfoldable pub swap_big_float_to_host : bo.SwappedFloat float → bo.Float float
  swap_big_float_to_host value = bo.big_to_float float value

  unfoldable pub swap_host_float_to_big : bo.Float float → bo.SwappedFloat float
  swap_host_float_to_big value = bo.float_to_big float value

  unfoldable pub swap_little_float_to_host : bo.SwappedFloat float → bo.Float float
  swap_little_float_to_host value = bo.little_to_float float value

  unfoldable pub swap_host_float_to_little : bo.Float float → bo.SwappedFloat float
  swap_host_float_to_little value = bo.float_to_little float value

  unfoldable pub convert_host_double_to_swapped : bo.Float double → bo.SwappedFloat double
  convert_host_double_to_swapped value = bo.float_to_swapped double value

  unfoldable pub convert_swapped_double_to_host : bo.SwappedFloat double → bo.Float double
  convert_swapped_double_to_host value = bo.swapped_to_float double value

  unfoldable pub swap_double : bo.SwappedFloat double → bo.SwappedFloat double
  swap_double value = bo.swap_floating double value

  unfoldable pub swap_big_double_to_host : bo.SwappedFloat double → bo.Float double
  swap_big_double_to_host value = bo.big_to_float double value

  unfoldable pub swap_host_double_to_big : bo.Float double → bo.SwappedFloat double
  swap_host_double_to_big value = bo.float_to_big double value

  unfoldable pub swap_little_double_to_host : bo.SwappedFloat double → bo.Float double
  swap_little_double_to_host value = bo.little_to_float double value

  unfoldable pub swap_host_double_to_little : bo.Float double → bo.SwappedFloat double
  swap_host_double_to_little value = bo.float_to_little double value

  unfoldable pub convert_host_long_double_to_swapped :
      bo.Float long_double → bo.SwappedFloat long_double
  convert_host_long_double_to_swapped value = bo.float_to_swapped long_double value

  unfoldable pub convert_swapped_long_double_to_host :
      bo.SwappedFloat long_double → bo.Float long_double
  convert_swapped_long_double_to_host value = bo.swapped_to_float long_double value

  unfoldable pub swap_long_double : bo.SwappedFloat long_double → bo.SwappedFloat long_double
  swap_long_double value = bo.swap_floating long_double value

  unfoldable pub swap_big_long_double_to_host : bo.SwappedFloat long_double → bo.Float long_double
  swap_big_long_double_to_host value = bo.big_to_float long_double value

  unfoldable pub swap_host_long_double_to_big : bo.Float long_double → bo.SwappedFloat long_double
  swap_host_long_double_to_big value = bo.float_to_big long_double value

  unfoldable pub swap_little_long_double_to_host :
      bo.SwappedFloat long_double → bo.Float long_double
  swap_little_long_double_to_host value = bo.little_to_float long_double value

  unfoldable pub swap_host_long_double_to_little :
      bo.Float long_double → bo.SwappedFloat long_double
  swap_host_long_double_to_little value = bo.float_to_little long_double value

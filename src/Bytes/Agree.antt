-- ===== src/Bytes/Agree.antt =====
-- src/function/NSByteOrder.h: what is written in one byte order and read in the other.
use mulle_obj_c.Base.{
  ap, sym, ◌∙◌, Bool-cases, inl, inr, ℕ, ◌<◌, ◌≡◌, refl, Bool, true, false, if◌then◌else◌,
}
use mulle_obj_c.Bytes.{
  Width, width16, width32, width64, ByteOrder, swap_short, swap_int, swap_long, swap_long_long,
  swap_big_short_to_host, swap_big_int_to_host, swap_big_long_to_host, swap_big_long_long_to_host,
  swap_host_short_to_big, swap_host_int_to_big, swap_host_long_to_big, swap_host_long_long_to_big,
  swap_little_short_to_host, swap_little_int_to_host, swap_little_long_to_host,
  swap_little_long_long_to_host, swap_host_short_to_little, swap_host_int_to_little,
  swap_host_long_to_little, swap_host_long_long_to_little,
}

abbrev pub bound : Width → ℕ
bound width16 = 65536
bound width32 = 4294967296
bound width64 = 18446744073709551616

-- What mulle-c11 documents: swapping twice gives the number back, and a conversion to or from the
-- order of the host swaps just if that is the other one.
pub record ByteOrderLaws (bo : ByteOrder) (is_big_endian : Bool) : Type 0 where
  pub swap_twice : (w : Width) (value : ℕ) → value < bound w → bo.swap w (bo.swap w value) ≡ value
  pub from_big :
      (w : Width) (value : ℕ)
      → bo.big_to_host w value ≡ (if is_big_endian then value else bo.swap w value)
  pub to_big :
      (w : Width) (value : ℕ)
      → bo.host_to_big w value ≡ (if is_big_endian then value else bo.swap w value)
  pub from_little :
      (w : Width) (value : ℕ)
      → bo.little_to_host w value ≡ (if is_big_endian then bo.swap w value else value)
  pub to_little :
      (w : Width) (value : ℕ)
      → bo.host_to_little w value ≡ (if is_big_endian then bo.swap w value else value)

-- The integer types of the functions
pub data Integer : Type 0 where
  short int long long_long : Integer

module _ (bo : ByteOrder) (lp64 : Bool) where
  abbrev pub width_of : Integer → Width
  width_of short = width16
  width_of int = width32
  width_of long = if lp64 then width64 else width32
  width_of long_long = width64

  abbrev pub swap : Integer → ℕ → ℕ
  swap short = swap_short bo lp64
  swap int = swap_int bo lp64
  swap long = swap_long bo lp64
  swap long_long = swap_long_long bo lp64

  abbrev pub big_to_host : Integer → ℕ → ℕ
  big_to_host short = swap_big_short_to_host bo lp64
  big_to_host int = swap_big_int_to_host bo lp64
  big_to_host long = swap_big_long_to_host bo lp64
  big_to_host long_long = swap_big_long_long_to_host bo lp64

  abbrev pub host_to_big : Integer → ℕ → ℕ
  host_to_big short = swap_host_short_to_big bo lp64
  host_to_big int = swap_host_int_to_big bo lp64
  host_to_big long = swap_host_long_to_big bo lp64
  host_to_big long_long = swap_host_long_long_to_big bo lp64

  abbrev pub little_to_host : Integer → ℕ → ℕ
  little_to_host short = swap_little_short_to_host bo lp64
  little_to_host int = swap_little_int_to_host bo lp64
  little_to_host long = swap_little_long_to_host bo lp64
  little_to_host long_long = swap_little_long_long_to_host bo lp64

  abbrev pub host_to_little : Integer → ℕ → ℕ
  host_to_little short = swap_host_short_to_little bo lp64
  host_to_little int = swap_host_int_to_little bo lp64
  host_to_little long = swap_host_long_to_little bo lp64
  host_to_little long_long = swap_host_long_long_to_little bo lp64

  -- Each function is that of mulle-c11 for the width of its type.
  by_width :
      (type : Integer) (value : ℕ)
      → (swap type value ≡ bo.swap (width_of type) value)
        × (((big_to_host type value ≡ bo.big_to_host (width_of type) value)
              × (host_to_big type value ≡ bo.host_to_big (width_of type) value))
            × ((little_to_host type value ≡ bo.little_to_host (width_of type) value)
                × (host_to_little type value ≡ bo.host_to_little (width_of type) value)))
  unfolding swap_short swap_int swap_long swap_long_long swap_big_short_to_host swap_big_int_to_host
      swap_big_long_to_host swap_big_long_long_to_host swap_host_short_to_big swap_host_int_to_big
      swap_host_long_to_big swap_host_long_long_to_big swap_little_short_to_host
      swap_little_int_to_host swap_little_long_to_host swap_little_long_long_to_host
      swap_host_short_to_little swap_host_int_to_little swap_host_long_to_little
      swap_host_long_long_to_little
  by_width short value = (refl, ((refl, refl), (refl, refl)))
  by_width int value = (refl, ((refl, refl), (refl, refl)))
  by_width long value = elim (Bool-cases lp64) [
    | inl wide ↦ rw (wide) (refl, ((refl, refl), (refl, refl)))
    | inr narrow ↦ rw (narrow) (refl, ((refl, refl), (refl, refl)))
  ]
  by_width long_long value = (refl, ((refl, refl), (refl, refl)))

  -- With the laws of mulle-c11, for each of the integer types and a number of its width, on a host
  -- of either order: what is brought from the order of the host to big or little endian and back is
  -- the number again, and swapping the bytes of the big endian form gives the little endian one.
  pub host_to_big-big_to_host :
      (is_big_endian : Bool)
      → ByteOrderLaws bo is_big_endian
      → (type : Integer) (value : ℕ) → value < bound (width_of type)
      → (big_to_host type (host_to_big type value) ≡ value)
        × ((little_to_host type (host_to_little type value) ≡ value)
            × (swap type (host_to_big type value) ≡ host_to_little type value))
  host_to_big-big_to_host true laws type value below =
      let w = width_of type in
      let to = by_width type value in
      let big : host_to_big type value ≡ value = to.1.0.1 ∙ laws.to_big w value in
      let little : host_to_little type value ≡ bo.swap w value =
        to.1.1.1 ∙ laws.to_little w value in
      let from = by_width type value in
      let back = by_width type (bo.swap w value) in
      (
        ap (big_to_host type) big ∙ from.1.0.0 ∙ laws.from_big w value,
        (
          ap (little_to_host type) little
              ∙ back.1.1.0
              ∙ laws.from_little w (bo.swap w value)
              ∙ laws.swap_twice w value below,
          ap (swap type) big ∙ to.0 ∙ sym little,
        ),
      )
  host_to_big-big_to_host false laws type value below =
      let w = width_of type in
      let to = by_width type value in
      let big : host_to_big type value ≡ bo.swap w value = to.1.0.1 ∙ laws.to_big w value in
      let little : host_to_little type value ≡ value = to.1.1.1 ∙ laws.to_little w value in
      let back = by_width type (bo.swap w value) in
      (
        ap (big_to_host type) big
            ∙ back.1.0.0
            ∙ laws.from_big w (bo.swap w value)
            ∙ laws.swap_twice w value below,
        (
          ap (little_to_host type) little ∙ to.1.1.0 ∙ laws.from_little w value,
          ap (swap type) big ∙ back.0 ∙ laws.swap_twice w value below ∙ sym little,
        ),
      )

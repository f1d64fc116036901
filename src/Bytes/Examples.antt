-- ===== src/Bytes/Examples.antt =====
-- A little endian host that has the laws of mulle-c11.
use mulle_obj_c.Base.{ℕ, ◌<◌, ◌+◌, ◌*◌, ◌/◌, ◌%◌, ◌≡◌, refl, true, false, arith}
use mulle_obj_c.Bytes.{Width, width16, width32, width64, ByteOrder, little_endian, host_byte_order}
use mulle_obj_c.Bytes.Agree.{
  ByteOrderLaws, bound, short, little_to_host, host_to_little, host_to_big-big_to_host,
}

-- The two halves of a number change places, which serves as a swap.
abbrev half : Width → ℕ
half width16 = 256
half width32 = 65536
half width64 = 4294967296

abbrev halves : Width → ℕ → ℕ
halves w value = value % half w * half w + value / half w

abbrev little : ByteOrder
little = record {
  swap = halves;
  big_to_host = halves;
  host_to_big = halves;
  little_to_host = λ w value. value;
  host_to_little = λ w value. value;
  Bytes = ℕ;
  swap_bytes = λ bytes. bytes;
  Float = λ kind. ℕ;
  SwappedFloat = λ kind. ℕ;
  float_to_swapped = λ kind value. value;
  swapped_to_float = λ kind value. value;
  swap_floating = λ kind value. value;
  big_to_float = λ kind value. value;
  float_to_big = λ kind value. value;
  little_to_float = λ kind value. value;
  float_to_little = λ kind value. value;
}

halves_twice : (w : Width) (value : ℕ) → value < bound w → halves w (halves w value) ≡ value
halves_twice width16 value below = omega arith
halves_twice width32 value below = omega arith
halves_twice width64 value below = omega arith

little_laws : ByteOrderLaws little false
little_laws = record {
  swap_twice = halves_twice;
  from_big = λ w value. refl;
  to_big = λ w value. refl;
  from_little = λ w value. refl;
  to_little = λ w value. refl;
}

this_host : host_byte_order false ≡ little_endian
unfolding host_byte_order
this_host = refl

there_and_back : (little_to_host little true short (host_to_little little true short 258)) ≡ 258
there_and_back = (host_to_big-big_to_host little true false little_laws short 258 (omega arith)).1.0

-- ===== src/Signature/Layout.antt =====
-- src/class/NSMethodSignature.m: the bytes that a signature allocates, and the lengths it answers.
use mathlib.Core.Path.{subst}
use mathlib.Core.Option.{some-injective}
use native.Mathlib.Nat.{add-mul}
use mulle_obj_c.Base.{
  ap, ◌∙◌, ℕ, ◌+◌, ◌-◌, ◌*◌, ◌%◌, ◌≤◌, ◌<◌, ◌≡◌, ◌↔◌, ltb, List, length, some, arith, inl, inr,
  Bool-cases,
}
use mulle_obj_c.Signature.{
  Types, MethodSignature, filled_signature, method_signature_create, word16,
}

module _ (ty : Types) where
  pub method_signature_create_iff :
      (types : List ℕ) (bits : ℕ) (s : MethodSignature)
      → (method_signature_create ty (some types) bits ≡ some s)
        ↔ ((3 ≤ ty.count_typeinfos types) × (filled_signature ty types bits ≡ s))
  unfolding method_signature_create
  method_signature_create_iff types bits s = elim (Bool-cases (ltb (ty.count_typeinfos types) 3)) [
    | inl short ↦
        (λ e. absurd (ground (arith, short, e)), λ made. absurd (ground (arith, short, made.0)))
    | inr enough ↦ (
      λ e. (
        ground (arith, enough),
        some-injective (filled_signature ty types bits) s (rw enough at e),
      ),
      λ made. rw (enough) (ap some made.1),
    )
  ]

  filled_signature-fits :
      (types : List ℕ) (bits : ℕ)
      → 3 ≤ ty.count_typeinfos types
      → ty.count_typeinfos types < word16
      → ty.count_typeinfos types * ty.sizeof_typeinfo + length types + 1 < word16
      → let s = filled_signature ty types bits in
        (s.types_at + length types + 1 ≡ s.allocated)
        × ((s.count * ty.sizeof_typeinfo ≤ 3 * ty.sizeof_typeinfo + s.types_at)
            × ((3 ≤ s.count) × ((s.extra ≡ s.allocated) × (1 ≤ s.extra))))
  unfolding filled_signature
  filled_signature-fits types bits enough few small =
      let n = ty.count_typeinfos types in
      let size = ty.sizeof_typeinfo in
      let kept : n % word16 ≡ n = omega (arith, few) in
      let split : n ≡ n - 3 + 3 = omega (arith, enough) in
      let parts : n * size ≡ (n - 3) * size + 3 * size =
        ap (λ k. k * size) split ∙ add-mul (n - 3) 3 size in
      rw (kept) (ground (arith, enough, small, parts))

  -- The memory of a signature that is made holds what is written to it: if there are fewer than 2 ^
  -- 16 types, and the infos with the string take less than 2 ^ 16 bytes, then the infos end where
  -- the copy of the string begins or before, the copy with its 0 ends where the memory ends, there
  -- are infos for the return value, self and _cmd, and the extra size is recorded as it is and is
  -- not 0.
  pub method_signature_create-fits :
      (types : List ℕ) (bits : ℕ) (s : MethodSignature)
      → method_signature_create ty (some types) bits ≡ some s
      → ty.count_typeinfos types < word16
      → ty.count_typeinfos types * ty.sizeof_typeinfo + length types + 1 < word16
      → (s.types_at + length types + 1 ≡ s.allocated)
        × ((s.count * ty.sizeof_typeinfo ≤ 3 * ty.sizeof_typeinfo + s.types_at)
            × ((3 ≤ s.count) × ((s.extra ≡ s.allocated) × (1 ≤ s.extra))))
  method_signature_create-fits types bits s e few small =
      let made = (method_signature_create_iff types bits s).0 e in
      subst
        (λ s.
          (s.types_at + length types + 1 ≡ s.allocated)
          × ((s.count * ty.sizeof_typeinfo ≤ 3 * ty.sizeof_typeinfo + s.types_at)
              × ((3 ≤ s.count) × ((s.extra ≡ s.allocated) × (1 ≤ s.extra)))))
        made.1 (filled_signature-fits types bits made.0 few small)

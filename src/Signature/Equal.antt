-- ===== src/Signature/Equal.antt =====
-- src/class/NSMethodSignature.m: equality and hashes of signatures, and the indexes of arguments.
use mathlib.Core.Path.{subst}
use mulle_obj_c.Base.{
  ℕ, ap, ◌∙◌, sym, ◌-◌, ◌≤◌, ◌<◌, ◌≡◌, ◌≢◌, ◌↔◌, refl, true, ◌==◌, ==_iff, &&-split, List, [], ◌∷◌,
  none, some, arith, inl, inr, Bool-cases,
}
use mulle_obj_c.Signature.{
  Types, MethodSignature, Other, filled_signature, method_signature_create, number_of_arguments,
  frame_length, method_return_length, get_argument_type_at_index, hash, is_equal, same_string,
  word16, word64,
}
use mulle_obj_c.Signature.Layout.{method_signature_create_iff}

same_string_iff : (a b : List ℕ) → (same_string a b ≡ true) ↔ (a ≡ b)
same_string_iff a b = (λ h. same a b h, λ e. subst (λ b. same_string a b ≡ true) e (itself a))
  where
    same : (a b : List ℕ) → same_string a b ≡ true → a ≡ b
    same [] [] h = refl
    same [] (y ∷ ys) h = ground (arith, h)
    same (x ∷ xs) [] h = ground (arith, h)
    same (x ∷ xs) (y ∷ ys) h =
        let both = &&-split h in
        let head : x ≡ y = (==_iff x y).0 both.0 in
        let rest = same xs ys both.1 in rw (head, rest) refl

    itself : (a : List ℕ) → same_string a a ≡ true
    itself [] = refl
    itself (x ∷ xs) = let here : (x == x) ≡ true = (==_iff x x).1 refl in rw (here) (itself xs)

-- What two signatures have in common that are equal.
abbrev pub Alike : MethodSignature → MethodSignature → Type 0
Alike s s' =
    (hash s ≡ hash s')
    × ((number_of_arguments s ≡ number_of_arguments s')
        × ((frame_length s ≡ frame_length s')
            × ((method_return_length s ≡ method_return_length s')
                × ((i : ℕ) → get_argument_type_at_index s i ≡ get_argument_type_at_index s' i))))

filled_signature-Alike :
    (ty : Types) (types : List ℕ) (bits bits' : ℕ)
    → Alike (filled_signature ty types bits) (filled_signature ty types bits')
unfolding filled_signature hash number_of_arguments frame_length method_return_length
    get_argument_type_at_index
filled_signature-Alike ty types bits bits' = (refl, (refl, (refl, (refl, λ i. refl))))

module _ (ty : Types) (types types' : List ℕ) (bits bits' : ℕ) (s s' : MethodSignature)
    (address : ℕ) (other : Other) (e : method_signature_create ty (some types) bits ≡ some s)
    (e' : method_signature_create ty (some types') bits' ≡ some s')
    (there : other.signature ≡ some s') (one : address ≡ other.address → types ≡ types') where
  is_equal_iff : (is_equal address s other ≡ true) ↔ (types ≡ types')
  unfolding is_equal filled_signature
  is_equal_iff =
      let made = ((method_signature_create_iff ty types bits s).0 e).1 in
      let made' = ((method_signature_create_iff ty types' bits' s').0 e').1 in
      let own : types ≡ s.types = ap (λ s. s.types) made in
      let own' : types' ≡ s'.types = ap (λ s. s.types) made' in
      elim (Bool-cases (address == other.address)) [
        | inl same ↦ (λ h. one ((==_iff _ _).0 same), λ h. rw (same) refl)
        | inr different ↦
            let strings = same_string_iff s.types s'.types in
            (
              λ h. own ∙ strings.0 (rw (different, there) at h) ∙ sym own',
              λ h. rw (different, there) (strings.1 (sym own ∙ h ∙ own')),
            )
      ]

  -- Let two signatures be made from strings of types, whatever their bits are, and let signatures
  -- at one address have one string. If `-isEqual:` of the one says that the other is equal, then
  -- both have the same hash, the same number of arguments, the same lengths, and the same types of
  -- their arguments.
  pub is_equal-Alike : is_equal address s other ≡ true → Alike s s'
  is_equal-Alike h =
      let made = ((method_signature_create_iff ty types bits s).0 e).1 in
      let made' = ((method_signature_create_iff ty types' bits' s').0 e').1 in
      let same = is_equal_iff.0 h in
      let alike : Alike (filled_signature ty types bits) (filled_signature ty types' bits') =
        subst (λ types'. Alike (filled_signature ty types bits) (filled_signature ty types' bits'))
          same (filled_signature-Alike ty types bits bits') in
      subst (λ s'. Alike s s') made'
        (subst (λ s. Alike s (filled_signature ty types' bits')) made alike)

-- `-getArgumentTypeAtIndex:` raises for an index that is no argument's, but not for the largest
-- number, for which it returns the type of the return value. The index is a 64 bit number, and there
-- is at least the return value.
pub get_argument_type_at_index_iff :
    (s : MethodSignature) (i : ℕ)
    → i < word64
    → 1 ≤ s.count
    → s.count < word16
    → (get_argument_type_at_index s i ≡ none) ↔ ((number_of_arguments s ≤ i) × (i ≢ word64 - 1))
unfolding get_argument_type_at_index number_of_arguments
get_argument_type_at_index_iff s i below some_infos few = ground arith

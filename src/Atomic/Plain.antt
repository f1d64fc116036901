-- ===== src/Atomic/Plain.antt =====
-- An integer on which every call takes one step, which the atomic integers stand for.
use Prim.Native.Nat.{bit_and, bit_or}
use mulle_obj_c.Base.{ℕ, Option, none, some, List, [], ◌∷◌, ◌++◌, ◌≡◌, refl, ap}
use mulle_obj_c.Atomic.{
  Stage, reading, swapping, returned, Call, get_call, update_call, masked_or_call, or_call,
  set_call, signed_get_call, signed_update_call, signed_set_call,
}

-- What a call means on a plain integer: the value after it and the result.
abbrev pub meaning : Call → (old : ℕ) → ℕ × ℕ
meaning get_call old = (old, old)
meaning (update_call value) old = (value, old)
meaning (masked_or_call mask bits) old = (bit_or (bit_and old mask) bits, old)
meaning (or_call bits) old = (bit_or old bits, old)
meaning (set_call value) old = (value, 0)
meaning signed_get_call old = (old, old)
meaning (signed_update_call value) old = (value, old)
meaning (signed_set_call value) old = (value, 0)

-- An integer on which every call is one step, and the calls with their results
abbrev pub Plain : Type 0
Plain = ℕ × List (Call × Option ℕ)

pub data PlainStep : Plain → Plain → Type 0 where
  at_once :
      (value : ℕ) (before : List (Call × Option ℕ)) (call : Call) (after : List (Call × Option ℕ))
      → PlainStep
          (value, before ++ ((call, none) ∷ after))
          ((meaning call value).0, before ++ ((call, some (meaning call value).1) ∷ after))
  plain_begin :
      (value : ℕ) (call : Call) (calls : List (Call × Option ℕ))
      → PlainStep (value, calls) (value, (call, none) ∷ calls)

pub data PlainReach (value : ℕ) : Plain → Type 0 where
  plain_start : PlainReach value (value, [])
  plain_next : {t t' : Plain} → PlainReach value t → PlainStep t t' → PlainReach value t'

-- What a caller can see of a thread
abbrev pub result_of : Stage → Option ℕ
result_of reading = none
result_of (swapping old) = none
result_of (returned result) = some result

abbrev pub results : List (Call × Stage) → List (Call × Option ℕ)
results [] = []
results (t ∷ ts) = (t.0, result_of t.1) ∷ results ts

pub results-append : (xs ys : List (Call × Stage)) → results (xs ++ ys) ≡ results xs ++ results ys
results-append [] ys = refl
results-append (t ∷ ts) ys = ap (λ rest. (t.0, result_of t.1) ∷ rest) (results-append ts ys)

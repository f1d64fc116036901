-- ===== src/Atomic/Instance.antt =====
-- An atomic pointer that has the laws of mulle-thread, for examples.
use mulle_obj_c.Base.{ℕ, ◌≡◌, refl, true, false, if◌then◌else◌, ◌==◌, ==_iff, arith}
use mulle_obj_c.Atomic.{AtomicPointer, AtomicPointerLaws}

-- A pointer is its value.
abbrev pub pointer : AtomicPointer
pointer = record {
  Pointer = ℕ;
  read = λ p. p;
  cas = λ p value expect. if p == expect then (true, value) else (false, p);
}

pub pointer_laws : AtomicPointerLaws pointer
pointer_laws = record {
  cas_expected = λ p value expect e. rw ((==_iff p expect).1 e) (refl, refl);
  cas_changed = λ p value expect other.
      let no : (p == expect) ≡ false = ground (arith, other) in rw (no) (refl, refl);
}

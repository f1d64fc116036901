-- ===== src/Transfer/Examples.antt =====
-- Object 5 is handed over, 6 finds the pointer taken, and the theorem at it.
use mulle_obj_c.Base.{
  ◌+◌, [], ◌∷◌, List, ◌≡◌, refl, arith, hit, times, total, ◌==◌, if◌then◌else◌, ==_iff, false,
}
use mulle_obj_c.Atomic.Instance.{pointer, pointer_laws}
use mulle_obj_c.Transfer.{
  Exchange, ExchangeLaws, entering, returned, Shared, Request, Stage, acquire_request,
  recycle_request, acquire_pointer_atomically, acquire_object_atomically,
  recycle_pointer_atomically, recycle_object_atomically, advance, thread, begin, Reach, start, next,
}
use mulle_obj_c.Transfer.Conserve.{held, Reach-handed_over}

abbrev exchange : Exchange pointer
exchange = record { cas_actual = λ p value expect. (p, if p == expect then value else p) }

exchange_laws : ExchangeLaws pointer exchange
exchange_laws = record {
  actual = λ p value expect. refl;
  actual_expected = λ p value expect e. rw ((==_iff p expect).1 e) refl;
  actual_changed = λ p value expect other.
      let no : (p == expect) ≡ false = ground (arith, other) in rw (no) refl;
}

abbrev handed : Shared pointer × List (Request × Stage)
handed = (
  record { pointer = 0; gained = 5 ∷ 6 ∷ []; relinquished = 6 ∷ 5 ∷ [] },
  (acquire_request, returned 5)
      ∷ (recycle_request 6, returned 0)
      ∷ (recycle_request 5, returned 1)
      ∷ [],
)

five_and_six : Reach pointer exchange 0 handed
unfolding advance acquire_object_atomically acquire_pointer_atomically recycle_object_atomically
    recycle_pointer_atomically
five_and_six =
    let one = next (next start (begin _ (recycle_request 5) [])) (begin _ (recycle_request 6) _) in
    let all = next one (begin _ acquire_request _) in
    let a = next all (thread _ (_ ∷ _ ∷ []) (recycle_request 5) entering []) in
    let b = next a (thread _ (_ ∷ _ ∷ []) (recycle_request 5) _ []) in
    let c = next b (thread _ (_ ∷ []) (recycle_request 6) _ _) in
    let d = next c (thread _ (_ ∷ []) (recycle_request 6) _ _) in
    let e = next d (thread _ (_ ∷ []) (recycle_request 6) _ _) in
    let f = next e (thread _ [] acquire_request _ _) in
    let g = next f (thread _ [] acquire_request _ _) in next g (thread _ [] acquire_request _ _)

Reach-handed_over_example :
    times 5 (6 ∷ 5 ∷ []) + hit 0 5 ≡ times 5 (5 ∷ 6 ∷ []) + hit 0 5 + total (held 5) handed.1
Reach-handed_over_example =
    Reach-handed_over pointer pointer_laws exchange exchange_laws 5 (λ e. omega (arith, e))
      five_and_six

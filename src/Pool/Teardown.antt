-- ===== src/Pool/Teardown.antt =====
-- Emptying the stack of pools: `-dealloc`, and the reset and the end of a thread's pools.
use mulle_obj_c.Base.{
  ℕ, zero, suc, ◌+◌, ◌≡◌, ◌≢◌, ◌<◌, refl, ap, ◌∙◌, true, false, none, List, [], ◌∷◌, arith, ◌==◌,
  Bool-cases, inl, inr, length, ==_iff,
}
use mulle_obj_c.Array.{ObjectId, nil}
use mulle_obj_c.Pool.Runtime.{Runtime, MapLaws}
use mulle_obj_c.Pool.Ops.{Pool, Config, Outcome, done, aborted, out_of_fuel, Outcome-cases, push}
use mulle_obj_c.Pool.Drain.{pop_one, pop_loop, pop}
use mulle_obj_c.Pool.Ledger.{live, heap_arrays, releases, autoreleases, creations, frees}
use mulle_obj_c.Pool.Pop.{RanksBelow, Ranked, AllBooks, pop_lem}

module _ (rt : Runtime) (fuel : ℕ) where
  -- `while( config->tail) (*config->pop)( config, config->tail);`
  pub pop_all_loop : (rounds : ℕ) → Config rt → Outcome (Config rt)
  pop_all_loop zero c = out_of_fuel
  pop_all_loop (suc rounds) c = elim c.tail [
    | [] ↦ done c
    | p ∷ _ ↦ elim (pop rt fuel c p.adr) [
      | done c' ↦ pop_all_loop rounds c'
      | aborted ↦ aborted
      | out_of_fuel ↦ out_of_fuel
    ]
  ]

  pub pop_all : Config rt → Outcome (Config rt)
  pop_all c = pop_all_loop (suc (length c.tail)) c

  -- `_mulle_objc_poolconfiguration_reset`, where the new pool gets the address `adr`
  pub reset : Config rt → (adr : ℕ) → Outcome (Config rt)
  reset c adr = elim (pop_all c) [
    | done c' ↦ done (push rt adr c')
    | aborted ↦ aborted
    | out_of_fuel ↦ out_of_fuel
  ]

  -- `_mulle_objc_poolconfiguration_done`
  pub finish : Config rt → Outcome (Config rt)
  finish c = elim (pop_all c) [
    | done c' ↦ done (record c' { object_map = none })
    | aborted ↦ aborted
    | out_of_fuel ↦ out_of_fuel
  ]

  -- `while( pool = config->tail)` of -dealloc, which pops the pools one by one up to `self`, and then
  -- checks in to the garbage collection of the universe: `checkin` is
  -- `_mulle_objc_thread_checkin_universe_gc` of mulle-objc-runtime, on the state that it keeps.
  pub dealloc_loop :
      {Gc : Type 0} (checkin : Gc → Gc) (rounds : ℕ)
      → Config rt
      → (gc : Gc) → (self : ℕ) → Outcome (Config rt × Gc)
  dealloc_loop checkin zero c gc self = out_of_fuel
  dealloc_loop checkin (suc rounds) c gc self = elim c.tail [
    | [] ↦ aborted
    | p ∷ _ ↦ elim (pop rt fuel c p.adr) [
      | done c' ↦ elim (p.adr == self) [
        | true ↦ done (c', checkin gc)
        | false ↦ dealloc_loop checkin rounds c' gc self
      ]
      | aborted ↦ aborted
      | out_of_fuel ↦ out_of_fuel
    ]
  ]

  pub dealloc :
      {Gc : Type 0} (checkin : Gc → Gc)
      → Config rt
      → (gc : Gc) → (self : ℕ) → Outcome (Config rt × Gc)
  dealloc checkin c gc self = dealloc_loop checkin (suc (length c.tail)) c gc self

  -- To pop the innermost pool takes one round.
  pop_innermost :
      (p : Pool) (owner : List Pool) (c : Config rt)
      → pop rt fuel (record c { tail = p ∷ owner }) p.adr
        ≡ pop_one rt fuel (record c { tail = p ∷ owner })
  unfolding pop pop_loop
  pop_innermost p owner c =
      let here : (p.adr == p.adr) ≡ true = (==_iff _ _).1 refl in
      elim (Outcome-cases (pop_one rt fuel (record c { tail = p ∷ owner }))) [
        | inl (c', e) ↦ rw (e, here, pop_loop)
        | inr (inl e) ↦ rw (e, pop_loop)
        | inr (inr e) ↦ rw (e, pop_loop)
      ]

  -- The pools as they are after `popAutoreleasePool`, where it returns, with a check in
  abbrev pub checked_in :
      {Gc : Type 0} (checkin : Gc → Gc) (gc : Gc) → Outcome (Config rt) → Outcome (Config rt × Gc)
  checked_in checkin gc (done c) = done (c, checkin gc)
  checked_in checkin gc aborted = aborted
  checked_in checkin gc out_of_fuel = out_of_fuel

  dealloc_at :
      {Gc : Type 0} (checkin : Gc → Gc) (gc : Gc) (rounds : ℕ) (t : List Pool) (c : Config rt)
      → (self : ℕ)
      → dealloc_loop checkin rounds (record c { tail = t }) gc self
        ≡ checked_in checkin gc (pop_loop rt rounds fuel (record c { tail = t }) self)
  unfolding dealloc_loop pop_loop
  dealloc_at checkin gc zero t c self = refl
  dealloc_at checkin gc (suc rounds) [] c self = unfold pop_one in refl
  dealloc_at checkin gc (suc rounds) (p ∷ owner) c self =
      elim (Outcome-cases (pop_one rt fuel (record c { tail = p ∷ owner }))) [
        | inl (c', e) ↦ elim (Bool-cases (p.adr == self)) [
          | inl here ↦ rw (dealloc_loop, pop_innermost, pop_loop, e, here)
          | inr other ↦
              rw (dealloc_loop, pop_innermost, pop_loop, e, other)
                (dealloc_at checkin gc rounds c'.tail c' self)
        ]
        | inr (inl e) ↦ rw (dealloc_loop, pop_innermost, pop_loop, e)
        | inr (inr e) ↦ rw (dealloc_loop, pop_innermost, pop_loop, e)
      ]

  -- -dealloc of a pool does to the pools what `popAutoreleasePool` does with that pool, aborts if
  -- that does, and checks in to the garbage collection of the universe once, if that returns.
  pub dealloc-pop :
      {Gc : Type 0} (checkin : Gc → Gc) (gc : Gc) (c : Config rt) (self : ℕ)
      → dealloc checkin c gc self ≡ checked_in checkin gc (pop rt fuel c self)
  unfolding dealloc pop
  dealloc-pop checkin gc c self = dealloc_at checkin gc (suc (length c.tail)) c.tail c self

module _ (rt : Runtime) (laws : MapLaws rt) (rank : ObjectId → ℕ) (ranked : Ranked rank rt)
    (fuel b : ℕ) (enough : b + 1 < fuel) where
  -- `while( config->tail)` ends with no pool left, and the books balance.
  pop_all_at :
      (rounds : ℕ) (t : List Pool) (c : Config rt)
      → length t < rounds
      → RanksBelow rank b t
      → AllBooks rt (record c { tail = t })
      → (c' : Config rt) × (pop_all_loop rt fuel rounds (record c { tail = t }) ≡ done c')
        × (c'.tail ≡ [])
        × AllBooks rt c'
  unfolding pop_all_loop
  pop_all_at zero t c lt r books = absurd (omega arith)
  pop_all_at (suc rounds) [] c lt r books = (record c { tail = [] }, refl, refl, books)
  pop_all_at (suc rounds) (p ∷ owner) c lt r books =
      let here : (p.adr == p.adr) ≡ true = (==_iff _ _).1 refl in
      let (c', e, tail, books') =
        pop_lem rt laws rank ranked fuel b enough (record c { tail = p ∷ owner }) p.adr r
          (rw here refl) books in
      let left : c'.tail ≡ owner = tail ∙ rw here refl in
      let (c'', e', empty, books'') =
        pop_all_at rounds c'.tail c' (omega (arith, ap length left)) (rw left r.1) books' in
      (c'', rw (pop_all_loop, e) e', empty, books'')

  -- Let releasing an object autorelease only objects of lower rank, the objects in the pools be of
  -- rank below a bound, the fuel be more than the bound and one, the map have its laws, and the books
  -- balance at first. Then `_mulle_objc_poolconfiguration_done` returns with no pool left, every
  -- object has by then been released as often as it was autoreleased, and every array that was
  -- allocated is freed.
  pub finish_lem :
      (c : Config rt)
      → RanksBelow rank b c.tail
      → AllBooks rt c
      → (c' : Config rt) × (finish rt fuel c ≡ done c')
        × (c'.tail ≡ [])
        × ((x : ObjectId)
            → x ≢ nil
            → (releases x c'.history ≡ autoreleases x c'.history)
              × (frees c'.history ≡ creations c'.history))
  unfolding finish pop_all
  finish_lem c r books =
      let (c', e, empty, books') =
        pop_all_at (suc (length c.tail)) c.tail c (omega arith) r books in
      (
        record c' { object_map = none },
        rw (pop_all, e, finish),
        empty,
        λ x named. (
          omega (arith, (books' x named).refs, ap (live x) empty),
          omega (arith, (books' x named).arrays, ap heap_arrays empty),
        ),
      )

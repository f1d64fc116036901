-- ===== src/Pool/Api/Scope.antt =====
-- Objects that a program autoreleases between pushing and popping a pool.
use mathlib.Core.Path.{subst}
use mulle_obj_c.Base.{
  ℕ, ◌+◌, ◌≡◌, ◌≢◌, ◌<◌, ◌≤◌, ap, not, ◌&&◌, total, if◌then◌else◌, ◌⊎◌, refl, sym, ◌∙◌, some, true,
  false, List, [], ◌∷◌, arith, ◌==◌, Bool-cases, inl, inr, All, ==_iff,
}
use mulle_obj_c.Array.{ObjectId, nil, init}
use mulle_obj_c.Pool.Runtime.{Runtime, MapLaws}
use mulle_obj_c.Pool.Ops.{Pool, Config, done, autorelease_object, push}
use mulle_obj_c.Pool.Induct.{Chain}
use mulle_obj_c.Pool.Frame.{put, tail-autorelease_object}
use mulle_obj_c.Pool.Total.{Chain-put}
use mulle_obj_c.Pool.Ledger.{autoreleases, releases, live}
use mulle_obj_c.Pool.Later.{autorelease_object-counts, autorelease_object-Later, pop-Later}
use mulle_obj_c.Pool.Ledger.Add.{autorelease_object-Books, push-Books}
use mulle_obj_c.Pool.Pop.{RanksBelow, Ranked, AllBooks, pop_lem}
use mulle_obj_c.Pool.Api.{
  default_universeid, Universes, universe_pool_push, push_autorelease_pool, autorelease_pool_pop,
  pop_autorelease_pool, objc_autorelease_object, ns_autorelease_object,
}

module _ (rt : Runtime) where
  -- A program that autoreleases objects one after the other
  abbrev pub autorelease_each : List ObjectId → Config rt → Config rt
  autorelease_each [] config = config
  autorelease_each (obj ∷ objs) config =
      autorelease_each objs (ns_autorelease_object rt obj config).1

  -- The innermost pool is the one at `adr`, has objects of rank below `b` and the owners `owner`.
  abbrev Inner : (rank : ObjectId → ℕ) → (b adr : ℕ) → List Pool → List Pool → Type 0
  Inner rank b adr owner t =
      (p : Pool) × (t ≡ p ∷ owner) × (p.adr ≡ adr) × Chain (λ y. rank y < b) p.storage

  ns_autorelease_object-Inner :
      (rank : ObjectId → ℕ) (b adr : ℕ) (owner : List Pool) (c : Config rt) (obj : ObjectId)
      → rank obj < b
      → Inner rank b adr owner c.tail
      → Inner rank b adr owner (ns_autorelease_object rt obj c).1.tail
  unfolding ns_autorelease_object objc_autorelease_object
  ns_autorelease_object-Inner rank b adr owner c obj low (p, e, at, ranks) =
      elim (Bool-cases (obj == nil)) [
        | inl empty ↦ rw (empty) (p, e, at, ranks)
        | inr there ↦ rw (there) (
            subst
              (λ (t : List Pool).
                Inner rank b adr owner (autorelease_object rt (record c { tail = t }) obj).tail)
              (sym e) (after (tail-autorelease_object rt p owner c obj)))
      ]
    where
      after :
          ((autorelease_object rt (record c { tail = p ∷ owner }) obj).tail ≡ p ∷ owner)
            ⊎ ((autorelease_object rt (record c { tail = p ∷ owner }) obj).tail
                ≡ record p { storage = put rt p.storage obj } ∷ owner)
          → Inner rank b adr owner (autorelease_object rt (record c { tail = p ∷ owner }) obj).tail
      after (inl same) = (p, same, at, ranks)
      after (inr grown) = (
        record p { storage = put rt p.storage obj },
        grown,
        at,
        Chain-put rt (λ y. rank y < b) p.storage obj low ranks,
      )

  ns_autorelease_object-AllBooks :
      (laws : MapLaws rt) (c : Config rt) (obj : ObjectId)
      → AllBooks rt c
      → AllBooks rt (ns_autorelease_object rt obj c).1
  unfolding ns_autorelease_object objc_autorelease_object
  ns_autorelease_object-AllBooks laws c obj books = elim (Bool-cases (obj == nil)) [
    | inl empty ↦ rw (empty) books
    | inr there ↦ rw (there) (λ x named. autorelease_object-Books rt x laws c obj (books x named))
  ]

  autorelease_each-Inner :
      (laws : MapLaws rt) (rank : ObjectId → ℕ) (b adr : ℕ) (owner : List Pool)
      (objs : List ObjectId) (c : Config rt)
      → All (λ x. rank x < b) objs
      → Inner rank b adr owner c.tail
      → AllBooks rt c
      → Inner rank b adr owner (autorelease_each objs c).tail
        × AllBooks rt (autorelease_each objs c)
  autorelease_each-Inner laws rank b adr owner [] c low inner books = (inner, books)
  autorelease_each-Inner laws rank b adr owner (obj ∷ objs) c (l, low) inner books =
      autorelease_each-Inner laws rank b adr owner objs _ low
        (ns_autorelease_object-Inner rank b adr owner c obj l inner)
        (ns_autorelease_object-AllBooks laws c obj books)

  -- How often an object is in a list
  abbrev pub times : ObjectId → List ObjectId → ℕ
  times x objs = total (λ obj. if obj == x then 1 else 0) objs

  ns_autorelease_object-counts :
      (x obj : ObjectId) (p : Pool) (owner : List Pool) (c : Config rt)
      → x ≢ nil
      → rt.is_constant x ≡ false
      → c.tail ≡ p ∷ owner
      → (if obj == x then 1 else 0) + autoreleases x c.history
        ≤ autoreleases x (ns_autorelease_object rt obj c).1.history
  unfolding ns_autorelease_object objc_autorelease_object
  ns_autorelease_object-counts x obj p owner c named counted e = elim (Bool-cases (obj == nil)) [
    | inl empty ↦
        let other : (obj == x) ≡ false = ground (arith, empty, named) in
        rw (empty, other) (omega arith)
    | inr there ↦ rw (there) (elim (Bool-cases (obj == x)) [
      | inl here ↦
          let goes : (not (obj == nil) && rt.is_constant obj) ≡ false =
            rw ((==_iff obj x).0 here, counted) (ground arith) in
          subst
            (λ (t : List Pool).
              (if obj == x then 1 else 0) + autoreleases x c.history
              ≤ autoreleases x (autorelease_object rt (record c { tail = t }) obj).history)
            (sym e) (omega (arith, autorelease_object-counts rt x p owner c obj goes))
      | inr other ↦ rw (other) (omega (arith, autorelease_object-Later rt x c obj))
    ])
  ]

  autorelease_each-counts :
      (rank : ObjectId → ℕ) (b adr : ℕ) (owner : List Pool) (x : ObjectId)
      → x ≢ nil
      → rt.is_constant x ≡ false
      → (objs : List ObjectId) (c : Config rt) → All (λ y. rank y < b) objs
      → Inner rank b adr owner c.tail
      → times x objs + autoreleases x c.history ≤ autoreleases x (autorelease_each objs c).history
  autorelease_each-counts rank b adr owner x named counted [] c low inner = omega arith
  autorelease_each-counts rank b adr owner x named counted (obj ∷ objs) c (l, low) inner = omega (
    arith,
    ns_autorelease_object-counts x obj inner.0 owner c named counted inner.1,
    autorelease_each-counts rank b adr owner x named counted objs (ns_autorelease_object rt obj c).1
        low (ns_autorelease_object-Inner rank b adr owner c obj l inner),
  )

  -- A pool is pushed in a thread that has pools for the default universe, objects are autoreleased,
  -- and the pool is popped, all by the functions that programs call. Let releasing an object
  -- autorelease only objects of lower rank, the objects in the pools and those autoreleased be of
  -- rank below a bound, the fuel be more than the bound and one, the map have its laws, and the books
  -- balance at first. Then the pop returns, the other pools are as they were, the books balance, and
  -- every object that is not nil or constant was released at least as often as it was autoreleased.
  pub pop_autorelease_pool-push_autorelease_pool :
      (laws : MapLaws rt) (rank : ObjectId → ℕ) (ranked : Ranked rank rt) (fuel b : ℕ)
      → b + 1 < fuel
      → (universes : Universes rt) (c : Config rt) (adr size : ℕ) (objs : List ObjectId)
      → universes default_universeid ≡ some c
      → adr ≢ 0
      → RanksBelow rank b c.tail
      → All (λ x. rank x < b) objs
      → AllBooks rt c
      → (c1 c' : Config rt) × ((push_autorelease_pool rt adr size universes).1 default_universeid
          ≡ some c1)
        × (pop_autorelease_pool rt fuel
              (push_autorelease_pool rt adr size universes).0
              (autorelease_each objs c1)
            ≡ done c')
        × (c'.tail ≡ c.tail)
        × AllBooks rt c'
        × ((x : ObjectId)
            → x ≢ nil
            → rt.is_constant x ≡ false
            → releases x c.history + times x objs ≤ releases x c'.history)
  unfolding push_autorelease_pool universe_pool_push pop_autorelease_pool autorelease_pool_pop push
      init
  pop_autorelease_pool-push_autorelease_pool laws rank ranked fuel b enough universes c adr size
        objs found named ranks low books =
      let pushed : Config rt = push rt adr c in
      let inner : Inner rank b adr c.tail pushed.tail =
        (record { adr = adr; storage = init rt.memory true ∷ [] }, refl, refl, (tt, tt)) in
      let ((p, e, at, chain), books1) =
        autorelease_each-Inner laws rank b adr c.tail objs pushed low inner
          (λ x there. push-Books rt x laws adr c (books x there)) in
      let here : (p.adr == adr) ≡ true = (==_iff _ _).1 at in
      let (c', popped, tail, books') =
        pop_lem rt laws rank ranked fuel b enough (autorelease_each objs pushed) adr
          (rw (e) (chain, ranks)) (rw (e, here) refl) books1 in
      let left : c'.tail ≡ c.tail = tail ∙ rw (e, here) refl in
      let there : (adr == 0) ≡ false = ground (arith, named) in
      (
        pushed,
        c',
        rw (found) refl,
        rw (found) (rw (there) popped),
        left,
        books',
        λ x known counted. omega (
          arith,
          (books x known).refs,
          (books' x known).refs,
          ap (live x) left,
          autorelease_each-counts rank b adr c.tail x known counted objs pushed low inner,
          pop-Later rt x fuel adr (autorelease_each objs pushed) c' popped,
        ),
      )

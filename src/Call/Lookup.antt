-- ===== src/Call/Lookup.antt =====
-- src/function/MulleObjCFunctions.h: what is asked of an object or a class. The runtime answers for
-- those that are not nil.
use Prim.Native.Nat.{bit_or}
use mulle_obj_c.Base.{
  ℕ, Bool, false, not, ◌||◌, ◌==◌, if◌then◌else◌, ◌≡◌, ◌≢◌, ◌↔◌, refl, inl, inr, arith, Bool-cases,
  ==_iff,
}
use mulle_obj_c.Array.{ObjectId, nil}

-- mulle-objc-runtime. A method or property that is not found is 0.
pub record ClassRuntime : Type 1 where
  pub Heap : Type 0
  pub get_isa : Heap → ObjectId → ℕ
  pub get_classid : (cls : ℕ) → ℕ
  pub no_classid : ℕ
  pub get_extra : Heap → ObjectId → ℕ
  pub search_property : (cls propertyid : ℕ) → ℕ
  pub search_method : (cls sel inheritance : ℕ) → ℕ
  pub dont_inherit_superclass : ℕ
  pub dont_inherit_protocols : ℕ
  pub dont_inherit_protocol_categories : ℕ
  pub dont_inherit_protocol_meta : ℕ
  pub set_thread_id : Heap → ObjectId → (thread_id : ℕ) → Heap
  pub constantify : Heap → ObjectId → Heap
  pub thread_get_id : (thread : ℕ) → ℕ

module _ (rt : ClassRuntime) where
  -- `MulleObjCObjectGetClass`
  unfoldable pub object_get_class : rt.Heap → (obj : ObjectId) → ℕ
  object_get_class h obj = if obj == nil then nil else rt.get_isa h obj

  -- `MulleObjCInstanceGetClass`
  unfoldable pub instance_get_class : rt.Heap → (obj : ObjectId) → ℕ
  instance_get_class h obj = object_get_class h obj

  -- `NSClassFromObject`
  unfoldable pub class_from_object : rt.Heap → (object : ObjectId) → ℕ
  class_from_object h object = object_get_class h object

  -- `MulleObjCClassGetClassID`
  unfoldable pub class_get_class_id : (cls : ℕ) → ℕ
  class_get_class_id cls = if cls == nil then rt.no_classid else rt.get_classid cls

  -- `MulleObjCInstanceGetClassID`
  unfoldable pub instance_get_class_id : rt.Heap → (obj : ObjectId) → ℕ
  instance_get_class_id h obj =
      if obj == nil then rt.no_classid else rt.get_classid (rt.get_isa h obj)

  -- `MulleObjCClassGetID`
  unfoldable pub class_get_id : (cls : ℕ) → ℕ
  class_get_id cls = if cls == nil then 0 else rt.get_classid cls

  -- `MulleObjCClassImplementsSelector`
  unfoldable pub class_implements_selector : (a_class sel : ℕ) → Bool
  class_implements_selector a_class sel =
      if (a_class == nil) || (sel == 0)
      then false
      else not (
          rt.search_method a_class sel (
            bit_or
              (bit_or (bit_or rt.dont_inherit_superclass rt.dont_inherit_protocols)
                rt.dont_inherit_protocol_categories)
              rt.dont_inherit_protocol_meta)
          == 0)

  -- `MulleObjCInstanceSetThreadAffinity`
  unfoldable pub instance_set_thread_affinity : rt.Heap → (obj : ObjectId) → (thread : ℕ) → rt.Heap
  instance_set_thread_affinity h obj thread =
      if obj == nil then h else rt.set_thread_id h obj (rt.thread_get_id thread)

  -- `MulleObjCInstanceConstantify`
  unfoldable pub instance_constantify : rt.Heap → (obj : ObjectId) → rt.Heap
  instance_constantify h obj = if obj == nil then h else rt.constantify h obj

  -- `MulleObjCInstanceGetExtraBytes`
  unfoldable pub instance_get_extra_bytes : rt.Heap → (obj : ObjectId) → ℕ
  instance_get_extra_bytes h obj = if obj == nil then 0 else rt.get_extra h obj

  -- `MulleObjCClassSearchProperty`
  unfoldable pub class_search_property : (cls propertyid : ℕ) → ℕ
  class_search_property cls propertyid = if cls == nil then 0 else rt.search_property cls propertyid

  -- `MulleObjCInstanceSearchProperty`
  unfoldable pub instance_search_property : rt.Heap → (obj : ObjectId) → (propertyid : ℕ) → ℕ
  instance_search_property h obj propertyid =
      if obj == nil then 0 else rt.search_property (rt.get_isa h obj) propertyid

  -- The queries of an instance are those of its class, and nil has the class Nil, where the runtime
  -- gives every other object a class.
  pub instance_get_class_id-class_get_class_id :
      (h : rt.Heap) (obj : ObjectId) (propertyid : ℕ)
      → (obj ≢ nil → rt.get_isa h obj ≢ nil)
      → (instance_get_class_id h obj ≡ class_get_class_id (object_get_class h obj))
        × (instance_search_property h obj propertyid
            ≡ class_search_property (instance_get_class h obj) propertyid)
        × ((class_from_object h obj ≡ nil) ↔ (obj ≡ nil))
  unfolding instance_get_class_id class_get_class_id object_get_class instance_search_property
      class_search_property instance_get_class class_from_object
  instance_get_class_id-class_get_class_id h obj propertyid isa = elim (Bool-cases (obj == nil)) [
    | inl none ↦ rw (none) (refl, refl, ((λ e. (==_iff obj nil).0 none), (λ e. refl)))
    | inr there ↦
        let named : obj ≢ nil = ground (arith, there) in
        let kind : (rt.get_isa h obj == nil) ≡ false = ground (arith, isa named) in
        rw (there, kind) (refl, refl, ((λ e. absurd (isa named e)), (λ e. absurd (named e))))
  ]

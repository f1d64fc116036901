-- ===== src/Call/ImpArray.antt =====
-- src/function/MulleObjCFunctions.h: arrays of implementations of one selector.
use Prim.Native.Nat.{bit_or}
use mulle_obj_c.Base.{ℕ, List, [], ◌∷◌}
use mulle_obj_c.Call.Abi.{CallRuntime}
use mulle_obj_c.Call.Imp.{imp_call}

-- `struct MulleObjCCollectionInfo`
pub record CollectionInfo : Type 0 where
  pub stop_class : ℕ
  pub selector : ℕ
  pub inheritance : ℕ

-- `MulleObjCCollectionInfoMake`
unfoldable pub collection_info_make : (stop_class sel inheritance : ℕ) → CollectionInfo
collection_info_make stop_class sel inheritance = record {
  stop_class = stop_class;
  selector = sel;
  inheritance = inheritance;
}

-- `MulleObjCCollectionInfoMakeCategories`, with the two flags of mulle-objc-runtime
unfoldable pub collection_info_make_categories :
    (dont_inherit_protocols dont_inherit_class cls sel : ℕ) → CollectionInfo
collection_info_make_categories dont_inherit_protocols dont_inherit_class cls sel = record {
  stop_class = cls;
  selector = sel;
  inheritance = bit_or dont_inherit_protocols dont_inherit_class;
}

-- `struct MulleObjCIMPArray`
pub record ImpArray : Type 0 where
  pub imps : List ℕ
  pub selector : ℕ

module _ (rt : CallRuntime) where
  unfoldable pub call_each : (imps : List ℕ) → (obj selector argument : ℕ) → rt.World → rt.World
  call_each [] obj selector argument w = w
  call_each (imp ∷ imps) obj selector argument w =
      call_each imps obj selector argument (imp_call rt w imp obj selector argument).world

  unfoldable pub call_each_reverse :
      (imps : List ℕ) → (obj selector argument : ℕ) → rt.World → rt.World
  call_each_reverse [] obj selector argument w = w
  call_each_reverse (imp ∷ imps) obj selector argument w =
      (imp_call rt (call_each_reverse imps obj selector argument w) imp obj selector argument).world

  -- `MulleObjCIMPArrayCall`
  unfoldable pub imp_array_call : ImpArray → (obj argument : ℕ) → rt.World → rt.World
  imp_array_call imps obj argument w = call_each imps.imps obj imps.selector argument w

  -- `MulleObjCIMPArrayCallReverse`
  unfoldable pub imp_array_call_reverse : ImpArray → (obj argument : ℕ) → rt.World → rt.World
  imp_array_call_reverse imps obj argument w =
      call_each_reverse imps.imps obj imps.selector argument w

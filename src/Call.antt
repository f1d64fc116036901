-- ===== src/Call.antt =====
-- src/function/MulleObjCFunctions.h: sending messages and calling implementations with arguments of
-- C types, by the calling convention of the runtime (the meta ABI).
pub mod Abi
pub mod Small
pub mod Large
pub mod Imp
pub mod ImpReturning
pub mod Perform
pub mod ImpArray
pub mod Lookup
pub mod RoundTrip
pub mod Agree
mod Examples

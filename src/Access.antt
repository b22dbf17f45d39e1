-- ===== src/Access.antt =====
-- Memory accesses: the proxy `MemAccInst` (include/Atrox/Support/MemAccInst.hpp) and
-- `MemoryAccessInfo` (lib/Analysis/MemoryAccessInfo.cpp).
pub mod MemAccInst
pub mod Proxies
pub mod ModRef
pub mod Calls
pub mod Tests

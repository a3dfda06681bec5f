-- ===== src/Cpu.antt =====
-- src/xr17032fast.c and src/xraccess.inc.c: one XR/17032 processor, in the build with simulated
-- caches.
pub mod Dcache
pub mod State
pub mod Caches
pub mod Exception
pub mod Result
pub mod System
pub mod Decode
pub mod Execute
pub mod Isa
pub mod Translate
pub mod Memory
pub mod Blocks
pub mod Branch
mod Tests

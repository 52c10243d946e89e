-- ===== src/Container.antt =====
-- container: the data structures.
pub mod CMap
pub mod Ring
pub mod Sharded
pub mod Heap
pub mod Priority
pub mod Memo
pub mod Queue
pub mod Xchan

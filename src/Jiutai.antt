-- ===== src/Jiutai.antt =====
-- The base library jiutai/: error codes, dates, the containers, state machines, a lock and linked lists.
pub mod Err
pub mod Date
pub mod Queue
pub mod Array
pub mod Hsm
pub mod Hashtable
pub mod Rwlock
pub mod Listhead

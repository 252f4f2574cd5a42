-- ===== src/Dispatcher.antt =====
-- The message dispatcher dispatcher/.
pub mod PrioQueue

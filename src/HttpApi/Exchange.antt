-- ===== src/HttpApi/Exchange.antt =====
-- The whole exchange: what goes out for a request.
pub mod Reply
pub mod Writes
pub mod Follows
pub mod Routes
pub mod Dispatch
pub mod Whole

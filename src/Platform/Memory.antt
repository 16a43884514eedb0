-- ===== src/Platform/Memory.antt =====
-- Concrete instances of the interfaces, which show that their laws can hold, and at which the
-- theorems are applied: a Redis and a user table in memory, and texts for dates and ids that are
-- written in unary.
pub mod Store
pub mod Values
pub mod Rows
pub mod Sample

-- ===== src/Object.antt =====
-- The modules of src/object.
pub mod Store
pub mod Transaction
pub mod Session
pub mod Prototype

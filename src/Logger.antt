-- ===== src/Logger.antt =====
-- The modules of src/logger.
pub mod Rotation

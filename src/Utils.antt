-- ===== src/Utils.antt =====
-- The modules of src/utils.
pub mod ByteBuffer
pub mod Hex
pub mod Url
pub mod Base64
pub mod Calendar
pub mod Date
pub mod Html
pub mod Buffer
pub mod Strings
pub mod Version
pub mod Sequencer
pub mod Stream

-- ===== src/Utils/Stream.antt =====
-- The streams of include/matador/utils/stream.hpp and stream_processor.hpp: a chain of processors,
-- each of which pulls its elements, one by one, from the one before it.
pub mod Processor
pub mod Sources
pub mod Stages
pub mod Terminals
pub mod Spec
pub mod Select
pub mod Count
pub mod Join
pub mod Numbers
pub mod Fold
pub mod Reads
pub mod Extremes
pub mod Packs
pub mod Pipelines
pub mod Tests

-- ===== src/Writer.antt =====
-- src/writer.c: the tree of nodes that a sequence of calls builds.
pub mod State
pub mod Attach
pub mod Calls
pub mod Copy
pub mod Finish
pub mod History

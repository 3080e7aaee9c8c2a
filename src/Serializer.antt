-- ===== src/Serializer.antt =====
-- src/serialize.c: the tree of a writer to bytes.
pub mod Buffer
pub mod Text
pub mod Sort
pub mod Nodes

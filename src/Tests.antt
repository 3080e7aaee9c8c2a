-- ===== src/Tests.antt =====
-- Witnesses of the theorems and runs of the definitions at concrete inputs.
mod Common
mod Utf8
mod Parser
mod Document
mod Writer
mod Serializer
mod Canonical
mod Files
mod Pointer

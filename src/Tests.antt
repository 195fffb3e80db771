-- ===== src/Tests.antt =====
-- The theorems at concrete inputs, and runs of the definitions.
mod Opcodes
mod Objects
mod Chunks
mod Strings
mod Upvalues
mod Tables
mod Hashes
mod Verifier
mod Patterns
mod Texts
mod Randoms
mod Sorts

-- ===== src/Strings.antt =====
-- src/lstring.c: every string of the interpreter is kept once, in a table of chains that a keyed
-- hash indexes.
pub mod SipHash
pub mod Table

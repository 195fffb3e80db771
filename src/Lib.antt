-- ===== src/Lib.antt =====
-- Lunacy, an interpreter of Lua 5.1: the parts of it that move programs between their forms and the
-- runtime's core data structures.
--
-- Base holds what the parts share: tests into Bool, lists, 32-bit words, integers, bit operations
-- on numbers and their laws. Each other module models one part of src/ and has child modules for
-- what is proved of it; Tests has the examples.
--
-- Opcode (src/lopcodes.h): an instruction is a number below 2 ^ 32. Every macro is a function of its
-- name, get_opcode for GET_OPCODE. Opcode.Modes (src/lopcodes.c) is the table luaP_opmodes.
--
-- Object (src/lobject.c): luaO_int2fb, luaO_fb2int, luaO_log2 and luaO_chunkid, without their prefix.
--
-- Stream (src/lzio.c, src/lzio.h): a stream is the unread part of the reader's last block, and the
-- blocks of its next calls. luaZ_read runs on fuel: each round copies at least one of the n bytes, so
-- n rounds are enough.
--
-- Chunk (src/ldump.c, src/lundump.c): Chunk.Dump has one function for each Dump function, over any
-- writer; Chunk.Load has one for each Load function, in a monad of the stream and of the errors. The
-- depth of nested functions is the fuel of load_function, LUAI_MAXCCALLS as in the code. The loader
-- reads its bytes from Stream. Chunk.Format gives the bytes that each Dump function writes, for the
-- proof of the round trip. Chunk.Layout describes a chunk field by field, apart from the code of the
-- dumper: a stripped chunk is that of a function without its debug information.
-- The verifier of bytecode that the loader calls is a parameter, for which checkcode of Verifier stands.
--
-- Verifier (src/ldebug.c): luaG_checkcode. Verifier.Step is one round of the loop of symbexec: the
-- checks, the next position and whether the traced register changes, each a function of the opcode.
-- Verifier.Loop runs the rounds; every round goes on by an instruction, so the length of the code is
-- enough fuel. To run out of rounds is an outcome of its own (Run), beside a failed check.
-- Verifier.Flow has the flow of control and Verifier.Operands the operands as src/lopcodes.h describes
-- them, without the code of the verifier.
--
-- Strings (src/lstring.c): Strings.SipHash is the function SipHash in the 32-bit form that is built;
-- its loop is a recursion on the unread text. Strings.Table has luaS_newlstr (newlstr), the static
-- newlstr (new_lstr) and luaS_resize (resize) on an array of chains; an object is known by its
-- address, and the allocator gives the next one. Strings.Table.Chains, Rehash, Resize and Interning
-- build up the table as a map from texts to addresses.
--
-- Upvalues (src/lfunc.c): luaF_findupval, luaF_close and luaF_getlocalname on the list of the open
-- upvalues, the addresses of `uvhead`, and the closed upvalues with their values. The stack is a
-- function from slots to values.
--
-- Tables (src/ltable.c). Tables.Hash is the hash part: the nodes as a function from their index, a chain
-- by the index of the next node, search for the loops of luaH_getnum, luaH_getstr and luaH_get, which
-- run for as many nodes as there are at most, getfreepos, newkey, and put for luaH_set with the
-- assignment through the pointer that it gives. It knows its keys by the interface Keys: raw equality
-- and the main position. Tables.Keys fills it from luaO_rawequalObj (src/lobject.c) and mainposition;
-- lua_Number without NaN is the parameter Numbers there. Tables.Access is a table with both parts:
-- luaH_get (get), assign, luaH_new (table_new), setnodevector and resize, whose old entries are the
-- list entries; the interface Indices has arrayindex. An error leaves no state. Tables.Rehash has
-- numusearray, numusehash, countint, rehash and luaH_set (table_set), where a number bounds the calls of rehash
-- by newkey. Tables.Hash.Chains says what holds of the nodes between two operations, and its other
-- children how the branches of newkey keep it. Tables.Entries takes a list of entries as changes to
-- what a table gives, which Reinsert and Resize build on, and Counts relates the counts of rehash to
-- the entries. Tables.Next has findindex and luaH_next (table_next), and traverse for a
-- loop that calls it. The keys that the collector marks dead and unbound_search are not modelled.
-- computesizes is a recursion on the counts of the slices; there are MAXBITS + 1 of them. luaH_getn
-- is modelled for a table whose hash part is empty: its binary search runs on fuel, the size of the
-- array, and the distance falls in each round.
--
-- Patterns (src/lstrlib.c): match and what it calls. Patterns.Class has the classes, Patterns.Item the
-- switch of match as a function from a pattern to its first item, Patterns.Match the functions that run
-- an item; they are given match as a function, and match itself runs on fuel, of which each round takes
-- one and shortens the pattern. An outcome is a match, a failure with the state that it leaves, or an
-- error. The classes of ctype.h are the fields of a record. Patterns.Plain has lmemfind, Patterns.Push
-- the captures as values, Patterns.Find str_find_aux and gmatch_aux, and Patterns.Substitute str_gsub,
-- where a replacement function is a function of the captures. The C stack has room for all of it.
--
-- Text (src/lstrlib.c): the functions without patterns, str_sub, str_byte, str_char and their like.
-- check_int is luaL_checkint, with the cast to int. str_byte is given how many values its stack has in
-- use, and check_stack compares them with LUAI_MAXCSTACK (src/lapi.c).
--
-- Random (src/lmathlib.c): the RadioGatun[32] generator, with rgf, rgl and rgi as functions of the two
-- arrays, and rand32, rand16, runmill and randomseed on the generator's variables. The words of the array
-- A that rgf does not set before it reads them are a parameter, junk.
--
-- Sorting (src/ltablib.c): auxsort on a function from positions to values. The loop over the larger half is
-- a second call, and the depth of calls is the fuel: a half is shorter than its range, so one more than
-- the number of values is enough. The comparison is a function. The sum of which `middle` takes the half is an
-- int; that it overflows is an error of the model (int_overflow).
--
-- Not modelled: the parser, the code generator, the virtual machine, the collector, and the
-- libraries that wrap the operating system. Memory allocation does not fail in the model.
pub mod Base
pub mod Chunk
pub mod Object
pub mod Opcode
pub mod Patterns
pub mod Random
pub mod Sorting
pub mod Stream
pub mod Strings
pub mod Tables
pub mod Tests
pub mod Text
pub mod Upvalues
pub mod Verifier

-- ===== src/Lib.antt =====
-- FormLogic: a script language's lexer, bytecodes, values and heap, modelled from
-- crates/formlogic-core/src.
--
-- Source text becomes tokens (lexer.rs, token.rs); a parser and two compilers, not modelled, turn
-- them into instructions of a stack machine (code.rs) or of a register machine (rcode.rs), whose
-- forward jumps are patched once their targets are known (rcompiler.rs). The machines compute with
-- NaN-boxed words (value.rs) that hold a number, a short string or an index into the heap, whose
-- slots a mark-and-sweep collector gives back (engine.rs). Objects with properties are ordered
-- hash objects (object.rs), and the globals of a program are one shared table (vm.rs). Property
-- names are interned as symbols (intern.rs).
--
-- Files and code:
--   Token        token.rs; `TokenType` with a prefix `tok_` on the constructors, texts as lists of code
--                points. Token/Operators also has `operator_type` of lexer.rs.
--   Lexer        lexer.rs. Cursor, Skip, Word, Number, Escape, Quoted, Template, Regex, Operator and
--                Next hold the functions by their names; a loop's body is a function `_turn` or `_next`.
--                Loop is the loop on fuel. Skipped describes what may stand before a token. Forward, Blank, Comment, Progress, Digits, Strings,
--                Delimited, Longest, Tokens, Stream, Whole and RoundTrip hold the proofs.
--   Encoding     the operand loop that `make` and `rmake` share, and the reads of `VM::read_u16`
--                (vm.rs) and `read_u8_at` (rvm.rs).
--   Register     rcode.rs, the opcode and operand reads of the dispatch loop of rvm.rs (Decode,
--                Dispatch), and `patch_jump` of rcompiler.rs. Layout holds proofs.
--   Stack        code.rs.
--   Value        value.rs: words as natural numbers below 2^64, with their constructors and checks.
--                Float has `i64 as f64`.
--   Heap         `Heap`, `obj_into_val` and `val_to_obj` of value.rs, and phases 2 and 3 of
--                `gc_collect` of engine.rs (Heap/Sweep).
--   Gc           `gc_collect` of engine.rs whole. Object has the variants of `Object` (object.rs) as far as
--                they refer to others; Mark the marking functions; Collect the roots and `gc_collect`.
--                Slots, Mentions, Roots, Closed, Within, Traced, Scan, Fuel, RootScan and Safe hold the
--                specification and proofs.
--   Globals      `SharedGlobals` of vm.rs.
--   Hash         `HashKey` (Key, Equal) and `HashObject` (Object) of object.rs. IndexMap is the interface of
--                the third-party ordered map, Assoc the association list that an object stands for,
--                Synced the invariant; Insert, Gap, Remove and Writes hold proofs, Accessors the rest.
--   Collections  the functions of vm.rs on `MapObject` and `SetObject`, and `slice_bounds`.
--   Imports      imports.rs: Line has `parse_import_line` and the string functions, Resolve the rest.
--   Interner     intern.rs.
--   Bits         masks and fields of words. Common: shared names, lists, integers. Tests: examples.
--
-- Conventions. `none` stands for a Rust panic, and for an unchecked read out of bounds; in the
-- lexer, the marking and the imports it also stands for a loop cut short by its fuel. The lexer's
-- loops get one turn for each byte that is left and one more, which is enough since each turn
-- passes a byte. The interner's hash map is an association list, the heap's index of pointers a
-- function. The last entry of the free list, where `push` and `pop` work, is the head of its list.
-- A float is its 64 bits; `i64 as f64` is written out (nearest, ties to even). A heap object is
-- one of the inline kinds, a string, or a value of a type parameter, whose `Rc` address is a
-- function parameter. A jump of the marking to a slot takes one unit of fuel, and `gc_collect`
-- gives one more than there are slots. Imports take one unit of fuel for each file inside a file.
-- Rust's hash maps with keys of object.rs are association lists that are searched from the front.
-- The contents of an `Rc` stand in place, so objects that contain one another without a slot of
-- the heap between them do not form a cycle.
--
-- Not modelled: the parser and the compilers but for jump patching, the dispatch loops and
-- built-ins of both machines but for the operand reads and the map and set functions, the migration of hash objects to the
-- heap, number and string conversions of values, the host bridges and the WebAssembly binding.
pub mod Common
pub mod Bits
pub mod Encoding
pub mod Register
pub mod Stack
pub mod Value
pub mod Interner
pub mod Hash
pub mod Heap
pub mod Globals
pub mod Gc
pub mod Token
pub mod Lexer
pub mod Imports
pub mod Collections
pub mod Tests

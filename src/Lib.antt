-- ===== src/Lib.antt =====
-- RayTask is a language with a compiler to bytecode, a virtual machine and a file format for compiled
-- modules (`.rtbc`). This library models parts of the Rust program and proves what makes them correct.
--
-- Parts, and how they interact. The compiler (src/compiler.rs) emits instructions into the chunks of a
-- `Module` (src/bytecode.rs), whose constants are run-time values (src/value.rs) and descriptions of C
-- functions (src/ffi.rs). `serialize_module` writes the module to a file and `deserialize_module` reads
-- it back, in the command line tool and in the stub of a standalone application, which finds its module
-- by `extract_app_payload` (src/bytecode_format.rs).
--
-- A source goes through `preprocess` (src/preprocess.rs) before it is parsed. The checker compares types
-- (src/types.rs); the compiler lays structs out for C (src/abi.rs). Dates are natives of the machine
-- (src/stdlib/time.rs).
--
-- The event loop of the machine (src/vm.rs) keeps tasks, timers and a queue of coroutines that are ready
-- (src/async_rt.rs); a timer that fires settles its task, whose waiters become ready.
--
-- The values of the machine live in the collector's heap (src/gc.rs), which the machine collects from
-- its stack, its globals and the coroutines that wait. The optimiser (src/ssa) works on functions of
-- basic blocks between the checker and the emission of code.
--
-- Files.
--   Value: the data of src/value.rs and the type descriptions of src/ffi.rs.
--   Value.Equality: `Value::equals` on two values of one variant. Value.Ops: the operators of the machine in
--     src/value.rs and src/vm.rs; Words is the arithmetic of `i64`, Kinds the operators of src/ssa/ir.rs.
--   Fold: what src/ssa/passes/const_fold.rs makes of one instruction. Agrees compares it with the machine.
--   Bytecode: chunks, classes and modules of src/bytecode.rs. Bytecode.Op: the instructions, their
--     bytes and their names. Bytecode.Emit: the operations of `Chunk`, and how the jumps and the constants of
--     src/vm.rs read what they emit; Jumps, Constants and Built are about them.
--   Rtbc: src/bytecode_format.rs. Writer and Reader are the two structs of these names; Serialize and
--     Deserialize the functions on modules, with their Values on constants and type descriptions; App
--     is `package_app` and `extract_app_payload`. Varint is about one round of a variable-length
--     integer; Decodes has one rule for each way to build a reader and its writer, and RoundTrip applies
--     them from type descriptions up to whole files; Settles has one rule for each way to build a
--     reader that does not run out of fuel, and Total applies them.
--   Async: src/async_rt.rs. Tasks is about the tasks, Timers about `TimerQueue`, Queue and Turns
--     about `ReadyQueue`: which coroutines it holds, and when one is popped.
--   Types: the types of src/types.rs and their categories. Types.Assign: `is_assignable_to` and `unify`;
--     Unify is about the types of conditionals, Rules about what may not be assigned. Types.Semantic:
--     `is_semantically_assignable` of src/sema.rs, by which the checker decides; Joined compares `unify`
--     with it. Types.FromRef: `ty_from_ref`.
--   Time: dates and spans of src/stdlib/time.rs. Loops is about its loops over years and months, Months
--     about the months of a year, Dates about the parts of a date, Calendar about whole dates, Spans about
--     spans of time; Gregorian is the calendar told apart from the code.
--   Ast: what the modelled code reads of the syntax tree (src/ast.rs).
--   Layout: the types of fields, in src/ffi.rs and src/abi.rs. Layout.Place: `layout_struct` and
--     `layout_union` of src/abi.rs; Sizes is `sizeof` and `offsetof` of src/compiler.rs. Align is about
--     `align_up`, Powers about the alignments of fields, Laid about structs, Packed about packed ones and
--     unions.
--   Preprocess: src/preprocess.rs. Blocks says what conditional blocks mean and is about the loop.
--   Worklist: the search that the marker of src/gc.rs and `reachable` of src/ssa/cfg.rs make. Found and
--     Closed are about what it marks, Ends about when it ends.
--   Gc: the heap of src/gc.rs and `collect`; Alloc is its allocations. Sweep is about the loop over the
--     tracked cells, Marking about what is marked, Collect about a whole collection, Graph about what the
--     program reaches after it, Finalize about finalizers, Ends about when a collection ends.
--   Ssa: the instructions, blocks and functions of src/ssa/ir.rs. Uses is about the values they use
--     and `replace_uses`. Ssa.Cfg: edges and `reachable` of src/ssa/cfg.rs; Edges, Paths and Values are
--     about them. Ssa.CopyProp: src/ssa/passes/copy_prop.rs. Ssa.PhiElim: src/ssa/phi_elim.rs; Returns
--     is about when it comes to a result, Insts and Slots about what it puts into the entry block.
--     Ssa.Simplify: src/ssa/passes/cfg_simplify.rs; Kept is about the blocks that are left, Progress and Folds about
--     their terminators. Ssa.Dce: src/ssa/passes/dce.rs; Closed is about its sets and its work list, Needed
--     and Kept about what is kept, Used about what is used.
--   Prelude: the names of the libraries, Boolean tests, lists, bits, texts and signed integers.
--
-- Choices. A `Vec<u8>` is a list of numbers. The writer only ever appends, so an operation of it is the
-- bytes it appends. The state of the reader is what is left of the input, `data[pos..]`; an operation
-- gives a result and the state after it, or an error. Machine words are native numbers with their
-- wrapping written out: `as u32` is `% 2 ^ 32`, a shift to the left on 64 bits is `% 2 ^ 64`, `usize`
-- has 64 bits. An `i64` and an `f64` are their bit patterns, a `String` its UTF-8 bytes. What the
-- machine keeps behind an `Rc` is the number of its cell. A `HashMap` is its entries in the order of its
-- iteration, a `HashSet` its members. What can panic is an `Option`, or has a constructor for it. The
-- tasks live in a store, and a handle is a number of it, so that two handles can be of one task. A
-- source text, in Preprocess, is its characters; dates and spans, in Time, are signed integers without a
-- bound, which `as_i64` cuts down where the code can overflow.
--
-- `is_assignable_to` swaps its arguments for the parameters of functions, and `is_semantically_assignable`
-- for those of generic types. The model keeps them in their places and turns a flag, so that both are
-- recursions on the two types and need no fuel.
--
-- The three versions of the format share their readers: `Wire` says how a version stores counts, texts
-- and integers.
--
-- Fuel. `Reader.var_loop` has 10 rounds: the guard on `shift` ends the source's loop in the tenth. The
-- recursions of `read_value_*` and `read_ffi_type` have one round more than there are bytes left: each
-- call reads a tag first. `Writer.var_loop` has the number itself, which each round divides by 128.
-- The searches of Worklist and of Ssa.Dce have what the caller gives; Ends and Used prove that enough
-- exists. The search of base types, `is_ancestor`, has what the caller gives, and its end is not proved: in
-- the source it has none where types inherit from each other in a circle. The loop over the years of a date has the number of days, of which each round takes off a year's.
--
-- Not modelled: the texts of the error messages (an error is a constructor), the texts and objects of
-- dates, the arithmetic of `f64` (a parameter), the registration of the built-in functions and of the
-- platform's definitions, the capacity that a `Vec` is given in advance and the memory it takes,
-- `token_is_cancelled`, the depth of the machine's stack. Of the compiler, the checker and the optimiser
-- only the parts named above; not the lexer, the parser, the linker, the C code generator and the rest
-- of the standard library. Of the collector, not the choice of a thread's heap (`install`, `with_heap_mut`).
pub mod Prelude
pub mod Value
pub mod Bytecode
pub mod Rtbc
pub mod Ast
pub mod Async
pub mod Fold
pub mod Gc
pub mod Layout
pub mod Preprocess
pub mod Ssa
pub mod Time
pub mod Types
pub mod Worklist

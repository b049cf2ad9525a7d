-- ===== src/Lib.antt =====
-- frawk compiles AWK programs: the parser's tree (src/ast.rs) becomes a control-flow graph, type
-- inference gives each variable a register type, static analyses find the columns and strings that
-- a program uses, and the typed bytecode is interpreted or compiled to machine code. This library
-- models the parts of the compiler that decide types and columns and look for user input in
-- commands, the tokenizer, the slots between the stages of a parallel script, and three parts of the
-- runtime.
--
-- - Compile: src/compile.rs, `Ty`, the register types, and the operations on them.
-- - Types: src/types.rs. `BaseTy`, `TVar` and `State` are the values of type inference;
--   Types/Rule is `Constraint` (`sub`, `eval`) and `Rule::step`, its loop split into `join_all` and
--   the `join` of one round; Types/Flatten turns an inferred state into a register type.
-- - Builtins: src/builtins.rs, and the operators of src/ast.rs. Builtins/Arity, Builtins/Sig and
--   Builtins/Step are `Function::arity`, `type_sig` and `step`; Builtins/Names is the table
--   `FUNCTIONS`. Indexing past the arguments and unwrapping an error end in the outcome `panics`, an
--   error in `fails`.
-- - Pushdown: src/pushdown.rs, `FieldSet`. The word `u64` is a natural number below 2 ^ 64, with
--   the shifts, the complement and the wrap-around written out in Pushdown/Words.
-- - Splitter: src/runtime/splitter/batch.rs, `Stepper`, the state machine that cuts CSV and TSV text
--   into the fields of one record. Splitter/Step is `step`, one `turn` of its loop at a time on the
--   offsets that are left; a read past the buffer and a panic are `undefined`, and a start past the end
--   of the offsets counts as the end. The loop runs on
--   `enough` fuel: a turn uses up an offset, or leaves a state for one that does. The functions that
--   find the offsets of the control characters are not modelled: the offsets are part of the input.
-- - Escape: src/runtime/str_escape.rs, on lists of code points; `str::replace` of a character is
--   written out, and the shell's escaping, a third-party function, is a parameter of `escape`.
-- - WorkList: src/common.rs, the queue of the two fixed-point loops. The nodes are numbers, and
--   the hash set is the list of its members.
-- - Bytecode: src/bytecode.rs, the typed instructions `Instr`, and `HighLevel` of src/compile.rs.
--   Bytecode/Registers is `accum`. Floats and compiled regular expressions are type parameters.
-- - Dataflow: src/dataflow.rs, the framework of the static analyses: `Analysis` with its nodes and
--   edges, Dataflow/Solve with `populate`, `solve` and `root`, and Dataflow/Boilerplate with `Key`
--   and the visitors of the instructions. The depth-first search of the graph library is a
--   parameter: it is assumed to find the nodes that the root reaches. The loop of `solve` runs on
--   `enough` fuel: a node is visited once for each node of the first work list, and again for each
--   change of a weight, of which a lattice of bounded height has few. Dataflow/Program is the loop of
--   `run_analyses` in src/compile.rs for one analysis, on a list of instructions.
-- - InputTaint: src/input_taint.rs, the taint analysis as an instance of that framework: the lattice
--   in InputTaint/Taint, and the calls that it makes for each instruction in InputTaint/Visit.
-- - UsedFields: src/pushdown.rs, `UsedFieldAnalysis`, the other instance: the 64-bit sets as a lattice
--   in UsedFields/Sets; in UsedFields/Visit the calls for each instruction, the joins that it pushes,
--   and `solve`, as `used_fields`.
-- - FloatParse: src/runtime/float_parse/mod.rs, the integer parsers `strtoi` and `hextoi`, on lists of
--   bytes. The accumulator of the loops is never negative, so it is a natural number that is tested
--   against 2 ^ 63; a slice out of bounds is the outcome `panics`.
-- - Stages: src/common.rs, `Stage`, and src/cross_stage.rs, the registers that a parallel script passes
--   from its first stage to its main loop and on to its last stage. Stages/Counter is `SlotCounter` of
--   src/compile.rs, and Stages/Frames `load_slots`, `store_slots` and `add_slots`; what
--   `get_global_refs` returns is an argument. Stages/Machine runs the slot instructions as src/interp.rs
--   does, and Stages/Combine combines the slots that the workers of the main loop leave, `Slots::combine`,
--   for any function in place of the method of the trait `Agg` for a type. Stages/Cancel is
--   `CancelSignal` of src/common.rs, each call of which is one atomic operation.
-- - Lexer: src/lexer.rs, the tokenizer, on code points under byte offsets. Lexer/Text is what it uses of
--   `str`: a slice off the boundary of a character is the outcome `panics`. Lexer/Scan and
--   Lexer/Keywords are its scanners, Lexer/Next is `new`, `index_to_loc` and `next`, and Lexer/Strings
--   the values of literals. The Unicode tables and the patterns of numbers and declarations are a
--   parameter, `Library`. The loop of `advance` runs on fuel: each round but the last moves on, so a
--   round for each byte that is left and one more are enough.
-- - Examples: concrete inputs for the theorems below.
--
-- Type inference (Types) asks Builtins for the state of a call; code generation asks it for the
-- signature. Builtins/Agree relates the two, with the operand lemmas of Builtins/Results.
--
-- The analyses (InputTaint and UsedFields) hand a lattice and calls to Dataflow/Program, which runs
-- the framework on them; Dataflow/Derives says how values flow in a program, independently of what an
-- analysis calls for it. The framework takes its nodes from the queue of WorkList.
--
-- Not modelled: the network that drives the rules (`TypeContext`, `Network`), with the constraints
-- `CallBuiltin` and `CallUDF`, which read it; the analysis of string constants; the parser
-- and the control-flow graph; the threads of a parallel run; the code generators, the interpreter but
-- for its slots, and the rest of the runtime. Error messages are dropped: an error is `err` or `fails` without its text.
pub mod Prelude
pub mod Result
pub mod Compile
pub mod Types
pub mod Builtins
pub mod Bytecode
pub mod Pushdown
pub mod WorkList
pub mod Splitter
pub mod Escape
pub mod Dataflow
pub mod InputTaint
pub mod UsedFields
pub mod FloatParse
pub mod Stages
pub mod Lexer
pub mod Examples

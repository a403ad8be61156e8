-- ===== src/Lib.antt =====
-- A model of evm-assigner: an EVM interpreter (a fork of evmone) that records what it reads and
-- writes, and fills the tables of a zkEVM circuit with that record.
--
-- How the program runs: the interpreter (lib/assigner/evmone/baseline.hpp) checks the requirements
-- of an instruction against the gas tables and traits (lib/assigner/evmone/instructions_traits.hpp,
-- baseline_instruction_table.cpp), and calls the instruction (lib/assigner/evmone/instructions.hpp)
-- on the execution state (execution_state.hpp). Every instruction logs its stack, memory and storage
-- accesses as rw_operations. `evaluate` (lib/assigner/include/assigner.hpp) analyses the code, fills
-- the bytecode table, runs the loop and at the end fills the rw table: process_rw_operations
-- (lib/assigner/include/rw.hpp) sorts that trace and writes it to the rw table, with words
-- (include/zkevm_word.hpp) cut into chunks.
--
-- Which file models which part:
-- * Base, Base/: names of the libraries, Boolean tests, lists over the native numbers, signed
--   integers, bit masks as arithmetic.
-- * Intx, Blueprint: what the program calls of intx and of the blueprint library, which are not in
--   the repository, as interfaces, with documented behaviour as hypotheses (IsIntx, IsBlueprint).
--   Samples has one instance of each.
-- * Word, Word/: include/zkevm_word.hpp. A word is its value, below 2 ^ 256.
-- * Rw, Rw/: include/rw.hpp. Rw has the operations and operator<, Rw/Sort stands for std::sort,
--   Rw/Table is process_rw_operations: a table maps a column and a row to an element, and the reads
--   past the end of `sorting` are the value none. Rw/Table/Key, Cells, Rows, Compare, Process and
--   Trace carry the proof from a cell to a whole trace.
-- * Bytecode, Bytecode/: include/bytecode.hpp, over the tables of Rw/Table; Starts and Rows compare
--   the column IS_OPCODE with the places of instructions of Baseline/Jumpdests.
-- * Eof, Eof/: evmone/eof.hpp and evmone/eof.cpp. Eof has the errors and readers, Eof/Headers
--   the state machine of validate_eof_headers, Types, Code, Jumps and StackHeight the four other
--   validations, Validate the whole of validate_eof, ReadHeader the reader without checks. An
--   iterator is the bytes left, or a place in the code. Grammar, Machine, Sections and Complete
--   compare the machine with the form of its input; Starts, Rules, Targets, Marks, Count, Covers,
--   Visit, Bodies and Total carry what is checked of a code section over to the worklist, whose
--   fuel is the size of the code section: every round takes an instruction off the worklist, and
--   puts on it only bytes that had no stack height before.
-- * Opcode, Revision, Gas, Traits: instructions_opcodes.hpp, evmc_revision of evmc/evmc.h,
--   instructions_traits.hpp; Gas/Table: baseline_instruction_table.cpp; Gas/Storage: the SSTORE
--   costs of instructions.hpp. The tables are functions of the byte, and each revision's costs fall
--   back on those of the revision before.
-- * Memory, Memory/Grow: class Memory of execution_state.hpp, and num_words, grow_memory and both
--   check_memory of instructions.hpp. Gas is a signed integer, sizes wrap at 2 ^ 64.
-- * State, State/: ExecutionState and StackTop. The stack space is a function of the height above
--   bottom(), and the pointer to the top item is its height. State/Replay follows the stack from the
--   trace alone; State/Trace has the numbering of the trace.
-- * Host, with evmc/evmc.h: the message, the transaction context and the host interface, and
--   Environment, the execution state with the fields that only some instructions use. A host is a
--   record of operations on a type of worlds.
-- * Instructions, Instructions/: the core instructions, one function each: `binary` and `unary` are
--   the shape that most of them share. Stack has PUSH, DUP and SWAP, MemoryAccess has mload, mstore
--   and the jumps, Copy the copies to the memory and keccak256, Blocks mstore8, mcopy, return_ and
--   revert, EofCode the instructions of EOF code, Environment those that push what is known of the
--   transaction, Accounts and Storage those that ask or change the host, Calls and Creation
--   call_impl and create_impl. Void instructions give the state, others their status, gas and state,
--   or where they continue.
-- * VmHost, VmHost/: include/vm_host.hpp. A map is an association list, in which an entry is replaced
--   in place; handle_call and handle_create take the evaluation of code as a parameter. Accounts has
--   the theorems on it.
-- * Baseline, Baseline/: baseline.cpp, the analysis of legacy and EOF code, and check_requirements of
--   baseline.hpp.
-- * Interpreter, Interpreter/: the rest of baseline.hpp. Instruction has the forms of instruction
--   functions and `invoke` for each, Opcodes is MAP_OPCODES of instructions_xmacro.hpp, Loop is
--   `invoke` and `dispatch`; the code pointer is an offset in the executable code, `none` for null.
--   Spending follows the gas through every instruction, Counting the trace and the code, Progress and
--   Terminates the end of the loop, Induction what holds at the end, Undefined the opcodes that are
--   not defined, Nearby and Legacy a round over legacy code, Reached the positions of a run, as a
--   relation, and GasBound the gas in them.
-- * Assigner, Assigner/: include/assigner.hpp, the circuits, the assigner and `evaluate`.
--
-- The loops of the source are structural recursions here, but for `dispatch`, which runs on fuel: a
-- round that goes on takes gas, or it takes items from the stack for an instruction without cost, so
-- that twice the gas and one more is enough, unless a call or a creation raises the gas. That can
-- happen: a host may answer with more gas than its message has, and the message's gas may be negative.
-- The fuel is an argument of `evaluate`, which gives it to `dispatch`. The scan for jump destinations
-- carries the number of bytes that are still to skip, and its proof is by recursion on the length of
-- the code.
--
-- Not modelled: the evmc directory is a copy of the EVMC headers, of which only the types are taken
-- that the program uses; operator<< and log lines are output; assertions are hypotheses where a
-- theorem needs them. CMake files and tests are not modelled either.
pub mod Base
pub mod Intx
pub mod Blueprint
pub mod Eof
pub mod Bytecode
pub mod Host
pub mod Word
pub mod Rw
pub mod Opcode
pub mod Samples
pub mod Revision
pub mod Gas
pub mod Traits
pub mod Memory
pub mod State
pub mod Instructions
pub mod VmHost
pub mod Interpreter
pub mod Assigner
pub mod Baseline

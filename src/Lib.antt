-- ===== src/Lib.antt =====
-- estros: the instruction set of `isa/`, its assembler and its simulator, and the C compiler of
-- `cc/`.
--
-- The program. isa/isa.h lists the instructions with their formats and opcodes. isa/asm.c turns a
-- text into bytes: it parses each line, encodes its instruction by the table and patches the
-- branches to labels at the end. isa/sim.c loads such bytes into a ROM and runs them: each step
-- fetches four bytes, searches the same table for their instruction and executes it on registers,
-- flags and memory. isa/dis.c prints such bytes as text. cc/ is a C compiler:
-- cc/lexer.c splits a text into tokens, cc/parser.c makes a tree of them, cc/ssa.c makes the tree
-- into intermediate code and simplifies it, and cc/asm.c writes that as assembly, for the assembler
-- of isa/. The parser meets the parts behind it in the store of nodes, and cc/main.c calls the parts
-- in turn.
--
-- The modules.
-- Common: the native numbers' Boolean tests, machine words, bit operations, finite functions and
--   the string functions of libc that the code uses (isspace, isdigit, atoll, strcmp,
--   strpbrk).
-- Isa: isa/isa.h. `Formats` is enum xm_inst_format and xm_get_cb0_from_format, `Mnemonics` and
--   `Table` are XM_INST_LIST and xm_inst_table.
-- Sim: isa/sim.c. `State` is sim_state_t; `Memory` is cpu_translate and the reads and writes;
--   `Word` the helpers on words; `Integer`, `Block`, `Control` and `Float` hold one function
--   cpu_exec_NAME for each CPU_INSTRUCTION_FN(NAME); `Dispatch` is cpu_match_inst and the chain of
--   tests in cpu_step; `Exec` picks the function; `Step` is cpu_step, the loop of main and the
--   loading of the ROM, `Main` the arguments of main. `Invariant` and the children of the others hold proofs.
-- Asm: isa/asm.c. `Operand` is asm_parse_asm_operand, `State` asm_state_t, `Encode` asm_firstpass,
--   `Line` asm_process_line, `Assemble` asm_assemble, asm_find_label, asm_fixup and the calls of
--   main.
-- Dis: isa/dis.c, dis_print_format and dis_disassemble; its children hold proofs.
-- Cc: cc/. `Token` is cc/lexer.h, `Lexer` cc_tokenize, `Ast` the nodes of cc/ast.h and the
--   operations of cc/ast.c, `Parser` cc/parser.c, with its `Expression`, `Statement`, `Specifier`
--   and `Declaration`, `Driver` cc_driver_parse_file of cc/main.c, `Ssa` the tokens of cc/ssa.h and
--   their uses, `Ssa.Emit` cc_ssa_from_ast, `Ssa.Optimise` cc_ssa_optimise, `Asm` the registers of
--   cc/asm.c, `Asm.Lower` cc_asm_lower_ssa and `Asm.Print` the formats of cc_asm_write.
--   `Ssa.Meaning` and `Ssa.Compiled` say what tokens and expressions compute, apart from the code,
--   and `Whole` puts the parts together. Its `Grouping` is about two operations in an expression,
--   its `Declared` about declarations that are not taken, and its `Lines` about the whole way of a
--   function of two parameters from its tokens through the compiler, the assembler and main of
--   the simulator.
-- Tests: runs at concrete inputs.
--
-- How the code is represented. Words are natural numbers with their wrap-around written out. A
-- register file and a memory are functions of the index. An instruction returns an Outcome: the
-- next state with CPUE_CONTINUE or CPUE_HALT, `aborted` for abort(), `undefined` for behaviour that
-- C leaves undefined (a division by 0, a shift by 32 or more, a signed overflow, a register number
-- above 15, the missing return of cpu_step), and `out_of_fuel`. The assembler's functions return a
-- Result likewise; BUFSIZ is the parameter `bufsiz`, and 8192, as glibc has it, where the results
-- take the assembler together with other parts. Floating-point arithmetic and libm are the
-- parameter FloatOps, whose laws FloatLaws say that a float has 32 bits and that a conversion to
-- uint32_t gives 32 bits.
--
-- In cc/ a failed assert or a call of abort is `aborted` of the type Attempt, and a read past the
-- end of the names of registers `undefined`. The ids of results have 12 bits, lengths 8 and
-- positions 24, with their wrap-around; `char` is signed, and the C locale holds. Of
-- what mmap maps of a source file, the bytes behind its end to the end of their page can be read, and
-- are 0; a read of the tokenizer behind them is `undefined`. A number that atoll reads and `long long`
-- cannot hold, which C leaves undefined, becomes the nearest that it can, as glibc has it. A union is one
-- field for each part that the code reads. An array that grows is a list, whose capacity is not
-- modelled.
--
-- Bounds. The loops on a block or a table take the number of rounds that the code takes, from a
-- register. The loop of strcpy has no bound in the code and runs on fuel, as does the loop of main,
-- each round of which is a step; running out is an Outcome of its own. A string's length plus one
-- is enough for strcpy, and as many rounds as the argument of -ticks, where it is 2, for the code of
-- a function of two parameters and a counter that starts at 0. The loop of cc_tokenize
-- runs on fuel, for which the length of the text plus one is enough where it has no byte 0; the
-- recursions of the parser and those on the tree run on fuel for their depth, and its loops on
-- specifiers, parameters and declarations for their rounds: 40 is enough for a function of two
-- parameters that returns an operation of them.
--
-- Not modelled. The printing (cpu_debug_print, the traces, the messages of ASM_ERROR_IF), the
-- parsing of the command lines but the simulator's, the opening of files, and the capacity of the
-- arrays that are mapped. In cc/: the dumps of tokens, trees and intermediate code,
-- cc_push_raw_data, which nothing calls, and the sharing of arrays of children between copies of a
-- node. The compiler aborts on most of the language: expressions of one operation are what the
-- results on the whole compiler are about.
pub mod Common
pub mod Isa
pub mod Sim
pub mod Asm
pub mod Dis
pub mod Cc
mod Tests

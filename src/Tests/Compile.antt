-- ===== src/Tests/Compile.antt =====
-- Runs of the whole C compiler, from the bytes of a file to the lines of assembly, and its theorems at
-- concrete inputs.
use estros.Common.{ℕ, ◌*◌, ◌≡◌, refl, arith, some, List, [], ◌∷◌}
use estros.Common.Strings.{codes, str_eq, isspace}
use estros.Cc.Token.{Strview, Token, token_list}
use estros.Cc.Attempt.{ok, aborted}
use estros.Cc.Ast.{Binop}
use estros.Cc.Ssa.Emit.{cc_strview_get}
use estros.Cc.Asm.Lower.{AsmLine}
use estros.Cc.Asm.Print.{cc_asm_finish}
use estros.Cc.Driver.{parser_state, parse_tokens, cc_driver_parse_file}
use estros.Cc.Whole.{has_level, spelled, level}
use estros.Cc.Whole.Declared.{no_parameters, prototype, variable, parse_tokens_declared}
use estros.Cc.Whole.Grouping.{leaf, node, grouped, two_operations-IsGrouped}
use estros.Cc.Whole.Lines.{place, function_tokens, function_lines}
use estros.Cc.Whole.Lines.Compiled.{parse_tokens_compiles}
use estros.Cc.Whole.Lines.Executed.{meaning, Returns}
use estros.Cc.Whole.Lines.Toolchain.{function_runs}
use estros.Asm.State
use estros.Asm.Assemble.{assemble}
use estros.Asm.Assemble.Labelled.{is_special}
use estros.Sim.State.{Sim, cpue_continue, sim_rom_base, set_pc}
use estros.Sim.Main.{sim_main}
use estros.Common.Strings.{atoll, is_in_range, before}
use estros.Cc.Whole.Lines.Started.{main_arguments, rom_file, main_computes}
use estros.Sim.Step.{load_rom}
use estros.Tests.Data.{machine, whole_ops}

-- The two products are one token, but each sum reads registers that were freed.
compiled-products :
    cc_driver_parse_file 4096 80 (codes "int foo(int a, int b) { return a * b + a * b; } ")
    ≡ ok (
        AsmLine.section_text
        ∷ AsmLine.func_label (codes "foo")
        ∷ AsmLine.three_regs "mul" 16 24 25
        ∷ AsmLine.three_regs "add" 17 16 16
        ∷ AsmLine.ret
        ∷ AsmLine.section_data
        ∷ [])
unfolding cc_driver_parse_file token_list str_eq
compiled-products = refl

-- A function without parameters and a prototype fail an assertion.
compiled-no_parameters : cc_driver_parse_file 4096 80 (codes "int f() { return 1; } ") ≡ aborted
unfolding cc_driver_parse_file token_list str_eq
compiled-no_parameters = refl

compiled-prototype : cc_driver_parse_file 4096 80 (codes "int f(int a); ") ≡ aborted
unfolding cc_driver_parse_file token_list str_eq
compiled-prototype = refl

-- The variable behind the functions ends the parse without a diagnostic.
compiled-variable :
    cc_driver_parse_file 4096 80
      (codes "int f(int a) { return a; } int g(int a) { return a; } int h; ")
    ≡ cc_driver_parse_file 4096 80 (codes "int f(int a) { return a; } int g(int a) { return a; } ")
unfolding cc_driver_parse_file token_list str_eq
compiled-variable = refl

-- A constant is read from the register with the number 0.
compiled-constant :
    cc_driver_parse_file 4096 80 (codes "int f(int a) { return a + 1; } ")
    ≡ ok (
        AsmLine.section_text
        ∷ AsmLine.func_label (codes "f")
        ∷ AsmLine.three_regs "add" 16 24 0
        ∷ AsmLine.ret
        ∷ AsmLine.section_data
        ∷ [])
unfolding cc_driver_parse_file token_list str_eq
compiled-constant = refl

-- `int f(int x, int y) { return y - x; }`, on 80 and 90.
abbrev names : List ℕ
names = codes "f x y"

abbrev name_at : ℕ → Strview
name_at pos = record { pos = pos; len = 1 }

abbrev parameters : Sim ℕ
parameters = record machine { cpu = record (machine.cpu) { r = λ i. i * 10 } }

parse_tokens_compiles_example :
    parse_tokens 40 (
      parser_state names (
        function_tokens
          (name_at 0)
          (name_at 2)
          (name_at 4)
          (name_at 4)
          (name_at 2)
          (spelled Binop.sub)))
    ≡ ok (function_lines (codes "f") Binop.sub 1 0)
unfolding place cc_strview_get str_eq has_level
parse_tokens_compiles_example =
    parse_tokens_compiles names (name_at 0) (name_at 2) (name_at 4) (name_at 4) (name_at 2)
      Binop.sub refl

function_runs_example :
    (lines : List AsmLine) × (code : List ℕ) × (parse_tokens 40 (
        parser_state names (
          function_tokens
            (name_at 0)
            (name_at 2)
            (name_at 4)
            (name_at 4)
            (name_at 2)
            (spelled Binop.sub)))
      ≡ ok lines)
    × (assemble 8192 (cc_asm_finish lines) ≡ State.ok code)
    × Returns whole_ops 64 parameters (load_rom code (set_pc parameters sim_rom_base)) 10
unfolding place cc_strview_get str_eq has_level meaning is_special isspace
function_runs_example =
    function_runs whole_ops 64 names (name_at 0) (name_at 2) (name_at 4) (name_at 4) (name_at 2)
      Binop.sub parameters 10 refl refl refl (refl, tt) (omega arith) (omega arith) refl

main_computes_example :
    (lines : List AsmLine) × (code : List ℕ) × (after : Sim ℕ) × (parse_tokens 40 (
        parser_state names (
          function_tokens
            (name_at 0)
            (name_at 2)
            (name_at 4)
            (name_at 4)
            (name_at 2)
            (spelled Binop.sub)))
      ≡ ok lines)
    × (assemble 8192 (cc_asm_finish lines) ≡ State.ok code)
    × (sim_main whole_ops 64 2 (rom_file code) (main_arguments (codes "-7") (codes "17")) machine
        ≡ cpue_continue after)
    × (after.cpu.r 0 ≡ 24)
    × (after.ram ≡ machine.ram)
    × (after.cpu.pc ≡ machine.cpu.r 12)
unfolding place cc_strview_get str_eq has_level meaning is_special isspace atoll is_in_range before
main_computes_example =
    main_computes whole_ops 64 names (name_at 0) (name_at 2) (name_at 4) (name_at 4) (name_at 2)
      Binop.sub (codes "-7") (codes "17") machine 24 refl refl refl (refl, tt) (omega arith) refl
      refl refl refl

-- `/` and `*` are two levels: a / b * c is a / (b * c).
two_operations-IsGrouped_example :
    grouped names (name_at 0) (name_at 2) (name_at 4) Binop.div Binop.mul
    ≡ ok (
        some (
          node Binop.div (leaf (name_at 0)) (node Binop.mul (leaf (name_at 2)) (leaf (name_at 4)))))
unfolding has_level level
two_operations-IsGrouped_example =
    two_operations-IsGrouped names (name_at 0) (name_at 2) (name_at 4) Binop.div Binop.mul refl refl

-- With a function behind the declaration.
abbrev subtraction : List Token
subtraction =
    function_tokens (name_at 0) (name_at 2) (name_at 4) (name_at 4) (name_at 2) (spelled Binop.sub)

parse_tokens_declared_example :
    (parse_tokens 40 (parser_state names (no_parameters (name_at 0) subtraction)) ≡ aborted)
    × (parse_tokens 40 (parser_state names (prototype (name_at 0) (name_at 2) subtraction))
        ≡ aborted)
    × (parse_tokens 40 (parser_state names (variable (name_at 2) subtraction)) ≡ ok [])
parse_tokens_declared_example = parse_tokens_declared names (name_at 0) (name_at 2) subtraction

-- ===== src/Cc/Whole/Lines/Started.antt =====
-- cc/, isa/asm.c and isa/sim.c: proofs on the compiler, the assembler and main of the simulator, which
-- takes the operands from its arguments.
use estros.Common.{
  ap, ◌∙◌, ℕ, ◌+◌, ◌^◌, ◌<◌, ◌≡◌, true, none, some, [], ◌∷◌, length, List, refl, u32, u64, ltb,
  arith, update, if◌then◌else◌, bit_or,
}
use estros.Common.Strings.{codes, str_eq, atoll, is_in_range}
use estros.Cc.Token.{Strview}
use estros.Cc.Attempt.{ok}
use estros.Cc.Ast.{Binop}
use estros.Cc.Ssa.Emit.{cc_strview_get}
use estros.Cc.Asm.Lower.{AsmLine}
use estros.Cc.Asm.Print.{cc_asm_finish}
use estros.Cc.Driver.{parser_state, parse_tokens}
use estros.Cc.Whole.{has_level, spelled}
use estros.Cc.Whole.Lines.{Place, nowhere, first, second, place, function_tokens}
use estros.Cc.Whole.Lines.Executed.{meaning, Returns}
use estros.Cc.Whole.Lines.Toolchain.{is_somewhere, function_runs, parameter_number}
use estros.Asm.Assemble.{assemble}
use estros.Asm.Assemble.Labelled.{AreNot, is_special}
use estros.Asm.Operand.{label_name_size}
use estros.Asm.State
use estros.Isa.{xm_abi_a0, xm_abi_a1, xm_abi_ra}
use estros.Sim.State.{Sim, cpue_continue, sim_rom_base, set_pc, set_r}
use estros.Sim.FloatOps.{FloatOps}
use estros.Sim.Step.{load_rom, cpu_step, continue_run, run}
use estros.Sim.Main.{Files, read_arguments, flag_argument, value_argument, file_argument, sim_main}

-- The arguments `-quiet -ticks 2 -a0 m -a1 n rom`.
abbrev pub main_arguments : (m n : List ℕ) → List (List ℕ)
main_arguments m n =
    codes "-quiet"
    ∷ codes "-ticks"
    ∷ codes "2"
    ∷ codes "-a0"
    ∷ m
    ∷ codes "-a1"
    ∷ n
    ∷ codes "rom"
    ∷ []

-- One file, `rom`.
abbrev pub rom_file : List ℕ → Files
rom_file code name = if str_eq name (codes "rom") then some code else none

-- The operand that a parameter has from the arguments.
abbrev pub operand : (m n : List ℕ) → Place → ℕ
operand m n second = u32 (atoll n)
operand m n _ = u32 (atoll m)

module _ {F D C K : Type 0} (o : FloatOps F D C K) (fuel : ℕ) where
  -- Two rounds of the loop of main, where the second reaches the bound.
  two_rounds :
      (before between after : Sim F)
      → cpu_step o fuel before ≡ cpue_continue between
      → cpu_step o fuel between ≡ cpue_continue after
      → between.perf.ticks ≡ 1
      → after.perf.ticks ≡ 2
      → run o fuel 2 2 before ≡ cpue_continue after
  unfolding run continue_run
  two_rounds before between after h1 h2 t1 t2 =
      ap (continue_run (run o fuel 1 2) 2) h1
      ∙ ap (λ t. if ltb t 2 then run o fuel 1 2 between else cpue_continue between) t1
      ∙ ap (continue_run (run o fuel 0 2) 2) h2
      ∙ ap (λ t. if ltb t 2 then run o fuel 0 2 after else cpue_continue after) t2

  with_operands : (m n : List ℕ) → Sim F → Sim F
  with_operands m n sim =
      set_r (set_r (record sim { opt = bit_or (sim.opt) 1 }) xm_abi_a0 (u32 (atoll m))) xm_abi_a1
        (u32 (atoll n))

  started_main :
      (code m n : List ℕ) (sim : Sim F)
      → sim_main o fuel 2 (rom_file code) (main_arguments m n) sim
        ≡ run o fuel 2 2 (load_rom code (set_pc (with_operands m n sim) sim_rom_base))
  unfolding sim_main read_arguments flag_argument value_argument file_argument with_operands set_r
      set_pc load_rom str_eq
  started_main code m n sim = refl

  operand_in_register :
      (m n : List ℕ) (sim : Sim F) (p : Place)
      → (with_operands m n sim).cpu.r (xm_abi_a0 + parameter_number p) ≡ operand m n p
  unfolding with_operands set_r update
  operand_in_register m n sim nowhere = refl
  operand_in_register m n sim first = refl
  operand_in_register m n sim second = refl

  operand-lt : (m n : List ℕ) (p : Place) → operand m n p < 2 ^ 32
  operand-lt m n nowhere = omega arith
  operand-lt m n first = omega arith
  operand-lt m n second = omega arith

  -- What two steps on the code leave is what main ends with after two rounds.
  ends_as_run :
      (code m n : List ℕ) (sim : Sim F) (v : ℕ)
      → sim.perf.ticks ≡ 0
      → (run_of : Returns o fuel
          (with_operands m n sim)
          (load_rom code (set_pc (with_operands m n sim) sim_rom_base))
          v)
      → sim_main o fuel 2 (rom_file code) (main_arguments m n) sim ≡ cpue_continue (run_of.after)
  unfolding with_operands set_r
  ends_as_run code m n sim v zero_ticks run_of =
      started_main code m n sim
      ∙ two_rounds _ (run_of.between) (run_of.after) (run_of.is_first) (run_of.is_second)
          (run_of.ticks_between ∙ ap (λ t. u64 (t + 1)) zero_ticks)
          (run_of.ticks_after ∙ ap (λ t. u64 (u64 (t + 1) + 1)) zero_ticks)

  -- For any of the nine operations with a parser and a token and any names, where a and b each name
  -- a parameter, as C strings, and f, as one, has no space, `:` or `#` and fewer than 16 bytes: the
  -- compiler makes of the tokens of `int f(int x, int y) { return a op b; }` lines of assembly, and the
  -- assembler of their text machine code; main of the simulator, on any state whose counter of ticks is
  -- 0, with the arguments `-quiet -ticks 2 -a0 m -a1 n rom`, where the file `rom` holds that code, ends
  -- after two rounds of its loop with the value of the operation on the numbers that m and n spell, which
  -- have less than 64 bits with their sign, cut to 32 bits, where C defines it for 32 bits unsigned, in T0, with the RAM as it was and `pc` at RA.
  pub main_computes :
      (text : List ℕ) (f x y a b : Strview) (op : Binop) (m n : List ℕ) (sim : Sim F) (v : ℕ)
      → has_level op ≡ true
      → is_somewhere (place text x y a) ≡ true
      → is_somewhere (place text x y b) ≡ true
      → AreNot is_special (cc_strview_get text f)
      → length (cc_strview_get text f) < label_name_size
      → sim.perf.ticks ≡ 0
      → is_in_range m ≡ true
      → is_in_range n ≡ true
      → meaning op (operand m n (place text x y a)) (operand m n (place text x y b)) ≡ some v
      → (lines : List AsmLine) × (code : List ℕ) × (after : Sim F) × (parse_tokens 40
            (parser_state text (function_tokens f x y a b (spelled op)))
          ≡ ok lines)
        × (assemble 8192 (cc_asm_finish lines) ≡ State.ok code)
        × (sim_main o fuel 2 (rom_file code) (main_arguments m n) sim ≡ cpue_continue after)
        × (after.cpu.r 0 ≡ v)
        × (after.ram ≡ sim.ram)
        × (after.cpu.pc ≡ sim.cpu.r xm_abi_ra)
  unfolding with_operands set_r update
  main_computes text f x y a b op m n sim v h ha hb plain short zero_ticks m_fits n_fits is =
      let p = place text x y a in
      let q = place text x y b in
      let started = with_operands m n sim in
      let at_a = operand_in_register m n sim p in
      let at_b = operand_in_register m n sim q in
      let small : started.cpu.r (xm_abi_a0 + parameter_number q) < 2 ^ 32 =
        rw at_b (operand-lt m n q) in
      let (lines, code, parses, assembles, returns) =
        function_runs o fuel text f x y a b op started v h ha hb plain short small
          (rw (at_a, at_b) is) in
      (
        lines,
        code,
        returns.after,
        parses,
        assembles,
        ends_as_run code m n sim v zero_ticks returns,
        ap (λ r. r 0) (returns.result),
        returns.same_ram,
        returns.at,
      )

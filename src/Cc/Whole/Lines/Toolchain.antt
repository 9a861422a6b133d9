-- ===== src/Cc/Whole/Lines/Toolchain.antt =====
-- cc/, isa/asm.c and isa/sim.c: proofs on the compiler, the assembler and the simulator together, for
-- `int f(int x, int y) { return a op b; }`.
use mathlib.Core.Bool.{false≢true}
use estros.Common.{
  ◌∙◌, ℕ, ◌+◌, ◌^◌, ◌<◌, ◌≡◌, Bool, true, false, some, length, List, refl, u32, arith,
}
use estros.Cc.Token.{Strview}
use estros.Cc.Attempt.{ok}
use estros.Cc.Ast.{Binop}
use estros.Cc.Ssa.Emit.{cc_strview_get}
use estros.Cc.Asm.Lower.{AsmLine}
use estros.Cc.Asm.Print.{cc_asm_finish}
use estros.Cc.Driver.{parser_state, parse_tokens}
use estros.Cc.Whole.{has_level, spelled}
use estros.Cc.Whole.Lines.{
  Place, nowhere, first, second, place, function_tokens, function_lines, lines_or_abort,
}
use estros.Cc.Whole.Lines.Compiled.{parse_tokens_compiles}
use estros.Cc.Whole.Lines.Assembled.{function_bytes, IsAssembled, lines-IsAssembled}
use estros.Cc.Whole.Lines.Executed.{meaning, Returns, Steps, operation_found, code-Returns}
use estros.Asm.Assemble.{assemble}
use estros.Asm.Assemble.Labelled.{AreNot, is_special}
use estros.Asm.Operand.{label_name_size}
use estros.Asm.State
use estros.Isa.{xm_abi_a0}
use estros.Sim.State.{Sim, sim_rom_base, set_pc}
use estros.Sim.FloatOps.{FloatOps}
use estros.Sim.Step.{load_rom}

abbrev pub is_somewhere : Place → Bool
is_somewhere nowhere = false
is_somewhere _ = true

abbrev pub parameter_number : Place → ℕ
parameter_number second = 1
parameter_number _ = 0

lines_of_places :
    (name : List ℕ) (op : Binop) (p q : Place)
    → is_somewhere p ≡ true
    → is_somewhere q ≡ true
    → lines_or_abort name op p q
      ≡ ok (function_lines name op (parameter_number p) (parameter_number q))
lines_of_places name op first first hp hq = refl
lines_of_places name op first second hp hq = refl
lines_of_places name op second first hp hq = refl
lines_of_places name op second second hp hq = refl
lines_of_places name op nowhere q hp hq = absurd (false≢true hp)
lines_of_places name op first nowhere hp hq = absurd (false≢true hq)
lines_of_places name op second nowhere hp hq = absurd (false≢true hq)

-- A property of the four pairs of registers.
each_pair :
    (P : ℕ → ℕ → Type 0) (p q : Place)
    → P 0 0 × P 0 1 × P 1 0 × P 1 1
    → P (parameter_number p) (parameter_number q)
each_pair P second second all = all.3
each_pair P second _ all = all.2
each_pair P _ second all = all.1
each_pair P _ _ all = all.0

module _ {F D C K : Type 0} (o : FloatOps F D C K) (fuel : ℕ) where
  -- For any of the nine operations with a parser and a token and any names, where a and b each name
  -- a parameter, as C strings, and f, as one, has no space, `:` or `#` and fewer than 16 bytes: the
  -- compiler makes of the tokens of `int f(int x, int y) { return a op b; }` lines of assembly, and the
  -- assembler of their text machine code; in the ROM, two steps of the simulator on any state put the
  -- value of the operation on the parameters' registers, where C defines it for 32 bits unsigned, into
  -- T0, leave the other registers and the RAM as they are, and go to the address in RA.
  pub function_runs :
      (text : List ℕ) (f x y a b : Strview) (op : Binop) (sim : Sim F) (v : ℕ)
      → has_level op ≡ true
      → is_somewhere (place text x y a) ≡ true
      → is_somewhere (place text x y b) ≡ true
      → AreNot is_special (cc_strview_get text f)
      → length (cc_strview_get text f) < label_name_size
      → sim.cpu.r (xm_abi_a0 + parameter_number (place text x y b)) < 2 ^ 32
      → meaning op
          (sim.cpu.r (xm_abi_a0 + parameter_number (place text x y a)))
          (sim.cpu.r (xm_abi_a0 + parameter_number (place text x y b)))
        ≡ some v
      → (lines : List AsmLine) × (code : List ℕ) × (parse_tokens 40
            (parser_state text (function_tokens f x y a b (spelled op)))
          ≡ ok lines)
        × (assemble 8192 (cc_asm_finish lines) ≡ State.ok code)
        × Returns o fuel sim (load_rom code (set_pc sim sim_rom_base)) v
  function_runs text f x y a b op sim v h ha hb plain short small is =
      let p = place text x y a in
      let q = place text x y b in
      let name = cc_strview_get text f in
      let b_value = sim.cpu.r (xm_abi_a0 + parameter_number q) in
      let same : u32 (b_value + 0) ≡ b_value = omega arith in
      (
        function_lines name op (parameter_number p) (parameter_number q),
        function_bytes op (parameter_number p) (parameter_number q),
        parse_tokens_compiles text f x y a b op h ∙ lines_of_places name op p q ha hb,
        each_pair (IsAssembled name op) p q (lines-IsAssembled name op h plain short),
        code-Returns o fuel sim op (parameter_number p) (parameter_number q) v
            (each_pair (Steps o fuel sim op) p q (operation_found o fuel sim op h)) (rw same is),
      )

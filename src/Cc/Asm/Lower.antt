-- ===== src/Cc/Asm/Lower.antt =====
-- cc/asm.c: cc_asm_lower_ssa, the assembly of the intermediate code. The text that is written is a
-- list of lines, with the register's number for its name; `Asm.Print` has the text.
use Prim.Native.String.{String}
use estros.Common.{
  ℕ, zero, suc, ◌+◌, ◌-◌, ◌*◌, ◌^◌, ◌&&◌, List, [], ◌∷◌, ◌++◌, leb, ◌==◌, if◌then◌else◌, drop,
}
use estros.Cc.Token.{Strview}
use estros.Cc.Attempt.{Attempt, ok, aborted, ◌>>=◌}
use estros.Cc.Ssa.{
  SsaArgument, SsaToken, SsaTokenType, SsaFunction, zero_argument, first_arg, width_set, id_param,
  cc_ssa_is_last_use, is_raw_data,
}
use estros.Cc.Ssa.Emit.{SsaState, cc_strview_get}
use estros.Cc.Ssa.Optimise.{tokens_of}
use estros.Cc.Asm.{
  RegisterCategory, reg_a0, reg_a3, regname, cc_asm_regalloc, cc_asm_regfree, cc_asm_find_used,
}

-- What a call of cc_asm_write writes.
pub data AsmLine : Type 0 where
  section_text section_data ret : AsmLine
  func_label : (name : List ℕ) → AsmLine
  data_label : (id : ℕ) → AsmLine
  three_regs : (insn : String) → (res arg0 arg1 : ℕ) → AsmLine
  three_regs_imm : (insn : String) → (res arg0 arg1 imm : ℕ) → AsmLine
  load_data : (insn : String) → (res id : ℕ) → AsmLine
  data_unit : (bytes value : ℕ) → AsmLine

-- `struct cc_asm_state`.
pub record CcAsmState : Type 0 where
  pub asm_out : List AsmLine
  pub reg_info : List SsaArgument

abbrev pub cc_asm_write : CcAsmState → AsmLine → CcAsmState
cc_asm_write st line = record st { asm_out = st.asm_out ++ line ∷ [] }

abbrev pub second_arg : List SsaArgument → SsaArgument
second_arg (a ∷ b ∷ args) = b
second_arg _ = zero_argument

-- A little-endian number of `n` bytes.
unfoldable pub read_unit : (n : ℕ) → List ℕ → ℕ
read_unit zero p = 0
read_unit (suc n) [] = 0
read_unit (suc n) (c ∷ p) = c + 2 ^ 8 * read_unit n p

-- `for (; i + unit <= raw.len; i += unit)`: the state and `i` behind the loop.
unfoldable pub write_units :
    (left unit i len : ℕ) → (bytes : List ℕ) → List AsmLine → List AsmLine × ℕ
unfolding read_unit
write_units zero unit i len bytes out = (out, i)
write_units (suc left) unit i len bytes out =
    let line = data_unit unit (read_unit unit (drop i bytes)) in
    let more = leb (i + unit) len in
    let rest = write_units left unit (i + unit) len bytes (out ++ line ∷ []) in
    if more then rest else (out, i)

-- The four loops of cc_asm_write_raw_data; none has more rounds than there are bytes.
unfoldable pub cc_asm_write_raw_data : CcAsmState → (raw_data : List ℕ) → Strview → CcAsmState
unfolding write_units
cc_asm_write_raw_data st raw_data raw =
    let bytes = drop raw.pos raw_data in
    let quads = write_units raw.len 8 0 raw.len bytes st.asm_out in
    let longs = write_units raw.len 4 quads.1 raw.len bytes quads.0 in
    let words = write_units raw.len 2 longs.1 raw.len bytes longs.0 in
    record st { asm_out = (write_units raw.len 1 words.1 raw.len bytes words.0).0 }

-- `if (cc_ssa_is_last_use(...)) cc_asm_regfree(as, reg)`.
unfoldable pub free_after :
    (tokens : List SsaToken)
    → (offset : ℕ) → SsaArgument
    → (reg : ℕ) → CcAsmState
    → Attempt CcAsmState
unfolding cc_ssa_is_last_use cc_asm_regfree
free_after tokens offset arg reg st = cc_ssa_is_last_use tokens offset arg >>= λ last.
    if last
    then (cc_asm_regfree st.reg_info reg >>= λ regs. ok (record st { reg_info = regs }))
    else ok st

-- For the tokens of a function and the one at `offset`.
unfoldable pub cc_asm_generic_binop :
    CcAsmState → (tokens : List SsaToken) → (offset : ℕ) → SsaToken → String → Attempt CcAsmState
unfolding cc_asm_regalloc cc_asm_find_used regname free_after
cc_asm_generic_binop st tokens offset tok insn =
    let a = first_arg tok.args in
    let b = second_arg tok.args in
    let taken = cc_asm_regalloc st.reg_info RegisterCategory.integer tok.result in
    cc_asm_find_used taken.0 a >>= λ arg0. cc_asm_find_used taken.0 b >>= λ arg1.
    regname taken.1 >>= λ r. regname arg0 >>= λ r0. regname arg1 >>= λ r1.
    free_after tokens (offset + 1) a arg0
      (cc_asm_write (record st { reg_info = taken.0 }) (three_regs insn r r0 r1))
    >>= λ st'. free_after tokens (offset + 1) b arg1 st'

-- The case of an identity token; the place of the parameter's register is `param_reg`.
unfoldable pub lower_identity : CcAsmState → SsaToken → Attempt CcAsmState
unfolding cc_asm_regalloc regname
lower_identity st tok =
    let a = first_arg tok.args in
    let taken = cc_asm_regalloc st.reg_info RegisterCategory.integer tok.result in
    let st' = record st { reg_info = taken.0 } in
    let param_reg = reg_a0 + a.id - id_param 0 in
    if leb reg_a0 param_reg && leb param_reg reg_a3
    then (let move = regname taken.1 >>= λ r.
          ok (cc_asm_write st' (three_regs_imm "or" r param_reg param_reg 0)) in
        if a.width == width_set 32
        then move
        else (if a.width == width_set 16
            then move
            else (if a.width == width_set 8
                then (move >>= λ moved. regname taken.1 >>= λ r.
                    ok (cc_asm_write moved (three_regs_imm "and" r r r 0xff)))
                else aborted)))
    else ok st'

unfoldable pub lower_raw_data : CcAsmState → SsaToken → Attempt CcAsmState
unfolding cc_asm_regalloc regname
lower_raw_data st tok =
    let taken = cc_asm_regalloc st.reg_info RegisterCategory.integer tok.result in
    let st' = record st { reg_info = taken.0 } in
    if tok.result.width == width_set 32
    then (regname taken.1 >>= λ r. ok (cc_asm_write st' (load_data "ldl" r tok.result.id)))
    else (if tok.result.width == width_set 16
        then (regname taken.1 >>= λ r. ok (cc_asm_write st' (load_data "ldw" r tok.result.id)))
        else aborted)

-- The switch of cc_asm_lower_func.
unfoldable pub lower_token :
    CcAsmState → (tokens : List SsaToken) → (offset : ℕ) → SsaToken → Attempt CcAsmState
unfolding cc_asm_generic_binop lower_identity lower_raw_data
lower_token st tokens offset tok = elim tok.type [
  | SsaTokenType.identity ↦ lower_identity st tok
  | SsaTokenType.raw_data ↦ lower_raw_data st tok
  | SsaTokenType.add ↦ cc_asm_generic_binop st tokens offset tok "add"
  | SsaTokenType.sub ↦ cc_asm_generic_binop st tokens offset tok "sub"
  | SsaTokenType.mul ↦ cc_asm_generic_binop st tokens offset tok "mul"
  | SsaTokenType.div ↦ cc_asm_generic_binop st tokens offset tok "div"
  | SsaTokenType.rem ↦ cc_asm_generic_binop st tokens offset tok "rem"
  | SsaTokenType.lshift ↦ cc_asm_generic_binop st tokens offset tok "shl"
  | SsaTokenType.rshift ↦ cc_asm_generic_binop st tokens offset tok "shr"
  | SsaTokenType.xor ↦ cc_asm_generic_binop st tokens offset tok "xor"
  | SsaTokenType.or ↦ cc_asm_generic_binop st tokens offset tok "or"
  | SsaTokenType.and ↦ cc_asm_generic_binop st tokens offset tok "and"
  | SsaTokenType.return_token ↦ ok (cc_asm_write st ret)
  | _ ↦ ok st
]

unfoldable pub lower_tokens :
    CcAsmState
    → (tokens : List SsaToken) → (offset : ℕ) → (rest : List SsaToken) → Attempt CcAsmState
unfolding lower_token
lower_tokens st tokens offset [] = ok st
lower_tokens st tokens offset (t ∷ rest) =
    lower_token st tokens offset t >>= λ st'. lower_tokens st' tokens (offset + 1) rest

unfoldable pub lower_data : CcAsmState → (raw_data : List ℕ) → List SsaToken → CcAsmState
unfolding cc_asm_write_raw_data
lower_data st raw_data [] = st
lower_data st raw_data (t ∷ ts) =
    let labelled = cc_asm_write st (data_label t.result.id) in
    let st' = if is_raw_data t.type then cc_asm_write_raw_data labelled raw_data t.raw else st in
    lower_data st' raw_data ts

unfoldable pub cc_asm_lower_func :
    SsaState → (raw_data : List ℕ) → CcAsmState → SsaFunction → Attempt CcAsmState
unfolding lower_tokens lower_data cc_strview_get
cc_asm_lower_func state raw_data st func =
    let tokens = tokens_of state.ssa_tokens func in
    let named =
      cc_asm_write (cc_asm_write st section_text)
        (func_label (cc_strview_get state.text func.name)) in
    lower_tokens named tokens 0 tokens >>= λ st'.
    ok (lower_data (cc_asm_write st' section_data) raw_data tokens)

-- The registers at the beginning of a function: the four parameters are in A0 to A3.
abbrev pub param_arg : ℕ → SsaArgument
param_arg i = record { id = id_param i; width = width_set 32 }

abbrev free_regs : ℕ → List SsaArgument → List SsaArgument
free_regs zero regs = regs
free_regs (suc n) regs = zero_argument ∷ free_regs n regs

abbrev pub initial_regs : List SsaArgument
initial_regs = free_regs 24 (param_arg 0 ∷ param_arg 1 ∷ param_arg 2 ∷ param_arg 3 ∷ free_regs 4 [])

abbrev lower_funcs :
    SsaState → (raw_data : List ℕ) → List SsaFunction → CcAsmState → Attempt CcAsmState
lower_funcs state raw_data [] st = ok st
lower_funcs state raw_data (f ∷ fs) st =
    cc_asm_lower_func state raw_data (record st { reg_info = initial_regs }) f >>= λ st'.
    lower_funcs state raw_data fs st'

-- The lines that are printed at the end.
unfoldable pub cc_asm_lower_ssa : SsaState → (raw_data : List ℕ) → Attempt (List AsmLine)
unfolding cc_asm_lower_func
cc_asm_lower_ssa state raw_data =
    lower_funcs state raw_data state.ssa_funcs (record { asm_out = []; reg_info = initial_regs })
    >>= λ st. ok st.asm_out

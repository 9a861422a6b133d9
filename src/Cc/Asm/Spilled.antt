-- ===== src/Cc/Asm/Spilled.antt =====
-- cc/asm.c: proofs on the tokens that find no register.
use estros.Common.{ℕ, ◌+◌, ◌≤◌, ◌<◌, ◌≡◌, ◌≢◌, List, ◌-◌, true, leb, ◌&&◌, length, refl, arith}
use estros.Cc.Attempt.{undefined}
use estros.Cc.Ssa.{SsaToken, SsaTokenType, first_arg}
use estros.Cc.Asm.{reg_at}
use estros.Cc.Asm.Lower.{CcAsmState, lower_identity, lower_token}
use estros.Cc.Asm.Registers.Full.{cc_asm_regalloc-regname}

-- The code for a use of a parameter, of 0 for its width as every token has, reads past the end of the
-- names of the registers where T0 to T6 are taken.
pub lower_token_spilled :
    (st : CcAsmState) (tokens : List SsaToken) (offset : ℕ) (tok : SsaToken)
    → tok.type ≡ SsaTokenType.identity
    → 2 ≤ (first_arg tok.args).id
    → (first_arg tok.args).id < 6
    → (first_arg tok.args).width ≡ 0
    → 32 ≤ length st.reg_info
    → ((j : ℕ) → 16 ≤ j → j < 23 → (reg_at st.reg_info j).id ≢ 0)
    → lower_token st tokens offset tok ≡ undefined
unfolding lower_token lower_identity
lower_token_spilled st tokens offset tok identity low high width long full =
    let a = (first_arg tok.args).id in
    let in_range : (leb 24 (24 + a - 2) && leb (24 + a - 2) 27) ≡ true =
      ground (arith, low, high) in
    rw (identity, in_range, width, cc_asm_regalloc-regname st.reg_info tok.result long full) refl

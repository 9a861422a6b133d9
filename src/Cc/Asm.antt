-- ===== src/Cc/Asm.antt =====
-- cc/asm.c: the registers of the code generator.
pub mod Print
pub mod Lower
pub mod Registers
pub mod Spilled
use estros.Common.{
  ℕ, zero, suc, ◌+◌, ◌-◌, Bool, true, false, not, ◌&&◌, ◌||◌, Option, none, some, List, [], ◌∷◌,
  ◌++◌, leb, ltb, ◌==◌, if◌then◌else◌, length,
}
use estros.Cc.Attempt.{Attempt, ok, aborted, undefined}
use estros.Cc.Ssa.{SsaArgument, zero_argument}

-- `enum cc_asm_register_category`.
pub data RegisterCategory : Type 0 where
  integer float stack base_pointer return_address thread_pointer : RegisterCategory

-- `enum cc_asm_register`: F0 to F15, T0 to T7, A0 to A3, RA, BP, SP and TP, and the first spill.
abbrev pub reg_f0 : ℕ
reg_f0 = 0

abbrev pub reg_f15 : ℕ
reg_f15 = 15

abbrev pub reg_t0 : ℕ
reg_t0 = 16

abbrev pub reg_t7 : ℕ
reg_t7 = 23

abbrev pub reg_a0 : ℕ
reg_a0 = 24

abbrev pub reg_a3 : ℕ
reg_a3 = 27

abbrev pub reg_ra : ℕ
reg_ra = 28

abbrev pub reg_bp : ℕ
reg_bp = 29

abbrev pub reg_sp : ℕ
reg_sp = 30

abbrev pub reg_tp : ℕ
reg_tp = 31

abbrev pub reg_spill : ℕ
reg_spill = 32

-- `as->reg_info[i]`; the list is as long as `n_reg_info`.
abbrev pub reg_at : List SsaArgument → ℕ → SsaArgument
reg_at [] i = zero_argument
reg_at (a ∷ regs) zero = a
reg_at (a ∷ regs) (suc i) = reg_at regs i

abbrev pub set_reg : List SsaArgument → ℕ → SsaArgument → List SsaArgument
set_reg [] i v = []
set_reg (a ∷ regs) zero v = v ∷ regs
set_reg (a ∷ regs) (suc i) v = a ∷ set_reg regs i v

-- A register that asm_regname has a name for.
unfoldable pub regname : ℕ → Attempt ℕ
regname r = if ltb r reg_spill then ok r else undefined

unfoldable pub cc_asm_is_fixed_reg : ℕ → Bool
cc_asm_is_fixed_reg r =
    (leb reg_a0 r || leb r reg_a3) || r == reg_ra || r == reg_tp || r == reg_bp || r == reg_sp

-- A loop over `left` registers from `i` on for one with the id.
unfoldable pub reg_with : (left i : ℕ) → List SsaArgument → (id : ℕ) → Option ℕ
reg_with zero i regs id = none
reg_with (suc left) i regs id =
    let rest = reg_with left (i + 1) regs id in if (reg_at regs i).id == id then some i else rest

abbrev pub is_integer : RegisterCategory → Bool
is_integer RegisterCategory.integer = true
is_integer _ = false

abbrev pub is_float : RegisterCategory → Bool
is_float RegisterCategory.float = true
is_float _ = false

abbrev pub or_else : Option ℕ → Option ℕ → Option ℕ
or_else (some r) other = some r
or_else none other = other

-- The three loops for a free register.
unfoldable pub free_reg : List SsaArgument → RegisterCategory → Option ℕ
unfolding reg_with
free_reg regs cat =
    or_else (if is_integer cat then reg_with (reg_t7 - reg_t0) reg_t0 regs 0 else none) (
      or_else (if is_float cat then reg_with (reg_f15 - reg_f0) reg_f0 regs 0 else none)
        (reg_with (length regs - reg_spill) reg_spill regs 0))

abbrev pub grown : List SsaArgument → Option ℕ → List SsaArgument × ℕ
grown regs (some r) = (regs, r)
grown regs none = (regs ++ zero_argument ∷ [], length regs)

-- What the place of a new spill holds is overwritten by the caller.
unfoldable pub cc_asm_find_free : List SsaArgument → RegisterCategory → List SsaArgument × ℕ
unfolding free_reg
cc_asm_find_free regs cat = grown regs (free_reg regs cat)

unfoldable pub cc_asm_regalloc :
    List SsaArgument → RegisterCategory → SsaArgument → List SsaArgument × ℕ
unfolding cc_asm_find_free
cc_asm_regalloc regs cat arg =
    let found = cc_asm_find_free regs cat in (set_reg found.0 found.1 arg, found.1)

unfoldable pub cc_asm_regfree : List SsaArgument → (reg : ℕ) → Attempt (List SsaArgument)
unfolding cc_asm_is_fixed_reg
cc_asm_regfree regs reg =
    if (reg_at regs reg).id == 0
    then aborted
    else ok (if cc_asm_is_fixed_reg reg then regs else set_reg regs reg zero_argument)

abbrev pub or_abort : Option ℕ → Attempt ℕ
or_abort none = aborted
or_abort (some r) = ok r

unfoldable pub cc_asm_find_used : List SsaArgument → SsaArgument → Attempt ℕ
unfolding reg_with
cc_asm_find_used regs arg = or_abort (reg_with (length regs) 0 regs arg.id)

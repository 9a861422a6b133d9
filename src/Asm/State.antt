-- ===== src/Asm/State.antt =====
-- isa/asm.c, lines 38 to 66: the assembler's state. The mapped arrays are lists: their capacity is
-- not modelled, nor are the file descriptors.
use estros.Common.{ℕ, List, []}

pub record AsmLabel : Type 0 where
  pub name : List ℕ
  pub pc : ℕ

pub data FixupType : Type 0 where
  fixup_none fixup_rel_o16s8 : FixupType

pub record AsmFixup : Type 0 where
  pub name : List ℕ
  pub type : FixupType
  pub pc : ℕ
  pub offset : ℕ

pub record AsmState : Type 0 where
  pub out : List ℕ
  pub labels : List AsmLabel
  pub fixups : List AsmFixup
  pub pc : ℕ

-- asm_initialise, on the zeroed `state` of main.
unfoldable pub asm_initialise : AsmState
asm_initialise = record { out = []; labels = []; fixups = []; pc = 0 }

-- A value, `abort()`, or behaviour that C leaves undefined.
pub data Result {ℓ} (A : Type ℓ) : Type ℓ where
  ok : A → Result A
  aborted undefined : Result A

infixl 5 ◌>>=◌
abbrev pub ◌>>=◌ {ℓ κ} : {A : Type ℓ} {B : Type κ} → Result A → (A → Result B) → Result B
ok a >>= f = f a
aborted >>= f = aborted
undefined >>= f = undefined

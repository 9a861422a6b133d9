-- ===== src/Asm/Assemble/Fixup.antt =====
-- isa/asm.c, asm_fixup: proofs on the patch of the output.
use estros.Common.{
  ℕ, zero, suc, ◌+◌, ◌-◌, ◌^◌, ◌≤◌, ◌<◌, ◌≡◌, ◌≢◌, ◌⊎◌, refl, some, List, [], ◌∷◌, u8, u32, sext8,
  length, get_elem?, arith, ap,
}
use estros.Asm.State.{AsmLabel, AsmFixup, fixup_rel_o16s8, ok}
use estros.Asm.Assemble.{asm_find_label, patch, fixup_one}

pub length-patch : (out : List ℕ) (i v : ℕ) → length (patch out i v) ≡ length out
unfolding patch
length-patch [] i v = refl
length-patch (b ∷ bs) zero v = refl
length-patch (b ∷ bs) (suc i) v = omega (arith, length-patch bs i v)

patch_self : (out : List ℕ) (i v : ℕ) → i < length out → get_elem? (patch out i v) i ≡ some v
unfolding patch
patch_self [] i v h = absurd (omega arith)
patch_self (b ∷ bs) zero v h = refl
patch_self (b ∷ bs) (suc i) v h = patch_self bs i v (omega arith)

patch-ne : (out : List ℕ) (i v j : ℕ) → j ≢ i → get_elem? (patch out i v) j ≡ get_elem? out j
unfolding patch
patch-ne [] i v j ne = refl
patch-ne (b ∷ bs) zero v zero ne = absurd (ne refl)
patch-ne (b ∷ bs) zero v (suc j) ne = refl
patch-ne (b ∷ bs) (suc i) v zero ne = refl
patch-ne (b ∷ bs) (suc i) v (suc j) ne = patch-ne bs i v j (λ e. ne (ap suc e))

-- The distance from one address to another as a signed byte.
abbrev pub IsShort : (from to : ℕ) → Type 0
IsShort from to = (u32 (to + 2 ^ 32 - from) < 2 ^ 7) ⊎ (2 ^ 32 - 2 ^ 7 ≤ u32 (to + 2 ^ 32 - from))

short_distance :
    (from to : ℕ)
    → from < 2 ^ 32
    → to < 2 ^ 32
    → IsShort from to
    → u32 (from + sext8 (u8 (u32 (to + 2 ^ 32 - from)))) ≡ to
short_distance from to p q h = ground arith

-- A fixup of a label that is found, at a distance that a signed byte holds, succeeds, changes the byte
-- at the offset plus 2 and no other, keeps the length, and a branch at the fixup's address with that
-- byte as its distance leads to the label's address.
pub fixup_one_lem :
    (labels : List AsmLabel) (f : AsmFixup) (out : List ℕ) (l : AsmLabel)
    → f.type ≡ fixup_rel_o16s8
    → asm_find_label labels (f.name) ≡ ok l
    → f.pc < 2 ^ 32
    → l.pc < 2 ^ 32
    → IsShort (f.pc) (l.pc)
    → f.offset + 2 < length out
    → (fixed : List ℕ) × (b : ℕ) × (fixup_one labels f out ≡ ok fixed)
      × (get_elem? fixed (f.offset + 2) ≡ some b)
      × (u32 (f.pc + sext8 b) ≡ l.pc)
      × (length fixed ≡ length out)
      × ((j : ℕ) → j ≢ f.offset + 2 → get_elem? fixed j ≡ get_elem? out j)
unfolding fixup_one
fixup_one_lem labels f out l kind found p q short inside =
    let b = u8 (u32 (l.pc + 2 ^ 32 - f.pc)) in
    (
      patch out (f.offset + 2) b,
      b,
      rw (found, kind) refl,
      patch_self out (f.offset + 2) b inside,
      short_distance (f.pc) (l.pc) p q short,
      length-patch out (f.offset + 2) b,
      patch-ne out (f.offset + 2) b,
    )

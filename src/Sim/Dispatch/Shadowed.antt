-- ===== src/Sim/Dispatch/Shadowed.antt =====
-- isa/sim.c, cpu_step: proofs on the entries of XM_INST_LIST that the chain of tests cannot find,
-- for an earlier entry takes their opcode.
use estros.Common.{
  ℕ, ◌<◌, ◌≡◌, ◌≢◌, Bool, true, false, not, ◌&&◌, Option, none, some, List, [], ◌∷◌, ◌++◌, all_from,
  all_from_each, refl, ◌∙◌, sym, ap, ap₂, arith,
}
use estros.Isa.{Format, Mnemonic, Entry, integer_insts, float_insts, debug_insts, inst_table}
use estros.Sim.State.{Inst}
use estros.Sim.Dispatch.{Decoded, cpu_match_inst, find_inst, unmatched, test_aborted, found, choose}

-- The instruction of which only the opcode is given.
abbrev pub bare : ℕ → Inst
bare b3 = record { b0 = 0; b1 = 0; b2 = 0; b3 = b3 }

abbrev is_debug : Format → Bool
is_debug Format.d8 = true
is_debug _ = false

cpu_match_inst-bare :
    (id : Inst) (f : Format) (op : ℕ)
    → is_debug f ≡ false
    → cpu_match_inst id f op ≡ cpu_match_inst (bare (id.b3)) f op
unfolding cpu_match_inst
cpu_match_inst-bare id Format.d8 op h = cc
cpu_match_inst-bare id _ op h = refl

abbrev no_debug : List Entry → Bool
no_debug [] = true
no_debug (e ∷ es) = not (is_debug (e.format)) && no_debug es

not-and-eq-true : (a b : Bool) → (not a && b) ≡ true → (a ≡ false) × (b ≡ true)
not-and-eq-true true b h = cc
not-and-eq-true false b h = (refl, h)

-- The search of a list with no debug entry, followed by any other list, depends on the opcode
-- alone as long as it finds something.
unfoldable pub find_or : Decoded → Decoded → Decoded
find_or (found m) later = found m
find_or unmatched later = later
find_or test_aborted later = test_aborted

choose-find_or :
    (t : Option Bool) (m : Mnemonic) (d later : Decoded)
    → choose t m (find_or d later) ≡ find_or (choose t m d) later
unfolding choose find_or
choose-find_or none m d later = refl
choose-find_or (some true) m d later = refl
choose-find_or (some false) m d later = refl

find_inst-append :
    (es later : List Entry) (id : Inst)
    → no_debug es ≡ true
    → find_inst (es ++ later) id ≡ find_or (find_inst es (bare (id.b3))) (find_inst later id)
unfolding find_inst find_or
find_inst-append [] later id h = refl
find_inst-append (e ∷ es) later id h =
    let (first, others) = not-and-eq-true (is_debug (e.format)) (no_debug es) h in
    ap₂ (λ (t : Option Bool) (d : Decoded). choose t (e.inst) d)
      (cpu_match_inst-bare id (e.format) (e.op) first) (find_inst-append es later id others)
    ∙ choose-find_or (cpu_match_inst (bare (id.b3)) (e.format) (e.op)) (e.inst)
        (find_inst es (bare (id.b3))) (find_inst later id)

-- The list without its last entry, `halt`.
abbrev pub searched : List Entry
searched = integer_insts ++ float_insts

searched-no_debug : no_debug searched ≡ true
unfolding integer_insts float_insts
searched-no_debug = refl

-- The search of the table: the opcode decides, and where it finds nothing the class byte may still
-- say `halt`.
pub find_inst_by_opcode :
    (id : Inst)
    → find_inst inst_table id
      ≡ find_or (find_inst searched (bare (id.b3))) (find_inst debug_insts id)
unfolding inst_table
find_inst_by_opcode id = find_inst-append searched debug_insts id searched-no_debug

-- The entries that are never found.
unfoldable pub is_shadowed : Mnemonic → Bool
is_shadowed Mnemonic.chtreeunchk = true
is_shadowed Mnemonic.fadd3 = true
is_shadowed Mnemonic.fsub3 = true
is_shadowed Mnemonic.fdiv3 = true
is_shadowed Mnemonic.fmul3 = true
is_shadowed Mnemonic.fmod3 = true
is_shadowed Mnemonic.fmadd = true
is_shadowed Mnemonic.fmsub = true
is_shadowed Mnemonic.fsqrt3 = true
is_shadowed Mnemonic.fhyp = true
is_shadowed Mnemonic.fnorm = true
is_shadowed Mnemonic.fabs = true
is_shadowed Mnemonic.fsign = true
is_shadowed Mnemonic.fnabs = true
is_shadowed Mnemonic.fcos = true
is_shadowed Mnemonic.fsin = true
is_shadowed Mnemonic.ftan = true
is_shadowed Mnemonic.facos = true
is_shadowed Mnemonic.fatan = true
is_shadowed Mnemonic.fasin = true
is_shadowed Mnemonic.fcbrt = true
is_shadowed Mnemonic.fy0 = true
is_shadowed Mnemonic.fy1 = true
is_shadowed Mnemonic.fj0 = true
is_shadowed Mnemonic.fj1 = true
is_shadowed Mnemonic.fexp = true
is_shadowed Mnemonic.finv = true
is_shadowed Mnemonic.fconstpi = true
is_shadowed Mnemonic.faddcrr = true
is_shadowed Mnemonic.fsubcrr = true
is_shadowed Mnemonic.fdivcrr = true
is_shadowed Mnemonic.fmulcrr = true
is_shadowed Mnemonic.fsqrtcrr = true
is_shadowed Mnemonic.faddcri = true
is_shadowed Mnemonic.fsubcri = true
is_shadowed Mnemonic.fdivcri = true
is_shadowed Mnemonic.fmulcri = true
is_shadowed Mnemonic.fcvti = true
is_shadowed Mnemonic.icvtf = true
is_shadowed Mnemonic.fcvtri = true
is_shadowed Mnemonic.icvtrf = true
is_shadowed _ = false

unfoldable pub finds_shadowed : Decoded → Bool
finds_shadowed (found m) = is_shadowed m
finds_shadowed _ = false

opcode_table : all_from 256 0 (λ b3. not (finds_shadowed (find_inst searched (bare b3)))) ≡ true
unfolding all_from finds_shadowed is_shadowed find_inst cpu_match_inst integer_insts float_insts
opcode_table = refl

finds_shadowed-halt : (id : Inst) → finds_shadowed (find_inst debug_insts id) ≡ false
unfolding finds_shadowed is_shadowed find_inst cpu_match_inst debug_insts
finds_shadowed-halt id = ground arith

finds_shadowed-find_or :
    (d later : Decoded)
    → not (finds_shadowed d) ≡ true
    → finds_shadowed later ≡ false
    → finds_shadowed (find_or d later) ≡ false
unfolding finds_shadowed find_or
finds_shadowed-find_or (found m) later h k = ground arith
finds_shadowed-find_or unmatched later h k = k
finds_shadowed-find_or test_aborted later h k = refl

finds_shadowed-find_inst :
    (id : Inst) → id.b3 < 256 → finds_shadowed (find_inst inst_table id) ≡ false
finds_shadowed-find_inst id h =
    ap finds_shadowed (find_inst_by_opcode id)
    ∙ finds_shadowed-find_or (find_inst searched (bare (id.b3))) (find_inst debug_insts id)
        (all_from_each 256 0 (λ b3. not (finds_shadowed (find_inst searched (bare b3)))) (id.b3)
          (omega arith) (omega (arith, h)) opcode_table)
        (finds_shadowed-halt id)

-- No four bytes run one of the 41 shadowed instructions: `chtreeunchk`, which shares its opcode with
-- `chtree`, and the float, complex and conversion instructions that share theirs with an integer
-- instruction.
pub shadowed_never_found :
    (id : Inst) (m : Mnemonic)
    → id.b3 < 256
    → is_shadowed m ≡ true
    → find_inst inst_table id ≢ found m
unfolding finds_shadowed
shadowed_never_found id m h shadowed e =
    let never : is_shadowed m ≡ false = sym (ap finds_shadowed e) ∙ finds_shadowed-find_inst id h in
    cc (shadowed, never)

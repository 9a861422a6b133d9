-- ===== src/Sim/Dispatch/Reached.antt =====
-- isa/sim.c, cpu_step: proofs on the entries of XM_INST_LIST that the chain of tests can find.
use estros.Common.{
  ℕ, zero, suc, ◌+◌, ◌≡◌, Bool, true, false, ◌&&◌, ◌||◌, ◌⊎◌, inl, inr, some, List, [], ◌∷◌, refl,
  ◌∙◌, ap, get_elem?, if◌then◌else◌,
}
use mathlib.Core.Bool.{false≢true, and-eq-true_iff}
use mathlib.Core.Option.{some-injective, none-ne-some}
use mathlib.Core.Path.{subst}
use estros.Isa.{Mnemonic, Entry, is_ifhbs, integer_insts, float_insts, debug_insts, inst_table}
use estros.Sim.State.{Inst}
use estros.Sim.Dispatch.{Decoded, cpu_match_inst, find_inst, unmatched, test_aborted, found}
use estros.Sim.Dispatch.Shadowed.{bare, searched, find_or, find_inst_by_opcode, is_shadowed}

Mnemonic-discrete : Discrete Mnemonic
Mnemonic-discrete = hlevel

abbrev decided : {A : Type 0} → Dec A → Bool
decided (yes a) = true
decided (no n) = false

finds : Mnemonic → Decoded → Bool
finds m (found m') = decided (Mnemonic-discrete m' m)
finds m _ = false

-- The entry is shadowed, or its opcode finds it, with the high bit of an integer opcode clear or
-- set.
abbrev reached : Entry → Bool
reached e =
    is_shadowed (e.inst)
    || (finds (e.inst) (find_inst searched (bare (e.op)))
        && finds (e.inst)
            (find_inst searched (bare (if is_ifhbs (e.format) then e.op + 128 else e.op))))

-- A test of every entry.
abbrev pub all_entries : (Entry → Bool) → List Entry → Bool
all_entries p [] = true
all_entries p (e ∷ es) = p e && all_entries p es

reached_table : all_entries reached searched ≡ true
unfolding is_shadowed finds Mnemonic-discrete find_inst cpu_match_inst integer_insts float_insts
reached_table = refl

decided-sound : {A : Type 0} (d : Dec A) → decided d ≡ true → A
decided-sound (yes a) h = a
decided-sound (no n) h = absurd (false≢true h)

finds-eq : (m : Mnemonic) (d : Decoded) → finds m d ≡ true → d ≡ found m
unfolding finds
finds-eq m (found m') h = ap found (decided-sound (Mnemonic-discrete m' m) h)
finds-eq m unmatched h = absurd (false≢true h)
finds-eq m test_aborted h = absurd (false≢true h)

pub all_entries-get :
    (p : Entry → Bool) (es : List Entry) (i : ℕ) (e : Entry)
    → all_entries p es ≡ true
    → get_elem? es i ≡ some e
    → p e ≡ true
all_entries-get p [] i e h k = absurd (none-ne-some _ k)
all_entries-get p (x ∷ es) zero e h k =
    subst (λ y. p y ≡ true) (some-injective _ _ k)
      (((and-eq-true_iff (p x) (all_entries p es)).0 h).0)
all_entries-get p (x ∷ es) (suc i) e h k =
    all_entries-get p es i e (((and-eq-true_iff (p x) (all_entries p es)).0 h).1) k

or-eq-true : (a b : Bool) → (a || b) ≡ true → a ≡ false → b ≡ true
or-eq-true true b h k = cc
or-eq-true false b h k = h

-- The search finds what it finds for an opcode, for every instruction with that opcode.
found_at_opcode :
    (id : Inst) (m : Mnemonic) (opcode : ℕ)
    → id.b3 ≡ opcode
    → finds m (find_inst searched (bare opcode)) ≡ true
    → find_inst inst_table id ≡ found m
unfolding find_or
found_at_opcode id m opcode same h =
    find_inst_by_opcode id
    ∙ ap (λ (k : ℕ). find_or (find_inst searched (bare k)) (find_inst debug_insts id)) same
    ∙ ap (λ (d : Decoded). find_or d (find_inst debug_insts id)) (finds-eq m _ h)

-- Every entry of the table but `halt` that is not shadowed is found by its opcode, whatever the other
-- bytes are; an integer entry also by its opcode with the high bit set, which selects the form with
-- an immediate.
pub found_by_opcode :
    (id : Inst) (i : ℕ) (e : Entry)
    → get_elem? searched i ≡ some e
    → is_shadowed (e.inst) ≡ false
    → (id.b3 ≡ e.op) ⊎ ((is_ifhbs (e.format) ≡ true) × (id.b3 ≡ e.op + 128))
    → find_inst inst_table id ≡ found (e.inst)
found_by_opcode id i e at clear opcode =
    let (low, high) = (and-eq-true_iff _ _).0 (
      or-eq-true (is_shadowed (e.inst)) _ (all_entries-get reached searched i e reached_table at)
        clear) in
    elim opcode [
      | inl plain ↦ found_at_opcode id (e.inst) (e.op) plain low
      | inr (ifhbs, raised) ↦ found_at_opcode id (e.inst) (e.op + 128) raised (rw ifhbs at high)
    ]

-- ===== src/Sim/Dispatch.antt =====
-- isa/sim.c, lines 1023 to 1037, and the chain of tests in cpu_step: how an instruction is found.
pub mod Shadowed
pub mod Reached
use estros.Common.{
  ℕ, ◌/◌, ◌%◌, Bool, true, false, not, ◌&&◌, ◌||◌, Option, none, some, List, [], ◌∷◌, ◌==◌,
}
use estros.Isa.{Format, Cb0, Mnemonic, Entry, is_ifhbs, get_cb0_from_format}
use estros.Sim.State.{Inst}

-- The switch of cpu_match_inst on the class; `none` is its `abort()`.
unfoldable pub match_class : Cb0 → Inst → Format → ℕ → Option Bool
match_class Cb0.integer id format op =
    some ((is_ifhbs format && id.b3 % 128 == op) || (not (is_ifhbs format) && id.b3 == op))
match_class Cb0.float id format op =
    some ((is_ifhbs format && id.b3 % 128 == op) || (not (is_ifhbs format) && id.b3 == op))
match_class Cb0.control id format op =
    some ((is_ifhbs format && id.b3 % 128 == op) || (not (is_ifhbs format) && id.b3 == op))
match_class Cb0.tile id format op =
    some ((is_ifhbs format && id.b3 % 128 == op) || (not (is_ifhbs format) && id.b3 == op))
match_class Cb0.debug id format op = some (id.b0 / 16 == op)
match_class _ id format op = none

unfoldable pub cpu_match_inst : Inst → Format → ℕ → Option Bool
unfolding match_class get_cb0_from_format
cpu_match_inst id format op = match_class (get_cb0_from_format format) id format op

-- What the chain of `else if` comes to: an instruction, the empty last `else`, or the abort of a
-- test on the way.
pub data Decoded : Type 0 where
  found : Mnemonic → Decoded
  unmatched test_aborted : Decoded

-- One `else if`: the result of its test, its instruction, and what the rest of the chain comes to.
unfoldable pub choose : Option Bool → Mnemonic → Decoded → Decoded
choose none m rest = test_aborted
choose (some true) m rest = found m
choose (some false) m rest = rest

unfoldable pub find_inst : List Entry → Inst → Decoded
unfolding choose
find_inst [] id = unmatched
find_inst (e ∷ es) id = choose (cpu_match_inst id (e.format) (e.op)) (e.inst) (find_inst es id)

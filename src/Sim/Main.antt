-- ===== src/Sim/Main.antt =====
-- isa/sim.c, lines 1063 to 1108: main, its arguments and its loop. The texts that it prints are left
-- out.
use estros.Common.{ℕ, Option, none, some, List, [], ◌∷◌, u32, bit_or, if◌then◌else◌}
use estros.Common.Strings.{codes, str_eq, atoll}
use estros.Isa.{xm_abi_t0, xm_abi_a0, xm_abi_a1, xm_abi_a2, xm_abi_a3, xm_abi_ra}
use estros.Sim.State.{Sim, Outcome, sim_ram_base, sim_rom_base, set_pc, set_r}
use estros.Sim.FloatOps.{FloatOps}
use estros.Sim.Step.{load_rom, run}

-- What main keeps while it reads its arguments.
pub record Started (F : Type 0) : Type 0 where
  pub sim : Sim F
  pub max_ticks : ℕ

-- The name of a file, as `fopen` and `fread` take it: what is read, where it can be opened.
abbrev pub Files : Type 0
Files = List ℕ → Option (List ℕ)

module _ {F : Type 0} where
  abbrev pub with_opt : Started F → (flag : ℕ) → Started F
  with_opt s flag = record s { sim = record (s.sim) { opt = bit_or (s.sim.opt) flag } }

  abbrev pub with_r : Started F → (i value : ℕ) → Started F
  with_r s i value = record s { sim = set_r (s.sim) i (u32 value) }

  -- The arguments without a value.
  unfoldable pub flag_argument : List ℕ → Started F → Option (Started F)
  unfolding str_eq
  flag_argument a s =
      if str_eq a (codes "-quiet")
      then some (with_opt s 1)
      else if str_eq a (codes "-test")
      then some (with_opt s 2)
      else if str_eq a (codes "-trace-mem")
      then some (with_opt s 4)
      else if str_eq a (codes "-t0")
      then some (with_r s xm_abi_t0 sim_ram_base)
      else if str_eq a (codes "-ra")
      then some (with_r s xm_abi_ra sim_rom_base)
      else none

  -- Those with a value, which is the next argument.
  unfoldable pub value_argument : (a value : List ℕ) → Started F → Option (Started F)
  unfolding str_eq atoll
  value_argument a value s =
      if str_eq a (codes "-ticks")
      then some (record s { max_ticks = atoll value })
      else if str_eq a (codes "-a0")
      then some (with_r s xm_abi_a0 (atoll value))
      else if str_eq a (codes "-a1")
      then some (with_r s xm_abi_a1 (atoll value))
      else if str_eq a (codes "-a2")
      then some (with_r s xm_abi_a2 (atoll value))
      else if str_eq a (codes "-a3")
      then some (with_r s xm_abi_a3 (atoll value))
      else none

  -- Any other is a file for the ROM.
  unfoldable pub file_argument : Files → List ℕ → Started F → Started F
  file_argument files a s = elim (files a) [
    | none ↦ s
    | some bytes ↦ record s { sim = load_rom bytes (s.sim) }
  ]

  abbrev pub one_argument : Files → List ℕ → Option (Started F) → Started F → Started F
  one_argument files a (some s') s = s'
  one_argument files a none s = file_argument files a s

  -- The arguments behind the program's name.
  unfoldable pub read_arguments : Files → (args : List (List ℕ)) → Started F → Started F
  unfolding flag_argument value_argument file_argument
  read_arguments files [] s = s
  read_arguments files (a ∷ []) s = one_argument files a (flag_argument a s) s
  read_arguments files (a ∷ value ∷ args) s = elim (flag_argument a s) [
    | some s' ↦ read_arguments files (value ∷ args) s'
    | none ↦ elim (value_argument a value s) [
      | some s' ↦ read_arguments files args s'
      | none ↦ read_arguments files (value ∷ args) (file_argument files a s)
    ]
  ]

-- On the state that malloc gives, whose contents are not set.
module _ {F D C K : Type 0} (o : FloatOps F D C K) (fuel : ℕ) where
  unfoldable pub sim_main : (rounds : ℕ) → Files → (args : List (List ℕ)) → Sim F → Outcome F
  unfolding read_arguments run set_pc
  sim_main rounds files args sim =
      let s =
        read_arguments files args (record { sim = set_pc sim sim_rom_base; max_ticks = 25 }) in
      run o fuel rounds (s.max_ticks) (s.sim)

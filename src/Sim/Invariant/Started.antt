-- ===== src/Sim/Invariant/Started.antt =====
-- Proofs on the invariant: the arguments of main and what it runs.
use estros.Common.{
  ℕ, zero, suc, ◌<◌, ◌^◌, Bool, true, false, Option, none, some, List, [], ◌∷◌, u32, if◌then◌else◌,
  get_elem?, ltb, arith,
}
use estros.Common.Strings.{codes, str_eq, atoll}
use estros.Isa.{xm_abi_t0, xm_abi_a0, xm_abi_a1, xm_abi_a2, xm_abi_a3, xm_abi_ra}
use estros.Sim.State.{Sim, sim_ram_base, sim_rom_base, sim_rom_size}
use estros.Sim.FloatOps.{FloatOps, FloatLaws}
use estros.Sim.Step.{load_rom}
use estros.Sim.Main.{
  Started, Files, with_opt, with_r, flag_argument, value_argument, file_argument, one_argument,
  read_arguments, sim_main,
}
use estros.Sim.Invariant.{IsValid, Keeps}
use estros.Sim.Invariant.Fields.{set_pc-IsValid, set_r-IsValid}
use estros.Sim.Invariant.Step.{run-Keeps}

abbrev pub AreFileBytes : List ℕ → Type 0
AreFileBytes [] = Unit
AreFileBytes (c ∷ cs) = (c < 256) × AreFileBytes cs

-- Where a file can be opened, bytes are read of it.
abbrev pub ReadsBytes : Option (List ℕ) → Type 0
ReadsBytes none = Unit
ReadsBytes (some bytes) = AreFileBytes bytes

byte_or_ones-lt :
    (bytes : List ℕ) (i : ℕ)
    → AreFileBytes bytes
    → (elim (get_elem? bytes i) [ none ↦ 0xff | some value ↦ value ]) < 256
byte_or_ones-lt [] i h = omega arith
byte_or_ones-lt (c ∷ cs) zero h = h.0
byte_or_ones-lt (c ∷ cs) (suc i) h = byte_or_ones-lt cs i (h.1)

if-lt : (test : Bool) (x y : ℕ) → x < 256 → y < 256 → (if test then x else y) < 256
if-lt true x y p q = p
if-lt false x y p q = q

u32-lt : (x : ℕ) → u32 x < 2 ^ 32
u32-lt x = omega arith

module _ {F : Type 0} where
  abbrev IsStarted : Started F → Type 0
  IsStarted s = IsValid (s.sim)

  data IsOption : Option (Started F) → Type 0 where
    is_none : IsOption none
    is_some : {s : Started F} → IsStarted s → IsOption (some s)

  load_rom-IsValid :
      (bytes : List ℕ) (sim : Sim F)
      → AreFileBytes bytes
      → IsValid sim
      → IsValid (load_rom bytes sim)
  unfolding load_rom
  load_rom-IsValid bytes sim h v = record {
    cpu = v.cpu;
    perf = v.perf;
    trap_page = v.trap_page;
    ram = v.ram;
    rom = λ i. if-lt (ltb i sim_rom_size) _ _ (byte_or_ones-lt bytes i h) (v.rom i);
  }

  if-IsOption :
      (test : Bool) (s : Started F) {x : Option (Started F)}
      → IsStarted s
      → IsOption x
      → IsOption (if test then some s else x)
  if-IsOption true s p q = is_some p
  if-IsOption false s p q = q

  -- One test of the chain, of the argument's text.
  reads_flag :
      (a name : List ℕ) (t : Started F) {x : Option (Started F)}
      → IsStarted t
      → IsOption x
      → IsOption (if str_eq a name then some t else x)
  reads_flag a name t = if-IsOption (str_eq a name) t

  elim-IsStarted :
      (x : Option (Started F)) (s : Started F) (k : Started F → Started F)
      → IsOption x
      → IsStarted s
      → ((t : Started F) → IsStarted t → IsStarted (k t))
      → IsStarted (elim x [ none ↦ s | some t ↦ k t ])
  elim-IsStarted none s k h v w = v
  elim-IsStarted (some t) s k (is_some h) v w = w t h

  with_opt-IsStarted : (s : Started F) (flag : ℕ) → IsStarted s → IsStarted (with_opt s flag)
  with_opt-IsStarted s flag v = record {
    cpu = v.cpu;
    perf = v.perf;
    trap_page = v.trap_page;
    ram = v.ram;
    rom = v.rom;
  }

  with_r-IsStarted : (s : Started F) (i x : ℕ) → IsStarted s → IsStarted (with_r s i x)
  with_r-IsStarted s i x v = set_r-IsValid v i (u32-lt x)

  sets_register :
      (a name : List ℕ) (s : Started F) (i x : ℕ) {y : Option (Started F)}
      → IsStarted s
      → IsOption y
      → IsOption (if str_eq a name then some (with_r s i x) else y)
  sets_register a name s i x v = reads_flag a name (with_r s i x) (with_r-IsStarted s i x v)

  flag_argument-IsOption : (a : List ℕ) (s : Started F) → IsStarted s → IsOption (flag_argument a s)
  unfolding flag_argument
  flag_argument-IsOption a s v =
      reads_flag a (codes "-quiet") (with_opt s 1) (with_opt-IsStarted s 1 v) (
        reads_flag a (codes "-test") (with_opt s 2) (with_opt-IsStarted s 2 v) (
          reads_flag a (codes "-trace-mem") (with_opt s 4) (with_opt-IsStarted s 4 v) (
            sets_register a (codes "-t0") s xm_abi_t0 sim_ram_base v
              (sets_register a (codes "-ra") s xm_abi_ra sim_rom_base v is_none))))

  value_argument-IsOption :
      (a value : List ℕ) (s : Started F) → IsStarted s → IsOption (value_argument a value s)
  unfolding value_argument
  value_argument-IsOption a value s v =
      reads_flag a (codes "-ticks") (record s { max_ticks = atoll value }) v
        (sets_register a (codes "-a0") s xm_abi_a0 (atoll value) v (
          sets_register a (codes "-a1") s xm_abi_a1 (atoll value) v (
            sets_register a (codes "-a2") s xm_abi_a2 (atoll value) v
              (sets_register a (codes "-a3") s xm_abi_a3 (atoll value) v is_none))))

  module _ (files : Files) (reads : (name : List ℕ) → ReadsBytes (files name)) where
    file_argument-IsStarted :
        (a : List ℕ) (s : Started F) → IsStarted s → IsStarted (file_argument files a s)
    unfolding file_argument
    file_argument-IsStarted a s v =
        (elim (files a)
            as (λ x.
              ReadsBytes x
              → IsStarted
                  (elim x [ none ↦ s | some bytes ↦ record s { sim = load_rom bytes (s.sim) } ])) [
                    | none ↦ λ h. v
                    | some bytes ↦ λ h. load_rom-IsValid bytes (s.sim) h v
                  ])
          (reads a)

    one_argument-IsStarted :
        (a : List ℕ) (x : Option (Started F)) (s : Started F)
        → IsOption x
        → IsStarted s
        → IsStarted (one_argument files a x s)
    one_argument-IsStarted a (some s') s (is_some h) v = h
    one_argument-IsStarted a none s h v = file_argument-IsStarted a s v

    read_arguments-IsStarted :
        (args : List (List ℕ)) (s : Started F)
        → IsStarted s
        → IsStarted (read_arguments files args s)
    unfolding read_arguments
    read_arguments-IsStarted [] s v = v
    read_arguments-IsStarted (a ∷ []) s v =
        one_argument-IsStarted a _ s (flag_argument-IsOption a s v) v
    read_arguments-IsStarted (a ∷ value ∷ args) s v =
        elim-IsStarted (flag_argument a s) _ _ (flag_argument-IsOption a s v)
          (elim-IsStarted (value_argument a value s) _ _ (value_argument-IsOption a value s v)
            (read_arguments-IsStarted (value ∷ args) _ (file_argument-IsStarted a s v))
            (λ t w. read_arguments-IsStarted args t w))
          (λ t w. read_arguments-IsStarted (value ∷ args) t w)

module _ {F D C K : Type 0} {o : FloatOps F D C K} (laws : FloatLaws o) (fuel : ℕ) where
  -- For any arithmetic whose conversions have 32 bits: main, whatever its arguments are and where
  -- the files hold bytes, on a state whose fields have the widths of their C types, gives such a
  -- state after any number of rounds, if it gives one.
  pub sim_main-Keeps :
      (rounds : ℕ) (files : Files) (args : List (List ℕ)) (sim : Sim F)
      → ((name : List ℕ) → ReadsBytes (files name))
      → IsValid sim
      → Keeps (sim_main o fuel rounds files args sim)
  unfolding sim_main
  sim_main-Keeps rounds files args sim reads v =
      run-Keeps laws fuel rounds _ _
        (read_arguments-IsStarted files reads args _ (set_pc-IsValid v (omega arith)))

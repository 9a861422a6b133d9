-- ===== src/Sim/Invariant/Block.antt =====
-- Proofs on the invariant: the instructions on blocks of memory, loop by loop.
use estros.Common.{
  ℕ, zero, suc, ◌+◌, ◌^◌, ◌<◌, Bool-cases, inl, inr, u32, ◌==◌, if◌then◌else◌, Bool, true, false,
}
use estros.Sim.State.{Sim, Inst}
use estros.Sim.Memory.{cpu_read8}
use estros.Sim.Block.{
  DecodeR4x4, cpu_decode_r4x4, block_result, copy8, forward_loop, backward_loop, fill_loop,
  search_loop, strcpy_loop, strcpy_result, strncpy_loop, chase_loop, chase_unchecked_loop,
  table_read, cpu_exec_strcpy,
}
use estros.Sim.Invariant.{IsValid, Keeps}
use estros.Sim.Invariant.Fields.{add_pc-IsValid, set_r-IsValid}
use estros.Sim.Invariant.Memory.{cpu_read8-ReadsBelow, cpu_read32-ReadsBelow, cpu_write8-IsValid}

module _ {F : Type 0} where
  copy8-IsValid : {sim : Sim F} → IsValid sim → (to from : ℕ) → IsValid (copy8 sim to from)
  unfolding copy8
  copy8-IsValid v to from = cpu_write8-IsValid ((cpu_read8-ReadsBelow v from).1) to _

  pub forward_loop-IsValid :
      (left i a b : ℕ) {sim : Sim F} → IsValid sim → IsValid (forward_loop left i a b sim)
  unfolding forward_loop
  forward_loop-IsValid zero i a b v = v
  forward_loop-IsValid (suc left) i a b v =
      forward_loop-IsValid left (i + 1) a b (copy8-IsValid v _ _)

  pub backward_loop-IsValid :
      (left i a b c : ℕ) {sim : Sim F} → IsValid sim → IsValid (backward_loop left i a b c sim)
  unfolding backward_loop
  backward_loop-IsValid zero i a b c v = v
  backward_loop-IsValid (suc left) i a b c v =
      backward_loop-IsValid left (i + 1) a b c (copy8-IsValid v _ _)

  pub fill_loop-IsValid :
      (left i a b : ℕ) {sim : Sim F} → IsValid sim → IsValid (fill_loop left i a b sim)
  unfolding fill_loop
  fill_loop-IsValid zero i a b v = v
  fill_loop-IsValid (suc left) i a b v =
      fill_loop-IsValid left (i + 1) a b (cpu_write8-IsValid v _ _)

  -- Both branches of a test are valid.
  pub if-IsValid :
      (test : Bool) {s t : Sim F} → IsValid s → IsValid t → IsValid (if test then s else t)
  if-IsValid true p q = p
  if-IsValid false p q = q

  pub search_loop-IsValid :
      (left i dp a b : ℕ) {sim : Sim F}
      → a < 2 ^ 32
      → IsValid sim
      → IsValid (search_loop left i dp a b sim)
  unfolding search_loop
  search_loop-IsValid zero i dp a b h v = v
  search_loop-IsValid (suc left) i dp a b h v =
      let after = (cpu_read8-ReadsBelow v (u32 (a + i))).1 in
      if-IsValid _ (set_r-IsValid after dp h) (search_loop-IsValid left (i + 1) dp a b h after)

  pub strncpy_loop-IsValid :
      (left i a b : ℕ) {sim : Sim F} → IsValid sim → IsValid (strncpy_loop left i a b sim)
  unfolding strncpy_loop
  strncpy_loop-IsValid zero i a b v = v
  strncpy_loop-IsValid (suc left) i a b v =
      let written = cpu_write8-IsValid ((cpu_read8-ReadsBelow v (u32 (b + i))).1) (u32 (a + i)) _ in
      if-IsValid _ written (strncpy_loop-IsValid left (i + 1) a b written)

  pub chase_loop-IsValid :
      (counter p b : ℕ) {sim : Sim F} → IsValid sim → IsValid (chase_loop counter p b sim)
  unfolding chase_loop
  chase_loop-IsValid zero p b v = (cpu_read32-ReadsBelow v _).1
  chase_loop-IsValid (suc counter) p b v =
      let after = (cpu_read32-ReadsBelow v (u32 (p + b))).1 in
      if-IsValid _ after (chase_loop-IsValid counter _ b after)

  pub chase_unchecked_loop-IsValid :
      (counter p b : ℕ) {sim : Sim F} → IsValid sim → IsValid (chase_unchecked_loop counter p b sim)
  unfolding chase_unchecked_loop
  chase_unchecked_loop-IsValid zero p b v = (cpu_read32-ReadsBelow v _).1
  chase_unchecked_loop-IsValid (suc counter) p b v =
      chase_unchecked_loop-IsValid counter _ b ((cpu_read32-ReadsBelow v (u32 (p + b))).1)

  pub block_result-Keeps :
      {sim : Sim F} → IsValid sim → (ds : DecodeR4x4) → ds.a < 2 ^ 32 → Keeps (block_result sim ds)
  unfolding block_result
  block_result-Keeps v ds h = add_pc-IsValid (set_r-IsValid v (ds.dp) h) 4

  strcpy_result-Keeps :
      (ds : DecodeR4x4) (fuel i a b : ℕ) {sim : Sim F}
      → ds.a < 2 ^ 32
      → IsValid sim
      → Keeps (strcpy_result ds (strcpy_loop fuel i a b sim))
  unfolding strcpy_result strcpy_loop
  strcpy_result-Keeps ds zero i a b h v = tt
  strcpy_result-Keeps ds (suc fuel) i a b {sim} h v =
      let written = cpu_write8-IsValid ((cpu_read8-ReadsBelow v (u32 (b + i))).1) (u32 (a + i)) _ in
      elim (Bool-cases ((cpu_read8 sim (u32 (b + i))).0 == 0)) [
        | inl end ↦ rw end (block_result-Keeps written ds h)
        | inr more ↦ rw more (strcpy_result-Keeps ds fuel (i + 1) a b h written)
      ]

  pub cpu_exec_strcpy-Keeps :
      {sim : Sim F} → IsValid sim → (fuel : ℕ) (id : Inst) → Keeps (cpu_exec_strcpy fuel sim id)
  unfolding cpu_exec_strcpy cpu_decode_r4x4
  cpu_exec_strcpy-Keeps {sim} v fuel id =
      strcpy_result-Keeps (cpu_decode_r4x4 sim id) fuel 0 _ _ (v.cpu.r _) v

  pub table_read-Keeps :
      {sim : Sim F} → IsValid sim → (id : Inst) (size : ℕ) → Keeps (table_read sim id size)
  unfolding table_read
  table_read-Keeps v id size =
      let (fits, after) = cpu_read32-ReadsBelow v _ in add_pc-IsValid (set_r-IsValid after _ fits) 4

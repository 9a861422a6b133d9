-- ===== src/Sim/Block.antt =====
-- isa/sim.c, lines 793 to 945: the instructions on blocks of memory and on tables, whose operands
-- are four registers. A `size_t` index never wraps in these loops, so it is a plain number; an
-- address is cut to 32 bits where it is passed as one.
pub mod Copy
pub mod Results
pub mod Strcpy
pub mod Memchr
use estros.Common.{
  ℕ, zero, suc, ◌+◌, ◌-◌, ◌*◌, ◌^◌, Option, none, some, u32, low4, high4, ltb, ◌==◌, if◌then◌else◌,
}
use estros.Sim.State.{Sim, Inst, Outcome, cpue_continue, aborted, out_of_fuel, set_r, add_pc}
use estros.Sim.Memory.{cpu_read8, cpu_read32, cpu_write8}
use estros.Sim.Integer.{update_flags}

-- `struct cpu_decode_r4x4`.
pub record DecodeR4x4 : Type 0 where
  pub dp : ℕ
  pub a : ℕ
  pub b : ℕ
  pub c : ℕ

module _ {F : Type 0} where
  unfoldable pub cpu_decode_r4x4 : Sim F → Inst → DecodeR4x4
  cpu_decode_r4x4 sim id = record {
    dp = low4 (id.b1);
    a = sim.cpu.r (high4 (id.b1));
    b = sim.cpu.r (low4 (id.b2));
    c = sim.cpu.r (high4 (id.b2));
  }

  -- `*ds.dp = ds.a; pc += 4`.
  unfoldable pub block_result : Sim F → DecodeR4x4 → Outcome F
  block_result sim ds = cpue_continue (add_pc (set_r sim (ds.dp) (ds.a)) 4)

  -- `cpu_write8(sim, to, cpu_read8(sim, from))`.
  unfoldable pub copy8 : Sim F → (to from : ℕ) → Sim F
  copy8 sim to from = let (value, after) = cpu_read8 sim from in cpu_write8 after to value

  -- The copying loop at `i`, with `left` rounds to go.
  unfoldable pub forward_loop : (left i a b : ℕ) → Sim F → Sim F
  forward_loop zero i a b sim = sim
  forward_loop (suc left) i a b sim =
      forward_loop left (i + 1) a b (copy8 sim (u32 (a + i)) (u32 (b + i)))

  unfoldable pub cpu_exec_memcpy : Sim F → Inst → Outcome F
  unfolding forward_loop
  cpu_exec_memcpy sim id =
      let ds = cpu_decode_r4x4 sim id in block_result (forward_loop (ds.c) 0 (ds.a) (ds.b) sim) ds

  -- The second loop of memmov: `a + c` and `b + c` are sums of 32 bits, of which `i` is taken in
  -- 64 bits.
  unfoldable pub backward_loop : (left i a b c : ℕ) → Sim F → Sim F
  backward_loop zero i a b c sim = sim
  backward_loop (suc left) i a b c sim =
      backward_loop left (i + 1) a b c
        (copy8 sim (u32 (u32 (a + c) + 2 ^ 64 - i)) (u32 (u32 (b + c) + 2 ^ 64 - i)))

  unfoldable pub cpu_exec_memmov : Sim F → Inst → Outcome F
  unfolding forward_loop backward_loop
  cpu_exec_memmov sim id =
      let ds = cpu_decode_r4x4 sim id in
      let moved =
        if ltb (ds.b) (ds.a)
        then forward_loop (ds.c) 0 (ds.a) (ds.b) sim
        else backward_loop (ds.c) 0 (ds.a) (ds.b) (ds.c) sim in
      block_result moved ds

  unfoldable pub fill_loop : (left i a b : ℕ) → Sim F → Sim F
  fill_loop zero i a b sim = sim
  fill_loop (suc left) i a b sim = fill_loop left (i + 1) a b (cpu_write8 sim (u32 (a + i)) b)

  unfoldable pub cpu_exec_memset : Sim F → Inst → Outcome F
  unfolding fill_loop
  cpu_exec_memset sim id =
      let ds = cpu_decode_r4x4 sim id in block_result (fill_loop (ds.c) 0 (ds.a) (ds.b) sim) ds

  -- The search of memchr. A hit stores `ds.a` and leaves the loop.
  unfoldable pub search_loop : (left i dp a b : ℕ) → Sim F → Sim F
  search_loop zero i dp a b sim = sim
  search_loop (suc left) i dp a b sim =
      let (value, after) = cpu_read8 sim (u32 (a + i)) in
      let rest = search_loop left (i + 1) dp a b after in
      if value == b then set_r after dp a else rest

  unfoldable pub cpu_exec_memchr : Sim F → Inst → Outcome F
  unfolding search_loop
  cpu_exec_memchr sim id =
      let ds = cpu_decode_r4x4 sim id in
      let cleared = set_r sim (ds.dp) 0 in
      cpue_continue (add_pc (search_loop (ds.c) 0 (ds.dp) (ds.a) (ds.b) cleared) 4)

  unfoldable pub cpu_exec_memchrf : Sim F → Inst → Outcome F
  unfolding search_loop
  cpu_exec_memchrf sim id =
      let ds = cpu_decode_r4x4 sim id in
      let cleared = set_r sim (ds.dp) 0 in
      let found = search_loop (ds.c) 0 (ds.dp) (ds.a) (ds.b) cleared in
      cpue_continue (add_pc (update_flags found (found.cpu.r (ds.dp))) 4)

  -- The loop of strcpy has no bound of its own: `none` means that the fuel ran out.
  unfoldable pub strcpy_loop : (fuel i a b : ℕ) → Sim F → Option (Sim F)
  strcpy_loop zero i a b sim = none
  strcpy_loop (suc fuel) i a b sim =
      let (c, after) = cpu_read8 sim (u32 (b + i)) in
      let written = cpu_write8 after (u32 (a + i)) c in
      let rest = strcpy_loop fuel (i + 1) a b written in if c == 0 then some written else rest

  unfoldable pub strcpy_result : DecodeR4x4 → Option (Sim F) → Outcome F
  strcpy_result ds none = out_of_fuel
  strcpy_result ds (some sim) = block_result sim ds

  unfoldable pub cpu_exec_strcpy : (fuel : ℕ) → Sim F → Inst → Outcome F
  unfolding strcpy_loop strcpy_result
  cpu_exec_strcpy fuel sim id =
      let ds = cpu_decode_r4x4 sim id in strcpy_result ds (strcpy_loop fuel 0 (ds.a) (ds.b) sim)

  -- The five instructions that are left to do call `abort()`.
  unfoldable pub cpu_exec_strcat : Sim F → Inst → Outcome F
  cpu_exec_strcat sim id = aborted

  unfoldable pub cpu_exec_strpbrk : Sim F → Inst → Outcome F
  cpu_exec_strpbrk sim id = aborted

  unfoldable pub strncpy_loop : (left i a b : ℕ) → Sim F → Sim F
  strncpy_loop zero i a b sim = sim
  strncpy_loop (suc left) i a b sim =
      let (c, after) = cpu_read8 sim (u32 (b + i)) in
      let written = cpu_write8 after (u32 (a + i)) c in
      let rest = strncpy_loop left (i + 1) a b written in if c == 0 then written else rest

  -- The destination is set before the loop, which does not read it.
  unfoldable pub cpu_exec_strncpy : Sim F → Inst → Outcome F
  unfolding strncpy_loop
  cpu_exec_strncpy sim id =
      let ds = cpu_decode_r4x4 sim id in
      let started = set_r sim (ds.dp) (ds.a) in
      cpue_continue (add_pc (strncpy_loop (ds.c) 0 (ds.a) (ds.b) started) 4)

  unfoldable pub cpu_exec_strncat : Sim F → Inst → Outcome F
  cpu_exec_strncat sim id = aborted

  unfoldable pub cpu_exec_strchr : Sim F → Inst → Outcome F
  cpu_exec_strchr sim id = aborted

  unfoldable pub cpu_exec_strnchr : Sim F → Inst → Outcome F
  cpu_exec_strnchr sim id = aborted

  -- The table entry of `size` bytes: the product and the sum are of 64 bits, then cut.
  unfoldable pub table_read : Sim F → Inst → (size : ℕ) → Outcome F
  table_read sim id size =
      let ds = cpu_decode_r4x4 sim id in
      let (value, after) = cpu_read32 sim (u32 (ds.a + u32 (ds.b + ds.c) * size)) in
      cpue_continue (add_pc (set_r after (ds.dp) value) 4)

  unfoldable pub cpu_exec_indtab : Sim F → Inst → Outcome F
  unfolding table_read
  cpu_exec_indtab sim id = table_read sim id 4

  unfoldable pub cpu_exec_indtab8 : Sim F → Inst → Outcome F
  unfolding table_read
  cpu_exec_indtab8 sim id = table_read sim id 8

  -- `do p = read32(p + b); while (p && counter-- > 0)`: at `counter` the body still runs once.
  unfoldable pub chase_loop : (counter p b : ℕ) → Sim F → Sim F
  chase_loop zero p b sim = (cpu_read32 sim (u32 (p + b))).1
  chase_loop (suc counter) p b sim =
      let (p', after) = cpu_read32 sim (u32 (p + b)) in
      let rest = chase_loop counter p' b after in if p' == 0 then after else rest

  unfoldable pub cpu_exec_chtree : Sim F → Inst → Outcome F
  unfolding chase_loop
  cpu_exec_chtree sim id =
      let ds = cpu_decode_r4x4 sim id in
      cpue_continue (add_pc (chase_loop (ds.c) (ds.a) (ds.b) sim) 4)

  -- The same without the test of `p`.
  unfoldable pub chase_unchecked_loop : (counter p b : ℕ) → Sim F → Sim F
  chase_unchecked_loop zero p b sim = (cpu_read32 sim (u32 (p + b))).1
  chase_unchecked_loop (suc counter) p b sim =
      let (p', after) = cpu_read32 sim (u32 (p + b)) in chase_unchecked_loop counter p' b after

  unfoldable pub cpu_exec_chtreeunchk : Sim F → Inst → Outcome F
  unfolding chase_unchecked_loop
  cpu_exec_chtreeunchk sim id =
      let ds = cpu_decode_r4x4 sim id in
      cpue_continue (add_pc (chase_unchecked_loop (ds.c) (ds.a) (ds.b) sim) 4)

-- ===== src/Cpu/Memory/Stack.antt =====
-- The kernel's stack in RAM (cpu.rs).
use simulatron.Common.{ℕ, ◌+◌, ◌-◌, ◌%◌, ◌^◌, ◌<◌, ◌≤◌, ◌≡◌, refl, arith, true}
use simulatron.Exec.{ok, gets, modify, pure, ◌>>=◌, ◌>>◌}
use simulatron.Platform.{Platform}
use simulatron.Mmu.Zones.{begin_ram}
use simulatron.Mmu.Physical.RoundTrip.{
  with_half, with_word, cells_16, cells_32, store_ram_16, store_ram_32, load_ram_16, load_ram_32,
}
use simulatron.Cpu.Values.{half_type, word_type, half, word, size_in_bytes}
use simulatron.Cpu.State.{Cpu, with_mmu}
use simulatron.Cpu.Memory.{by_mode, store, load, push, pop, set_stack_pointer}

module _ {D : Type 0} ⦃platform : Platform D⦄ (c : Cpu D) (kernel : c.kernel_mode ≡ true) where
  pub push_half :
      (sp v : ℕ)
      → begin_ram ≤ sp
      → c.kspr ≡ sp + 2
      → c.kspr < 2 ^ 32
      → push (half v) c ≡ ok tt (record c { kspr = sp; mmu = with_half c.mmu sp v })
  unfolding push store by_mode with_mmu set_stack_pointer gets modify ◌>>=◌ ◌>>◌ size_in_bytes
  push_half sp v low at high =
      let e : (c.kspr + 2 ^ 32 - 2) % 2 ^ 32 ≡ sp = omega arith in
      rw (kernel, e, store_ram_16 c.mmu sp v low (omega arith)) refl

  pub push_word :
      (sp v : ℕ)
      → begin_ram ≤ sp
      → c.kspr ≡ sp + 4
      → c.kspr < 2 ^ 32
      → push (word v) c ≡ ok tt (record c { kspr = sp; mmu = with_word c.mmu sp v })
  unfolding push store by_mode with_mmu set_stack_pointer gets modify ◌>>=◌ ◌>>◌ size_in_bytes
  push_word sp v low at high =
      let e : (c.kspr + 2 ^ 32 - 4) % 2 ^ 32 ≡ sp = omega arith in
      rw (kernel, e, store_ram_32 c.mmu sp v low (omega arith)) refl

  pub pop_half :
      (sp v : ℕ)
      → begin_ram ≤ c.kspr
      → sp ≡ c.kspr + 2
      → sp < 2 ^ 32
      → cells_16 c.mmu c.kspr ≡ v
      → pop half_type c ≡ ok (half v) (record c { kspr = sp })
  unfolding pop load by_mode with_mmu set_stack_pointer gets modify pure ◌>>=◌ ◌>>◌ size_in_bytes
  pop_half sp v low at high e =
      let above : (c.kspr + 2) % 2 ^ 32 ≡ sp = omega arith in
      rw (kernel, load_ram_16 c.mmu c.kspr low (omega arith), e, above) refl

  pub pop_word :
      (sp v : ℕ)
      → begin_ram ≤ c.kspr
      → sp ≡ c.kspr + 4
      → sp < 2 ^ 32
      → cells_32 c.mmu c.kspr ≡ v
      → pop word_type c ≡ ok (word v) (record c { kspr = sp })
  unfolding pop load by_mode with_mmu set_stack_pointer gets modify pure ◌>>=◌ ◌>>◌ size_in_bytes
  pop_word sp v low at high e =
      let above : (c.kspr + 4) % 2 ^ 32 ≡ sp = omega arith in
      rw (kernel, load_ram_32 c.mmu c.kspr low (omega arith), e, above) refl

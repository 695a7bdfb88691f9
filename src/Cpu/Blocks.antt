-- ===== src/Cpu/Blocks.antt =====
-- Instructions on memory: LOAD, STORE, SWAP, CALL and the block instructions (cpu.rs).
use simulatron.Common.{ℕ, zero, suc, ◌+◌, false, ltb, if◌then◌else◌}
use simulatron.Exec.{Exec, Done, pure, gets, modify, add_u32, ◌>>=◌, ◌>>◌}
use simulatron.Platform.{Platform}
use simulatron.Mmu.State.{Mmu}
use simulatron.Mmu.Physical.{store_physical_8, load_physical_8}
use simulatron.Mmu.Virtual.{store_virtual_8, load_virtual_8}
use simulatron.Cpu.Values.{word, type_of}
use simulatron.Cpu.State.{Cpu}
use simulatron.Cpu.Registers.{reg_ref_type, read_from_register, write_to_register}
use simulatron.Cpu.Memory.{by_mode, load, store, push}
use simulatron.Cpu.Flags.{flag_zero, flag_negative}
use simulatron.Cpu.Alu.{set_flags}

module _ {D : Type 0} ⦃platform : Platform D⦄ where
  open platform use {debug}

  unfoldable pub instruction_load : ℕ → ℕ → Exec (Cpu D) Done
  instruction_load destination address = do
    dest_type ← reg_ref_type destination
    value ← load address false dest_type
    write_to_register destination value

  unfoldable pub instruction_store : ℕ → ℕ → Exec (Cpu D) Done
  instruction_store address source = do value ← read_from_register source; store address value

  unfoldable pub instruction_swap : ℕ → ℕ → Exec (Cpu D) Done
  instruction_swap reg_ref address = do
    reg_value ← read_from_register reg_ref
    mem_value ← load address false (type_of reg_value)
    write_to_register reg_ref mem_value
    store address reg_value

  -- The loops run from `i`, with the given number of rounds left.
  unfoldable pub copy_loop :
      (ℕ → Exec (Mmu D) ℕ) → (ℕ → ℕ → Exec (Mmu D) Done) → ℕ → ℕ → ℕ → ℕ → Exec (Mmu D) Done
  copy_loop load_8 store_8 zero i dest source = pure tt
  copy_loop load_8 store_8 (suc left) i dest source = do
    from ← add_u32 debug source i
    val ← load_8 from
    into ← add_u32 debug dest i
    _ ← store_8 into val
    copy_loop load_8 store_8 left (i + 1) dest source

  unfoldable pub instruction_blockcopy : ℕ → ℕ → ℕ → Exec (Cpu D) Done
  unfolding copy_loop
  instruction_blockcopy length dest_address source_address =
      by_mode (copy_loop load_physical_8 store_physical_8 length 0 dest_address source_address)
        (λ pdpr.
          copy_loop (λ a. load_virtual_8 pdpr a false) (store_virtual_8 pdpr) length 0 dest_address
            source_address)

  unfoldable pub set_loop : (ℕ → ℕ → Exec (Mmu D) Done) → ℕ → ℕ → ℕ → ℕ → Exec (Mmu D) Done
  set_loop store_8 zero i dest value = pure tt
  set_loop store_8 (suc left) i dest value = do
    into ← add_u32 debug dest i
    _ ← store_8 into value
    set_loop store_8 left (i + 1) dest value

  unfoldable pub instruction_blockset : ℕ → ℕ → ℕ → Exec (Cpu D) Done
  unfolding set_loop
  instruction_blockset length dest_address value =
      by_mode (set_loop store_physical_8 length 0 dest_address value)
        (λ pdpr. set_loop (store_virtual_8 pdpr) length 0 dest_address value)

  -- The result is the new flags.
  unfoldable pub compare_loop : (ℕ → Exec (Mmu D) ℕ) → ℕ → ℕ → ℕ → ℕ → Exec (Mmu D) ℕ
  compare_loop load_8 zero i source1 source2 = pure flag_zero
  compare_loop load_8 (suc left) i source1 source2 = do
    a1 ← add_u32 debug source1 i
    val1 ← load_8 a1
    a2 ← add_u32 debug source2 i
    val2 ← load_8 a2
    let rest = compare_loop load_8 left (i + 1) source1 source2
    if ltb val2 val1 then pure 0 else if ltb val1 val2 then pure flag_negative else rest

  unfoldable pub instruction_blockcmp : ℕ → ℕ → ℕ → Exec (Cpu D) Done
  unfolding compare_loop
  instruction_blockcmp length source1 source2 = do
    flags ←
        by_mode (compare_loop load_physical_8 length 0 source1 source2)
          (λ pdpr. compare_loop (λ a. load_virtual_8 pdpr a false) length 0 source1 source2)
    set_flags flags

  unfoldable pub jump : ℕ → Exec (Cpu D) Done
  jump address = modify (λ c. record c { program_counter = address })

  unfoldable pub instruction_call : ℕ → Exec (Cpu D) Done
  instruction_call address = do pc ← gets (λ c. c.program_counter); push (word pc); jump address

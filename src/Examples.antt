-- ===== src/Examples.antt =====
-- The theorems at concrete machines: a machine with inert disks and a float unit that gives zero.
mod Silk
mod Disk
use simulatron.Common.{
  ℕ, ◌↔◌, ◌/◌, ◌*◌, ◌+◌, ◌-◌, ◌%◌, ◌^◌, ◌<◌, ◌≤◌, ◌≡◌, ◌⊎◌, refl, arith, true, false, some, ◌==◌,
  if◌then◌else◌, List, [], ◌∷◌, replicate,
}
use simulatron.Exec.{ok, add_u32, gets, unwrap, pure, ◌>>=◌, ◌>>◌}
use simulatron.Platform.{Platform, Float32, DiskController, sub}
use simulatron.Ram.Eager
use simulatron.Ram.Lazy
use simulatron.Ram.Refinement.{Agrees, store-Agrees, new-Agrees, replay, new-replay}
use simulatron.Mmu.State.{Mmu}
use simulatron.Mmu.Physical.{store_physical_32, load_physical_32, load_physical_8}
use simulatron.Mmu.Physical.RoundTrip.{store_physical_32-load}
use simulatron.Mmu.Virtual.{read, virtual_to_physical_address}
use simulatron.Mmu.Virtual.Translation.{translated, virtual_to_physical_address-translated}
use simulatron.Cpu.Values.{w8, w32, int_value}
use simulatron.Cpu.State.{Cpu, with_mmu}
use simulatron.Cpu.Registers.{read_from_register, write_to_register, get_r}
use simulatron.Cpu.Memory.{load, by_mode}
use simulatron.Cpu.Rotcarry.{rcl, rcr}
use simulatron.Cpu.Rotcarry.RoundTrip.{rcl-rcr}
use simulatron.Cpu.Shifts.{lshift, urshift}
use simulatron.Cpu.Shifts.Carry.{lshift_lem, urshift_lem}
use simulatron.Cpu.Latch.{first_latched, poll, try_get_next}
use simulatron.Cpu.Latch.Order.{IsNext, try_get_next-IsNext}
use simulatron.Cpu.Flags.{Condition, holds}
use simulatron.Cpu.Flags.Compare.{meaning}
use simulatron.Cpu.Alu.{instruction_compare, bin_op_multisigned, set_flags}
use simulatron.Cpu.Alu.Compare.{instruction_compare-holds}
use simulatron.Cpu.Alu.Results.{IsResult, bin_op_multisigned-IsResult}
use simulatron.Cpu.Decode.Control.{ireturn}
use simulatron.Cpu.Cycle.{enter_handler, loop_body, again, poll_interrupt}
use simulatron.Cpu.Cycle.Interrupts.{handler, enter_handler-IsFrame}
use simulatron.Cpu.Cycle.Interrupts.Frame.{IsFrame}
use simulatron.Cpu.Cycle.Interrupts.Return.{ireturn-IsFrame}
use simulatron.Cpu.Cycle.Rewind.{loop_body-rewind}
use simulatron.Cpu.Privilege.Base.{IsUser}
use simulatron.Cpu.Privilege.Cycle.{Ends, loop_body-IsUser}

abbrev pub zero_float : Float32
zero_float = record {
  binary = λ op x y. 0;
  negate = λ x. 0;
  is_zero = λ x. true;
  is_negative = λ x. false;
  from_i32 = λ x. 0;
  from_u32 = λ x. 0;
  to_i32 = λ x. 0;
  to_u32 = λ x. 0;
  binary-lt = λ op x y. omega arith;
  negate-lt = λ x. omega arith;
  from_i32-lt = λ x. omega arith;
  from_u32-lt = λ x. omega arith;
  to_i32-lt = λ x. omega arith;
  to_u32-lt = λ x. omega arith;
}

abbrev no_disk : DiskController (Unit {0})
no_disk = record {
  store_control = λ d i v. some d;
  load_status = λ d i. some 0;
  store_data = λ d i v. some d;
  load_data = λ d i. some 0;
}

instance checked : Platform (Unit {0})
checked = record { debug = true; float = zero_float; disk = no_disk }

-- RAM whose bytes are all `b`
abbrev filled : ℕ → Eager.Ram
filled b = record { cell = λ i. b }

abbrev zero_vector : List ℕ
unfolding replicate
zero_vector = replicate 32 0

abbrev illegal_rom : List ℕ
unfolding replicate
illegal_rom = replicate 512 0xFF

abbrev example_mmu : Mmu (Unit {0})
example_mmu = record {
  interrupt_channel = [];
  interrupt_vector = zero_vector;
  disk_a = tt;
  disk_b = tt;
  display = [];
  keyboard = record { key_buffer = 0; metadata_buffer = 0 };
  ram = filled 255;
  rom = illegal_rom;
  pfsr = 0;
}

-- in kernel mode, before the first byte of ROM, after five bytes of instructions
abbrev example_cpu : Cpu (Unit {0})
example_cpu = record {
  timer_commands = [];
  mmu = example_mmu;
  latched = false ∷ true ∷ false ∷ false ∷ false ∷ false ∷ false ∷ false ∷ [];
  r = 7 ∷ 9 ∷ 0 ∷ 0 ∷ 0 ∷ 0 ∷ 0 ∷ 0 ∷ [];
  f = 0 ∷ 0 ∷ 0 ∷ 0 ∷ 0 ∷ 0 ∷ 0 ∷ 0 ∷ [];
  flags = 3;
  uspr = 0;
  kspr = 0x8000;
  pdpr = 0x4000;
  imr = 0;
  program_counter = 64;
  kernel_mode = true;
  rewind = 5;
  skip_pause = false;
}

abbrev user_cpu : Cpu (Unit {0})
user_cpu = record example_cpu { kernel_mode = false }

store-Agrees_example :
    (lazy' : Lazy.Ram) × (eager' : Eager.Ram) × (Lazy.store Lazy.new 5 42 ≡ some lazy')
    × (Eager.store Eager.new 5 42 ≡ some eager')
    × Agrees lazy' eager'
    × ((j : ℕ) → Lazy.get lazy' j ≡ (if 5 == j then some 42 else Lazy.get Lazy.new j))
store-Agrees_example = store-Agrees Lazy.new Eager.new 5 42 new-Agrees (omega arith)

-- Two bytes of one page, one of them written twice, and a byte of the next page.
abbrev some_writes : List (ℕ × ℕ)
some_writes = (5, 42) ∷ (6, 43) ∷ (0x1005, 44) ∷ (5, 45) ∷ []

new-replay_example :
    (lazy : Lazy.Ram) × (eager : Eager.Ram) × (replay Lazy.store some_writes Lazy.new ≡ some lazy)
    × (replay Eager.store some_writes Eager.new ≡ some eager)
    × (Lazy.get lazy 5 ≡ some 45)
    × (Eager.index eager 5 ≡ some 45)
new-replay_example =
    new-replay some_writes 5 (omega arith, (omega arith, (omega arith, (omega arith, tt))))
      (omega arith)

store_physical_32-load_example :
    (ram : Eager.Ram) × (store_physical_32 0x5000 0xDEADBEEF example_mmu
      ≡ ok tt (record example_mmu { ram = ram }))
    × (load_physical_32 0x5000 (record example_mmu { ram = ram })
        ≡ ok 0xDEADBEEF (record example_mmu { ram = ram }))
    × ((i : ℕ) → ((0x5000 - 0x4000 ≤ i) × (i < 0x5000 - 0x4000 + 4)) ⊎ (ram.cell i ≡ 255))
store_physical_32-load_example =
    store_physical_32-load example_mmu 0x5000 0xDEADBEEF (omega arith) (omega arith) (omega arith)

-- Every entry of these tables is 0xFFFFFFFF, so a read is permitted.
virtual_to_physical_address-translated_example :
    virtual_to_physical_address 0x1234 0x4000 read example_mmu
    ≡ translated example_mmu 0x1234 read 0xFFFFFFFF 0xFFFFFFFF
unfolding load_physical_32 load_physical_8 add_u32 Eager.index pure ◌>>=◌
virtual_to_physical_address-translated_example =
    virtual_to_physical_address-translated example_mmu 0x1234 0x4000 read 0xFFFFFFFF 0xFFFFFFFF
      (omega arith) (omega arith) (omega arith) (omega arith) refl refl

rcl-rcr_example :
    (rcr w8 (rcl w8 0b10000001 false).0 (rcl w8 0b10000001 false).1 ≡ (0b10000001, false))
    × (rcl w8 (rcr w8 0b10000001 false).0 (rcr w8 0b10000001 false).1 ≡ (0b10000001, false))
rcl-rcr_example = rcl-rcr w8 0b10000001 false (omega arith)

-- Interrupt 1 is latched and masked, and 3 and 7 are in the channel.
abbrev pending_cpu : Cpu (Unit {0})
pending_cpu = record example_cpu { mmu = record example_mmu { interrupt_channel = 3 ∷ 7 ∷ [] } }

try_get_next-IsNext_example : IsNext 0b10000000 pending_cpu 3 (try_get_next 0b10000000 pending_cpu)
try_get_next-IsNext_example =
    try_get_next-IsNext 0b10000000 pending_cpu 3 refl (omega arith, (omega arith, tt))

instruction_compare-holds_example :
    (flags : ℕ) × (instruction_compare 0 (int_value w32 9) example_cpu
      ≡ ok tt (record example_cpu { flags = flags }))
    × ((condition : Condition) → holds condition flags ≡ meaning condition w32 7 9)
unfolding read_from_register get_r gets unwrap pure ◌>>=◌
instruction_compare-holds_example =
    instruction_compare-holds 0 7 9 example_cpu w32 (omega arith) (omega arith) refl

bin_op_multisigned-IsResult_example :
    (r flags : ℕ) × IsResult sub w32 7 9 r flags
    × (bin_op_multisigned sub 0 (int_value w32 9) example_cpu
        ≡ (write_to_register 0 (int_value w32 r) >> set_flags flags) example_cpu)
unfolding read_from_register get_r gets unwrap pure ◌>>=◌
bin_op_multisigned-IsResult_example =
    bin_op_multisigned-IsResult 0 7 9 example_cpu sub w32 tt (omega arith) (omega arith) refl

enter_handler-IsFrame_example :
    (ram : Eager.Ram) × IsFrame user_cpu (record example_mmu { ram = ram }) (0x8000 - 8)
    × (enter_handler 2 user_cpu
        ≡ ok tt (record user_cpu {
          kernel_mode = true;
          imr = 0;
          program_counter = handler example_mmu 2;
          kspr = 0x8000 - 8;
          mmu = record example_mmu { ram = ram };
        }))
unfolding zero_vector
enter_handler-IsFrame_example =
    enter_handler-IsFrame user_cpu 2 (omega arith) (omega arith) (omega arith) (omega arith)
      (omega arith) refl (omega arith)

-- a stack of the bytes 0, 1, 2 and so on, and the state that they stand for
abbrev returning_cpu : Cpu (Unit {0})
returning_cpu = record example_cpu {
  mmu = record example_mmu { ram = record { cell = λ i. i % 256 } };
  kspr = 0x7000;
}

abbrev saved_cpu : Cpu (Unit {0})
saved_cpu = record user_cpu { imr = 0x0001; program_counter = 0x02030405; flags = 0x0607 }

ireturn-IsFrame_example :
    ireturn returning_cpu
    ≡ ok tt (record returning_cpu {
      kspr = 0x7008;
      imr = 0x0001;
      program_counter = 0x02030405;
      flags = 0x0607;
      kernel_mode = false;
    })
ireturn-IsFrame_example =
    ireturn-IsFrame saved_cpu returning_cpu refl (omega arith) (omega arith) (omega arith)
      (record { mask = refl; counter = refl; state = refl })

loop_body-rewind_example :
    loop_body false example_cpu
    ≡ again false (record example_cpu {
      program_counter = (64 + (2 ^ 32 - 5)) % 2 ^ 32;
      rewind = 6;
      mmu = record example_mmu { interrupt_channel = 0 ∷ [] };
    })
unfolding illegal_rom poll_interrupt try_get_next first_latched poll load by_mode with_mmu
    load_physical_8 gets pure ◌>>=◌
loop_body-rewind_example = loop_body-rewind example_cpu false (omega arith) (omega arith) refl refl

loop_body-IsUser_example : Ends (IsUser 0x8000 0x4000 0) (loop_body false user_cpu)
unfolding poll_interrupt try_get_next first_latched poll gets ◌>>=◌
loop_body-IsUser_example = loop_body-IsUser false user_cpu user_cpu refl refl

lshift_lem_example :
    ((lshift w8 0b11000001 1).0 ≡ 0b11000001 * 2 ^ 1 % 2 ^ 8)
    × (((lshift w8 0b11000001 1).1 ≡ false) ↔ ((1 < 8) × (0b11000001 * 2 ^ 1 < 2 ^ 8)))
lshift_lem_example = lshift_lem 0b11000001 1 w8 (omega arith)

urshift_lem_example :
    ((urshift w8 0b11000001 1).0 ≡ 0b11000001 / 2 ^ 1)
    × (((urshift w8 0b11000001 1).1 ≡ false) ↔ ((1 < 8) × (0b11000001 % 2 ^ 1 ≡ 0)))
urshift_lem_example = urshift_lem 0b11000001 1 w8 (omega arith)

-- ===== src/Lib.antt =====
-- Verification library of the Simulatron virtual machine (Crates/simulatron-vm) and of its object
-- code parser and linker, SILK (Crates/simulatron-silk).
--
-- The machine is a processor, a memory management unit with RAM, ROM and an interrupt vector, and
-- controllers for a display, a keyboard and two disks. The processor fetches instructions and
-- data through the memory unit, in kernel mode at physical and in user mode at virtual addresses.
-- Every part reports events by sending interrupts on one channel, which the processor's interrupt
-- latch receives from.
--
-- Files, under Crates/simulatron-vm/src/lib:
--   Common, Common/*       lists, bit operations, signed integers and Boolean tests.
--   Exec, Exec/Keeps       `CPUResult`: a call ends with a value, with an error that the `?`
--                          passes on, waiting on an empty channel, or in a panic, and the state is
--                          kept on an error. Keeps has the rules for invariants of such code.
--   Platform               what the machine is built over: `f32`, the trait of the disk
--                          controllers and the build profile.
--   Ram/*                  ram/ram_eager.rs, ram/ram_lazy.rs, and their agreement.
--   Mmu/*                  mmu.rs: Zones has the constants, State the unit, Physical and Virtual
--                          the accesses; Display and Keyboard are display.rs and keyboard.rs.
--                          Physical/Answers and Stores put the real disks into the machine.
--   Cpu/Values, State      the typed values and `CPUInternal` of cpu.rs.
--   Cpu/Registers, Memory  register references; `load`, `store`, `push` and `pop`.
--   Cpu/Arith, Alu, Flags  the arithmetic instructions with cpu/macros.rs, and the conditions.
--   Cpu/Shifts, Rotcarry   shifts and rotations, with cpu/rotcarry.rs.
--   Cpu/Blocks             loads, stores, swaps, calls and the block instructions.
--   Cpu/Latch              `InterruptLatch`.
--   Cpu/Fetch, Decode      the local macros and the `match` of `interrupt_fetch_decode_execute`,
--                          as tables of arms by opcode.
--   Cpu/Cycle              one cycle and `cpu_loop`.
--   Cpu/Privilege          user mode over the whole instruction set.
--   Disk/Interface, Mock   disk/disk_interface.rs, disk/disk_mock.rs.
--   Disk/Host, Real        the host's file system as a parameter; the registers, commands and status
--                          macros of disk/disk_real.rs.
--   Disk/Worker            its worker and watcher, start and stop.
--   Disk/Registers, Flags  its registers byte by byte, and its status by flags.
--   Disk/Ends, Commands    how commands end.
--   Disk/WriteRead         blocks written and read back.
--   Disk/Access, Stored    what the memory unit passes on to a running controller.
--   Disk/Run, Reachable    its operations, in any order, with changes to the host's files.
--   Examples               the theorems at concrete machines.
--
-- SILK reads object files, merges them into one, and links that into the image of a ROM or a disk,
-- which the machine runs. Files, under Crates/simulatron-silk/src/lib:
--   Silk/Result            error.rs, and the panics of code that returns `OFResult`.
--   Silk/Names             the validity of names in parser.rs, fresh names in linker.rs.
--   Silk/Data              data.rs; below it, sections that follow one another, and the search.
--   Silk/Parser, Verify    parser.rs: the readers and the loops, and the relocation of symbols, with
--   Silk/Parse             the run over both. Parser/Rules has rules for sequences of such code.
--   Silk/Object, Tables    what makes an object file well-formed, and symbol tables.
--   Silk/Linker            linker.rs: merging, renaming and resolution of symbols.
--   Silk/Combine           `parse_and_combine` of lib.rs.
--   Silk/Link              linker.rs: images. Below it, Image, Layout, Sections, Zones and Patch
--                          see the sections as one stretch of bytes, to which Resolve, Ready and
--                          Correct relate the loops; Linked says what an image holds.
--
-- The hash map of symbols is the list of its entries, in one order of the many that a hash map may
-- have. A stream is the list of its bytes, which ends with `UnexpectedEof`. `checks` says whether
-- the build has overflow checks.
--
-- Functions keep their names from the source. A `w`-bit integer is a number below 2 ^ w, and a
-- signed one is its pattern; an `f32` is its bit pattern. Arithmetic that overflows panics where
-- the build has overflow checks and wraps where it has none: `debug` of Platform says which. The
-- `match` on a typed value is a case on the widths, for macros that repeat an arm.
--
-- `cpu_loop` takes the number of rounds to run as fuel and says what is left when they are over;
-- theorems about a round are about `loop_body`, which takes none. The binary search takes one round
-- more than there are sections, which is proved to be enough. All other loops are structural.
--
-- Not modelled: threads of the processor and the keyboard, their start and joining, and wall-clock
-- time (a receive on an empty channel is an outcome, and timer settings are recorded); events of the
-- watcher while `stop` waits for the worker, which is one step; which disks stand behind the
-- trait `DiskController` in theorems on the processor, where they are a parameter; the host's file system, a parameter in which a read keeps a buffer's length; `f32`
-- arithmetic, a parameter with its results below 2 ^ 32; printing, logs, the user interface and the
-- command lines; the assembler (Crates/simulatron-salt); files and writers of
-- Crates/simulatron-utils.
pub mod Common
pub mod Exec
pub mod Platform
pub mod Ram
pub mod Mmu
pub mod Cpu
pub mod Disk
pub mod Silk
pub mod Examples

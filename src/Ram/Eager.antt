-- ===== src/Ram/Eager.antt =====
-- Crates/simulatron-vm/src/lib/ram/ram_eager.rs. The vector of nearly 2 ^ 32 bytes is a function
-- on its indices, with the bound that `Index` checks.
use simulatron.Common.{ℕ, ◌-◌, ◌^◌, Option, none, some, ltb, ◌==◌, if◌then◌else◌}

abbrev pub begin_ram : ℕ
begin_ram = 0x4000

abbrev pub ram_size : ℕ
ram_size = 2 ^ 32 - begin_ram

pub record Ram : Type 0 where
  pub cell : ℕ → ℕ

unfoldable pub new : Ram
new = record { cell = λ _. 0 }

-- `none` is the panic of an index out of bounds.
unfoldable pub index : Ram → ℕ → Option ℕ
index ram i = if ltb i ram_size then some (ram.cell i) else none

unfoldable pub store : Ram → ℕ → ℕ → Option Ram
store ram i v =
    if ltb i ram_size then some (record { cell = λ j. if i == j then v else ram.cell j }) else none

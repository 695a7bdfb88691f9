-- ===== src/Mmu/Display.antt =====
-- The display controller, Crates/simulatron-vm/src/lib/display.rs. Its state is the commands that
-- it has sent to the user interface, in order; a `char` is its code point.
use simulatron.Common.{
  ℕ, ◌-◌, ◌/◌, ◌%◌, ◌^◌, bit_and, Option, none, some, List, [], ◌∷◌, ◌++◌, ◌&&◌, ltb, leb, ◌==◌,
  if◌then◌else◌,
}

pub record Rgb : Type 0 where
  pub r : ℕ
  pub g : ℕ
  pub b : ℕ

pub data UiCommand : Type 0 where
  set_char : ℕ → ℕ → ℕ → UiCommand
  set_fg set_bg : ℕ → ℕ → Rgb → UiCommand
  cpu_halted : UiCommand

-- 163 is the pound sign and 172 the not sign.
unfoldable pub u8_to_printable_char : ℕ → Option ℕ
u8_to_printable_char byte =
    if byte == 31
    then some 163
    else if leb 32 byte && leb byte 126
    then some byte
    else if byte == 127
    then some 172
    else none

-- `none` is `unreachable!()`.
unfoldable pub quantise : ℕ → Option ℕ
quantise raw =
    if raw == 0
    then some 0
    else if raw == 1
    then some 85
    else if raw == 2
    then some 170
    else if raw == 3
    then some 255
    else none

abbrev pub with_some : {A B : Type 0} → Option A → (A → Option B) → Option B
with_some none f = none
with_some (some a) f = f a

unfoldable pub rgb : ℕ → Option Rgb
unfolding quantise
rgb raw_byte = with_some (quantise (bit_and raw_byte 0b00110000 / 2 ^ 4)) λ r.
    with_some (quantise (bit_and raw_byte 0b00001100 / 2 ^ 2)) λ g.
      with_some (quantise (bit_and raw_byte 0b00000011)) λ b. some (record { r = r; g = g; b = b })

abbrev pub coloured : List UiCommand → (Rgb → UiCommand) → Option Rgb → Option (List UiCommand)
coloured sent command colour = with_some colour λ c. some (sent ++ command c ∷ [])

unfoldable pub store : List UiCommand → ℕ → ℕ → Option (List UiCommand)
unfolding rgb u8_to_printable_char
store sent address value =
    if ltb address 2000
    then elim (u8_to_printable_char value) [
      | none ↦ some sent
      | some character ↦
          some (sent ++ set_char (address / 80 % 2 ^ 16) (address % 80 % 2 ^ 16) character ∷ [])
    ]
    else if ltb address 4000
    then coloured sent (set_fg ((address - 2000) / 80 % 2 ^ 16) ((address - 2000) % 80 % 2 ^ 16))
        (rgb value)
    else if ltb address 6000
    then coloured sent (set_bg ((address - 4000) / 80 % 2 ^ 16) ((address - 4000) % 80 % 2 ^ 16))
        (rgb value)
    else none

-- ===== src/Mmu/Physical/Devices.antt =====
-- What the display, the keyboard and RAM answer (display.rs, keyboard.rs, ram_eager.rs).
use simulatron.Common.{
  ℕ, ◌-◌, ◌/◌, ◌^◌, ◌<◌, ◌≡◌, refl, arith, Bool, true, false, ltb, if◌then◌else◌, Option, none,
  some, List, [], ◌∷◌, ◌++◌, bit_and,
}
use simulatron.Common.Bits.{and_low, and_field}
use simulatron.Ram.Eager
use simulatron.Mmu.Display.{
  UiCommand, Rgb, with_some, coloured, quantise, rgb, u8_to_printable_char,
}
use simulatron.Mmu.Display
use simulatron.Mmu.Keyboard.{SharedData}
use simulatron.Mmu.Keyboard
use simulatron.Disk.Access.{IsSome}

with_some-IsSome :
    {A B : Type 0} (o : Option A) (f : A → Option B)
    → IsSome o
    → ((a : A) → IsSome (f a))
    → IsSome (with_some o f)
with_some-IsSome none f h k = h
with_some-IsSome (some a) f h k = k a

quantise-IsSome : (raw : ℕ) → raw < 4 → IsSome (quantise raw)
unfolding quantise
quantise-IsSome raw h = ground arith

rgb-IsSome : (byte : ℕ) → IsSome (rgb byte)
unfolding rgb
rgb-IsSome byte =
    with_some-IsSome _ _
      (quantise-IsSome (bit_and byte 48 / 2 ^ 4) (omega (arith, and_field 4 2 byte)))
      λ r.
        with_some-IsSome _ _
          (quantise-IsSome (bit_and byte 12 / 2 ^ 2) (omega (arith, and_field 2 2 byte)))
          λ g.
            with_some-IsSome _ _ (quantise-IsSome (bit_and byte 3) (omega (arith, and_low 2 byte)))
              λ b. tt

coloured-IsSome :
    (sent : List UiCommand) (command : Rgb → UiCommand) (value : ℕ)
    → IsSome (coloured sent command (rgb value))
coloured-IsSome sent command value = with_some-IsSome (rgb value) _ (rgb-IsSome value) λ c. tt

printed-IsSome :
    (sent : List UiCommand) (command : ℕ → UiCommand) (o : Option ℕ)
    → IsSome (elim o as (λ _. Option (List UiCommand)) [
      | none ↦ some sent
      | some character ↦ some (sent ++ command character ∷ [])
    ])
printed-IsSome sent command none = tt
printed-IsSome sent command (some character) = tt

if-IsSome :
    {A : Type 0} (b : Bool) (x y : Option A)
    → (b ≡ true → IsSome x)
    → (b ≡ false → IsSome y)
    → IsSome (if b then x else y)
if-IsSome true x y h k = h refl
if-IsSome false x y h k = k refl

pub store-IsSome :
    (sent : List UiCommand) (address value : ℕ)
    → address < 6000
    → IsSome (Display.store sent address value)
unfolding Display.store
store-IsSome sent address value h =
    if-IsSome (ltb address 2000) _ _ (λ _. printed-IsSome sent _ (u8_to_printable_char value))
      λ _.
        if-IsSome (ltb address 4000) _ _ (λ _. coloured-IsSome sent _ value)
          λ _.
            if-IsSome (ltb address 6000) _ _ (λ _. coloured-IsSome sent _ value)
              λ e. absurd (ground arith)

pub keyboard-IsSome :
    (sd : SharedData) (address : ℕ) → address < 2 → IsSome (Keyboard.load sd address)
unfolding Keyboard.load
keyboard-IsSome sd address h = ground arith

pub ram-IsSome :
    (ram : Eager.Ram) (address : ℕ) → address < 2 ^ 32 - 0x4000 → IsSome (Eager.index ram address)
unfolding Eager.index
ram-IsSome ram address h = ground arith

pub store_ram-IsSome :
    (ram : Eager.Ram) (address value : ℕ)
    → address < 2 ^ 32 - 0x4000
    → IsSome (Eager.store ram address value)
unfolding Eager.store
store_ram-IsSome ram address value h = ground arith

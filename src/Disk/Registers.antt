-- ===== src/Disk/Registers.antt =====
-- The registers of the disk controller: the address of a block, byte by byte (disk_real.rs).
use simulatron.Common.{
  ℕ, ◌+◌, ◌*◌, ◌/◌, ◌%◌, ◌^◌, ◌<◌, ◌≡◌, ap, ◌∙◌, arith, Option, none, some, bit_and, bit_or, List,
  [], ◌∷◌,
}
use simulatron.Common.Bits.{and_low, and_field, or_fields, or_comm, or-zero}
use simulatron.Common.Bits.Split.{and_split, or_split}
use simulatron.Disk.Real.{RealDiskController, store_control, load_status, with_block}

-- What each store makes of the address: one of its bytes is replaced.
pub da_1_lem : (x v : ℕ) → bit_or (bit_and x 0x00FFFFFF) (v * 2 ^ 24) ≡ v * 2 ^ 24 + x % 2 ^ 24
da_1_lem x v =
    or_comm (bit_and x 0x00FFFFFF) (v * 2 ^ 24)
    ∙ ap (bit_or (v * 2 ^ 24)) (and_low 24 x)
    ∙ or_fields 24 v (x % 2 ^ 24) (omega arith)

pub da_2_lem :
    (x v : ℕ)
    → x < 2 ^ 32
    → v < 2 ^ 8
    → bit_or (bit_and x 0xFF00FFFF) (v * 2 ^ 16) ≡ x / 2 ^ 24 * 2 ^ 24 + v * 2 ^ 16 + x % 2 ^ 16
da_2_lem x v h k =
    let high : bit_and (x / 2 ^ 16) 0xFF00 ≡ x / 2 ^ 16 / 2 ^ 8 % 2 ^ 8 * 2 ^ 8 =
      and_field 8 8 (x / 2 ^ 16) in
    let low : bit_and (x % 2 ^ 16) 0xFFFF ≡ x % 2 ^ 16 % 2 ^ 16 = and_low 16 (x % 2 ^ 16) in
    let q : ℕ = x / 2 ^ 16 / 2 ^ 8 % 2 ^ 8 in
    let masked : bit_and x 0xFF00FFFF ≡ q * 2 ^ 8 * 2 ^ 16 + x % 2 ^ 16 =
      omega (arith, and_split 16 x 0xFF00 0xFFFF (omega arith), high, low) in
    let shifted : v * 2 ^ 16 ≡ v * 2 ^ 16 + 0 = omega arith in
    omega (
      arith,
      ap (λ (t : ℕ). bit_or t (v * 2 ^ 16)) masked,
      ap (bit_or (q * 2 ^ 8 * 2 ^ 16 + x % 2 ^ 16)) shifted,
      or_split 16 (q * 2 ^ 8) (x % 2 ^ 16) v 0 (omega arith) (omega arith),
      or_fields 8 q v k,
      or-zero (x % 2 ^ 16) (x % 2 ^ 16) (omega arith),
    )

pub da_3_lem :
    (x v : ℕ)
    → x < 2 ^ 32
    → v < 2 ^ 8
    → bit_or (bit_and x 0xFFFF00FF) (v * 2 ^ 8) ≡ x / 2 ^ 16 * 2 ^ 16 + v * 2 ^ 8 + x % 2 ^ 8
da_3_lem x v h k =
    let high : bit_and (x / 2 ^ 8) 0xFFFF00 ≡ x / 2 ^ 8 / 2 ^ 8 % 2 ^ 16 * 2 ^ 8 =
      and_field 8 16 (x / 2 ^ 8) in
    let low : bit_and (x % 2 ^ 8) 0xFF ≡ x % 2 ^ 8 % 2 ^ 8 = and_low 8 (x % 2 ^ 8) in
    let q : ℕ = x / 2 ^ 8 / 2 ^ 8 % 2 ^ 16 in
    let masked : bit_and x 0xFFFF00FF ≡ q * 2 ^ 8 * 2 ^ 8 + x % 2 ^ 8 =
      omega (arith, and_split 8 x 0xFFFF00 0xFF (omega arith), high, low) in
    let shifted : v * 2 ^ 8 ≡ v * 2 ^ 8 + 0 = omega arith in
    omega (
      arith,
      ap (λ (t : ℕ). bit_or t (v * 2 ^ 8)) masked,
      ap (bit_or (q * 2 ^ 8 * 2 ^ 8 + x % 2 ^ 8)) shifted,
      or_split 8 (q * 2 ^ 8) (x % 2 ^ 8) v 0 (omega arith) (omega arith),
      or_fields 8 q v k,
      or-zero (x % 2 ^ 8) (x % 2 ^ 8) (omega arith),
    )

pub da_4_lem :
    (x v : ℕ) → x < 2 ^ 32 → v < 2 ^ 8 → bit_or (bit_and x 0xFFFFFF00) v ≡ x / 2 ^ 8 * 2 ^ 8 + v
da_4_lem x v h k =
    let q : ℕ = x / 2 ^ 8 % 2 ^ 24 in
    let masked : bit_and x 0xFFFFFF00 ≡ q * 2 ^ 8 = and_field 8 24 x in
    omega (arith, ap (λ (t : ℕ). bit_or t v) masked, or_fields 8 q v k)

-- stores to control registers, one after another
abbrev pub store_all : RealDiskController → List (ℕ × ℕ) → Option RealDiskController
store_all c [] = some c
store_all c ((address, value) ∷ stores) = elim (store_control c address value) [
  | none ↦ none
  | some c' ↦ store_all c' stores
]

abbrev pub block_address : ℕ → ℕ → ℕ → ℕ → ℕ
block_address b₁ b₂ b₃ b₄ = b₁ * 2 ^ 24 + b₂ * 2 ^ 16 + b₃ * 2 ^ 8 + b₄

chain_lem :
    (x x₁ x₂ x₃ x₄ b₁ b₂ b₃ b₄ : ℕ)
    → b₁ < 2 ^ 8
    → b₂ < 2 ^ 8
    → b₃ < 2 ^ 8
    → b₄ < 2 ^ 8
    → x₁ ≡ b₁ * 2 ^ 24 + x % 2 ^ 24
    → x₂ ≡ x₁ / 2 ^ 24 * 2 ^ 24 + b₂ * 2 ^ 16 + x₁ % 2 ^ 16
    → x₃ ≡ x₂ / 2 ^ 16 * 2 ^ 16 + b₃ * 2 ^ 8 + x₂ % 2 ^ 8
    → x₄ ≡ x₃ / 2 ^ 8 * 2 ^ 8 + b₄
    → x₄ ≡ block_address b₁ b₂ b₃ b₄
chain_lem x x₁ x₂ x₃ x₄ b₁ b₂ b₃ b₄ k₁ k₂ k₃ k₄ e₁ e₂ e₃ e₄ =
    let q₁ : x₁ / 2 ^ 24 ≡ b₁ = omega (arith, e₁) in
    let q₂ : x₂ / 2 ^ 16 ≡ b₁ * 2 ^ 8 + b₂ = omega (arith, e₂, q₁) in
    let q₃ : x₃ / 2 ^ 8 ≡ b₁ * 2 ^ 16 + b₂ * 2 ^ 8 + b₃ = omega (arith, e₃, q₂) in
    omega (arith, e₄, q₃)

store_all_lem :
    (c : RealDiskController) (b₁ b₂ b₃ b₄ : ℕ)
    → c.shared_data.block_to_access < 2 ^ 32
    → b₁ < 2 ^ 8
    → b₂ < 2 ^ 8
    → b₃ < 2 ^ 8
    → b₄ < 2 ^ 8
    → store_all c ((5, b₁) ∷ (6, b₂) ∷ (7, b₃) ∷ (8, b₄) ∷ [])
      ≡ some (with_block (block_address b₁ b₂ b₃ b₄) c)
unfolding store_control
store_all_lem c b₁ b₂ b₃ b₄ h k₁ k₂ k₃ k₄ =
    let x : ℕ = c.shared_data.block_to_access in
    let x₁ : ℕ = bit_or (bit_and x 0x00FFFFFF) (b₁ * 2 ^ 24) in
    let e₁ : x₁ ≡ b₁ * 2 ^ 24 + x % 2 ^ 24 = da_1_lem x b₁ in
    let x₂ : ℕ = bit_or (bit_and x₁ 0xFF00FFFF) (b₂ * 2 ^ 16) in
    let e₂ : x₂ ≡ x₁ / 2 ^ 24 * 2 ^ 24 + b₂ * 2 ^ 16 + x₁ % 2 ^ 16 =
      da_2_lem x₁ b₂ (omega arith) k₂ in
    let x₃ : ℕ = bit_or (bit_and x₂ 0xFFFF00FF) (b₃ * 2 ^ 8) in
    let e₃ : x₃ ≡ x₂ / 2 ^ 16 * 2 ^ 16 + b₃ * 2 ^ 8 + x₂ % 2 ^ 8 =
      da_3_lem x₂ b₃ (omega arith) k₃ in
    let x₄ : ℕ = bit_or (bit_and x₃ 0xFFFFFF00) b₄ in
    let e₄ : x₄ ≡ x₃ / 2 ^ 8 * 2 ^ 8 + b₄ = da_4_lem x₃ b₄ (omega arith) k₄ in
    let e : x₄ ≡ block_address b₁ b₂ b₃ b₄ =
      chain_lem x x₁ x₂ x₃ x₄ b₁ b₂ b₃ b₄ k₁ k₂ k₃ k₄ e₁ e₂ e₃ e₄ in
    ap (λ (block : ℕ). some (with_block block c)) e

-- What the bytes of the address are read back as.
abbrev pub ReadsAddress : RealDiskController → ℕ → ℕ → ℕ → Type 0
ReadsAddress c b₁ b₃ b₄ =
    (load_status c 5 ≡ some b₁)
    × (load_status c 6 ≡ some 0)
    × (load_status c 7 ≡ some b₃)
    × (load_status c 8 ≡ some b₄)

load_lem :
    (c : RealDiskController) (b₁ b₂ b₃ b₄ : ℕ)
    → b₁ < 2 ^ 8
    → b₂ < 2 ^ 8
    → b₃ < 2 ^ 8
    → b₄ < 2 ^ 8
    → ReadsAddress (with_block (block_address b₁ b₂ b₃ b₄) c) b₁ b₃ b₄
unfolding load_status
load_lem c b₁ b₂ b₃ b₄ k₁ k₂ k₃ k₄ =
    let x : ℕ = block_address b₁ b₂ b₃ b₄ in
    (
      ap some (omega (arith, and_field 24 8 x)),
      ap some (omega (arith, and_field 16 8 x)),
      ap some (omega (arith, and_field 8 8 x)),
      ap some (omega (arith, and_low 8 x)),
    )

-- Storing the four bytes of a block's address sets the address to their big-endian block_address, whatever it
-- was, and changes nothing else. The first, third and fourth of the bytes are then read back as they
-- were stored, but the second is read as 0, whatever was stored.
pub store_control-load_status :
    (c : RealDiskController) (b₁ b₂ b₃ b₄ : ℕ)
    → c.shared_data.block_to_access < 2 ^ 32
    → b₁ < 2 ^ 8
    → b₂ < 2 ^ 8
    → b₃ < 2 ^ 8
    → b₄ < 2 ^ 8
    → (store_all c ((5, b₁) ∷ (6, b₂) ∷ (7, b₃) ∷ (8, b₄) ∷ [])
        ≡ some (with_block (block_address b₁ b₂ b₃ b₄) c))
      × ReadsAddress (with_block (block_address b₁ b₂ b₃ b₄) c) b₁ b₃ b₄
store_control-load_status c b₁ b₂ b₃ b₄ h k₁ k₂ k₃ k₄ =
    (store_all_lem c b₁ b₂ b₃ b₄ h k₁ k₂ k₃ k₄, load_lem c b₁ b₂ b₃ b₄ k₁ k₂ k₃ k₄)

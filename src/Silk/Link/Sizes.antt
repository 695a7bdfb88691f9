-- ===== src/Silk/Link/Sizes.antt =====
-- The sizes of ROM and disk images (linker.rs).
use simulatron.Common.{
  ◌⊎◌, if◌then◌else◌, ap, append-nil, sym, ℕ, ◌+◌, ◌-◌, ◌*◌, ◌/◌, ◌%◌, ◌<◌, ◌≤◌, ◌≡◌, refl, arith,
  Bool, true, false, Bool-cases, inl, inr, List, ◌++◌, length, leb, ltb, replicate, length-append,
  length-replicate,
}
use simulatron.Silk.Result.{Result, ok, err, panic, assert_or_error, ◌>>=◌, exceeds_rom_capacity}
use simulatron.Silk.Data.{rom_size, ObjectFile}
use simulatron.Silk.Link.{link_as_image, link_as_rom, link_as_disk}

-- A ROM image is the linked image with zeros behind it up to 512 bytes, and a longer one is refused.
abbrev pub RomSays : Result (List ℕ) → Result (List ℕ) → Type 0
RomSays (ok image) r =
    ((length image ≤ 512)
      × (zeros : ℕ) × (r ≡ ok (image ++ replicate zeros 0))
      × (length (image ++ replicate zeros 0) ≡ 512))
    ⊎ ((512 < length image) × (r ≡ err (exceeds_rom_capacity (length image))))
RomSays (err e) r = r ≡ err e
RomSays panic r = r ≡ panic

-- A disk image is the linked image with fewer than 4096 zeros behind it, up to a whole block.
abbrev pub DiskSays : Result (List ℕ) → Result (List ℕ) → Type 0
DiskSays (ok image) r =
    (zeros : ℕ) × (zeros < 4096)
    × (r ≡ ok (image ++ replicate zeros 0))
    × (length (image ++ replicate zeros 0) % 4096 ≡ 0)
DiskSays (err e) r = r ≡ err e
DiskSays panic r = r ≡ panic

padded : (image : List ℕ) (n : ℕ) → length (image ++ replicate n 0) ≡ length image + n
padded image n = omega (arith, length-append image (replicate n 0), length-replicate {A = ℕ} n 0)

rom-step :
    (r : Result (List ℕ))
    → RomSays r (
        r >>= λ image.
        assert_or_error (leb (length image) rom_size) (exceeds_rom_capacity (length image)) >>= λ _.
        ok (image ++ replicate (rom_size - length image) 0))
rom-step (ok image) = elim (Bool-cases (leb (length image) 512)) [
  | inl fits ↦ rw fits (
      inl
        (ground arith, 512 - length image, refl, ground (arith, padded image (512 - length image))))
  | inr beyond ↦ rw beyond (inr (ground arith, refl))
]
rom-step (err e) = refl
rom-step panic = refl

-- An object file is linked as read-only at 0x40 for a ROM. An image of up to 512 bytes gets zeros
-- behind it and is then 512 bytes long, and a longer one is refused with its length. An error or a panic of
-- the linking is the result.
pub link_as_rom-RomSays :
    (checks : Bool) (of : ObjectFile)
    → RomSays (link_as_image checks of true 0x40) (link_as_rom checks of)
unfolding link_as_rom
link_as_rom-RomSays checks of = rom-step (link_as_image checks of true 0x40)

mod_lem : (n : ℕ) → n ≡ n / 4096 * 4096 + n % 4096
mod_lem n = omega arith

whole_lem : (image : List ℕ) → ok image ≡ ok (image ++ replicate 0 0)
unfolding replicate
whole_lem image = ap ok (sym (append-nil image))

disk-step :
    (r : Result (List ℕ))
    → DiskSays r (
        r >>= λ image. ok (
          if ltb 0 (length image % 4096)
          then image ++ replicate (length image + 4096 - length image % 4096 - length image) 0
          else image))
disk-step (ok image) = elim (Bool-cases (ltb 0 (length image % 4096))) [
  | inl more ↦
      let zeros : ℕ = length image + 4096 - length image % 4096 - length image in
      let rest : 0 < length image % 4096 = ground arith in
      rw more
        (zeros, ground arith, refl, omega (arith, padded image zeros, rest, mod_lem (length image)))
  | inr done ↦ rw done (0, omega arith, whole_lem image, ground (arith, padded image 0))
]
disk-step (err e) = refl
disk-step panic = refl

-- An object file is linked as writable at 0x4000 for a disk. Fewer than 4096 zeros behind the image
-- make its length a multiple of 4096. An error or a panic of the linking is the result.
pub link_as_disk-DiskSays :
    (checks : Bool) (of : ObjectFile)
    → DiskSays (link_as_image checks of false 0x4000) (link_as_disk checks of)
unfolding link_as_disk
link_as_disk-DiskSays checks of = disk-step (link_as_image checks of false 0x4000)

-- ===== src/Silk/Link.antt =====
-- Linking into images, Crates/simulatron-silk/src/lib/linker.rs.
pub mod Moves
pub mod Image
pub mod Layout
pub mod Patch
pub mod Sections
pub mod Resolve
pub mod Zones
pub mod Linked
pub mod Tables
pub mod Ready
pub mod Correct
pub mod Sizes
use simulatron.Common.{
  ℕ, zero, suc, ◌+◌, ◌-◌, ◌%◌, ◌^◌, ◌/◌, ◌*◌, Bool, true, false, not, ◌&&◌, Option, none, some,
  List, [], ◌∷◌, ◌++◌, map, bit_and, ltb, leb, ◌==◌, if◌then◌else◌, get_elem?, set, length,
  replicate,
}
use simulatron.Silk.Result.{
  Result, ok, err, panic, Done, unresolved_symbol, exceeds_rom_capacity, invalid_section_flags,
  writable_in_read_only, entrypoint_not_executable, multiple_entrypoints, no_entrypoint,
  empty_image, assert_or_error, assert, unwrap, plus_u32, minus_u32, ◌>>=◌, ◌>>◌,
}
use simulatron.Silk.Names.{Name}
use simulatron.Silk.Data.{
  flag_entrypoint, flag_write, flag_execute, invalid_flags, rom_size, disk_align, rom_base,
  disk_base, Section, SymbolTableEntry, SymbolTable, ObjectFile, find,
}

abbrev pub has_flag : Section → ℕ → Bool
has_flag section flag = not (bit_and section.flags flag == 0)

abbrev pub is_some : Option ℕ → Bool
is_some none = false
is_some (some v) = true

-- The loop over the sections, from index `i`, with the entrypoint found so far.
unfoldable pub find_entrypoint : Bool → ℕ → Option ℕ → List Section → Result (Option ℕ)
find_entrypoint read_only i entrypoint_index [] = ok entrypoint_index
find_entrypoint read_only i entrypoint_index (section ∷ sections) =
    let found = find_entrypoint read_only (i + 1) (some i) sections in
    let later = find_entrypoint read_only (i + 1) entrypoint_index sections in
    assert_or_error (bit_and section.flags invalid_flags == 0) invalid_section_flags
    >> (assert_or_error (not (read_only && has_flag section flag_write)) writable_in_read_only
        >> (if has_flag section flag_entrypoint
            then (assert_or_error (has_flag section flag_execute) entrypoint_not_executable
                >> (assert_or_error (not (is_some entrypoint_index)) multiple_entrypoints >> found))
            else later))

-- The loop of `move_to_start` over `i` from `left - 1` down to 0.
unfoldable pub shift_up {ℓ} : {A : Type ℓ} → ℕ → List A → List A
shift_up zero v = v
shift_up (suc i) v = elim (get_elem? v i) [ none ↦ v | some x ↦ shift_up i (set v (i + 1) x) ]

-- An index out of bounds fails the assertion.
unfoldable pub move_to_start : {A : Type 0} → List A → ℕ → Result (List A)
unfolding shift_up
move_to_start v index = elim (get_elem? v index) [
  | none ↦ panic
  | some item ↦ ok (set (shift_up index v) 0 item)
]

-- the image of the concatenated sections
unfoldable pub concatenate : List Section → List ℕ
concatenate [] = []
concatenate (section ∷ sections) = section.bytes ++ concatenate sections

-- `value.to_be_bytes()`
abbrev pub to_be_bytes : ℕ → List ℕ
to_be_bytes value =
    (value / 2 ^ 24 % 2 ^ 8)
    ∷ (value / 2 ^ 16 % 2 ^ 8)
    ∷ (value / 2 ^ 8 % 2 ^ 8)
    ∷ (value % 2 ^ 8)
    ∷ []

-- The loop over the four bytes, each of which is zero before.
unfoldable pub write_bytes : List ℕ → ℕ → List ℕ → Result (List ℕ)
write_bytes target offset [] = ok target
write_bytes target offset (b ∷ value) =
    let later = write_bytes (set target offset b) (offset + 1) value in
    unwrap (get_elem? target offset) >>= λ old. assert (old == 0) >> later

module _ (checks : Bool) where
  -- the closure `relocate`
  unfoldable pub relocate : ℕ → ℕ → ℕ → Result ℕ
  unfolding plus_u32
  relocate cutoff offset v =
      if ltb v cutoff
      then plus_u32 checks v offset
      else (plus_u32 checks cutoff offset >>= λ end. if ltb v end then ok (v - cutoff) else ok v)

  -- the sections before the entrypoint
  unfoldable pub offset_first : ℕ → ℕ → List Section → Result (List Section)
  offset_first zero offset sections = ok sections
  offset_first (suc n) offset [] = panic
  offset_first (suc n) offset (section ∷ sections) = do
    start ← plus_u32 checks section.start offset
    others ← offset_first n offset sections
    ok (record section { start = start } ∷ others)

  -- `find_mut(..).expect(..)`, with the section's index
  unfoldable pub expect_section : List Section → ℕ → Result (ℕ × Section)
  expect_section sections address = do
    found ← find checks sections address
    index ← unwrap found
    section ← unwrap (get_elem? sections index)
    ok (index, section)

  unfoldable pub resolve_reference : ℕ → ℕ → List ℕ → List Section → ℕ → Result (List Section)
  unfolding write_bytes
  resolve_reference cutoff offset value sections reference = do
    relocated ← relocate cutoff offset reference
    (index, section) ← expect_section sections relocated
    section_offset ← minus_u32 checks relocated section.start
    bytes ← write_bytes section.bytes section_offset value
    ok (set sections index (record section { bytes = bytes }))

  unfoldable pub resolve_references : ℕ → ℕ → List ℕ → List Section → List ℕ → Result (List Section)
  resolve_references cutoff offset value sections [] = ok sections
  resolve_references cutoff offset value sections (reference ∷ references) = do
    sections' ← resolve_reference cutoff offset value sections reference
    resolve_references cutoff offset value sections' references

  unfoldable pub link_symbol :
      ℕ → ℕ → ℕ → List Section → Name × SymbolTableEntry → Result (List Section)
  link_symbol base cutoff offset sections (name, symbol) = elim symbol.value [
    | none ↦ err (unresolved_symbol name)
    | some v ↦ (do
      relocated ← relocate cutoff offset v
      value ← plus_u32 checks base relocated
      resolve_references cutoff offset (to_be_bytes value) sections symbol.references)
  ]

  unfoldable pub link_symbols : ℕ → ℕ → ℕ → List Section → SymbolTable → Result (List Section)
  link_symbols base cutoff offset sections [] = ok sections
  link_symbols base cutoff offset sections (symbol ∷ symbols) = do
    sections' ← link_symbol base cutoff offset sections symbol
    link_symbols base cutoff offset sections' symbols

  unfoldable pub link_as_image : ObjectFile → Bool → ℕ → Result (List ℕ)
  unfolding find_entrypoint concatenate
  link_as_image data' read_only base_address = do
    found ← find_entrypoint read_only 0 none data'.sections
    assert_or_error (is_some found) no_entrypoint
    entrypoint_index ← unwrap found
    entrypoint ← unwrap (get_elem? data'.sections entrypoint_index)
    let cutoff = entrypoint.start
    let offset = entrypoint.length
    let at_start = set data'.sections entrypoint_index (record entrypoint { start = 0 })
    shifted ← offset_first entrypoint_index offset at_start
    sections ← move_to_start shifted entrypoint_index
    linked ← link_symbols base_address cutoff offset sections data'.symbols
    let image = concatenate linked
    assert_or_error (not (length image == 0)) empty_image
    ok image

  -- `image.resize(new_len, 0)` to a greater length
  unfoldable pub link_as_rom : ObjectFile → Result (List ℕ)
  link_as_rom data' = do
    image ← link_as_image data' true rom_base
    assert_or_error (leb (length image) rom_size) (exceeds_rom_capacity (length image))
    ok (image ++ replicate (rom_size - length image) 0)

  unfoldable pub link_as_disk : ObjectFile → Result (List ℕ)
  link_as_disk data' = do
    image ← link_as_image data' false disk_base
    let remainder = length image % disk_align
    ok (
        if ltb 0 remainder
        then image ++ replicate (length image + disk_align - remainder - length image) 0
        else image)

-- ===== src/Silk/Verify.antt =====
-- Relocation and verification of parsed symbols, Crates/simulatron-silk/src/lib/parser.rs.
pub mod Sound
use simulatron.Common.{
  ℕ, zero, suc, ◌+◌, ◌-◌, Bool, Option, none, some, List, [], ◌∷◌, ltb, leb, ◌==◌, if◌then◌else◌,
  get_elem?,
}
use simulatron.Silk.Result.{
  Result, ok, err, Done, address_too_large, address_too_small, nonzero_reference_target,
  assert_or_error, unwrap, plus_u32, ◌>>=◌, ◌>>◌,
}
use simulatron.Silk.Data.{Section, SymbolTableEntry, SymbolTable, find}

-- `checked_sub`
unfoldable pub try_sub : ℕ → ℕ → Result ℕ
try_sub x y = if leb y x then ok (x - y) else err (address_too_small x)

unfoldable pub last_section : List Section → Option Section
last_section [] = none
last_section (s ∷ []) = some s
last_section (s ∷ (t ∷ sections)) = last_section (t ∷ sections)

-- The loop over the target's four bytes; an index out of bounds panics.
unfoldable pub check_zeros : List ℕ → ℕ → ℕ → Result Done
check_zeros bytes offset zero = ok tt
check_zeros bytes offset (suc left) =
    let later = check_zeros bytes (offset + 1) left in
    unwrap (get_elem? bytes offset) >>= λ b.
    assert_or_error (b == 0) nonzero_reference_target >> later

module _ (checks : Bool) where
  -- the end of the last section
  unfoldable pub file_length : List Section → Result ℕ
  unfolding last_section
  file_length sections = elim (last_section sections) [
    | none ↦ ok 0
    | some s ↦ plus_u32 checks s.start s.length
  ]

  unfoldable pub relocate_value : ℕ → List Section → Option ℕ → Result (Option ℕ)
  unfolding try_sub
  relocate_value sections_start sections none = ok none
  relocate_value sections_start sections (some val) = do
    relocated ← try_sub val sections_start
    length ← file_length sections
    assert_or_error (ltb relocated length) (address_too_large val)
    ok (some relocated)

  -- the section that a reference points into
  unfoldable pub target_section : ℕ → List Section → ℕ → Result Section
  target_section sections_start sections relocated = do
    index ← find checks sections relocated
    elim index [
      | none ↦
          plus_u32 checks relocated sections_start >>= λ original. err (address_too_large original)
      | some i ↦ unwrap (get_elem? sections i)
    ]

  unfoldable pub relocate_reference : ℕ → List Section → ℕ → Result ℕ
  unfolding try_sub check_zeros
  relocate_reference sections_start sections reference = do
    relocated ← try_sub reference sections_start
    section ← target_section sections_start sections relocated
    check_zeros section.bytes (relocated - section.start) 4
    ok relocated

  unfoldable pub relocate_references : ℕ → List Section → List ℕ → Result (List ℕ)
  relocate_references sections_start sections [] = ok []
  relocate_references sections_start sections (reference ∷ references) = do
    relocated ← relocate_reference sections_start sections reference
    others ← relocate_references sections_start sections references
    ok (relocated ∷ others)

  unfoldable pub relocate_and_verify_symbol :
      ℕ → List Section → SymbolTableEntry → Result SymbolTableEntry
  relocate_and_verify_symbol sections_start sections entry = do
    value ← relocate_value sections_start sections entry.value
    references ← relocate_references sections_start sections entry.references
    ok (record entry { value = value; references = references })

  -- the loop over the symbols
  unfoldable pub relocate_and_verify_symbols : ℕ → List Section → SymbolTable → Result SymbolTable
  relocate_and_verify_symbols sections_start sections [] = ok []
  relocate_and_verify_symbols sections_start sections ((name, entry) ∷ symbols) = do
    entry' ← relocate_and_verify_symbol sections_start sections entry
    others ← relocate_and_verify_symbols sections_start sections symbols
    ok ((name, entry') ∷ others)

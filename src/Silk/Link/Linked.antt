-- ===== src/Silk/Link/Linked.antt =====
-- The linked image and what it holds (linker.rs).
use simulatron.Common.{
  ℕ, ◌+◌, ◌^◌, ◌<◌, ◌≤◌, ◌≡◌, ◌⊎◌, Bool, Option, some, none, List, [], ◌∷◌, ◌++◌, get_elem?, length,
  All,
}
use simulatron.Silk.Result.{ok}
use simulatron.Silk.Object.{Every, IsObject}
use simulatron.Silk.Data.{Section, SymbolTable, ObjectFile}
use simulatron.Silk.Data.Layout.{end_of}
use simulatron.Silk.Link.{concatenate, to_be_bytes, find_entrypoint}
use simulatron.Silk.Link.Image.{place}
use simulatron.Silk.Link.Patch.{Reads, AreApart}

-- the references of all symbols
abbrev pub table_references : SymbolTable → List ℕ
table_references [] = []
table_references ((name, entry) ∷ table) = entry.references ++ table_references table

abbrev pub IsDefined : Option ℕ → Type 0
IsDefined none = ⊥
IsDefined (some v) = Unit

-- What linking to a base address needs of an object file whose section `index` is the entrypoint:
-- every symbol is defined, no two references share a byte, and the addresses fit into 32 bits.
pub record IsLinkable (of : ObjectFile) (read_only : Bool) (base index : ℕ) (entry : Section)
    : Type 0 where
  pub object : IsObject of
  pub entrypoint : find_entrypoint read_only 0 none of.sections ≡ ok (some index)
  pub found : get_elem? of.sections index ≡ some entry
  pub defined : Every (λ symbol. IsDefined symbol.value) of.symbols
  pub apart : AreApart (table_references of.symbols)
  pub fits : base + end_of 0 of.sections ≤ 2 ^ 32
  pub filled : 0 < end_of 0 of.sections

-- the words at a symbol's references
abbrev pub HoldsValue : ℕ → Section → List ℕ → Option ℕ → List ℕ → Type 0
HoldsValue base entry image none references = ⊥
HoldsValue base entry image (some v) references =
    All
      (λ r.
        Reads image (place entry.start entry.length r)
          (to_be_bytes (base + place entry.start entry.length v)))
      references

-- What the image holds: as many bytes as the sections; at each reference, the address of its symbol;
-- each other byte as it was. Bytes and addresses are where the entrypoint's move has put them.
pub record IsImage (of : ObjectFile) (base : ℕ) (entry : Section) (image : List ℕ) : Type 0 where
  pub whole : length image ≡ end_of 0 of.sections
  pub words :
      Every (λ symbol. HoldsValue base entry image symbol.value symbol.references) of.symbols
  pub others :
      (i : ℕ)
      → All (λ r. (i < r) ⊎ (r + 4 ≤ i)) (table_references of.symbols)
      → get_elem? image (place entry.start entry.length i) ≡ get_elem? (concatenate of.sections) i

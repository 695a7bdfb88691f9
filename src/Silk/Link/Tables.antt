-- ===== src/Silk/Link/Tables.antt =====
-- The patches of a symbol table and its references (linker.rs).
use simulatron.Common.{ℕ, ◌+◌, ◌≡◌, refl, ap, List, [], ◌∷◌, ◌++◌, map, All, Option, none, some}
use simulatron.Silk.Object.{Every}
use simulatron.Silk.Data.{Section, SymbolTable}
use simulatron.Silk.Link.{to_be_bytes}
use simulatron.Silk.Link.Image.{place}
use simulatron.Silk.Link.Patch.{Patch, addresses, Reads}
use simulatron.Silk.Link.Resolve.{reference_patches, entry_patches, table_patches}
use simulatron.Silk.Link.Linked.{table_references, IsDefined, HoldsValue}

pub Every-All :
    (P : ℕ → Type 0) (table : SymbolTable)
    → Every (λ entry. All P entry.references) table
    → All P (table_references table)
Every-All P [] h = tt
Every-All P ((name, entry) ∷ table) h = step entry.references h.0 (Every-All P table h.1)
  where
    step :
        (references : List ℕ)
        → All P references
        → All P (table_references table)
        → All P (references ++ table_references table)
    step [] k rest = rest
    step (r ∷ references) k rest = (k.0, step references k.1 rest)

pub All-map :
    (P Q : ℕ → Type 0) (f : ℕ → ℕ) (xs : List ℕ)
    → ((x : ℕ) → P x → Q (f x))
    → All P xs
    → All Q (map f xs)
All-map P Q f [] g h = tt
All-map P Q f (x ∷ xs) g h = (g x h.0, All-map P Q f xs g h.1)

module _ (base cutoff offset : ℕ) where
  addresses-references :
      (value : ℕ) (references : List ℕ) (patches : List Patch) (rest : List ℕ)
      → addresses patches ≡ map (place cutoff offset) rest
      → addresses (reference_patches cutoff offset value references ++ patches)
        ≡ map (place cutoff offset) (references ++ rest)
  addresses-references value [] patches rest e = e
  addresses-references value (r ∷ references) patches rest e =
      ap (λ others. place cutoff offset r ∷ others)
        (addresses-references value references patches rest e)

  pub addresses-table :
      (table : SymbolTable)
      → Every (λ entry. IsDefined entry.value) table
      → addresses (table_patches base cutoff offset table)
        ≡ map (place cutoff offset) (table_references table)
  addresses-table [] h = refl
  addresses-table ((name, entry) ∷ table) h = step entry.value h.0 (addresses-table table h.1)
    where
      step :
          (value : Option ℕ)
          → IsDefined value
          → addresses (table_patches base cutoff offset table)
            ≡ map (place cutoff offset) (table_references table)
          → addresses (
              entry_patches base cutoff offset value entry.references
              ++ table_patches base cutoff offset table)
            ≡ map (place cutoff offset) (entry.references ++ table_references table)
      step none d e = absurd d
      step (some v) d e =
          addresses-references (base + place cutoff offset v) entry.references
            (table_patches base cutoff offset table) (table_references table) e

-- Where each patch can be read, each symbol's references hold its address.
pub words-lem :
    (base : ℕ) (entry : Section) (image : List ℕ) (table : SymbolTable)
    → Every (λ symbol. IsDefined symbol.value) table
    → All
        (λ patch. Reads image (patch.0) (to_be_bytes (patch.1)))
        (table_patches base entry.start entry.length table)
    → Every (λ symbol. HoldsValue base entry image symbol.value symbol.references) table
words-lem base entry image [] d h = tt
words-lem base entry image ((name, symbol) ∷ table) d h =
    let (here, later) = step symbol.value d.0 h in
    (here, words-lem base entry image table d.1 later)
  where
    P : Patch → Type 0
    P patch = Reads image (patch.0) (to_be_bytes (patch.1))

    each :
        (value : ℕ) (references : List ℕ) (rest : List Patch)
        → All P (reference_patches entry.start entry.length value references ++ rest)
        → All (λ r. Reads image (place entry.start entry.length r) (to_be_bytes value)) references
          × All P rest
    each value [] rest k = (tt, k)
    each value (r ∷ references) rest k =
        let (others, later) = each value references rest k.1 in ((k.0, others), later)

    step :
        (value : Option ℕ)
        → IsDefined value
        → All P (
            entry_patches base entry.start entry.length value symbol.references
            ++ table_patches base entry.start entry.length table)
        → HoldsValue base entry image value symbol.references
          × All P (table_patches base entry.start entry.length table)
    step none e k = absurd e
    step (some v) e k =
        each (base + place entry.start entry.length v) symbol.references
          (table_patches base entry.start entry.length table) k

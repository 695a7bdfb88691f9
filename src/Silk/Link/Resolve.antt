-- ===== src/Silk/Link/Resolve.antt =====
-- Resolving references, in the sections and in the image (linker.rs).
use simulatron.Common.{
  ℕ, ◌+◌, ◌-◌, ◌^◌, ◌<◌, ◌≤◌, ◌≡◌, ap, ◌∙◌, sym, arith, Bool, true, Bool-cases, inl, inr, Option,
  some, none, List, [], ◌∷◌, ◌++◌, get_elem?, set, subst, get_elem?-set_self, get_elem?-set_ne,
  get_elem?-lt, ◌==◌, All, leb, ltb,
}
use simulatron.Silk.Names.{Name}
use simulatron.Silk.Result.{plus_u32, minus_u32}
use simulatron.Silk.Object.{Zeros, Every}
use simulatron.Silk.Data.{Section, SymbolTableEntry, SymbolTable}
use simulatron.Silk.Data.Layout.{IsContiguous, end_of, IsPlaced-get_elem?}
use simulatron.Silk.Parser.Rules.{Makes, Makes-bind}
use simulatron.Silk.Link.{
  concatenate, to_be_bytes, resolve_reference, resolve_references, link_symbol, link_symbols,
}
use simulatron.Silk.Link.Image.{place, relocate-place}
use simulatron.Silk.Link.Layout.{IsSpot}
use simulatron.Silk.Link.Patch.{
  overwrite, length-overwrite, Patch, apply_patches, apply_patches-append, IsClear, IsClear-left,
  IsClear-right, IsClear-step,
}
use simulatron.Silk.Link.Sections.{
  with_bytes, concatenate-set, set-IsContiguous, section-Zeros, write_bytes_lem, expect_section_lem,
}

-- The sections while references are resolved: they keep their places, and the image is as given.
pub record IsLinking (original : List Section) (image : List ℕ) (sections : List Section)
    : Type 0 where
  pub layout : IsContiguous 0 sections
  pub small : end_of 0 sections < 2 ^ 32
  pub flat : concatenate sections ≡ image
  pub spots : (r : ℕ) → IsSpot original r → IsSpot sections r

set-IsSpot :
    (sections : List Section) (i : ℕ) (s : Section) (bytes : List ℕ) (r : ℕ)
    → get_elem? sections i ≡ some s
    → IsSpot sections r
    → IsSpot (set sections i (with_bytes s bytes)) r
set-IsSpot sections i s bytes r e spot = elim (Bool-cases (i == spot.index)) [
  | inl here ↦
      let at : i ≡ spot.index = ground (arith, here) in
      let same : s ≡ spot.section = cc in
      record {
        index = i;
        section = with_bytes s bytes;
        found = get_elem?-set_self sections i (with_bytes s bytes) (get_elem?-lt sections i s e);
        from = subst (λ t. Section.start t ≤ r) (sym same) spot.from;
        upto = subst (λ (t : Section). r + 4 ≤ t.start + t.length) (sym same) spot.upto;
      }
  | inr away ↦ record {
    index = spot.index;
    section = spot.section;
    found =
        get_elem?-set_ne sections i spot.index (with_bytes s bytes) (λ same. ground (arith, away))
        ∙ spot.found;
    from = spot.from;
    upto = spot.upto;
  }
]

-- Writing four bytes into a section, seen in the image.
write-IsLinking :
    (original : List Section) (image : List ℕ) (sections : List Section) (i : ℕ) (s : Section)
    (r k value : ℕ)
    → IsLinking original image sections
    → get_elem? sections i ≡ some s
    → r ≡ s.start + k
    → k + 4 ≤ s.length
    → IsLinking original
        (overwrite image r (to_be_bytes value))
        (set sections i (with_bytes s (overwrite s.bytes k (to_be_bytes value))))
write-IsLinking original image sections i s r k value h e at within =
    let p = IsPlaced-get_elem? 0 sections i s h.layout e in
    let bytes = overwrite s.bytes k (to_be_bytes value) in
    let (c, d) =
      set-IsContiguous 0 sections i s bytes h.layout e
        (length-overwrite s.bytes k (to_be_bytes value) ∙ p.whole) in
    record {
      layout = c;
      small = omega (arith, d, h.small);
      flat =
          concatenate-set 0 sections i s r k (to_be_bytes value) h.layout e (omega arith) within
          ∙ ap (λ flat. overwrite flat r (to_be_bytes value)) h.flat;
      spots = λ r' spot. set-IsSpot sections i s bytes r' e (h.spots r' spot);
    }

module _ (checks : Bool) (cutoff offset : ℕ) (fits : cutoff + offset < 2 ^ 32)
    (original : List Section) where
  resolve_reference-Makes :
      (image : List ℕ) (sections : List Section) (reference value : ℕ)
      → IsLinking original image sections
      → IsSpot original (place cutoff offset reference)
      → Zeros image (place cutoff offset reference) 4
      → Makes
          (IsLinking original (overwrite image (place cutoff offset reference) (to_be_bytes value)))
          (resolve_reference checks cutoff offset (to_be_bytes value) sections reference)
  unfolding resolve_reference minus_u32
  resolve_reference-Makes image sections reference value h spot z =
      let r : ℕ = place cutoff offset reference in
      let here : IsSpot sections r = h.spots r spot in
      let s : Section = here.section in
      let k : ℕ = r - s.start in
      let p = IsPlaced-get_elem? 0 sections here.index s h.layout here.found in
      let at : r ≡ s.start + k = omega (arith, here.from) in
      let zeros : Zeros s.bytes k 4 =
        section-Zeros sections here.index s r k 4 h.layout here.found at
          (omega (arith, here.upto, here.from)) (subst (λ bytes. Zeros bytes r 4) (sym h.flat) z) in
      let found =
        expect_section_lem checks sections r here.index s h.layout h.small here.found
          (here.from, omega (arith, here.upto)) in
      let above : leb s.start r ≡ true = ground (arith, here.from) in
      rw
        (
          relocate-place checks cutoff offset reference fits,
          found,
          above,
          write_bytes_lem s.bytes k (to_be_bytes value) zeros,
          resolve_reference,
        )
        (write-IsLinking original image sections here.index s r k value h here.found at
          (omega (arith, here.upto, here.from)))

-- the words that a symbol's references are given
abbrev pub reference_patches : ℕ → ℕ → ℕ → List ℕ → List Patch
reference_patches cutoff offset value [] = []
reference_patches cutoff offset value (reference ∷ references) =
    (place cutoff offset reference, value) ∷ reference_patches cutoff offset value references

abbrev pub entry_patches : ℕ → ℕ → ℕ → Option ℕ → List ℕ → List Patch
entry_patches base cutoff offset none references = []
entry_patches base cutoff offset (some v) references =
    reference_patches cutoff offset (base + place cutoff offset v) references

abbrev pub table_patches : ℕ → ℕ → ℕ → SymbolTable → List Patch
table_patches base cutoff offset [] = []
table_patches base cutoff offset ((name, entry) ∷ table) =
    entry_patches base cutoff offset entry.value entry.references
    ++ table_patches base cutoff offset table

-- a symbol whose address is known and fits into 32 bits
abbrev pub IsValued : ℕ → ℕ → ℕ → Option ℕ → Type 0
IsValued base cutoff offset none = ⊥
IsValued base cutoff offset (some v) = base + place cutoff offset v < 2 ^ 32

module _ (checks : Bool) (cutoff offset : ℕ) (fits : cutoff + offset < 2 ^ 32)
    (original : List Section) where
  resolve_references-Makes :
      (image : List ℕ) (sections : List Section) (value : ℕ) (references : List ℕ)
      → IsLinking original image sections
      → All (λ r. IsSpot original (place cutoff offset r)) references
      → IsClear image (reference_patches cutoff offset value references)
      → Makes
          (IsLinking original
            (apply_patches image (reference_patches cutoff offset value references)))
          (resolve_references checks cutoff offset (to_be_bytes value) sections references)
  unfolding resolve_references
  resolve_references-Makes image sections value [] h spots clear = h
  resolve_references-Makes image sections value (r ∷ references) h spots clear =
      let image' = overwrite image (place cutoff offset r) (to_be_bytes value) in
      let patches = reference_patches cutoff offset value references in
      Makes-bind (IsLinking original image') (IsLinking original (apply_patches image' patches)) _ _
        (resolve_reference-Makes checks cutoff offset fits original image sections r value h spots.0
          clear.1.0)
        (λ sections' h'.
          resolve_references-Makes image' sections' value references h' spots.1
            (IsClear-step image (place cutoff offset r) value patches clear))

  module _ (base : ℕ) where
    link_symbol-Makes :
        (image : List ℕ) (sections : List Section) (name : Name) (entry : SymbolTableEntry)
        → IsLinking original image sections
        → IsValued base cutoff offset entry.value
        → All (λ r. IsSpot original (place cutoff offset r)) entry.references
        → IsClear image (entry_patches base cutoff offset entry.value entry.references)
        → Makes
            (IsLinking original
              (apply_patches image (entry_patches base cutoff offset entry.value entry.references)))
            (link_symbol checks base cutoff offset sections (name, entry))
    unfolding link_symbol plus_u32
    link_symbol-Makes image sections name entry h valued spots clear = step entry.value valued clear
      where
        step :
            (value : Option ℕ)
            → IsValued base cutoff offset value
            → IsClear image (entry_patches base cutoff offset value entry.references)
            → Makes
                (IsLinking original
                  (apply_patches image (entry_patches base cutoff offset value entry.references)))
                (link_symbol checks base cutoff offset sections
                  (name, record entry { value = value }))
        step none valued clear = absurd valued
        step (some v) valued clear =
            let e : ltb (base + place cutoff offset v) (2 ^ 32) ≡ true = ground (arith, valued) in
            rw (relocate-place checks cutoff offset v fits, e, link_symbol)
              (resolve_references-Makes image sections (base + place cutoff offset v)
                entry.references h spots clear)

    pub link_symbols-Makes :
        (image : List ℕ) (sections : List Section) (table : SymbolTable)
        → IsLinking original image sections
        → Every (λ entry. IsValued base cutoff offset entry.value) table
        → Every (λ entry. All (λ r. IsSpot original (place cutoff offset r)) entry.references) table
        → IsClear image (table_patches base cutoff offset table)
        → Makes
            (IsLinking original (apply_patches image (table_patches base cutoff offset table)))
            (link_symbols checks base cutoff offset sections table)
    unfolding link_symbols
    link_symbols-Makes image sections [] h valued spots clear = h
    link_symbols-Makes image sections ((name, entry) ∷ table) h valued spots clear =
        let here = entry_patches base cutoff offset entry.value entry.references in
        let later = table_patches base cutoff offset table in
        let image' = apply_patches image here in
        rw (apply_patches-append image here later) (
          Makes-bind (IsLinking original image') (IsLinking original (apply_patches image' later)) _
            _
            (link_symbol-Makes image sections name entry h valued.0 spots.0
              (IsClear-left image here later clear))
            (λ sections' h'.
              link_symbols-Makes image' sections' table h' valued.1 spots.1
                (IsClear-right image here later clear)))

-- ===== src/Silk/Link/Ready.antt =====
-- What a linkable object file offers to the linker's loops (linker.rs).
use simulatron.Common.{
  ℕ, ◌+◌, ◌-◌, ◌<◌, ◌≤◌, ◌≡◌, sym, arith, Bool, Option, some, none, List, [], ◌∷◌, ◌++◌, map,
  length, subst, All,
}
use simulatron.Silk.Object.{Zeros, IsTarget, IsWithin, IsVerified, Every}
use simulatron.Silk.Tables.{Every-map}
use simulatron.Silk.Data.{Section, SymbolTable}
use simulatron.Silk.Data.Layout.{IsContiguous, end_of, IsPlaced-get_elem?}
use simulatron.Silk.Link.{concatenate}
use simulatron.Silk.Link.Image.{place}
use simulatron.Silk.Link.Layout.{moved, IsSpot, moved-IsSpot}
use simulatron.Silk.Link.Patch.{AreApart, Patch, apply_patches, addresses, IsClear}
use simulatron.Silk.Link.Sections.{concatenate-Zeros}
use simulatron.Silk.Link.Resolve.{table_patches, IsValued}
use simulatron.Silk.Link.Zones.{IsZoned, place-AreApart, target-IsSpot, spot-IsZoned, moved-Zeros}
use simulatron.Silk.Link.Linked.{table_references, IsDefined, IsLinkable}
use simulatron.Silk.Link.Tables.{Every-All, All-map, addresses-table}

module _ (symbols : SymbolTable) (before : List Section) (entry : Section) (after : List Section)
    (read_only : Bool) (base : ℕ)
    (h : IsLinkable
      (record { symbols = symbols; sections = before ++ entry ∷ after })
      read_only
      base
      (length before)
      entry) where
  abbrev pub sections : List Section
  sections = before ++ entry ∷ after

  abbrev pub layout : IsContiguous 0 sections
  layout = h.object.layout

  abbrev pub goes : ℕ → ℕ
  goes = place entry.start entry.length

  abbrev pub patches : List Patch
  patches = table_patches base entry.start entry.length symbols

  abbrev pub image : List ℕ
  image = apply_patches (concatenate (moved before entry after)) patches

  -- a reference at its new address
  pub record IsMoved (r : ℕ) : Type 0 where
    pub zoned : IsZoned entry.start entry.length r
    pub spot : IsSpot (moved before entry after) (goes r)
    pub zeros : Zeros (concatenate (moved before entry after)) (goes r) 4

  target-IsMoved : (r : ℕ) → IsTarget sections r → IsMoved r
  target-IsMoved r t =
      let spot = target-IsSpot sections r layout t in
      let zone = spot-IsZoned sections (length before) entry r layout h.found spot in
      let start : r + 0 ≡ r = omega arith in
      let start' : goes r + 0 ≡ goes r = omega arith in
      let zeros : Zeros (concatenate sections) r 4 =
        concatenate-Zeros sections t.index t.section r (r - t.section.start) 4 layout t.found
          (omega (arith, t.from)) t.zeros in
      record {
        zoned = zone;
        spot = moved-IsSpot before entry after layout r spot;
        zeros =
            subst (λ (a : ℕ). Zeros (concatenate (moved before entry after)) a 4) start'
              (moved-Zeros before entry after r 0 4 layout zone (omega arith)
                (subst (λ (a : ℕ). Zeros (concatenate sections) a 4) (sym start) zeros));
      }

  pub edges : entry.start + entry.length ≤ end_of 0 sections
  edges = (IsPlaced-get_elem? 0 sections (length before) entry layout h.found).before

  goes_within : (v : ℕ) → v < end_of 0 sections → goes v < end_of 0 sections
  goes_within v l = ground (arith, edges)

  pub All-target :
      (references : List ℕ) → All (IsTarget sections) references → All IsMoved references
  All-target [] t = tt
  All-target (r ∷ references) t = (target-IsMoved r t.0, All-target references t.1)

  pub All-spots :
      (references : List ℕ)
      → All IsMoved references
      → All (λ r. IsSpot (moved before entry after) (goes r)) references
  All-spots [] t = tt
  All-spots (r ∷ references) t = (t.0.spot, All-spots references t.1)

  pub references-lem : All IsMoved (table_references symbols)
  references-lem = Every-All IsMoved symbols (
      Every-map (IsVerified sections) (λ symbol. All IsMoved symbol.references) symbols
        (λ symbol v. All-target symbol.references v.targets) h.object.verified)

  pub All-mono : (P Q : ℕ → Type 0) (xs : List ℕ) → ((x : ℕ) → P x → Q x) → All P xs → All Q xs
  All-mono P Q [] g k = tt
  All-mono P Q (x ∷ xs) g k = (g x k.0, All-mono P Q xs g k.1)

  pub addresses-lem : addresses patches ≡ map goes (table_references symbols)
  addresses-lem = addresses-table base entry.start entry.length symbols h.defined

  pub clear : IsClear (concatenate (moved before entry after)) patches
  clear =
      let M = concatenate (moved before entry after) in
      (
        subst AreApart (sym addresses-lem) (
            place-AreApart entry.start entry.length (table_references symbols)
              (All-mono IsMoved (IsZoned entry.start entry.length) (table_references symbols)
                (λ r m. m.zoned) references-lem)
              h.apart),
        subst (All (λ a. Zeros M a 4)) (sym addresses-lem) (
            All-map IsMoved (λ a. Zeros M a 4) goes (table_references symbols) (λ r m. m.zeros)
              references-lem),
      )

  pub valued : Every (λ symbol. IsValued base entry.start entry.length symbol.value) symbols
  valued = step symbols h.defined h.object.verified
    where
      step :
          (table : SymbolTable)
          → Every (λ symbol. IsDefined symbol.value) table
          → Every (IsVerified sections) table
          → Every (λ symbol. IsValued base entry.start entry.length symbol.value) table
      step [] d v = tt
      step ((name, symbol) ∷ table) d v = (known symbol.value d.0 v.0.within, step table d.1 v.1)
        where
          known :
              (value : Option ℕ)
              → IsDefined value
              → IsWithin (end_of 0 sections) value
              → IsValued base entry.start entry.length value
          known none d w = absurd d
          known (some v) d w = omega (arith, goes_within v w, h.fits)

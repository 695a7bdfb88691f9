-- ===== src/Silk/Link/Correct.antt =====
-- Linking makes the image that it should (linker.rs).
use simulatron.Common.{
  ℕ, ◌+◌, ◌^◌, ◌<◌, ◌≤◌, ◌≡◌, ◌⊎◌, refl, ap, ◌∙◌, sym, arith, Bool, false, List, [], ◌∷◌, ◌++◌,
  get_elem?, map, length, set, subst, All, split_at, get_elem?-lt, ◌==◌, set-append_right,
  length-map,
}
use simulatron.Silk.Result.{ok}
use simulatron.Silk.Object.{Zeros, IsVerified, Every}
use simulatron.Silk.Tables.{Every-map}
use simulatron.Silk.Data.{Section, SymbolTable, ObjectFile}
use simulatron.Silk.Data.Layout.{end_of}
use simulatron.Silk.Data.Shift.{shift, IsContiguous-left}
use simulatron.Silk.Parser.Rules.{Makes, Makes-bind, Makes-mono}
use simulatron.Silk.Link.{concatenate, offset_first, move_to_start, link_symbols, link_as_image}
use simulatron.Silk.Link.Moves.{move_to_start-rotates}
use simulatron.Silk.Link.Image.{place, length-concatenate}
use simulatron.Silk.Link.Layout.{
  moved, offset_first_lem, IsSpot, entry_start, end_of-moved, moved-IsContiguous, content,
}
use simulatron.Silk.Link.Patch.{
  Patch, apply_patches, addresses, apply_patches-Reads, get_elem?-apply_patches,
  length-apply_patches,
}
use simulatron.Silk.Link.Resolve.{IsLinking, table_patches, link_symbols-Makes}
use simulatron.Silk.Link.Zones.{place_outside}
use simulatron.Silk.Link.Linked.{table_references, IsLinkable, HoldsValue, IsImage}
use simulatron.Silk.Link.Tables.{words-lem}
use simulatron.Silk.Link.Ready

module _ (checks : Bool) (symbols : SymbolTable) (before : List Section) (entry : Section)
    (after : List Section) (read_only : Bool) (base : ℕ)
    (h : IsLinkable
      (record { symbols = symbols; sections = before ++ entry ∷ after })
      read_only
      base
      (length before)
      entry) where
  abbrev sections : List Section
  sections = before ++ entry ∷ after

  abbrev of : ObjectFile
  of = record { symbols = symbols; sections = sections }

  abbrev M : List Section
  M = moved before entry after

  abbrev patches : List Patch
  patches = table_patches base entry.start entry.length symbols

  abbrev image : List ℕ
  image = apply_patches (concatenate M) patches

  abbrev start_0 : Section
  start_0 = record entry { start = 0 }

  set_lem : set sections (length before) start_0 ≡ before ++ start_0 ∷ after
  set_lem = set-append_right before (entry ∷ after) (length before) 0 start_0 (omega arith)

  within_32 : entry.start + entry.length < 2 ^ 32
  within_32 = omega (arith, Ready.edges symbols before entry after read_only base h, h.object.small)

  offset_lem :
      offset_first checks (length before) entry.length (set sections (length before) start_0)
      ≡ ok (map (shift entry.length) before ++ start_0 ∷ after)
  offset_lem =
      ap (offset_first checks (length before) entry.length) set_lem
      ∙ offset_first_lem checks entry.length 0 before (start_0 ∷ after)
          (IsContiguous-left 0 before (entry ∷ after) h.object.layout)
          (omega (arith, within_32, entry_start before entry after h.object.layout))

  move_lem :
      move_to_start (map (shift entry.length) before ++ start_0 ∷ after) (length before) ≡ ok M
  move_lem =
      ap (λ (n : ℕ). move_to_start (map (shift entry.length) before ++ start_0 ∷ after) n)
        (sym (length-map (shift entry.length) before))
      ∙ move_to_start-rotates (map (shift entry.length) before) start_0 after

  linking : Makes (IsLinking M image) (link_symbols checks base entry.start entry.length M symbols)
  linking =
      let state : IsLinking M (concatenate M) M = record {
        layout = moved-IsContiguous before entry after h.object.layout;
        small = omega (arith, end_of-moved before entry after h.object.layout, h.object.small);
        flat = refl;
        spots = λ r spot. spot;
      } in
      link_symbols-Makes checks entry.start entry.length within_32 M base (concatenate M) M symbols
        state (Ready.valued symbols before entry after read_only base h)
        (Every-map (IsVerified sections)
          (λ symbol. All (λ r. IsSpot M (place entry.start entry.length r)) symbol.references)
          symbols
          (λ symbol v.
            Ready.All-spots symbols before entry after read_only base h symbol.references (
              Ready.All-target symbols before entry after read_only base h symbol.references
                v.targets))
          h.object.verified)
        (Ready.clear symbols before entry after read_only base h)

  whole : length image ≡ end_of 0 sections
  whole =
      length-apply_patches (concatenate M) patches
      ∙ omega (
        arith,
        length-concatenate 0 M (moved-IsContiguous before entry after h.object.layout),
        end_of-moved before entry after h.object.layout,
      )

  image_lem : Makes (λ result. result ≡ image) (link_as_image checks of read_only base)
  unfolding link_as_image
  image_lem =
      rw (h.entrypoint, h.found, offset_lem, move_lem)
        (Makes-bind (IsLinking M image) (λ result. result ≡ image) _ _ linking
          (λ linked l.
            let some_bytes : (length (concatenate linked) == 0) ≡ false =
              rw (l.flat) (ground (arith, whole, h.filled)) in
            rw some_bytes l.flat))

  others :
      (i : ℕ)
      → All (λ r. (i < r) ⊎ (r + 4 ≤ i)) (table_references symbols)
      → get_elem? image (place entry.start entry.length i) ≡ get_elem? (concatenate sections) i
  others i away =
      let goes = place entry.start entry.length in
      get_elem?-apply_patches (concatenate M) patches (goes i) (
        subst (All (λ a. (goes i < a) ⊎ (a + 4 ≤ goes i)))
          (sym (Ready.addresses-lem symbols before entry after read_only base h))
          (step (table_references symbols) away
            (Ready.references-lem symbols before entry after read_only base h)))
      ∙ content before entry after h.object.layout i
    where
      step :
          (references : List ℕ)
          → All (λ r. (i < r) ⊎ (r + 4 ≤ i)) references
          → All (Ready.IsMoved symbols before entry after read_only base h) references
          → All
              (λ a.
                (place entry.start entry.length i < a) ⊎ (a + 4 ≤ place entry.start entry.length i))
              (map (place entry.start entry.length) references)
      step [] k m = tt
      step (r ∷ references) k m =
          (place_outside entry.start entry.length i r m.0.zoned k.0, step references k.1 m.1)

  words : Every (λ symbol. HoldsValue base entry image symbol.value symbol.references) symbols
  words = words-lem base entry image symbols h.defined (
      apply_patches-Reads (concatenate M) patches
        (Ready.clear symbols before entry after read_only base h).0
        (Ready.All-mono symbols before entry after read_only base h (λ a. Zeros (concatenate M) a 4)
          (λ a. a + 4 ≤ length (concatenate M)) (addresses patches)
          (λ a z. omega (arith, get_elem?-lt (concatenate M) (a + 1 + 1 + 1) 0 (z.1.1.1.0)))
          (Ready.clear symbols before entry after read_only base h).1))

  image-IsImage : IsImage of base entry image
  image-IsImage = record { whole = whole; words = words; others = others }

  linked : Makes (IsImage of base entry) (link_as_image checks of read_only base)
  linked =
      Makes-mono (λ result. result ≡ image) (IsImage of base entry) _
        (λ result e. subst (IsImage of base entry) (sym e) image-IsImage) image_lem

-- Linking a well-formed object file succeeds, with or without overflow checks, where its entrypoint is
-- found, every symbol is defined, no two references share a byte and the addresses fit into 32 bits.
-- The image has as many bytes as the sections. Once the entrypoint has moved to the start, each
-- reference holds its symbol's address, in big-endian order and from the base address on, and every
-- other byte is as it was in the sections.
pub link_as_image-IsImage :
    (checks : Bool) (of : ObjectFile) (read_only : Bool) (base index : ℕ) (entry : Section)
    → IsLinkable of read_only base index entry
    → Makes (IsImage of base entry) (link_as_image checks of read_only base)
link_as_image-IsImage checks of read_only base index entry h =
    let (before, after, same, here) = split_at of.sections index entry h.found in
    let goal : List Section → ℕ → Type 0 = λ sections i.
      IsLinkable (record { symbols = of.symbols; sections = sections }) read_only base i entry
      → Makes (IsImage (record { symbols = of.symbols; sections = sections }) base entry) (
          link_as_image checks (record { symbols = of.symbols; sections = sections }) read_only
            base) in
    subst (λ sections. goal sections index) (sym same)
      (subst (λ (i : ℕ). goal (before ++ entry ∷ after) i) here
        (linked checks of.symbols before entry after read_only base))
      h

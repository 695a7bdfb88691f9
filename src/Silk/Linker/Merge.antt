-- ===== src/Silk/Linker/Merge.antt =====
-- Merging object files keeps them well-formed (linker.rs).
use simulatron.Common.{
  ℕ, ◌+◌, ◌-◌, ◌^◌, ◌<◌, ◌≡◌, refl, ◌∙◌, ap, arith, Bool, true, Option, none, some, List, [], ◌∷◌,
  ◌++◌, All, subst, ltb, map, length, get_elem?-map, get_elem?-lt, get_elem?-append_left,
  get_elem?-append_right,
}
use simulatron.Silk.Result.{ok, plus_u32}
use simulatron.Silk.Data.{Section, SymbolTableEntry, SymbolTable, ObjectFile}
use simulatron.Silk.Data.Layout.{IsContiguous, end_of, le-end_of, IsPlaced-get_elem?}
use simulatron.Silk.Data.Shift.{
  shift, end_of-append, append-IsContiguous, shift-IsContiguous, end_of-shift,
}
use simulatron.Silk.Parser.Rules.{Gives, Gives-bind}
use simulatron.Silk.Verify.Sound.{file_length-end_of}
use simulatron.Silk.Object.{Zeros, IsTyped, IsWithin, IsTarget, IsVerified, Every}
use simulatron.Silk.Tables.{Every-map}
use simulatron.Silk.Parse.Sound.{IsParsed}
use simulatron.Silk.Linker.{
  offset_sections, offset_references, offset_value, offset_entry, add_symbols, add_objects,
  add_symbol,
}
use simulatron.Silk.Linker.Tables.{IsTableOf}
use simulatron.Silk.Linker.Resolve.{add_symbol-Gives}
use simulatron.Silk.Link.Zones.{target-IsSpot}

pub offset_sections_lem :
    (checks : Bool) (offset a : ℕ) (sections : List Section)
    → IsContiguous a sections
    → end_of a sections + offset < 2 ^ 32
    → offset_sections checks offset sections ≡ ok (map (shift offset) sections)
unfolding offset_sections plus_u32
offset_sections_lem checks offset a [] h small = refl
offset_sections_lem checks offset a (s ∷ sections) h small =
    let fits : ltb (s.start + offset) (2 ^ 32) ≡ true =
      ground (arith, h.0, le-end_of (a + s.length) sections) in
    rw (fits, offset_sections_lem checks offset (a + s.length) sections h.2 small) refl

module _ (checks : Bool) (old new : List Section) (layout : IsContiguous 0 old)
    (layout' : IsContiguous 0 new) (small : end_of 0 old + end_of 0 new < 2 ^ 32) where
  abbrev offset : ℕ
  offset = end_of 0 old

  abbrev all : List Section
  all = old ++ map (shift offset) new

  all_end : end_of 0 all ≡ end_of 0 new + offset
  all_end =
      let start : offset ≡ 0 + offset = omega arith in
      end_of-append 0 old (map (shift offset) new)
      ∙ ap (λ (a : ℕ). end_of a (map (shift offset) new)) start
      ∙ end_of-shift offset 0 new

  all-IsContiguous : IsContiguous 0 all
  all-IsContiguous =
      let start : 0 + offset ≡ offset = omega arith in
      append-IsContiguous 0 old (map (shift offset) new) layout (
        subst (λ (a : ℕ). IsContiguous a (map (shift offset) new)) start
          (shift-IsContiguous offset 0 new layout'))

  old-IsTarget : (r : ℕ) → IsTarget old r → IsTarget all r
  old-IsTarget r t = record {
    index = t.index;
    section = t.section;
    found =
        get_elem?-append_left old (map (shift offset) new) t.index
          (get_elem?-lt old t.index t.section t.found)
        ∙ t.found;
    from = t.from;
    zeros = t.zeros;
  }

  new-IsTarget : (r : ℕ) → IsTarget new r → IsTarget all (r + offset)
  new-IsTarget r t =
      let same : r - t.section.start ≡ r + offset - (t.section.start + offset) = omega arith in
      record {
        index = length old + t.index;
        section = shift offset t.section;
        found =
            get_elem?-append_right old (map (shift offset) new) (length old + t.index) t.index refl
            ∙ get_elem?-map (shift offset) new t.index t.section t.found;
        from = omega (arith, t.from);
        zeros = subst (λ (k : ℕ). Zeros t.section.bytes k 4) same t.zeros;
      }

  target_bound : (r : ℕ) → IsTarget new r → r < end_of 0 new
  target_bound r t =
      let spot = target-IsSpot new r layout' t in
      omega (
        arith,
        spot.upto,
        (IsPlaced-get_elem? 0 new spot.index spot.section layout' spot.found).before,
      )

  All-old : (references : List ℕ) → All (IsTarget old) references → All (IsTarget all) references
  All-old [] h = tt
  All-old (r ∷ references) h = (old-IsTarget r h.0, All-old references h.1)

  old-IsWithin : (value : Option ℕ) → IsWithin (end_of 0 old) value → IsWithin (end_of 0 all) value
  old-IsWithin none h = tt
  old-IsWithin (some v) h = omega (arith, all_end, h)

  old-IsVerified : (entry : SymbolTableEntry) → IsVerified old entry → IsVerified all entry
  old-IsVerified entry v = record {
    typed = v.typed;
    within = old-IsWithin entry.value v.within;
    targets = All-old entry.references v.targets;
  }

  -- A moved value has its type, and lies before the end.
  offset_value-Gives :
      (t : ℕ) (value : Option ℕ)
      → IsTyped t value
      → IsWithin (end_of 0 new) value
      → Gives
          (λ value'. IsTyped t value' × IsWithin (end_of 0 all) value')
          (offset_value checks offset value)
  unfolding offset_value plus_u32
  offset_value-Gives t none typed h = (typed, tt)
  offset_value-Gives t (some v) typed h =
      let fits : ltb (v + offset) (2 ^ 32) ≡ true = ground (arith, h) in
      rw fits (typed, omega (arith, all_end, h))

  offset_references-Gives :
      (references : List ℕ)
      → All (IsTarget new) references
      → Gives
          (λ references'. All (IsTarget all) references')
          (offset_references checks offset references)
  unfolding offset_references plus_u32
  offset_references-Gives [] h = tt
  offset_references-Gives (r ∷ references) h =
      let fits : ltb (r + offset) (2 ^ 32) ≡ true = ground (arith, target_bound r h.0) in
      rw fits (
        Gives-bind (λ rest. All (IsTarget all) rest) (λ rest. All (IsTarget all) rest)
          (offset_references checks offset references) _ (offset_references-Gives references h.1)
          (λ rest k. (new-IsTarget r h.0, k)))

  offset_entry-Gives :
      (entry : SymbolTableEntry)
      → IsVerified new entry
      → Gives (IsVerified all) (offset_entry checks offset entry)
  unfolding offset_entry
  offset_entry-Gives entry v =
      Gives-bind (λ value'. IsTyped entry.symbol_type value' × IsWithin (end_of 0 all) value')
        (IsVerified all) (offset_value checks offset entry.value) _
        (offset_value-Gives entry.symbol_type entry.value v.typed v.within)
        (λ value' h.
          Gives-bind (λ rest. All (IsTarget all) rest) (IsVerified all)
            (offset_references checks offset entry.references) _
            (offset_references-Gives entry.references v.targets)
            (λ references' k. record { typed = h.0; within = h.1; targets = k }))

  add_symbols-Gives :
      (table symbols : SymbolTable)
      → IsTableOf (IsVerified all) table
      → Every (IsVerified new) symbols
      → Gives (IsTableOf (IsVerified all)) (add_symbols checks offset table symbols)
  unfolding add_symbols
  add_symbols-Gives table [] h v = h
  add_symbols-Gives table ((name, entry) ∷ symbols) h v =
      Gives-bind (IsVerified all) (IsTableOf (IsVerified all)) (offset_entry checks offset entry) _
        (offset_entry-Gives entry v.0)
        (λ entry' w.
          Gives-bind (IsTableOf (IsVerified all)) (IsTableOf (IsVerified all))
            (add_symbol table name entry') _ (add_symbol-Gives all table name entry' h w)
            (λ table' h'. add_symbols-Gives table' symbols h' v.1))

-- Adding a well-formed object file to another, where they are no longer than `n` and `m` bytes and
-- together shorter than 2 ^ 32 bytes, gives, if it gives an object file, a well-formed one of at most
-- `n + m` bytes: its sections follow one another, no name occurs twice after renaming, symbols that are
-- resolved have a type and a value that fit, and values and references still lie within the sections,
-- the references at zero bytes.
pub add_objects-IsParsed :
    (checks : Bool) (n m : ℕ) (old new : ObjectFile)
    → IsParsed n old
    → IsParsed m new
    → n + m < 2 ^ 32
    → Gives (IsParsed (n + m)) (add_objects checks old new)
unfolding add_objects
add_objects-IsParsed checks n m old new (h, fits) (k, fits') below =
    let o = end_of 0 old.sections in
    let small : o + end_of 0 new.sections < 2 ^ 32 = omega arith in
    rw
      (
        file_length-end_of checks old.sections h.layout h.small,
        offset_sections_lem checks o 0 new.sections k.layout (omega arith),
      )
      (Gives-bind
        (IsTableOf (IsVerified (all checks old.sections new.sections h.layout k.layout small)))
        (IsParsed (n + m)) (add_symbols checks o old.symbols new.symbols) _
        (add_symbols-Gives checks old.sections new.sections h.layout k.layout small old.symbols
          new.symbols
          (
            h.distinct,
            Every-map (IsVerified old.sections) _ old.symbols
                (old-IsVerified checks old.sections new.sections h.layout k.layout small)
                h.verified,
          )
          k.verified)
        (λ symbols t. (
          record {
            layout = all-IsContiguous checks old.sections new.sections h.layout k.layout small;
            small = omega (arith, all_end checks old.sections new.sections h.layout k.layout small);
            verified = t.1;
            distinct = t.0;
          },
          omega (arith, all_end checks old.sections new.sections h.layout k.layout small),
        )))

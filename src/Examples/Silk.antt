-- ===== src/Examples/Silk.antt =====
-- The theorems on object files at concrete ones.
use simulatron.Common.{ℕ, ◌≡◌, inr, refl, arith, true, false, some, none, List, [], ◌∷◌}
use simulatron.Silk.Data
use simulatron.Silk.Names
use simulatron.Silk.Parser
use simulatron.Silk.Parse
use simulatron.Silk.Verify
use simulatron.Silk.Linker
use simulatron.Silk.Combine
use simulatron.Silk.Names.{Name, same_name, gen_non_conflicting_name}
use simulatron.Silk.Names.Fresh.{IsFresh, gen_non_conflicting_name-IsFresh}
use simulatron.Silk.Result.{ok, plus_u32, minus_u32}
use simulatron.Silk.Data.{Section, SymbolTableEntry, ObjectFile, find, search_loop}
use simulatron.Silk.Data.Find.{IsFound, find-IsFound}
use simulatron.Silk.Object.{IsObject}
use simulatron.Silk.Parser.{from_be_bytes, contains_key}
use simulatron.Silk.Parser.Rules.{Gives, Makes}
use simulatron.Silk.Parse.{parse}
use simulatron.Silk.Parse.Sound.{IsParsed, parse-IsParsed}
use simulatron.Silk.Linker.{get, add_symbol, add_objects}
use simulatron.Silk.Linker.Clash.{Resolves, add_symbol-Resolves}
use simulatron.Silk.Linker.Disjoint.{IsNewTo, add_objects-disjoint}
use simulatron.Silk.Linker.Merge.{add_objects-IsParsed}
use simulatron.Silk.Combine.{parse_and_combine, parse_and_combine-IsParsed}
use simulatron.Silk.Link.{
  offset_first, link_symbols, link_symbol, relocate, resolve_references, resolve_reference,
  expect_section, find_entrypoint, move_to_start, link_as_image, link_as_rom, link_as_disk,
}
use simulatron.Silk.Link.Moves.{move_to_start-rotates}
use simulatron.Silk.Link.Sizes.{RomSays, DiskSays, link_as_rom-RomSays, link_as_disk-DiskSays}
use simulatron.Silk.Link.Linked.{IsLinkable, IsImage}
use simulatron.Silk.Link.Correct.{link_as_image-IsImage}

abbrev numbers : Section
numbers = record { flags = 0x04; start = 0; length = 4; bytes = 1 ∷ 2 ∷ 3 ∷ 4 ∷ [] }

abbrev code : Section
code = record { flags = 0x15; start = 4; length = 6; bytes = 9 ∷ 0 ∷ 0 ∷ 0 ∷ 0 ∷ 8 ∷ [] }

-- the name `a`
abbrev a_name : Name
a_name = 97 ∷ []

abbrev a_public : SymbolTableEntry
a_public = record { symbol_type = b'P'; value = some 0; references = 5 ∷ [] }

abbrev a_external : SymbolTableEntry
a_external = record { symbol_type = b'E'; value = none; references = 0 ∷ [] }

-- The code refers to the numbers, which the linker moves behind it.
abbrev program : ObjectFile
program = record { symbols = (a_name, a_public) ∷ []; sections = numbers ∷ code ∷ [] }

abbrev user : ObjectFile
user = record {
  symbols = (a_name, a_external) ∷ [];
  sections = record { flags = 0x04; start = 0; length = 4; bytes = 0 ∷ 0 ∷ 0 ∷ 0 ∷ [] } ∷ [];
}

program-IsObject : IsObject program
unfolding contains_key
program-IsObject = record {
  layout = (refl, refl, (refl, refl, tt));
  small = omega arith;
  verified = (
    record {
      typed = inr refl;
      within = omega arith;
      targets = (
        record {
          index = 1;
          section = code;
          found = refl;
          from = omega arith;
          zeros = (refl, (refl, (refl, (refl, tt))));
        },
        tt,
      );
    },
    tt,
  );
  distinct = (refl, tt);
}

user-IsObject : IsObject user
unfolding contains_key
user-IsObject = record {
  layout = (refl, refl, tt);
  small = omega arith;
  verified = (
    record {
      typed = refl;
      within = tt;
      targets = (
        record {
          index = 0;
          section = record { flags = 0x04; start = 0; length = 4; bytes = 0 ∷ 0 ∷ 0 ∷ 0 ∷ [] };
          found = refl;
          from = omega arith;
          zeros = (refl, (refl, (refl, (refl, tt))));
        },
        tt,
      );
    },
    tt,
  );
  distinct = (refl, tt);
}

program-IsLinkable : IsLinkable program true 0x40 1 code
unfolding find_entrypoint
program-IsLinkable = record {
  object = program-IsObject;
  entrypoint = refl;
  found = refl;
  defined = (tt, tt);
  apart = (tt, tt);
  fits = omega arith;
  filled = omega arith;
}

linked_program :
    link_as_image true program true 0x40 ≡ ok (9 ∷ 0 ∷ 0 ∷ 0 ∷ 0x46 ∷ 8 ∷ 1 ∷ 2 ∷ 3 ∷ 4 ∷ [])
unfolding link_as_image offset_first plus_u32 move_to_start link_symbols link_symbol relocate
    resolve_references resolve_reference expect_section find search_loop minus_u32
linked_program = refl

link_as_image-IsImage_example :
    Makes (IsImage program 0x40 code) (link_as_image true program true 0x40)
link_as_image-IsImage_example =
    link_as_image-IsImage true program true 0x40 1 code program-IsLinkable

link_as_rom-RomSays_example :
    RomSays (link_as_image true program true 0x40) (link_as_rom true program)
link_as_rom-RomSays_example = link_as_rom-RomSays true program

link_as_disk-DiskSays_example :
    DiskSays (link_as_image true program false 0x4000) (link_as_disk true program)
link_as_disk-DiskSays_example = link_as_disk-DiskSays true program

move_to_start-rotates_example :
    move_to_start {A = ℕ} (10 ∷ 20 ∷ 30 ∷ 40 ∷ []) 2 ≡ ok (30 ∷ 10 ∷ 20 ∷ 40 ∷ [])
move_to_start-rotates_example = move_to_start-rotates (10 ∷ 20 ∷ []) 30 (40 ∷ [])

add_objects-IsParsed_example : Gives (IsParsed 14) (add_objects true program user)
add_objects-IsParsed_example =
    add_objects-IsParsed true 10 4 program user (program-IsObject, omega arith)
      (user-IsObject, omega arith) (omega arith)

a_table : get ((a_name, a_public) ∷ []) a_name ≡ some a_public
unfolding get
a_table = refl

add_symbol-Resolves_example :
    Resolves
      ((a_name, a_public) ∷ [])
      a_name
      a_public
      a_external
      (add_symbol ((a_name, a_public) ∷ []) a_name a_external)
add_symbol-Resolves_example =
    add_symbol-Resolves ((a_name, a_public) ∷ []) a_name a_public a_external a_table (inr refl) refl
      (λ same. omega arith) (λ same. omega arith)

find-IsFound_example : IsFound (numbers ∷ code ∷ []) 5 (find false (numbers ∷ code ∷ []) 5)
find-IsFound_example =
    find-IsFound false 0 (numbers ∷ code ∷ []) 5 (refl, refl, (refl, refl, tt)) (omega arith)

gen_non_conflicting_name-IsFresh_example :
    IsFresh
      (λ name. same_name name (97 ∷ 48 ∷ []))
      (97 ∷ [])
      (gen_non_conflicting_name (λ name. same_name name (97 ∷ 48 ∷ [])) (97 ∷ []))
gen_non_conflicting_name-IsFresh_example =
    gen_non_conflicting_name-IsFresh (λ name. same_name name (97 ∷ 48 ∷ [])) (97 ∷ [])

-- an object file of one symbol and one section: `SIMOBJ`, version 1, the counts, the symbol `a` with one
-- reference, the section's header and its bytes
abbrev object_bytes : List ℕ
object_bytes =
    83 ∷ 73 ∷ 77 ∷ 79 ∷ 66 ∷ 74 ∷ 0 ∷ 1 ∷ 0 ∷ 0 ∷ 0 ∷ 1 ∷ 0 ∷ 0 ∷ 0 ∷ 1 ∷ 69 ∷ 0 ∷ 0 ∷ 0 ∷ 0 ∷ 1
    ∷ 97 ∷ 0 ∷ 0 ∷ 0 ∷ 1 ∷ 0 ∷ 0 ∷ 0 ∷ 36 ∷ 4 ∷ 0 ∷ 0 ∷ 0 ∷ 4 ∷ 0 ∷ 0 ∷ 0 ∷ 0 ∷ []

parse-IsParsed_example : Gives (IsParsed 40) (parse true object_bytes)
parse-IsParsed_example = parse-IsParsed true object_bytes (omega arith)

-- one that defines `a`, as the start of its own section
abbrev defining_bytes : List ℕ
defining_bytes =
    83 ∷ 73 ∷ 77 ∷ 79 ∷ 66 ∷ 74 ∷ 0 ∷ 1 ∷ 0 ∷ 0 ∷ 0 ∷ 1 ∷ 0 ∷ 0 ∷ 0 ∷ 1 ∷ 80 ∷ 0 ∷ 0 ∷ 0 ∷ 32 ∷ 1
    ∷ 97 ∷ 0 ∷ 0 ∷ 0 ∷ 0 ∷ 4 ∷ 0 ∷ 0 ∷ 0 ∷ 4 ∷ 1 ∷ 2 ∷ 3 ∷ 4 ∷ []

-- The second object file resolves the symbol of the first.
combined :
    parse_and_combine true (object_bytes ∷ defining_bytes ∷ [])
    ≡ ok (record {
      symbols = (a_name, record { symbol_type = b'P'; value = some 4; references = 0 ∷ [] }) ∷ [];
      sections =
          record { flags = 0x04; start = 0; length = 4; bytes = 0 ∷ 0 ∷ 0 ∷ 0 ∷ [] }
          ∷ record { flags = 0x04; start = 4; length = 4; bytes = 1 ∷ 2 ∷ 3 ∷ 4 ∷ [] }
          ∷ [];
    })
unfolding parse_and_combine parse Parse.run Parser.◌>>=◌ Parser.read_buffer plus_u32 Parser.◌>>◌
    Parser.assert_or_error Parser.read_int Parser.pure Parser.parse_symbol_table Parser.parse_symbol
    Data.symbol_type_name Names.validate_symbol_name contains_key Parser.parse_references
    Parser.parse_section_headers Parser.bytes_so_far Combine.combine_into Data.compare_address find
    search_loop add_objects add_symbol Linker.add_symbols get Linker.insert_new Linker.offset_entry
    Linker.offset_references Linker.offset_sections Linker.offset_value Linker.put Linker.remove
    Linker.resolve Names.all_name_bytes Names.decimal Names.first_free gen_non_conflicting_name
    Names.utf8_from Names.utf8_lead from_be_bytes Parser.lift Parser.parse_sections
    Parser.take_exact minus_u32 Verify.check_zeros Verify.file_length Verify.last_section
    Verify.relocate_and_verify_symbol Verify.relocate_and_verify_symbols Verify.relocate_reference
    Verify.relocate_references Verify.relocate_value Verify.target_section Verify.try_sub
combined = refl

parse_and_combine-IsParsed_example :
    Gives (IsParsed 76) (parse_and_combine true (object_bytes ∷ defining_bytes ∷ []))
parse_and_combine-IsParsed_example =
    parse_and_combine-IsParsed true (object_bytes ∷ defining_bytes ∷ []) (omega arith)

-- the same under the name `b`
abbrev other_user : ObjectFile
other_user = record user { symbols = (98 ∷ [], a_external) ∷ [] }

other_user-IsObject : IsObject other_user
unfolding contains_key
other_user-IsObject = record {
  layout = user-IsObject.layout;
  small = user-IsObject.small;
  verified = user-IsObject.verified;
  distinct = (refl, tt);
}

other_user-IsNewTo : IsNewTo program.symbols other_user.symbols
unfolding contains_key
other_user-IsNewTo = (refl, tt)

add_objects-disjoint_example :
    add_objects true program other_user
    ≡ ok (record {
      symbols =
          (a_name, a_public)
          ∷ (98 ∷ [], record { symbol_type = b'E'; value = none; references = 10 ∷ [] })
          ∷ [];
      sections =
          numbers
          ∷ code
          ∷ record { flags = 0x04; start = 10; length = 4; bytes = 0 ∷ 0 ∷ 0 ∷ 0 ∷ [] }
          ∷ [];
    })
add_objects-disjoint_example =
    add_objects-disjoint true program other_user program-IsObject other_user-IsObject (omega arith)
      other_user-IsNewTo

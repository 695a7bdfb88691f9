-- ===== src/Silk/Parse.antt =====
-- The parser's run, Crates/simulatron-silk/src/lib/parser.rs.
pub mod Sound
use simulatron.Common.{ℕ, Bool, List, ◌==◌, []}
use simulatron.Silk.Result
use simulatron.Silk.Result.{invalid_magic_header, unsupported_abi_version}
use simulatron.Silk.Names.{same_name}
use simulatron.Silk.Data.{ObjectFile}
use simulatron.Silk.Parser.{
  magic_header, abi_version, Parser, Parse, pure, lift, assert_or_error, read_buffer, read_int,
  bytes_so_far, parse_symbol_table, parse_section_headers, parse_sections, ◌>>=◌, ◌>>◌,
}
use simulatron.Silk.Verify.{relocate_and_verify_symbols}

module _ (checks : Bool) where
  unfoldable pub run : Parse ObjectFile
  run = do
    magic ← read_buffer checks 6
    assert_or_error (same_name magic magic_header) invalid_magic_header
    version ← read_int checks 2
    assert_or_error (version == abi_version) unsupported_abi_version
    num_symbol_table_entries ← read_int checks 4
    num_section_headers ← read_int checks 4
    symbols ← parse_symbol_table checks num_symbol_table_entries []
    section_headers ← parse_section_headers checks num_section_headers
    sections_start ← bytes_so_far
    sections ← parse_sections checks section_headers sections_start
    symbols' ← lift (relocate_and_verify_symbols checks sections_start sections symbols)
    pure (record { symbols = symbols'; sections = sections })

  -- `Parser::parse`, of the bytes of a stream
  unfoldable pub parse : List ℕ → Result.Result ObjectFile
  parse source =
      Result.◌>>=◌ (run (record { source = source; bytes_read = 0 }))
        (λ (object, _). Result.ok object)

-- ===== src/Silk/Names.antt =====
-- Symbol names as bytes: their validity (parser.rs) and fresh ones (linker.rs).
pub mod Fresh
use simulatron.Common.{
  ℕ, zero, suc, ◌+◌, ◌/◌, ◌%◌, ◌^◌, Bool, true, false, ◌&&◌, ◌||◌, Option, none, some, List, [],
  ◌∷◌, ◌++◌, ltb, leb, ◌==◌, if◌then◌else◌,
}
use simulatron.Silk.Result.{
  Result, ok, err, invalid_symbol_name, unprintable_symbol_name, rename_failed,
}

abbrev pub Name : Type 0
Name = List ℕ

abbrev pub same_name : Name → Name → Bool
same_name [] [] = true
same_name (a ∷ s) (b ∷ t) = a == b && same_name s t
same_name _ _ = false

-- What may follow the first byte of a character in UTF-8: the number of further bytes, and the
-- bounds of the next.
unfoldable pub utf8_lead : ℕ → Option (ℕ × ℕ × ℕ)
utf8_lead b =
    if ltb b 0x80
    then some (0, 0, 0)
    else if ltb b 0xC2
    then none
    else if ltb b 0xE0
    then some (1, 0x80, 0xBF)
    else if b == 0xE0
    then some (2, 0xA0, 0xBF)
    else if b == 0xED
    then some (2, 0x80, 0x9F)
    else if ltb b 0xF0
    then some (2, 0x80, 0xBF)
    else if b == 0xF0
    then some (3, 0x90, 0xBF)
    else if ltb b 0xF4
    then some (3, 0x80, 0xBF)
    else if b == 0xF4
    then some (3, 0x80, 0x8F)
    else none

-- Does `String::from_utf8` succeed? `pending` bytes are due, the next between `lo` and `hi`.
unfoldable pub utf8_from : ℕ → ℕ → ℕ → List ℕ → Bool
unfolding utf8_lead
utf8_from zero lo hi [] = true
utf8_from (suc pending) lo hi [] = false
utf8_from zero lo hi (b ∷ bytes) = elim (utf8_lead b) [
  | none ↦ false
  | some (pending, lo', hi') ↦ utf8_from pending lo' hi' bytes
]
utf8_from (suc pending) lo hi (b ∷ bytes) =
    leb lo b && leb b hi && utf8_from pending 0x80 0xBF bytes

-- letters, digits and the underscore
abbrev pub is_name_byte : ℕ → Bool
is_name_byte b =
    (leb 48 b && leb b 57) || (leb 65 b && leb b 90) || (b == 95) || (leb 97 b && leb b 122)

unfoldable pub all_name_bytes : Name → Bool
all_name_bytes [] = true
all_name_bytes (b ∷ name) = is_name_byte b && all_name_bytes name

-- The assertion that a name is shorter than 256 bytes holds by the type of its length.
unfoldable pub validate_symbol_name : Name → Result Name
unfolding all_name_bytes utf8_from
validate_symbol_name name =
    if all_name_bytes name
    then ok name
    else if utf8_from 0 0 0 name
    then err (invalid_symbol_name name)
    else err unprintable_symbol_name

-- `format!("{}", n)` for a number of at most `fuel` digits
unfoldable pub decimal : ℕ → ℕ → List ℕ
decimal zero n = []
decimal (suc fuel) n =
    let upper = decimal fuel (n / 10) in
    if ltb n 10 then (48 + n) ∷ [] else upper ++ (48 + n % 10) ∷ []

-- The names `base0`, `base1` and so on, from `suffix`, for the given number of rounds. A `u32` has
-- at most ten digits.
unfoldable pub first_free : (Name → Bool) → Name → ℕ → ℕ → Option Name
unfolding decimal
first_free taken base zero suffix = none
first_free taken base (suc rounds) suffix =
    let candidate = base ++ decimal 10 suffix in
    let later = first_free taken base rounds (suffix + 1) in
    if taken candidate then later else some candidate

-- `taken` is `map.contains_key`.
unfoldable pub gen_non_conflicting_name : (Name → Bool) → Name → Result Name
gen_non_conflicting_name taken base = elim (first_free taken base (2 ^ 32) 0) [
  | none ↦ err (rename_failed base)
  | some name ↦ ok name
]

-- ===== src/Ram/Lazy.antt =====
-- Crates/simulatron-vm/src/lib/ram/ram_lazy.rs. The hash map is an association list; the order of
-- its entries is never read.
use simulatron.Common.{
  ℕ, ◌/◌, ◌^◌, ◌-◌, bit_and, Option, none, some, List, [], ◌∷◌, ◌==◌, if◌then◌else◌, get_elem?, set,
  replicate,
}

abbrev pub page_shift : ℕ
page_shift = 12

abbrev pub page_size : ℕ
page_size = 2 ^ page_shift

abbrev pub page_mask : ℕ
page_mask = page_size - 1

pub record Ram : Type 0 where
  pub pages : List (ℕ × List ℕ)

unfoldable pub new : Ram
new = record { pages = [] }

unfoldable pub find_page : ℕ → List (ℕ × List ℕ) → Option (List ℕ)
find_page n [] = none
find_page n ((m, page) ∷ rest) = if m == n then some page else find_page n rest

-- the entry of page `n` is replaced, or made
unfoldable pub put_page : ℕ → List ℕ → List (ℕ × List ℕ) → List (ℕ × List ℕ)
put_page n page [] = (n, page) ∷ []
put_page n page ((m, old) ∷ rest) =
    if m == n then (n, page) ∷ rest else (m, old) ∷ put_page n page rest

-- `page[index & PAGE_MASK]` panics out of bounds; a missing page reads as zero.
unfoldable pub get : Ram → ℕ → Option ℕ
unfolding find_page
get ram i = elim (find_page (i / 2 ^ page_shift) ram.pages) [
  | none ↦ some 0
  | some page ↦ get_elem? page (bit_and i page_mask)
]

-- `entry(..).or_insert_with(|| vec![0; PAGE_SIZE])`
unfoldable pub page_or_zeros : ℕ → List (ℕ × List ℕ) → List ℕ
unfolding find_page
page_or_zeros n pages = elim (find_page n pages) [ none ↦ replicate page_size 0 | some page ↦ page ]

-- `*get_mut(i) = v`
unfoldable pub store : Ram → ℕ → ℕ → Option Ram
unfolding page_or_zeros put_page
store ram i v =
    let n = i / 2 ^ page_shift in
    let page = page_or_zeros n ram.pages in
    elim (get_elem? page (bit_and i page_mask)) [
      | none ↦ none
      | some _ ↦ some (record { pages = put_page n (set page (bit_and i page_mask) v) ram.pages })
    ]

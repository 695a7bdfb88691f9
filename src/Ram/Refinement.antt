-- ===== src/Ram/Refinement.antt =====
-- The lazy RAM behaves as the eager one.
use simulatron.Common.{
  ℕ, ◌/◌, length-replicate, get_elem?-replicate, ◌<◌, ◌≡◌, refl, ap, Option, none, some, List, [],
  ◌∷◌, arith, ◌==◌, if◌then◌else◌, get_elem?, set, length, All, bit_and, length-set,
  get_elem?-set_self, get_elem?-set_ne, get_elem?-some, ◌∙◌,
}
use simulatron.Common.Bits.{and_low}
use simulatron.Ram.Eager.{ram_size}
use simulatron.Ram.Eager
use simulatron.Ram.Lazy
use simulatron.Ram.Lazy.{page_size, page_mask, find_page, put_page, page_or_zeros}

abbrev pub IsPage : ℕ × List ℕ → Type 0
IsPage p = length p.1 ≡ page_size

-- Every page is whole, and both memories hold the same byte at each index.
pub record Agrees (lazy : Lazy.Ram) (eager : Eager.Ram) : Type 0 where
  pub whole : All IsPage lazy.pages
  pub same : (i : ℕ) → Lazy.get lazy i ≡ some (eager.cell i)

find_page-IsPage :
    (n : ℕ) (pages : List (ℕ × List ℕ)) (page : List ℕ)
    → All IsPage pages
    → find_page n pages ≡ some page
    → length page ≡ page_size
unfolding find_page
find_page-IsPage n [] page h e = cc
find_page-IsPage n ((m, p) ∷ rest) page h e = ground (arith, find_page-IsPage n rest page h.1)

put_page-IsPage :
    (n : ℕ) (page : List ℕ) (pages : List (ℕ × List ℕ))
    → length page ≡ page_size
    → All IsPage pages
    → All IsPage (put_page n page pages)
unfolding put_page
put_page-IsPage n page [] e h = (e, tt)
put_page-IsPage n page ((m, p) ∷ rest) e h = ground (arith, put_page-IsPage n page rest e h.1)

find_page-put_page :
    (n k : ℕ) (page : List ℕ) (pages : List (ℕ × List ℕ))
    → find_page k (put_page n page pages) ≡ (if n == k then some page else find_page k pages)
unfolding find_page put_page
find_page-put_page n k page [] = refl
find_page-put_page n k page ((m, p) ∷ rest) = ground (arith, find_page-put_page n k page rest)

in_page : (i : ℕ) → bit_and i page_mask < page_size
in_page i = omega (arith, and_low 12 i)

-- A byte is read from the page that a store would write to.
get-page_or_zeros :
    (lazy : Lazy.Ram) (i : ℕ)
    → Lazy.get lazy i ≡ get_elem? (page_or_zeros (i / page_size) lazy.pages) (bit_and i page_mask)
unfolding Lazy.get page_or_zeros
get-page_or_zeros lazy i =
    ground (arith, get_elem?-replicate {A = ℕ} page_size (bit_and i page_mask) 0 (in_page i))

page_or_zeros-IsPage :
    (n : ℕ) (pages : List (ℕ × List ℕ))
    → All IsPage pages
    → length (page_or_zeros n pages) ≡ page_size
unfolding page_or_zeros
page_or_zeros-IsPage n pages h =
    grind (arith, find_page-IsPage, length-replicate {A = ℕ} page_size 0)

abbrev target : Lazy.Ram → ℕ → List ℕ
target lazy i = page_or_zeros (i / page_size) lazy.pages

abbrev written : Lazy.Ram → ℕ → ℕ → Lazy.Ram
written lazy i v = record {
  pages = put_page (i / page_size) (set (target lazy i) (bit_and i page_mask) v) lazy.pages;
}

page_or_zeros-put_page :
    (n k : ℕ) (page : List ℕ) (pages : List (ℕ × List ℕ))
    → page_or_zeros k (put_page n page pages) ≡ (if n == k then page else page_or_zeros k pages)
unfolding page_or_zeros
page_or_zeros-put_page n k page pages = ground (arith, find_page-put_page n k page pages)

get-written :
    (lazy : Lazy.Ram) (i v j : ℕ)
    → All IsPage lazy.pages
    → Lazy.get (written lazy i v) j ≡ (if i == j then some v else Lazy.get lazy j)
get-written lazy i v j h = ground (
  arith,
  get-page_or_zeros (written lazy i v) j,
  get-page_or_zeros lazy j,
  page_or_zeros-put_page (i / page_size) (j / page_size)
      (set (target lazy i) (bit_and i page_mask) v) lazy.pages,
  page_or_zeros-IsPage (i / page_size) lazy.pages h,
  in_page i,
  and_low 12 i,
  and_low 12 j,
  get_elem?-set_self (target lazy i) (bit_and i page_mask) v,
  get_elem?-set_ne (target lazy i) (bit_and i page_mask) (bit_and j page_mask) v,
)

store-written :
    (lazy : Lazy.Ram) (i v : ℕ)
    → All IsPage lazy.pages
    → Lazy.store lazy i v ≡ some (written lazy i v)
unfolding Lazy.store
store-written lazy i v h = ground (
  arith,
  get_elem?-some (target lazy i) (bit_and i page_mask),
  in_page i,
  page_or_zeros-IsPage (i / page_size) lazy.pages h,
)

pub new-Agrees : Agrees Lazy.new Eager.new
unfolding Lazy.new Eager.new Lazy.get find_page
new-Agrees = record { whole = tt; same = λ i. refl }

-- From memories that agree, storing a byte at an index within RAM succeeds in both, the memories
-- still agree, and both then read the byte there and what they read before everywhere else.
pub store-Agrees :
    (lazy : Lazy.Ram) (eager : Eager.Ram) (i v : ℕ)
    → Agrees lazy eager
    → i < ram_size
    → (lazy' : Lazy.Ram) × (eager' : Eager.Ram) × (Lazy.store lazy i v ≡ some lazy')
      × (Eager.store eager i v ≡ some eager')
      × Agrees lazy' eager'
      × ((j : ℕ) → Lazy.get lazy' j ≡ (if i == j then some v else Lazy.get lazy j))
unfolding Eager.store
store-Agrees lazy eager i v agrees h = (
  written lazy i v,
  record { cell = λ j. if i == j then v else eager.cell j },
  store-written lazy i v agrees.whole,
  ground arith,
  record {
    whole =
        put_page-IsPage (i / page_size) _ lazy.pages
          (length-set (target lazy i) (bit_and i page_mask) v
            ∙ page_or_zeros-IsPage (i / page_size) lazy.pages agrees.whole)
          agrees.whole;
    same = λ j. ground (arith, get-written lazy i v j agrees.whole, agrees.same j);
  },
  λ j. get-written lazy i v j agrees.whole,
)

-- a run of stores, each an index and a byte
abbrev pub replay : {R : Type 0} → (R → ℕ → ℕ → Option R) → List (ℕ × ℕ) → R → Option R
replay store [] ram = some ram
replay store ((i, v) ∷ writes) ram = elim (store ram i v) [
  | none ↦ none
  | some ram' ↦ replay store writes ram'
]

-- the byte last written to index `i`, or else the one it held
abbrev pub last_written : List (ℕ × ℕ) → ℕ → ℕ → ℕ
last_written [] i old = old
last_written ((j, v) ∷ writes) i old = last_written writes i (if j == i then v else old)

abbrev pub IsInRam : ℕ × ℕ → Type 0
IsInRam w = w.0 < ram_size

replay_step :
    {R : Type 0} (store : R → ℕ → ℕ → Option R) (i v : ℕ) (writes : List (ℕ × ℕ)) (ram ram' : R)
    → store ram i v ≡ some ram'
    → replay store ((i, v) ∷ writes) ram ≡ replay store writes ram'
replay_step store i v writes ram ram' e = rw (e, replay) refl

replay-Agrees :
    (writes : List (ℕ × ℕ)) (lazy : Lazy.Ram) (eager : Eager.Ram)
    → Agrees lazy eager
    → All IsInRam writes
    → (lazy' : Lazy.Ram) × (eager' : Eager.Ram) × (replay Lazy.store writes lazy ≡ some lazy')
      × (replay Eager.store writes eager ≡ some eager')
      × Agrees lazy' eager'
      × ((j : ℕ) → eager'.cell j ≡ last_written writes j (eager.cell j))
replay-Agrees [] lazy eager agrees h = (lazy, eager, refl, refl, agrees, λ j. refl)
replay-Agrees ((i, v) ∷ writes) lazy eager agrees h =
    let (lazy₁, eager₁, l, e, agrees₁, now) = store-Agrees lazy eager i v agrees h.0 in
    let (lazy₂, eager₂, ls, es, agrees₂, last) = replay-Agrees writes lazy₁ eager₁ agrees₁ h.1 in
    (
      lazy₂,
      eager₂,
      replay_step Lazy.store i v writes lazy lazy₁ l ∙ ls,
      replay_step Eager.store i v writes eager eager₁ e ∙ es,
      agrees₂,
      λ j.
          last j
          ∙ ap (last_written writes j) (ground (arith, now j, agrees.same j, agrees₁.same j)),
    )

-- After any run of stores within RAM to the memories that the program starts with, neither of
-- which panics, both memories give the same byte for a load at any index within RAM: the byte
-- last written to that index, or zero.
pub new-replay :
    (writes : List (ℕ × ℕ)) (i : ℕ)
    → All IsInRam writes
    → i < ram_size
    → (lazy : Lazy.Ram) × (eager : Eager.Ram) × (replay Lazy.store writes Lazy.new ≡ some lazy)
      × (replay Eager.store writes Eager.new ≡ some eager)
      × (Lazy.get lazy i ≡ some (last_written writes i 0))
      × (Eager.index eager i ≡ some (last_written writes i 0))
unfolding Eager.new Eager.index
new-replay writes i h u =
    let (lazy, eager, l, e, agrees, last) = replay-Agrees writes Lazy.new Eager.new new-Agrees h in
    (lazy, eager, l, e, agrees.same i ∙ ap some (last i), ground (arith, last i))

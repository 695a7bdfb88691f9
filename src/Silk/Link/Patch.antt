-- ===== src/Silk/Link/Patch.antt =====
-- Patches to an image: what linking comes to, without sections (linker.rs).
use simulatron.Common.{
  ℕ, zero, suc, ◌+◌, ◌<◌, ◌≤◌, ◌≡◌, ◌⊎◌, refl, ap, ◌∙◌, sym, arith, inl, some, List, [], ◌∷◌, ◌++◌,
  get_elem?, length, set, subst, All, length-set, get_elem?-set_ne, get_elem?-set_self,
  set-append_left, set-append_right,
}
use simulatron.Silk.Object.{Zeros}
use simulatron.Silk.Link.{to_be_bytes}

-- bytes written from an address on
abbrev pub overwrite : List ℕ → ℕ → List ℕ → List ℕ
overwrite image address [] = image
overwrite image address (b ∷ bytes) = overwrite (set image address b) (address + 1) bytes

pub length-overwrite :
    (image : List ℕ) (address : ℕ) (bytes : List ℕ)
    → length (overwrite image address bytes) ≡ length image
length-overwrite image address [] = refl
length-overwrite image address (b ∷ bytes) =
    length-overwrite (set image address b) (address + 1) bytes ∙ length-set image address b

pub overwrite-append_left :
    (xs ys : List ℕ) (i : ℕ) (bytes : List ℕ)
    → i + length bytes ≤ length xs
    → overwrite (xs ++ ys) i bytes ≡ overwrite xs i bytes ++ ys
overwrite-append_left xs ys i [] h = refl
overwrite-append_left xs ys i (b ∷ bytes) h =
    ap (λ zs. overwrite zs (i + 1) bytes) (set-append_left xs ys i b (omega arith))
    ∙ overwrite-append_left (set xs i b) ys (i + 1) bytes (omega (arith, length-set xs i b))

pub overwrite-append_right :
    (xs ys : List ℕ) (i j : ℕ) (bytes : List ℕ)
    → i ≡ length xs + j
    → overwrite (xs ++ ys) i bytes ≡ xs ++ overwrite ys j bytes
overwrite-append_right xs ys i j [] e = refl
overwrite-append_right xs ys i j (b ∷ bytes) e =
    ap (λ zs. overwrite zs (i + 1) bytes) (set-append_right xs ys i j b e)
    ∙ overwrite-append_right xs (set ys j b) (i + 1) (j + 1) bytes (omega arith)

-- A byte outside of what is written stays.
pub get_elem?-overwrite_ne :
    (image : List ℕ) (address : ℕ) (bytes : List ℕ) (i : ℕ)
    → (i < address) ⊎ (address + length bytes ≤ i)
    → get_elem? (overwrite image address bytes) i ≡ get_elem? image i
get_elem?-overwrite_ne image address [] i h = refl
get_elem?-overwrite_ne image address (b ∷ bytes) i h =
    get_elem?-overwrite_ne (set image address b) (address + 1) bytes i (ground arith)
    ∙ get_elem?-set_ne image address i b (λ e. ground arith)

-- the bytes from an address on
abbrev pub Reads : List ℕ → ℕ → List ℕ → Type 0
Reads image address [] = Unit
Reads image address (b ∷ bytes) =
    (get_elem? image address ≡ some b) × Reads image (address + 1) bytes

pub overwrite-Reads :
    (image : List ℕ) (address : ℕ) (bytes : List ℕ)
    → address + length bytes ≤ length image
    → Reads (overwrite image address bytes) address bytes
overwrite-Reads image address [] h = tt
overwrite-Reads image address (b ∷ bytes) h = (
  get_elem?-overwrite_ne (set image address b) (address + 1) bytes address (inl (omega arith))
      ∙ get_elem?-set_self image address b (omega arith),
  overwrite-Reads (set image address b) (address + 1) bytes
      (omega (arith, length-set image address b)),
)

-- Two references that share no byte.
abbrev pub IsApart : ℕ → ℕ → Type 0
IsApart a b = (a + 4 ≤ b) ⊎ (b + 4 ≤ a)

abbrev pub AreApart : List ℕ → Type 0
AreApart [] = Unit
AreApart (a ∷ rest) = All (IsApart a) rest × AreApart rest

pub Zeros-overwrite :
    (image : List ℕ) (a b n : ℕ) (bytes : List ℕ)
    → (a + length bytes ≤ b) ⊎ (b + n ≤ a)
    → Zeros image b n
    → Zeros (overwrite image a bytes) b n
Zeros-overwrite image a b zero bytes h z = tt
Zeros-overwrite image a b (suc n) bytes h z = (
  get_elem?-overwrite_ne image a bytes b (ground arith) ∙ z.0,
  Zeros-overwrite image a (b + 1) n bytes (ground arith) z.1,
)

pub Reads-overwrite :
    (image : List ℕ) (a b : ℕ) (bytes read : List ℕ)
    → (a + length bytes ≤ b) ⊎ (b + length read ≤ a)
    → Reads image b read
    → Reads (overwrite image a bytes) b read
Reads-overwrite image a b bytes [] h z = tt
Reads-overwrite image a b bytes (c ∷ read) h z = (
  get_elem?-overwrite_ne image a bytes b (ground arith) ∙ z.0,
  Reads-overwrite image a (b + 1) bytes read (ground arith) z.1,
)

-- an address and the word written there, big-endian
abbrev pub Patch : Type 0
Patch = ℕ × ℕ

abbrev pub apply_patches : List ℕ → List Patch → List ℕ
apply_patches image [] = image
apply_patches image ((address, value) ∷ patches) =
    apply_patches (overwrite image address (to_be_bytes value)) patches

abbrev pub addresses : List Patch → List ℕ
addresses [] = []
addresses ((address, value) ∷ patches) = address ∷ addresses patches

pub apply_patches-append :
    (image : List ℕ) (ps qs : List Patch)
    → apply_patches image (ps ++ qs) ≡ apply_patches (apply_patches image ps) qs
apply_patches-append image [] qs = refl
apply_patches-append image ((a, v) ∷ ps) qs =
    apply_patches-append (overwrite image a (to_be_bytes v)) ps qs

pub length-apply_patches :
    (image : List ℕ) (patches : List Patch) → length (apply_patches image patches) ≡ length image
length-apply_patches image [] = refl
length-apply_patches image ((a, v) ∷ patches) =
    length-apply_patches (overwrite image a (to_be_bytes v)) patches
    ∙ length-overwrite image a (to_be_bytes v)

pub Reads-apply_patches :
    (image : List ℕ) (b value : ℕ) (patches : List Patch)
    → All (IsApart b) (addresses patches)
    → Reads image b (to_be_bytes value)
    → Reads (apply_patches image patches) b (to_be_bytes value)
Reads-apply_patches image b value [] h r = r
Reads-apply_patches image b value ((a, v) ∷ patches) h r =
    Reads-apply_patches (overwrite image a (to_be_bytes v)) b value patches h.1
      (Reads-overwrite image a b (to_be_bytes v) (to_be_bytes value) (ground arith) r)

-- Where no two patches share a byte, each word is there in the end.
pub apply_patches-Reads :
    (image : List ℕ) (patches : List Patch)
    → AreApart (addresses patches)
    → All (λ a. a + 4 ≤ length image) (addresses patches)
    → All (λ patch. Reads (apply_patches image patches) (patch.0) (to_be_bytes (patch.1))) patches
apply_patches-Reads image [] h k = tt
apply_patches-Reads image ((a, v) ∷ patches) h k =
    let image' = overwrite image a (to_be_bytes v) in
    (
      Reads-apply_patches image' a v patches h.0 (overwrite-Reads image a (to_be_bytes v) k.0),
      apply_patches-Reads image' patches h.1 (
          subst (λ (n : ℕ). All (λ a. a + 4 ≤ n) (addresses patches))
            (sym (length-overwrite image a (to_be_bytes v))) k.1),
    )

-- A byte that no patch covers stays.
pub get_elem?-apply_patches :
    (image : List ℕ) (patches : List Patch) (i : ℕ)
    → All (λ a. (i < a) ⊎ (a + 4 ≤ i)) (addresses patches)
    → get_elem? (apply_patches image patches) i ≡ get_elem? image i
get_elem?-apply_patches image [] i h = refl
get_elem?-apply_patches image ((a, v) ∷ patches) i h =
    get_elem?-apply_patches (overwrite image a (to_be_bytes v)) patches i h.1
    ∙ get_elem?-overwrite_ne image a (to_be_bytes v) i h.0

-- Patches that share no byte, all to zero bytes.
abbrev pub IsClear : List ℕ → List Patch → Type 0
IsClear image patches =
    AreApart (addresses patches) × All (λ a. Zeros image a 4) (addresses patches)

All-left :
    (P : ℕ → Type 0) (ps qs : List Patch) → All P (addresses (ps ++ qs)) → All P (addresses ps)
All-left P [] qs h = tt
All-left P ((a, v) ∷ ps) qs h = (h.0, All-left P ps qs h.1)

pub IsClear-left :
    (image : List ℕ) (ps qs : List Patch) → IsClear image (ps ++ qs) → IsClear image ps
IsClear-left image [] qs h = (tt, tt)
IsClear-left image ((a, v) ∷ ps) qs h =
    let rest = IsClear-left image ps qs (h.0.1, h.1.1) in
    ((All-left (IsApart a) ps qs h.0.0, rest.0), (h.1.0, rest.1))

stay_Zeros :
    (image : List ℕ) (a value : ℕ) (bs : List ℕ)
    → All (IsApart a) bs
    → All (λ b. Zeros image b 4) bs
    → All (λ b. Zeros (overwrite image a (to_be_bytes value)) b 4) bs
stay_Zeros image a value [] h z = tt
stay_Zeros image a value (b ∷ bs) h z = (
  Zeros-overwrite image a b 4 (to_be_bytes value) (ground arith) z.0,
  stay_Zeros image a value bs h.1 z.1,
)

pub IsClear-step :
    (image : List ℕ) (a value : ℕ) (patches : List Patch)
    → IsClear image ((a, value) ∷ patches)
    → IsClear (overwrite image a (to_be_bytes value)) patches
IsClear-step image a value patches h =
    (h.0.1, stay_Zeros image a value (addresses patches) h.0.0 h.1.1)

pub IsClear-right :
    (image : List ℕ) (ps qs : List Patch)
    → IsClear image (ps ++ qs)
    → IsClear (apply_patches image ps) qs
IsClear-right image [] qs h = h
IsClear-right image ((a, v) ∷ ps) qs h =
    IsClear-right (overwrite image a (to_be_bytes v)) ps qs (IsClear-step image a v (ps ++ qs) h)

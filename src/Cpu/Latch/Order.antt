-- ===== src/Cpu/Latch/Order.antt =====
-- Which interrupt the latch gives, and that it loses none (cpu.rs).
use simulatron.Common.{
  ℕ, zero, suc, ◌+◌, ◌<◌, ◌≡◌, refl, ◌∙◌, arith, Bool, true, false, ◌&&◌, ◌||◌, Option, none, some,
  List, [], ◌∷◌, ◌++◌, ◌==◌, ◌⊎◌, inl, inr, ap, if◌then◌else◌, ltb, set, length, length-set, All,
}
use simulatron.Exec.{Outcome, ok, panic}
use simulatron.Platform.{Platform}
use simulatron.Cpu.State.{Cpu}
use simulatron.Cpu.Latch.{
  enabled, first_latched, shift_amount, Polled, received, drained, crashed, poll, try_get_next,
  with_channel,
}

-- is interrupt `k` latched?
abbrev pub lit : List Bool → ℕ → Bool
lit [] k = false
lit (l ∷ latched) zero = l
lit (l ∷ latched) (suc k) = lit latched k

-- is it in the channel?
abbrev pub sent : List ℕ → ℕ → Bool
sent [] k = false
sent (n ∷ channel) k = (n == k) || sent channel k

lit-set :
    (latched : List Bool) (i k : ℕ) (b : Bool)
    → i < length latched
    → lit (set latched i b) k ≡ (if i == k then b else lit latched k)
lit-set [] i k b h = absurd (omega arith)
lit-set (l ∷ latched) zero zero b h = refl
lit-set (l ∷ latched) zero (suc k) b h = ground arith
lit-set (l ∷ latched) (suc i) zero b h = ground arith
lit-set (l ∷ latched) (suc i) (suc k) b h = ground (arith, lit-set latched i k b)

-- Once `n` is seen at the head or later.
step_first :
    (P : ℕ → Bool) (n : ℕ)
    → P 0 ≡ false
    → ((j : ℕ) → j < n → P (suc j) ≡ false)
    → (j : ℕ) → j < suc n
    → P j ≡ false
step_first P n z h zero k = z
step_first P n z h (suc j) k = h j (omega arith)

-- below the number found, if there is one
abbrev pub Below : ℕ → Option ℕ → Type 0
Below i none = Unit
Below i (some n) = i < n

module _ (imr : ℕ) where
  -- The number of a latched and enabled interrupt, from number `i` on.
  abbrev Found : ℕ → List Bool → Option ℕ → Type 0
  Found i latched none = Unit
  Found i latched (some n) =
      (k : ℕ) × (n ≡ i + k) × (k < length latched) × (lit latched k ≡ true) × (enabled imr n ≡ true)

  later-Found :
      (i : ℕ) (l : Bool) (latched : List Bool) (o : Option ℕ)
      → Found (i + 1) latched o
      → Found i (l ∷ latched) o
  later-Found i l latched none h = tt
  later-Found i l latched (some n) (k, e, b, t, on) = (suc k, omega arith, omega arith, t, on)

  here-Found :
      (i : ℕ) (latched : List Bool) (later : Option ℕ) (b : Bool)
      → enabled imr i ≡ b
      → Found i (true ∷ latched) later
      → Found i (true ∷ latched) (if b then some i else later)
  here-Found i latched later true e h = (0, omega arith, omega arith, refl, e)
  here-Found i latched later false e h = h

  first_latched-Found :
      (i : ℕ) (latched : List Bool) → Found i latched (first_latched imr i latched)
  unfolding first_latched
  first_latched-Found i [] = tt
  first_latched-Found i (false ∷ latched) =
      later-Found i false latched _ (first_latched-Found (i + 1) latched)
  first_latched-Found i (true ∷ latched) =
      here-Found i latched _ (enabled imr i) refl
        (later-Found i true latched _ (first_latched-Found (i + 1) latched))

  before_here :
      (i : ℕ) (b : Bool) (later : Option ℕ) → Below i (if b then some i else later) → b ≡ false
  before_here i true later h = absurd (omega arith)
  before_here i false later h = refl

  before_later :
      (i j : ℕ) (b : Bool) (later : Option ℕ)
      → Below (i + suc j) (if b then some i else later)
      → Below (i + suc j) later
  before_later i j true later h = absurd (omega arith)
  before_later i j false later h = h

  -- every interrupt below the one found, or every one at all, is not latched or not enabled
  first_latched-before :
      (i : ℕ) (latched : List Bool) (j : ℕ)
      → Below (i + j) (first_latched imr i latched)
      → (lit latched j && enabled imr (i + j)) ≡ false
  unfolding first_latched
  first_latched-before i [] j h = refl
  first_latched-before i (false ∷ latched) zero h = refl
  first_latched-before i (true ∷ latched) zero h =
      let e : i + 0 ≡ i = omega arith in rw e (before_here i (enabled imr i) _ (rw e at h))
  first_latched-before i (false ∷ latched) (suc j) h =
      let e : i + suc j ≡ i + 1 + j = omega arith in
      rw e (first_latched-before (i + 1) latched j (rw e at h))
  first_latched-before i (true ∷ latched) (suc j) h =
      let e : i + suc j ≡ i + 1 + j = omega arith in
      rw e (first_latched-before (i + 1) latched j (rw e at (before_later i j (enabled imr i) _ h)))

abbrev IsLegal : ℕ → Type 0
IsLegal n = n < 8

module _ (debug : Bool) (imr k : ℕ) where
  -- What polling leaves: the first enabled interrupt of the channel, behind those that were
  -- latched, or nothing where each one of the channel is disabled.
  abbrev PollKeeps : List ℕ → List Bool → Polled → Type 0
  PollKeeps channel latched (received n channel' latched') =
      (enabled imr n ≡ true)
      × (passed : List ℕ) × (channel ≡ passed ++ n ∷ channel')
      × ((sent passed k && enabled imr k) ≡ false)
      × (lit latched' k ≡ (lit latched k || sent passed k))
  PollKeeps channel latched (drained latched') =
      (lit latched' k ≡ (lit latched k || sent channel k))
      × ((sent channel k && enabled imr k) ≡ false)
  PollKeeps channel latched crashed = ⊥

  poll_step :
      (n : ℕ) (channel : List ℕ) (latched : List Bool)
      → n < 8
      → poll debug imr (n ∷ channel) latched ≡ (
          if enabled imr n
          then received n channel latched
          else poll debug imr channel (set latched n true))
  unfolding poll shift_amount
  poll_step n channel latched h = ground arith

  keeps_here :
      (n : ℕ) (channel : List ℕ) (latched : List Bool) (b : Bool) (later : Polled)
      → n < 8
      → length latched ≡ 8
      → enabled imr n ≡ b
      → PollKeeps channel (set latched n true) later
      → PollKeeps (n ∷ channel) latched (if b then received n channel latched else later)
  keeps_here n channel latched true later h l e rest = (e, [], refl, refl, ground arith)
  keeps_here n channel latched false (received m channel' latched') h l e rest =
      let (on, passed, split, off, now) = rest in
      (
        on,
        n ∷ passed,
        ap (λ channel. n ∷ channel) split,
        ground (arith, off, e),
        ground (arith, now, lit-set latched n k true (omega (arith, l))),
      )
  keeps_here n channel latched false (drained latched') h l e rest = (
    ground (arith, rest.0, lit-set latched n k true (omega (arith, l))),
    ground (arith, rest.1, e),
  )
  keeps_here n channel latched false crashed h l e rest = rest

  poll-Keeps :
      (channel : List ℕ) (latched : List Bool)
      → All IsLegal channel
      → length latched ≡ 8
      → PollKeeps channel latched (poll debug imr channel latched)
  unfolding poll
  poll-Keeps [] latched h l = ground arith
  poll-Keeps (n ∷ channel) latched h l = rw (poll_step n channel latched h.0) (
      keeps_here n channel latched (enabled imr n) _ h.0 l refl
        (poll-Keeps channel (set latched n true) h.1 (length-set latched n true ∙ l)))

-- Interrupt `n` is taken from the latches, as seen at the number `k`: its latch is put out.
abbrev pub FromLatch : {D : Type 0} → ℕ → Cpu D → ℕ → ℕ → Cpu D → Type 0
FromLatch imr c k n c' =
    (c'.mmu.interrupt_channel ≡ c.mmu.interrupt_channel)
    × (lit c.latched n ≡ true)
    × (lit c'.latched k ≡ (if n == k then false else lit c.latched k))
    × ((ltb k n && lit c.latched k && enabled imr k) ≡ false)

-- Interrupt `n` is taken from the channel: what was sent before it is latched.
abbrev pub FromChannel : {D : Type 0} → ℕ → Cpu D → ℕ → ℕ → Cpu D → Type 0
FromChannel imr c k n c' =
    (passed : List ℕ) × (c.mmu.interrupt_channel ≡ passed ++ n ∷ c'.mmu.interrupt_channel)
    × ((sent passed k && enabled imr k) ≡ false)
    × ((lit c.latched k && enabled imr k) ≡ false)
    × (lit c'.latched k ≡ (lit c.latched k || sent passed k))

-- What asking for the next interrupt comes to, as seen at the number `k`.
abbrev pub IsNext : {D : Type 0} → ℕ → Cpu D → ℕ → Outcome (Cpu D) (Option ℕ) → Type 0
IsNext imr c k (ok (some n) c') =
    (c' ≡ with_channel c c'.mmu.interrupt_channel c'.latched)
    × (enabled imr n ≡ true)
    × (FromLatch imr c k n c' ⊎ FromChannel imr c k n c')
IsNext imr c k (ok none c') =
    (c' ≡ with_channel c [] c'.latched)
    × (lit c'.latched k ≡ (lit c.latched k || sent c.mmu.interrupt_channel k))
    × ((lit c'.latched k && enabled imr k) ≡ false)
IsNext imr c k _ = ⊥

module _ {D : Type 0} ⦃platform : Platform D⦄ (imr : ℕ) (c : Cpu D) (k : ℕ) where
  open platform use {debug}

  abbrev asked : Option ℕ → Polled → Outcome (Cpu D) (Option ℕ)
  asked first polled = elim first [
    | some i ↦ ok (some i) (record c { latched = set c.latched i false })
    | none ↦ elim polled [
      | received n channel latched ↦ ok (some n) (with_channel c channel latched)
      | drained latched ↦ ok none (with_channel c [] latched)
      | crashed ↦ panic
    ]
  ]

  latched-IsNext :
      (n : ℕ)
      → Found imr 0 c.latched (some n)
      → (k < n → (lit c.latched k && enabled imr k) ≡ false)
      → IsNext imr c k (asked (some n) crashed)
  latched-IsNext n (i, e, b, l, on) before = (
    refl,
    on,
    inl (
      refl,
      ground (arith, l),
      lit-set c.latched n k false (omega arith),
      ground (arith, before),
    ),
  )

  polled-IsNext :
      (polled : Polled)
      → PollKeeps debug imr k c.mmu.interrupt_channel c.latched polled
      → (lit c.latched k && enabled imr k) ≡ false
      → IsNext imr c k (asked none polled)
  polled-IsNext (received n channel latched) (on, passed, split, off, now) masked =
      (refl, on, inr (passed, split, off, masked, now))
  polled-IsNext (drained latched) kept masked =
      (refl, kept.0, ground (arith, kept.0, kept.1, masked))
  polled-IsNext crashed kept masked = kept

  asked-IsNext :
      (first : Option ℕ) (polled : Polled)
      → Found imr 0 c.latched first
      → (Below k first → (lit c.latched k && enabled imr k) ≡ false)
      → PollKeeps debug imr k c.mmu.interrupt_channel c.latched polled
      → IsNext imr c k (asked first polled)
  asked-IsNext none polled found before kept = polled-IsNext polled kept (before tt)
  asked-IsNext (some n) polled found before kept = latched-IsNext n found before

  first-Below :
      (i : ℕ) → Below i (first_latched imr 0 c.latched) → (lit c.latched i && enabled imr i) ≡ false
  first-Below i h =
      let e : 0 + i ≡ i = omega arith in rw e at (first_latched-before imr 0 c.latched i (rw e h))

  -- While the eight latches are there and the channel holds only interrupts below 8, asking for
  -- the next interrupt returns, and changes nothing but the latches and the channel. If it gives
  -- an interrupt, that one is enabled, and either it was latched, no enabled interrupt with a
  -- smaller number was, its latch is put out, and the other latches and the channel stay; or no
  -- enabled interrupt was latched, and it is the first enabled one in the order of the channel,
  -- whatever its number: the disabled ones sent before it are latched, those after it stay in the
  -- channel. If it gives none, the channel is empty, the latches are those lit before and those of
  -- what was in the channel, and no enabled one is latched.
  pub try_get_next-IsNext :
      length c.latched ≡ 8
      → All IsLegal c.mmu.interrupt_channel
      → IsNext imr c k (try_get_next imr c)
  unfolding try_get_next
  try_get_next-IsNext l h =
      asked-IsNext (first_latched imr 0 c.latched)
        (poll debug imr c.mmu.interrupt_channel c.latched) (first_latched-Found imr 0 c.latched)
        (first-Below k) (poll-Keeps debug imr k c.mmu.interrupt_channel c.latched h l)

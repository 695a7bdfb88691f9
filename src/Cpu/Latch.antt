-- ===== src/Cpu/Latch.antt =====
-- The interrupt latch (cpu.rs). The channel is the list of what has been sent and not received.
pub mod Order
use simulatron.Common.{
  ℕ, ◌+◌, ◌-◌, ◌%◌, ◌^◌, bit_and, Bool, true, false, ◌&&◌, Option, none, some, List, [], ◌∷◌, ltb,
  ◌==◌, if◌then◌else◌, set,
}
use simulatron.Exec.{Exec, ok, blocked, panic}
use simulatron.Platform.{Platform}
use simulatron.Cpu.State.{Cpu}

-- not a real interrupt, but the command to stop
abbrev pub join_thread : ℕ
join_thread = 2 ^ 32 - 1

-- `(imr & (1 << i as u16)) > 0` for a shift below 16
unfoldable pub enabled : ℕ → ℕ → Bool
enabled imr i = ltb 0 (bit_and imr (2 ^ i))

-- the first latched and enabled interrupt, from number `i` on
unfoldable pub first_latched : ℕ → ℕ → List Bool → Option ℕ
unfolding enabled
first_latched imr i [] = none
first_latched imr i (l ∷ latched) =
    if l && enabled imr i then some i else first_latched imr (i + 1) latched

-- `1 << interrupt as u16` overflows at 16: with checks it panics, without them the amount wraps.
unfoldable pub shift_amount : Bool → ℕ → Option ℕ
shift_amount debug interrupt =
    let k = interrupt % 2 ^ 16 in if ltb k 16 then some k else if debug then none else some (k % 16)

-- The result of polling the channel: an interrupt with the rest of the channel, or nothing.
pub data Polled : Type 0 where
  received : ℕ → List ℕ → List Bool → Polled
  drained : List Bool → Polled
  crashed : Polled

-- The loop over `try_recv`: a disabled interrupt is latched, and the next one is taken.
unfoldable pub poll : Bool → ℕ → List ℕ → List Bool → Polled
unfolding enabled shift_amount
poll debug imr [] latched = drained latched
poll debug imr (interrupt ∷ channel) latched =
    let later = poll debug imr channel (set latched interrupt true) in
    if interrupt == join_thread
    then received interrupt channel latched
    else elim (shift_amount debug interrupt) [
      | none ↦ crashed
      | some k ↦
          if enabled imr k
          then received interrupt channel latched
          else if ltb interrupt 8
          then later
          else crashed
    ]

-- the state after polling
abbrev pub with_channel : {D : Type 0} → Cpu D → List ℕ → List Bool → Cpu D
with_channel c channel latched = record c {
  mmu = record (c.mmu) { interrupt_channel = channel };
  latched = latched;
}

module _ {D : Type 0} ⦃platform : Platform D⦄ where
  open platform use {debug}

  unfoldable pub try_get_next : ℕ → Exec (Cpu D) (Option ℕ)
  unfolding first_latched poll
  try_get_next imr c = elim (first_latched imr 0 c.latched) [
    | some i ↦ ok (some i) (record c { latched = set c.latched i false })
    | none ↦ elim (poll debug imr c.mmu.interrupt_channel c.latched) [
      | received n channel latched ↦ ok (some n) (with_channel c channel latched)
      | drained latched ↦ ok none (with_channel c [] latched)
      | crashed ↦ panic
    ]
  ]

  -- Where the channel runs dry the thread waits.
  unfoldable pub wait_for_next : ℕ → Exec (Cpu D) ℕ
  unfolding first_latched poll
  wait_for_next imr c = elim (first_latched imr 0 c.latched) [
    | some i ↦ ok i (record c { latched = set c.latched i false })
    | none ↦ elim (poll debug imr c.mmu.interrupt_channel c.latched) [
      | received n channel latched ↦ ok n (with_channel c channel latched)
      | drained latched ↦ blocked (with_channel c [] latched)
      | crashed ↦ panic
    ]
  ]

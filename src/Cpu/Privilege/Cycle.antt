-- ===== src/Cpu/Privilege/Cycle.antt =====
-- A cycle of the processor in user mode (cpu.rs).
use simulatron.Common.{ℕ, ◌≡◌, refl, Bool, false, none, arith}
use simulatron.Exec.{try_again_error, fatal_error, Outcome, ok, err, blocked, panic, ◌>>=◌}
use simulatron.Exec.Keeps.{Keeps-modify, Keeps-then, Keeps-pure, Leaves}
use simulatron.Platform.{Platform}
use simulatron.Cpu.State.{Cpu}
use simulatron.Cpu.Latch.{try_get_next, wait_for_next}
use simulatron.Cpu.Fetch.{Ending, halts, pauses, continues}
use simulatron.Cpu.Cycle.{
  PostCycleAction, halt, pause, no_action, Round, again, stopped, waiting, dead, poll_interrupt,
  finish, fetch_and_execute, after_poll, interrupt_fetch_decode_execute, after_cycle, loop_body,
}
use simulatron.Cpu.Privilege.Base.{IsUser, Confined, confined_rules}
use simulatron.Cpu.Privilege.Instructions.{fetch_byte-Confined}
use simulatron.Cpu.Privilege.Decode.{execute-Confined}

-- `P` holds of the state that a round leaves.
abbrev pub Ends : {D : Type 0} → (Cpu D → Type 0) → Round D → Type 0
Ends P (again pausing c) = P c
Ends P (stopped c) = P c
Ends P (waiting c) = P c
Ends P dead = Unit

module _ {D : Type 0} ⦃platform : Platform D⦄ where
  module _ (kspr pdpr imr : ℕ) where
    finish-Confined : (e : Ending) → Confined {D = D} kspr pdpr imr (finish e)
    unfolding finish
    finish-Confined halts = Keeps-pure _
    finish-Confined pauses = Keeps-pure _
    finish-Confined (continues b) =
        Keeps-then _ _ (Keeps-modify _ λ c h. ground arith) (Keeps-pure _)

    fetch_and_execute-Confined : Confined {D = D} kspr pdpr imr fetch_and_execute
    unfolding fetch_and_execute
    fetch_and_execute-Confined =
        search (confined_rules, fetch_byte-Confined, execute-Confined, finish-Confined)

    try_get_next-Confined : (mask : ℕ) → Confined {D = D} kspr pdpr imr (try_get_next mask)
    unfolding try_get_next
    try_get_next-Confined mask = record { at = λ c h. ground arith }

    wait_for_next-Confined : (mask : ℕ) → Confined {D = D} kspr pdpr imr (wait_for_next mask)
    unfolding wait_for_next
    wait_for_next-Confined mask = record { at = λ c h. ground arith }

    poll_interrupt-Confined :
        (pausing : Bool) → Confined {D = D} kspr pdpr imr (poll_interrupt pausing)
    unfolding poll_interrupt
    poll_interrupt-Confined pausing =
        search (confined_rules, try_get_next-Confined, wait_for_next-Confined)

    after_cycle-Ends :
        (o : Outcome (Cpu D) PostCycleAction)
        → Leaves (IsUser kspr pdpr imr) o
        → Ends (IsUser kspr pdpr imr) (after_cycle o)
    unfolding after_cycle
    after_cycle-Ends (ok halt c) h = h
    after_cycle-Ends (ok pause c) h = h
    after_cycle-Ends (ok no_action c) h = h
    after_cycle-Ends (err try_again_error c) h = ground arith
    after_cycle-Ends (err fatal_error c) h = h
    after_cycle-Ends (blocked c) h = h
    after_cycle-Ends panic h = tt

  -- A round of the main loop that begins in user mode and finds no interrupt to take, whatever
  -- the instruction and however it ends, leaves the processor in user mode with the kernel stack
  -- pointer, the page directory pointer and the interrupt mask that it had.
  pub loop_body-IsUser :
      (pausing : Bool) (c c' : Cpu D)
      → c.kernel_mode ≡ false
      → poll_interrupt pausing c ≡ ok none c'
      → Ends (IsUser c.kspr c.pdpr c.imr) (loop_body pausing c)
  unfolding loop_body interrupt_fetch_decode_execute after_poll ◌>>=◌
  loop_body-IsUser pausing c c' h e =
      let here : IsUser c.kspr c.pdpr c.imr c = record {
        user = h;
        same_kspr = refl;
        same_pdpr = refl;
        same_imr = refl;
      } in
      let polled : IsUser c.kspr c.pdpr c.imr c' =
        rw e at ((poll_interrupt-Confined c.kspr c.pdpr c.imr pausing).at c here) in
      rw e (
        after_cycle-Ends c.kspr c.pdpr c.imr _
          ((fetch_and_execute-Confined c.kspr c.pdpr c.imr).at c' polled))

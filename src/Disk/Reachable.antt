-- ===== src/Disk/Reachable.antt =====
-- Everything that a disk controller can come to (disk_real.rs).
use simulatron.Common.{ℕ, ◌^◌, ◌<◌, ◌≡◌, Bool, List, [], ◌∷◌, ◌++◌, Option, none, some, subst}
use simulatron.Disk.Host.{Host}
use simulatron.Disk.Real.{DiskCommand, RealDiskController, new, store_control, store_data}
use simulatron.Disk.Worker.{worker_iteration, watcher_iteration, start, stop, work_off}
use simulatron.Disk.Ends.{IsDisk, Served}
use simulatron.Disk.Commands.{worker_iteration-Served}
use simulatron.Disk.Run.{
  Unless, store_control-IsDisk, store_data-IsDisk, new-IsDisk, watcher_iteration-IsDisk,
}

abbrev with_queue : Option (List DiskCommand) → RealDiskController → RealDiskController
with_queue queue c = record c { worker_tx = queue }

with_queue-IsDisk :
    (queue : Option (List DiskCommand)) (c : RealDiskController)
    → IsDisk c
    → IsDisk (with_queue queue c)
with_queue-IsDisk queue c d = record {
  flags = d.flags;
  blocks = d.blocks;
  block = d.block;
  present = d.present;
  whole = d.whole;
}

module _ {H P F : Type 0} (host : Host H P F) (checks : Bool) where
  -- One operation. The processor stores bytes, the worker takes a command from its channel, the watcher
  -- sees an event of the file system, the controller starts or stops, and at any time the host's files
  -- change to anything else.
  pub data Step : H → RealDiskController → H → RealDiskController → Type 0 where
    control :
        (h : H) (c c' : RealDiskController) (address value : ℕ)
        → value < 2 ^ 8
        → store_control c address value ≡ some c'
        → Step h c h c'
    data_byte :
        (h : H) (c c' : RealDiskController) (address value : ℕ)
        → store_data c address value ≡ some c'
        → Step h c h c'
    work :
        (h h' : H) (c c' : RealDiskController) (cmd : DiskCommand) (commands : List DiskCommand)
        → c.worker_tx ≡ some (cmd ∷ commands)
        → worker_iteration host checks cmd h (with_queue (some commands) c) ≡ some (h', c')
        → Step h c h' c'
    watch :
        (h : H) (c c' : RealDiskController)
        → watcher_iteration host checks h c ≡ some c'
        → Step h c h c'
    begin_work :
        (h : H) (c c' : RealDiskController) → start host checks h c ≡ some c' → Step h c h c'
    end_work :
        (h h' : H) (c c' : RealDiskController)
        → stop host checks h c ≡ some (h', c')
        → Step h c h' c'
    outside : (h h' : H) (c : RealDiskController) → Step h c h' c

  pub data Reachable : H → RealDiskController → Type 0 where
    fresh : (h : H) (interrupt_num : ℕ) → Reachable h (new interrupt_num)
    after :
        (h h' : H) (c c' : RealDiskController) → Reachable h c → Step h c h' c' → Reachable h' c'

  Unless-IsDisk :
      (o : Option RealDiskController) (c : RealDiskController)
      → Unless IsDisk o
      → o ≡ some c
      → IsDisk c
  Unless-IsDisk o c u e = subst (Unless IsDisk) e u

  abbrev UnlessPair : Option (H × RealDiskController) → Type 0
  UnlessPair none = Unit
  UnlessPair (some (h, c)) = IsDisk c

  Served-UnlessPair :
      (cmd : DiskCommand) (h : H) (c : RealDiskController) (o : Option (H × RealDiskController))
      → Served host cmd h c o
      → UnlessPair o
  Served-UnlessPair cmd h c none s = tt
  Served-UnlessPair cmd h c (some (h', c')) s = s.kept

  worked :
      (cmd : DiskCommand) (commands : List DiskCommand) (h : H) (c : RealDiskController)
      (o : Option (H × RealDiskController))
      → Served host cmd h c o
      → ((h' : H) (c' : RealDiskController)
          → IsDisk c'
          → UnlessPair (work_off host checks commands h' c'))
      → UnlessPair (elim o as (λ _. Option (H × RealDiskController)) [
        | none ↦ none
        | some (h', c') ↦ work_off host checks commands h' c'
      ])
  worked cmd commands h c none s k = tt
  worked cmd commands h c (some (h', c')) s k = k h' c' s.kept

  work_off-IsDisk :
      (commands : List DiskCommand) (h : H) (c : RealDiskController)
      → IsDisk c
      → UnlessPair (work_off host checks commands h c)
  unfolding work_off
  work_off-IsDisk [] h c d = d
  work_off-IsDisk (DiskCommand.join_thread ∷ commands) h c d = d
  work_off-IsDisk (DiskCommand.read b ∷ commands) h c d =
      worked (DiskCommand.read b) commands h c
        (worker_iteration host checks (DiskCommand.read b) h c)
        (worker_iteration-Served host checks (DiskCommand.read b) h c d) (work_off-IsDisk commands)
  work_off-IsDisk (DiskCommand.write b ∷ commands) h c d =
      worked (DiskCommand.write b) commands h c
        (worker_iteration host checks (DiskCommand.write b) h c)
        (worker_iteration-Served host checks (DiskCommand.write b) h c d) (work_off-IsDisk commands)

  start-IsDisk : (h : H) (c : RealDiskController) → IsDisk c → Unless IsDisk (start host checks h c)
  unfolding start
  start-IsDisk h c d = step c.worker_tx
    where
      step :
          (o : Option (List DiskCommand))
          → Unless IsDisk (elim o as (λ _. Option RealDiskController) [
            | none ↦ watcher_iteration host checks h (with_queue (some []) c)
            | some commands ↦ none
          ])
      step none =
          watcher_iteration-IsDisk host checks h (with_queue (some []) c)
            (with_queue-IsDisk (some []) c d)
      step (some commands) = tt

  stop-IsDisk : (h : H) (c : RealDiskController) → IsDisk c → UnlessPair (stop host checks h c)
  unfolding stop
  stop-IsDisk h c d = step c.worker_tx
    where
      step :
          (o : Option (List DiskCommand))
          → UnlessPair (elim o as (λ _. Option (H × RealDiskController)) [
            | none ↦ none
            | some commands ↦
                work_off host checks
                  (commands ++ DiskCommand.join_thread ∷ [])
                  h
                  (with_queue none c)
          ])
      step none = tt
      step (some commands) =
          work_off-IsDisk (commands ++ DiskCommand.join_thread ∷ []) h (with_queue none c)
            (with_queue-IsDisk none c d)

  step-IsDisk : (h h' : H) (c c' : RealDiskController) → Step h c h' c' → IsDisk c → IsDisk c'
  step-IsDisk h h' c c' (control _ _ _ address value small e) d =
      Unless-IsDisk (store_control c address value) c'
        (store_control-IsDisk c address value d small) e
  step-IsDisk h h' c c' (data_byte _ _ _ address value e) d =
      Unless-IsDisk (store_data c address value) c' (store_data-IsDisk c address value d) e
  step-IsDisk h h' c c' (work _ _ _ _ cmd commands q e) d = subst UnlessPair e (
      Served-UnlessPair cmd h (with_queue (some commands) c)
        (worker_iteration host checks cmd h (with_queue (some commands) c))
        (worker_iteration-Served host checks cmd h (with_queue (some commands) c)
          (with_queue-IsDisk (some commands) c d)))
  step-IsDisk h h' c c' (watch _ _ _ e) d =
      Unless-IsDisk (watcher_iteration host checks h c) c'
        (watcher_iteration-IsDisk host checks h c d) e
  step-IsDisk h h' c c' (begin_work _ _ _ e) d =
      Unless-IsDisk (start host checks h c) c' (start-IsDisk h c d) e
  step-IsDisk h h' c c' (end_work _ _ _ _ e) d = subst UnlessPair e (stop-IsDisk h c d)
  step-IsDisk h h' c c' (outside _ _ _) d = d

-- Whatever the processor stores, in whatever order the worker, the watcher and changes to the host's
-- files take turns, a controller keeps its registers within their bounds: of the status only the four
-- flags are ever set, the numbers of blocks are 32 bits wide, the buffer is 4096 bytes long, and blocks
-- are available exactly while the connected flag is set.
pub Reachable-IsDisk :
    {H P F : Type 0} (host : Host H P F) (checks : Bool) (h : H) (c : RealDiskController)
    → Reachable host checks h c
    → IsDisk c
Reachable-IsDisk host checks h c (fresh _ interrupt_num) = new-IsDisk interrupt_num
Reachable-IsDisk host checks h c (after h₀ _ c₀ _ r s) =
    step-IsDisk host checks h₀ h c₀ c s (Reachable-IsDisk host checks h₀ c₀ r)

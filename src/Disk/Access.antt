-- ===== src/Disk/Access.antt =====
-- The accesses that a running controller answers (disk_real.rs).
use simulatron.Common.{
  ℕ, ◌^◌, ◌<◌, ◌≤◌, arith, true, false, Option, none, some, List, [], ◌∷◌, ◌++◌, length, get_elem?,
  get_elem?-some,
}
use simulatron.Disk.Real.{
  DiskCommand, RealDiskController, send_command, store_control, load_status, store_data, load_data,
}
use simulatron.Disk.Ends.{IsDisk}
use simulatron.Disk.Run.{Unless, store_control-IsDisk, store_data-IsDisk}

abbrev pub IsSome : {A : Type 0} → Option A → Type 0
IsSome none = ⊥
IsSome (some a) = Unit

-- a controller whose worker and watcher run
pub record IsRunning (c : RealDiskController) : Type 0 where
  pub disk : IsDisk c
  pub running : IsSome c.worker_tx

abbrev pub Ready : Option RealDiskController → Type 0
Ready none = ⊥
Ready (some c) = IsRunning c

-- it does not panic, and the worker still runs
abbrev Runs : Option RealDiskController → Type 0
Runs none = ⊥
Runs (some c) = IsSome c.worker_tx

Ready-Runs : (o : Option RealDiskController) → Unless IsDisk o → Runs o → Ready o
Ready-Runs none d r = r
Ready-Runs (some c) d r = record { disk = d; running = r }

send_command-Runs :
    (cmd : DiskCommand) (c : RealDiskController) → IsSome c.worker_tx → Runs (send_command cmd c)
unfolding send_command
send_command-Runs cmd c r = step c.worker_tx r
  where
    step :
        (o : Option (List DiskCommand))
        → IsSome o
        → Runs (elim o as (λ _. Option RealDiskController) [
          | none ↦ none
          | some commands ↦ some (record c { worker_tx = some (commands ++ cmd ∷ []) })
        ])
    step none r = r
    step (some commands) r = tt

pub store_control-Ready :
    (c : RealDiskController) (address value : ℕ)
    → IsRunning c
    → value < 2 ^ 8
    → 5 ≤ address
    → address < 10
    → Ready (store_control c address value)
unfolding store_control
store_control-Ready c address value r v l u =
    Ready-Runs (store_control c address value) (store_control-IsDisk c address value r.disk v) runs
  where
    runs : Runs (store_control c address value)
    runs = ground (
      arith,
      r.running,
      send_command-Runs (DiskCommand.read false) c r.running,
      send_command-Runs (DiskCommand.write false) c r.running,
      send_command-Runs (DiskCommand.read true) c r.running,
      send_command-Runs (DiskCommand.write true) c r.running,
    )

pub get_elem?-IsSome : (bytes : List ℕ) (i : ℕ) → i < length bytes → IsSome (get_elem? bytes i)
get_elem?-IsSome bytes i h = let (b, e) = get_elem?-some bytes i h in rw e tt

pub store_data-Ready :
    (c : RealDiskController) (address value : ℕ)
    → IsRunning c
    → address < 4096
    → Ready (store_data c address value)
unfolding store_data
store_data-Ready c address value r u =
    Ready-Runs (store_data c address value) (store_data-IsDisk c address value r.disk) runs
  where
    runs : Runs (store_data c address value)
    runs =
        let (b, e) = get_elem?-some c.shared_data.buffer address (omega (arith, r.disk.whole)) in
        rw (e, Runs, store_data) r.running

pub load_data-IsSome :
    (c : RealDiskController) (address : ℕ)
    → IsRunning c
    → address < 4096
    → IsSome (load_data c address)
unfolding load_data
load_data-IsSome c address r u =
    get_elem?-IsSome c.shared_data.buffer address (omega (arith, r.disk.whole))

pub load_status-IsSome :
    (c : RealDiskController) (address : ℕ) → address < 9 → IsSome (load_status c address)
unfolding load_status
load_status-IsSome c address u = ground arith

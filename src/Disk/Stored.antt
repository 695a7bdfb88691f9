-- ===== src/Disk/Stored.antt =====
-- What a store at a physical address does to one of the disks (disk_real.rs).
use simulatron.Common.{
  ℕ, ◌+◌, ◌-◌, ◌<◌, ◌≡◌, refl, arith, true, false, ◌&&◌, ◌||◌, ◌==◌, ltb, leb, if◌then◌else◌,
  Option, none, some, List, [], ◌∷◌, ◌++◌, length, get_elem?, get_elem?-set_self, get_elem?-set_ne,
  subst, set,
}
use simulatron.Disk.Real.{
  DiskCommand, RealDiskController, send_command, store_control, store_data, with_buffer, return_bad,
  return_finished, return_with_status,
}
use simulatron.Disk.Access.{IsRunning}

-- What a store at `address` does to a disk whose registers and whose page of data stand at
-- `registers` and `page`: nothing elsewhere; to its registers what the controller does; and the
-- byte to the buffer in the page, which no other store changes.
pub record IsDiskStored (registers page address value : ℕ) (c c' : RealDiskController)
    : Type 0 where
  pub running : IsRunning c'
  pub elsewhere :
      ((leb (registers + 5) address && ltb address (registers + 10))
          || (leb page address && ltb address (page + 4096)))
        ≡ false
      → c' ≡ c
  pub control :
      (leb (registers + 5) address && ltb address (registers + 10)) ≡ true
      → store_control c (address - registers) value ≡ some c'
  pub buffer :
      (i : ℕ)
      → i < 4096
      → get_elem? c'.shared_data.buffer i
        ≡ (if address == page + i then some value else get_elem? c.shared_data.buffer i)

-- A part of the buffer's effect, with the call's result.
abbrev KeepsBuffer : RealDiskController → Option RealDiskController → Type 0
KeepsBuffer c none = Unit
KeepsBuffer c (some c') = c'.shared_data.buffer ≡ c.shared_data.buffer

send_command-KeepsBuffer :
    (cmd : DiskCommand) (c : RealDiskController) → KeepsBuffer c (send_command cmd c)
unfolding send_command
send_command-KeepsBuffer cmd c = step c.worker_tx
  where
    step :
        (o : Option (List DiskCommand))
        → KeepsBuffer c (elim o as (λ _. Option RealDiskController) [
          | none ↦ none
          | some commands ↦ some (record c { worker_tx = some (commands ++ cmd ∷ []) })
        ])
    step none = tt
    step (some commands) = refl

store_control-KeepsBuffer :
    (c : RealDiskController) (address value : ℕ) → KeepsBuffer c (store_control c address value)
unfolding store_control return_bad return_finished return_with_status
store_control-KeepsBuffer c address value = ground (
  arith,
  send_command-KeepsBuffer (DiskCommand.read false) c,
  send_command-KeepsBuffer (DiskCommand.write false) c,
  send_command-KeepsBuffer (DiskCommand.read true) c,
  send_command-KeepsBuffer (DiskCommand.write true) c,
)

abbrev SetsBuffer : List ℕ → Option RealDiskController → Type 0
SetsBuffer bytes none = Unit
SetsBuffer bytes (some c') = c'.shared_data.buffer ≡ bytes

store_data-SetsBuffer :
    (c : RealDiskController) (address value : ℕ)
    → SetsBuffer (set c.shared_data.buffer address value) (store_data c address value)
unfolding store_data
store_data-SetsBuffer c address value = step (get_elem? c.shared_data.buffer address)
  where
    step :
        (o : Option ℕ)
        → SetsBuffer
            (set c.shared_data.buffer address value)
            (elim o as (λ _. Option RealDiskController) [
              | none ↦ none
              | some old ↦ some (with_buffer (set c.shared_data.buffer address value) c)
            ])
    step none = tt
    step (some old) = refl

set-get :
    (bytes : List ℕ) (a i value : ℕ)
    → a < length bytes
    → get_elem? (set bytes a value) i ≡ (if a == i then some value else get_elem? bytes i)
set-get bytes a i value h =
    ground (arith, get_elem?-set_self bytes a value h, get_elem?-set_ne bytes a i value)

module _ (registers page address value : ℕ) (c : RealDiskController) (r : IsRunning c) where
  pub elsewhere_lem :
      ((leb (registers + 5) address && ltb address (registers + 10))
          || (leb page address && ltb address (page + 4096)))
        ≡ false
      → IsDiskStored registers page address value c c
  elsewhere_lem off = record {
    running = r;
    elsewhere = λ _. refl;
    control = λ on. absurd (ground arith);
    buffer = λ i u. ground arith;
  }

  pub control_lem :
      (c' : RealDiskController)
      → (leb (registers + 5) address && ltb address (registers + 10)) ≡ true
      → (leb page address && ltb address (page + 4096)) ≡ false
      → store_control c (address - registers) value ≡ some c'
      → IsRunning c'
      → IsDiskStored registers page address value c c'
  control_lem c' on off e r' =
      let same : c'.shared_data.buffer ≡ c.shared_data.buffer =
        subst (KeepsBuffer c) e (store_control-KeepsBuffer c (address - registers) value) in
      record {
        running = r';
        elsewhere = λ no. absurd (ground arith);
        control = λ _. e;
        buffer = λ i u. ground (arith, same);
      }

  pub data_lem :
      (c' : RealDiskController)
      → (leb (registers + 5) address && ltb address (registers + 10)) ≡ false
      → (leb page address && ltb address (page + 4096)) ≡ true
      → store_data c (address - page) value ≡ some c'
      → IsRunning c'
      → IsDiskStored registers page address value c c'
  data_lem c' off on e r' =
      let stored : c'.shared_data.buffer ≡ set c.shared_data.buffer (address - page) value =
        subst (SetsBuffer _) e (store_data-SetsBuffer c (address - page) value) in
      record {
        running = r';
        elsewhere = λ no. absurd (ground arith);
        control = λ yes. absurd (ground arith);
        buffer = λ i u.
            rw stored
              (ground (arith, r.disk.whole, set-get c.shared_data.buffer (address - page) i value));
      }

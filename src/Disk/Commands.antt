-- ===== src/Disk/Commands.antt =====
-- How commands end (disk_real.rs).
use simulatron.Common.{
  ℕ, ◌*◌, ◌%◌, ◌<◌, ◌≡◌, refl, arith, Bool, false, List, [], ◌∷◌, length, ◌==◌, leb, Bool-cases,
  inl, inr, ◌∙◌, Option, none, some,
}
use simulatron.Disk.Host.{Host}
use simulatron.Disk.Real.{DiskCommand, RealDiskController, with_buffer}
use simulatron.Disk.Worker.{get_file_name, read_block, write_block, finish, serve, worker_iteration}
use simulatron.Disk.Flags.{has_connected_lem}
use simulatron.Disk.Ends.{IsDisk, Served, away, bad, finish_lem}

-- A file is found unless the directory cannot be read, and a buffer that was read into is as long as it
-- was.
abbrev IsRead : {H P F : Type 0} → Host H P F → H → List ℕ → Option (Bool × List ℕ) → Type 0
IsRead host h buffer none = Host.read_dir host h ≡ none
IsRead host h buffer (some (success, read)) = length read ≡ length buffer

abbrev IsWritten : {H P F : Type 0} → Host H P F → H → Option (Bool × H) → Type 0
IsWritten host h none = Host.read_dir host h ≡ none
IsWritten host h (some (success, h')) = Unit

module _ {H P F : Type 0} (host : Host H P F) (checks : Bool) (h : H) where
  get_file_name-none : get_file_name host checks h ≡ none → Host.read_dir host h ≡ none
  unfolding get_file_name
  get_file_name-none e = step (Host.read_dir host h) e
    where
      step :
          (o : Option (List P))
          → elim o as (λ _. Option (Option P)) [
            | none ↦ none
            | some [] ↦ some none
            | some (path ∷ []) ↦ some (some path)
            | some (path ∷ (path' ∷ others)) ↦ some none
          ]
            ≡ none
          → o ≡ none
      step none e = refl
      step (some []) e = cc
      step (some (path ∷ [])) e = cc
      step (some (path ∷ (path' ∷ others))) e = cc

  read_block-IsRead :
      (offset : ℕ) (buffer : List ℕ) → IsRead host h buffer (read_block host checks h offset buffer)
  unfolding read_block
  read_block-IsRead offset buffer = step (get_file_name host checks h) refl
    where
      at_file :
          (o : Option F)
          → IsRead host h buffer (elim o as (λ _. Option (Bool × List ℕ)) [
            | none ↦ some (false, buffer)
            | some file' ↦ some (Host.read_exact host h file' buffer)
          ])
      at_file none = refl
      at_file (some file') = Host.length-read_exact host h file' buffer

      opened :
          (o : Option F)
          → IsRead host h buffer (elim o as (λ _. Option (Bool × List ℕ)) [
            | none ↦ some (false, buffer)
            | some file ↦ elim (Host.seek host file offset) [
              | none ↦ some (false, buffer)
              | some file' ↦ some (Host.read_exact host h file' buffer)
            ]
          ])
      opened none = refl
      opened (some file) = at_file (Host.seek host file offset)

      step :
          (o : Option (Option P))
          → get_file_name host checks h ≡ o
          → IsRead host h buffer (elim o as (λ _. Option (Bool × List ℕ)) [
            | none ↦ none
            | some none ↦ some (false, buffer)
            | some (some path) ↦ elim (Host.open_file host h path) [
              | none ↦ some (false, buffer)
              | some file ↦ elim (Host.seek host file offset) [
                | none ↦ some (false, buffer)
                | some file' ↦ some (Host.read_exact host h file' buffer)
              ]
            ]
          ])
      step none e = get_file_name-none e
      step (some none) e = refl
      step (some (some path)) e = opened (Host.open_file host h path)

  write_block-IsWritten :
      (offset : ℕ) (buffer : List ℕ) → IsWritten host h (write_block host checks h offset buffer)
  unfolding write_block
  write_block-IsWritten offset buffer = step (get_file_name host checks h) refl
    where
      at_file :
          (o : Option F)
          → IsWritten host h (elim o as (λ _. Option (Bool × H)) [
            | none ↦ some (false, h)
            | some file' ↦ some (Host.write_all host h file' buffer)
          ])
      at_file none = tt
      at_file (some file') = tt

      opened :
          (o : Option F)
          → IsWritten host h (elim o as (λ _. Option (Bool × H)) [
            | none ↦ some (false, h)
            | some file ↦ elim (Host.seek host file offset) [
              | none ↦ some (false, h)
              | some file' ↦ some (Host.write_all host h file' buffer)
            ]
          ])
      opened none = tt
      opened (some file) = at_file (Host.seek host file offset)

      step :
          (o : Option (Option P))
          → get_file_name host checks h ≡ o
          → IsWritten host h (elim o as (λ _. Option (Bool × H)) [
            | none ↦ none
            | some none ↦ some (false, h)
            | some (some path) ↦ elim (Host.open_for_writing host h path) [
              | none ↦ some (false, h)
              | some file ↦ elim (Host.seek host file offset) [
                | none ↦ some (false, h)
                | some file' ↦ some (Host.write_all host h file' buffer)
              ]
            ]
          ])
      step none e = get_file_name-none e
      step (some none) e = tt
      step (some (some path)) e = opened (Host.open_for_writing host h path)

  module _ (c : RealDiskController) (d : IsDisk c) (on : c.shared_data.status % 2 ≡ 1)
      (within : c.shared_data.block_to_access < c.shared_data.blocks_available) where
    serve-Served : (cmd : DiskCommand) → Served host cmd h c (serve host checks cmd h c)
    unfolding serve
    serve-Served (DiskCommand.read b) =
        step (read_block host checks h (c.shared_data.block_to_access * 4096) c.shared_data.buffer)
          (read_block-IsRead (c.shared_data.block_to_access * 4096) c.shared_data.buffer)
      where
        step :
            (o : Option (Bool × List ℕ))
            → IsRead host h c.shared_data.buffer o
            → Served host
                (DiskCommand.read b)
                h
                c
                (elim o as (λ _. Option (H × RealDiskController)) [
                  | none ↦ none
                  | some (success, buffer) ↦ elim (finish checks success b (with_buffer buffer c)) [
                    | none ↦ none
                    | some c' ↦ some (h, c')
                  ]
                ])
        step none r = inr r
        step (some (success, buffer)) r =
            let (c', e, v) =
              finish_lem (DiskCommand.read b) c d checks success b buffer refl on within
                (r ∙ d.whole) in
            rw e v
    serve-Served (DiskCommand.write b) =
        step (write_block host checks h (c.shared_data.block_to_access * 4096) c.shared_data.buffer)
          (write_block-IsWritten (c.shared_data.block_to_access * 4096) c.shared_data.buffer)
      where
        step :
            (o : Option (Bool × H))
            → IsWritten host h o
            → Served host
                (DiskCommand.write b)
                h
                c
                (elim o as (λ _. Option (H × RealDiskController)) [
                  | none ↦ none
                  | some (success, h') ↦ elim (finish checks success b c) [
                    | none ↦ none
                    | some c' ↦ some (h', c')
                  ]
                ])
        step none r = inr r
        step (some (success, h')) r =
            let (c', e, v) =
              finish_lem (DiskCommand.write b) c d checks success b c.shared_data.buffer refl on
                within d.whole in
            rw e v
    serve-Served DiskCommand.join_thread = inl refl

pub worker_iteration-Served :
    {H P F : Type 0} (host : Host H P F) (checks : Bool) (cmd : DiskCommand) (h : H)
    (c : RealDiskController)
    → IsDisk c
    → Served host cmd h c (worker_iteration host checks cmd h c)
unfolding worker_iteration
worker_iteration-Served host checks cmd h c d =
    rw (has_connected_lem c.shared_data.status d.flags)
      (elim (Bool-cases (c.shared_data.status % 2 == 1)) [
        | inr off ↦ rw off (away cmd c d (ground (arith, off)))
        | inl on ↦
            rw on
              (elim (Bool-cases
                (leb c.shared_data.blocks_available c.shared_data.block_to_access)) [
                  | inl beyond ↦
                      rw beyond (bad cmd c d (ground (arith, on)) (ground (arith, beyond)))
                  | inr within ↦ rw within (
                      serve-Served host checks h c d (ground (arith, on)) (ground (arith, within))
                        cmd)
                ])
      ])

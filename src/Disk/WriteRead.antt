-- ===== src/Disk/WriteRead.antt =====
-- A block that was written is read back (disk_real.rs).
use simulatron.Common.{
  ℕ, ◌*◌, ◌%◌, ◌<◌, ◌≡◌, refl, sym, ap, ◌∙◌, arith, Bool, true, false, Option, none, some, List,
  length, ◌==◌, leb,
}
use simulatron.Disk.Host.{Host}
use simulatron.Disk.Real.{DiskCommand, RealDiskController, with_buffer, return_successful}
use simulatron.Disk.Worker.{get_file_name, read_block, write_block, serve, worker_iteration}
use simulatron.Disk.Flags.{ended, has_connected_lem, successful_lem}
use simulatron.Disk.Ends.{IsDisk}

-- What is relied on of the host: writing to a file leaves the directory's paths, and bytes that were
-- written are there when the file is opened, sought and read again.
pub record IsFaithful {H P F : Type 0} (host : Host H P F) : Type 0 where
  pub listing :
      (h h' : H) (file : F) (bytes : List ℕ)
      → Host.write_all host h file bytes ≡ (true, h')
      → Host.read_dir host h' ≡ Host.read_dir host h
  pub contents :
      (h h' : H) (path : P) (file file' : F) (offset : ℕ) (bytes : List ℕ)
      → Host.open_for_writing host h path ≡ some file
      → Host.seek host file offset ≡ some file'
      → Host.write_all host h file' bytes ≡ (true, h')
      → (opened : F) × (at_offset : F) × (Host.open_file host h' path ≡ some opened)
        × (Host.seek host opened offset ≡ some at_offset)
        × ((buffer : List ℕ)
            → length buffer ≡ length bytes
            → Host.read_exact host h' at_offset buffer ≡ (true, bytes))

module _ {H P F : Type 0} (host : Host H P F) (faithful : IsFaithful host) (checks : Bool)
    (h h' : H) where
  same_file :
      Host.read_dir host h' ≡ Host.read_dir host h
      → get_file_name host checks h' ≡ get_file_name host checks h
  unfolding get_file_name
  same_file e = rw (e, get_file_name) refl

  result_of : Option (Bool × H) → Bool × H
  result_of none = (false, h)
  result_of (some result) = result

  failed : {A : Type 0} (o : Option (Bool × H)) → o ≡ some (true, h') → (result_of o).0 ≡ false → A
  unfolding result_of
  failed o e f = let g : (result_of o).0 ≡ true = ap (λ p. (result_of p).0) e in absurd (cc)

  read-write :
      (offset : ℕ) (bytes buffer : List ℕ)
      → write_block host checks h offset bytes ≡ some (true, h')
      → length buffer ≡ length bytes
      → read_block host checks h' offset buffer ≡ some (true, bytes)
  unfolding write_block read_block result_of
  read-write offset bytes buffer written l = named (get_file_name host checks h) refl written
    where
      writing : (o : Option F) → Option (Bool × H)
      writing o = elim o [
        | none ↦ some (false, h)
        | some file' ↦ some (Host.write_all host h file' bytes)
      ]

      opening : (o : Option F) → Option (Bool × H)
      opening o = elim o [
        | none ↦ some (false, h)
        | some file ↦ writing (Host.seek host file offset)
      ]

      sought :
          (path : P) (file : F)
          → get_file_name host checks h ≡ some (some path)
          → Host.open_for_writing host h path ≡ some file
          → (o : Option F) → Host.seek host file offset ≡ o
          → writing o ≡ some (true, h')
          → read_block host checks h' offset buffer ≡ some (true, bytes)
      sought path file n op none s e = failed (some (false, h)) e refl
      sought path file n op (some file') s e =
          let done : Host.write_all host h file' bytes ≡ (true, h') = ap result_of e in
          let (r, r', a, b, c) = faithful.contents h h' path file file' offset bytes op s done in
          rw (same_file (faithful.listing h h' file' bytes done), n, a, b, c buffer l, read_block)
            refl

      opened :
          (path : P)
          → get_file_name host checks h ≡ some (some path)
          → (o : Option F) → Host.open_for_writing host h path ≡ o
          → opening o ≡ some (true, h')
          → read_block host checks h' offset buffer ≡ some (true, bytes)
      opened path n none op e = failed (some (false, h)) e refl
      opened path n (some file) op e = sought path file n op (Host.seek host file offset) refl e

      named :
          (o : Option (Option P))
          → get_file_name host checks h ≡ o
          → elim o as (λ _. Option (Bool × H)) [
            | none ↦ none
            | some none ↦ some (false, h)
            | some (some path) ↦ opening (Host.open_for_writing host h path)
          ]
            ≡ some (true, h')
          → read_block host checks h' offset buffer ≡ some (true, bytes)
      named none n e = failed none e refl
      named (some none) n e = failed (some (false, h)) e refl
      named (some (some path)) n e = opened path n (Host.open_for_writing host h path) refl e

-- A connected controller takes a command for a block that there is.
accepted :
    {H P F : Type 0} (host : Host H P F) (checks : Bool) (cmd : DiskCommand) (h : H)
    (c : RealDiskController)
    → c.shared_data.status < 16
    → c.shared_data.status % 2 ≡ 1
    → c.shared_data.block_to_access < c.shared_data.blocks_available
    → worker_iteration host checks cmd h c ≡ serve host checks cmd h c
unfolding worker_iteration
accepted host checks cmd h c small on within =
    let e : (c.shared_data.status % 2 == 1) ≡ true = ground (arith, on) in
    let f : leb c.shared_data.blocks_available c.shared_data.block_to_access ≡ false =
      ground (arith, within) in
    rw (has_connected_lem c.shared_data.status small, e, f) refl

-- Where the host is faithful and carries a write out, a connected controller that writes its buffer to a
-- block, whatever is in the buffer afterwards, and then reads the same block has in its buffer again
-- what it wrote, has reported a success both times, and is at the same block with the status that a
-- second success leaves.
pub worker_iteration-write_read :
    {H P F : Type 0} (host : Host H P F) (checks : Bool) (h h' : H) (c : RealDiskController)
    (buffer : List ℕ)
    → IsFaithful host
    → IsDisk c
    → c.shared_data.status % 2 ≡ 1
    → c.shared_data.block_to_access < c.shared_data.blocks_available
    → write_block host checks h (c.shared_data.block_to_access * 4096) c.shared_data.buffer
      ≡ some (true, h')
    → length buffer ≡ 4096
    → (c₁ : RealDiskController) × (c₂ : RealDiskController) × (worker_iteration host checks
          (DiskCommand.write false)
          h
          c
        ≡ some (h', c₁))
      × (worker_iteration host checks (DiskCommand.read false) h' (with_buffer buffer c₁)
          ≡ some (h', c₂))
      × (c₂.shared_data.buffer ≡ c.shared_data.buffer)
      × (c₂.shared_data.block_to_access ≡ c.shared_data.block_to_access)
      × (c₁.shared_data.status ≡ ended c.shared_data.status 1 0)
      × (c₂.shared_data.status ≡ ended (ended c.shared_data.status 1 0) 1 0)
unfolding serve return_successful
worker_iteration-write_read host checks h h' c buffer faithful d on within written whole =
    let s = c.shared_data.status in
    let c₁ : RealDiskController = return_successful c in
    let c₁' : RealDiskController = with_buffer buffer c₁ in
    let e₁ : c₁.shared_data.status ≡ ended s 1 0 = successful_lem s d.flags in
    let small : c₁.shared_data.status < 16 = omega (arith, e₁, d.flags) in
    let on' : c₁.shared_data.status % 2 ≡ 1 = omega (arith, e₁, on) in
    let read =
      read-write host faithful checks h h' (c.shared_data.block_to_access * 4096)
        c.shared_data.buffer buffer written (whole ∙ sym d.whole) in
    (
      c₁,
      return_successful (with_buffer c.shared_data.buffer c₁'),
      accepted host checks (DiskCommand.write false) h c d.flags on within
          ∙ rw (written, serve) refl,
      accepted host checks (DiskCommand.read false) h' c₁' small on' within ∙ rw (read, serve) refl,
      refl,
      refl,
      e₁,
      successful_lem c₁.shared_data.status small ∙ ap (λ (t : ℕ). ended t 1 0) e₁,
    )

-- ===== src/Disk/Host.antt =====
-- The host's file system as far as the disk controller calls it.
use simulatron.Common.{ℕ, ◌≡◌, Bool, Option, List, length}

-- Its state is `H`, a path is a `P` and an open file an `F`. `none` is an error of the host.
pub record Host (H P F : Type 0) : Type 0 where
  -- the paths in the controller's directory, where it can be read
  pub read_dir : H → Option (List P)
  -- whether a path is a regular file, and its length in bytes
  pub metadata : H → P → Option (Bool × ℕ)
  pub open_file : H → P → Option F
  pub open_for_writing : H → P → Option F
  pub seek : F → ℕ → Option F
  -- `read_exact` into a buffer: whether it succeeds, and the bytes that it leaves in the buffer
  pub read_exact : H → F → List ℕ → Bool × List ℕ
  -- A buffer keeps its length.
  pub length-read_exact :
      (h : H) (file : F) (buffer : List ℕ) → length ((read_exact h file buffer).1) ≡ length buffer
  -- `write_all`: whether it succeeds, and the state that it leaves
  pub write_all : H → F → List ℕ → Bool × H

-- ===== src/Platform.antt =====
-- What the machine is built over and does not implement itself: the arithmetic of `f32`, which is
-- the processor's, the controller behind the trait `DiskController`
-- (Crates/simulatron-vm/src/lib/disk/disk_interface.rs), and the build profile.
use simulatron.Common.{ℕ, ◌^◌, ◌<◌, Bool, Option}

pub data ArithOp : Type 0 where
  add sub mul div rem : ArithOp

-- An `f32` is its bit pattern, so `to_bits` and `from_bits` are the identity. The laws say only
-- that results are 32 bits wide, as their types do.
pub record Float32 : Type 0 where
  pub binary : ArithOp → ℕ → ℕ → ℕ
  pub negate : ℕ → ℕ
  -- the tests `x == 0.0` and `x < 0.0`
  pub is_zero : ℕ → Bool
  pub is_negative : ℕ → Bool
  -- `i as f32`, `u as f32`, `f as i32` and `f as u32`, an `i32` being its pattern
  pub from_i32 : ℕ → ℕ
  pub from_u32 : ℕ → ℕ
  pub to_i32 : ℕ → ℕ
  pub to_u32 : ℕ → ℕ
  pub binary-lt : (op : ArithOp) (x y : ℕ) → binary op x y < 2 ^ 32
  pub negate-lt : (x : ℕ) → negate x < 2 ^ 32
  pub from_i32-lt : (x : ℕ) → from_i32 x < 2 ^ 32
  pub from_u32-lt : (x : ℕ) → from_u32 x < 2 ^ 32
  pub to_i32-lt : (x : ℕ) → to_i32 x < 2 ^ 32
  pub to_u32-lt : (x : ℕ) → to_u32 x < 2 ^ 32

-- `none` is a panic, as an implementation may do on an address that it does not handle.
pub record DiskController (D : Type 0) : Type 0 where
  pub store_control : D → ℕ → ℕ → Option D
  pub load_status : D → ℕ → Option ℕ
  pub store_data : D → ℕ → ℕ → Option D
  pub load_data : D → ℕ → Option ℕ

-- `debug` is a build with overflow checks and debug assertions, the default of `cargo build` and
-- `cargo test`; a release build has neither.
pub record Platform (D : Type 0) : Type 0 where
  pub debug : Bool
  pub float : Float32
  pub disk : DiskController D

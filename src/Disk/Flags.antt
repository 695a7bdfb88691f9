-- ===== src/Disk/Flags.antt =====
-- The status of the disk controller as arithmetic on its four flags (disk_real.rs).
use simulatron.Common.{
  ℕ, zero, suc, ◌+◌, ◌-◌, ◌*◌, ◌/◌, ◌%◌, ◌<◌, ◌≤◌, ◌≡◌, refl, arith, Bool, true, ◌&&◌, bit_and,
  bit_or, ◌==◌, Bool-cases, inl, inr, subst, if◌then◌else◌,
}
use simulatron.Disk.Interface.{flag_connected, flag_finished, flag_success, flag_bad_command}
use simulatron.Disk.Real.{clear_flag, has_flag}

-- a test of the `n` numbers from `low` on
abbrev holds : (ℕ → Bool) → ℕ → ℕ → Bool
holds test low zero = true
holds test low (suc n) = test low && holds test (low + 1) n

holds-lem :
    (test : ℕ → Bool) (low n k : ℕ)
    → holds test low n ≡ true
    → low ≤ k
    → k < low + n
    → test k ≡ true
holds-lem test low zero k h l u = absurd (omega arith)
holds-lem test low (suc n) k h l u = elim (Bool-cases (low == k)) [
  | inl here ↦
      let same : low ≡ k = ground (arith, here) in
      subst (λ (i : ℕ). test i ≡ true) same (ground (arith, h))
  | inr above ↦
      holds-lem test (low + 1) n k (ground (arith, h)) (ground (arith, above)) (omega arith)
]

-- Two functions that agree on the sixteen values of four flags.
flags_agree :
    (f g : ℕ → ℕ) (status : ℕ)
    → holds (λ s. f s == g s) 0 16 ≡ true
    → status < 16
    → f status ≡ g status
flags_agree f g status h l =
    let same : (f status == g status) ≡ true =
      holds-lem (λ s. f s == g s) 0 16 status h (omega arith) l in
    ground (arith, same)

-- The flags of a status: connected, finished, success, bad command.
abbrev pub connected : ℕ → ℕ
connected status = status % 2

-- the status after a command that ends with the given flags for success and a bad command
abbrev pub ended : ℕ → ℕ → ℕ → ℕ
ended status success bad = status % 2 + (1 - status / 2 % 2) * 2 + success * 4 + bad * 8

abbrev flip : ℕ → ℕ
flip status =
    if has_flag status flag_finished
    then clear_flag status flag_finished
    else bit_or status flag_finished

pub successful_lem :
    (status : ℕ)
    → status < 16
    → flip (clear_flag (bit_or status flag_success) flag_bad_command) ≡ ended status 1 0
successful_lem status h =
    flags_agree (λ s. flip (clear_flag (bit_or s flag_success) flag_bad_command)) (λ s. ended s 1 0)
      status refl h

pub failed_lem :
    (status : ℕ)
    → status < 16
    → flip (clear_flag (clear_flag status flag_success) flag_bad_command) ≡ ended status 0 0
failed_lem status h =
    flags_agree (λ s. flip (clear_flag (clear_flag s flag_success) flag_bad_command))
      (λ s. ended s 0 0) status refl h

pub bad_lem :
    (status : ℕ)
    → status < 16
    → flip (bit_or (clear_flag status flag_success) flag_bad_command) ≡ ended status 0 1
bad_lem status h =
    flags_agree (λ s. flip (bit_or (clear_flag s flag_success) flag_bad_command)) (λ s. ended s 0 1)
      status refl h

pub connected_lem : (status : ℕ) → status < 16 → bit_or status flag_connected ≡ status / 2 * 2 + 1
connected_lem status h =
    flags_agree (λ s. bit_or s flag_connected) (λ s. s / 2 * 2 + 1) status refl h

pub disconnected_lem :
    (status : ℕ) → status < 16 → clear_flag status flag_connected ≡ status / 2 * 2
disconnected_lem status h =
    flags_agree (λ s. clear_flag s flag_connected) (λ s. s / 2 * 2) status refl h

pub has_connected_lem :
    (status : ℕ) → status < 16 → has_flag status flag_connected ≡ (status % 2 == 1)
has_connected_lem status h =
    ground (arith, flags_agree (λ s. bit_and s flag_connected) (λ s. s % 2) status refl h)

-- ===== src/Ioctl/Input.antt =====
-- lib/src/ioctl/g_input.rs: listing, reading and choosing the inputs and outputs of a device. The answers of
-- the kernel are parameters: on success, the value that the ioctl returns and what it wrote.
pub mod Selecting
use v4l2r.Base.{ℕ, ◌+◌, ◌-◌, ◌%◌, ◌^◌, Result, ltb, ◌==◌, if◌then◌else◌, map_ok, map_err}
use v4l2r.Ioctl.Events.{Errno}

pub data SelectionError : Type 0 where
  out_of_range : (index : ℕ) → SelectionError
  selection_error : Errno → SelectionError

-- `From<SelectionError> for Errno`; EINVAL is 22.
unfoldable pub selection_errno : SelectionError → Errno
selection_errno (out_of_range index) = 22
selection_errno (selection_error e) = e

-- The two error arms that `enuminput`, `s_input`, `enumoutput` and `s_output` share.
unfoldable pub refused_index : ℕ → Errno → SelectionError
refused_index index e = if e == 22 then out_of_range index else selection_error e

-- `usize as c_int`, as the number of its 32 bits, and `c_int as usize`, which extends the sign.
abbrev pub as_c_int : ℕ → ℕ
as_c_int index = index % 2 ^ 32

abbrev pub as_usize : ℕ → ℕ
as_usize bits = if ltb bits (2 ^ 31) then bits else bits + (2 ^ 64 - 2 ^ 32)

-- `enuminput`; `enumoutput` is the same with the other structure.
unfoldable pub enuminput {ℓ κ} :
    {Raw : Type κ} {R : Type ℓ}
    → (ioctl : ℕ → Result Errno Raw) → (from : Raw → R) → ℕ
    → Result SelectionError R
enuminput ioctl from index = map_ok from (map_err (refused_index index) (ioctl (index % 2 ^ 32)))

-- An answer that carries the value returned by the ioctl and the number it wrote.
pub record Written : Type 0 where
  pub returned : ℕ
  pub number : ℕ

-- `g_input` and `g_output`
unfoldable pub g_input : Result Errno Written → Result Errno ℕ
g_input answer = map_ok (λ w. as_usize w.returned) answer

-- `s_input`, on the state of the driver.
unfoldable pub s_input {ℓ} :
    {S : Type ℓ} → (ioctl : ℕ → S → S × Result Errno Written) → ℕ → S → S × Result SelectionError ℕ
s_input ioctl index s =
    let (s', answer) = ioctl (as_c_int index) s in
    (s', map_ok (λ w. as_usize w.number) (map_err (refused_index index) answer))

-- `s_output`, which does not give the number back.
unfoldable pub s_output {ℓ} :
    {S : Type ℓ}
    → (ioctl : ℕ → S → S × Result Errno Written) → ℕ
    → S
    → S × Result SelectionError (Unit {0})
s_output ioctl index s =
    let (s', answer) = ioctl (as_c_int index) s in
    (s', map_ok (λ w. tt) (map_err (refused_index index) answer))

-- ===== src/Ioctl/EncoderCmd.antt =====
-- lib/src/ioctl/encoder_cmd.rs: the commands for an encoder, their C structure and the wrappers that send
-- them. What the kernel answers to a command, and the table of `g_enc_index`, are parameters.
pub mod Sending
use v4l2r.Base.{ℕ, Bool, Result, ok, err, ◌==◌, if◌then◌else◌, map_ok, map_err}
use v4l2r.Ioctl.Events.{Errno}

pub data EncoderCommand : Type 0 where
  start_encoding pause_encoding resume_encoding : EncoderCommand
  stop_encoding : (at_gop : Bool) → EncoderCommand

-- `v4l2_encoder_cmd`, without the reserved words, which are zero.
pub record RawEncoderCmd : Type 0 where
  pub cmd : ℕ
  pub flags : ℕ

-- The two `match` expressions of the conversion.
abbrev pub command_code : EncoderCommand → ℕ
command_code start_encoding = 0
command_code (stop_encoding at_gop) = 1
command_code pause_encoding = 2
command_code resume_encoding = 3

abbrev pub command_flags : EncoderCommand → ℕ
command_flags (stop_encoding at_gop) = if at_gop then 1 else 0
command_flags _ = 0

-- `From<&EncoderCommand> for v4l2_encoder_cmd`
unfoldable pub encoder_cmd_from : EncoderCommand → RawEncoderCmd
encoder_cmd_from c = record { cmd = command_code c; flags = command_flags c }

pub data EncoderCmdError : Type 0 where
  from_command_conversion_error encoder_draining command_unsupported : EncoderCmdError
  command_error : Errno → EncoderCmdError

-- `From<EncoderCmdError> for Errno` and back; EBUSY is 16 and EINVAL is 22.
unfoldable pub encoder_cmd_errno : EncoderCmdError → Errno
encoder_cmd_errno from_command_conversion_error = 22
encoder_cmd_errno encoder_draining = 16
encoder_cmd_errno command_unsupported = 22
encoder_cmd_errno (command_error e) = e

unfoldable pub encoder_cmd_error : Errno → EncoderCmdError
encoder_cmd_error e =
    if e == 16 then encoder_draining else if e == 22 then command_unsupported else command_error e

-- `encoder_cmd` and `try_encoder_cmd`, which differ in the ioctl they call. The kernel may change the
-- structure, and the caller chooses how it is read.
unfoldable pub encoder_cmd {ℓ κ} :
    {E : Type κ} {O : Type ℓ}
    → (ioctl : RawEncoderCmd → Result Errno RawEncoderCmd) → (try_from : RawEncoderCmd → Result E O)
    → RawEncoderCmd
    → Result EncoderCmdError O
encoder_cmd ioctl try_from command = elim (ioctl command) [
  | ok raw ↦ map_err (λ _. from_command_conversion_error) (try_from raw)
  | err e ↦ err (encoder_cmd_error e)
]

-- `TryFrom<v4l2_encoder_cmd> for ()`
abbrev pub ignore_answer : RawEncoderCmd → Result (Unit {0}) (Unit {0})
ignore_answer raw = ok tt

-- `g_enc_index`, whose error is the number of the kernel.
abbrev pub g_enc_index {ℓ κ} :
    {Raw : Type κ} {O : Type ℓ} → (from : Raw → O) → Result Errno Raw → Result Errno O
g_enc_index from answer = map_ok from answer

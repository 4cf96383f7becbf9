-- ===== src/Ioctl/EncoderCmd/Sending.antt =====
-- lib/src/ioctl/encoder_cmd.rs: what a command sent to an encoder is, and what its errors say.
use v4l2r.Base.{
  true, false, Result, ok, err, ◌==◌, ◌≡◌, refl, if◌then◌else◌, sym, ap, ◌∙◌, map_err, ◌>>=◌, arith,
}
use v4l2r.Ioctl.Events.{Errno}
use v4l2r.Ioctl.EncoderCmd.{
  EncoderCommand, start_encoding, pause_encoding, resume_encoding, stop_encoding, RawEncoderCmd,
  encoder_cmd_from, encoder_cmd_errno, encoder_cmd_error, encoder_cmd,
  from_command_conversion_error,
}

-- Turning the number of a failed ioctl into an error and back keeps it.
pub encoder_cmd_errno-encoder_cmd_error : (e : Errno) → encoder_cmd_errno (encoder_cmd_error e) ≡ e
unfolding encoder_cmd_errno encoder_cmd_error
encoder_cmd_errno-encoder_cmd_error e = ground arith

-- The command that a structure stands for, other flags and codes read as `Resume`.
abbrev command_of : RawEncoderCmd → EncoderCommand
command_of c =
    if c.cmd == 0
    then start_encoding
    else if c.cmd == 1
    then stop_encoding (c.flags == 1)
    else if c.cmd == 2
    then pause_encoding
    else resume_encoding

command_of-encoder_cmd_from : (c : EncoderCommand) → command_of (encoder_cmd_from c) ≡ c
unfolding encoder_cmd_from
command_of-encoder_cmd_from start_encoding = refl
command_of-encoder_cmd_from (stop_encoding true) = refl
command_of-encoder_cmd_from (stop_encoding false) = refl
command_of-encoder_cmd_from pause_encoding = refl
command_of-encoder_cmd_from resume_encoding = refl

-- Two commands that become the same structure are the same.
pub encoder_cmd_from-injective :
    (c d : EncoderCommand) → encoder_cmd_from c ≡ encoder_cmd_from d → c ≡ d
encoder_cmd_from-injective c d e =
    sym (command_of-encoder_cmd_from c) ∙ ap command_of e ∙ command_of-encoder_cmd_from d

-- Sending a command, its errors turned into numbers, is to ask the kernel and then to read its answer: a
-- refusal gives the number of the kernel, an answer that cannot be read gives EINVAL, which is 22.
pub encoder_cmd-errno {ℓ κ} :
    {E : Type κ} {O : Type ℓ} (ioctl : RawEncoderCmd → Result Errno RawEncoderCmd)
    (try_from : RawEncoderCmd → Result E O) (command : RawEncoderCmd)
    → map_err encoder_cmd_errno (encoder_cmd ioctl try_from command)
      ≡ (ioctl command >>= λ raw. map_err (λ _. 22) (try_from raw))
unfolding encoder_cmd encoder_cmd_errno
encoder_cmd-errno {E} {O} ioctl try_from command = go (ioctl command) refl
  where
    go :
        (r : Result Errno RawEncoderCmd)
        → ioctl command ≡ r
        → map_err encoder_cmd_errno (encoder_cmd ioctl try_from command)
          ≡ (ioctl command >>= λ raw. map_err (λ _. 22) (try_from raw))
    go (err e) a = rw (encoder_cmd, a, encoder_cmd_errno-encoder_cmd_error e) refl
    go (ok raw) a = rw (encoder_cmd, a) (read (try_from raw))
      where
        read :
            (o : Result E O)
            → map_err encoder_cmd_errno (map_err (λ _. from_command_conversion_error) o)
              ≡ map_err (λ _. 22) o
        read (ok x) = refl
        read (err x) = refl

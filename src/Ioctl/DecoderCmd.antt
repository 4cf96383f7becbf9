-- ===== src/Ioctl/DecoderCmd.antt =====
-- lib/src/ioctl/decoder_cmd.rs: the commands for a decoder and their C structure. The union of the
-- structure is the number in its first eight bytes, the least significant first; `speed` is the
-- number of its 32 bits.
pub mod Exchange
use v4l2r.Base.{
  ℕ, ◌+◌, ◌*◌, ◌/◌, ◌%◌, ◌^◌, Bool, false, List, [], ◌∷◌, some, Result, ok, err, unwrap_or, ◌==◌,
  if◌then◌else◌, ◌≡◌, refl,
}
use Prim.Native.Nat.{bit_and}
use v4l2r.Types.Enumn.{CEnum, find_value, n}

-- `StartCmdFlags`, `StopCmdFlags` and `PauseCmdFlags`, with `bits` and `from_bits_truncate`.
pub record StartCmdFlags : Type 0 where
  pub mute_audio : Bool

pub record StopCmdFlags : Type 0 where
  pub to_black : Bool
  pub immediately : Bool

pub record PauseCmdFlags : Type 0 where
  pub to_black : Bool

abbrev pub bit : Bool → ℕ → ℕ
bit b weight = if b then weight else 0

abbrev pub has_bit : ℕ → ℕ → Bool
has_bit v weight = bit_and v weight == weight

unfoldable pub start_bits : StartCmdFlags → ℕ
start_bits f = bit f.mute_audio 1

unfoldable pub stop_bits : StopCmdFlags → ℕ
stop_bits f = bit f.to_black 1 + bit f.immediately 2

unfoldable pub pause_bits : PauseCmdFlags → ℕ
pause_bits f = bit f.to_black 1

unfoldable pub start_flags : ℕ → StartCmdFlags
start_flags v = record { mute_audio = has_bit v 1 }

unfoldable pub stop_flags : ℕ → StopCmdFlags
stop_flags v = record { to_black = has_bit v 1; immediately = has_bit v 2 }

unfoldable pub pause_flags : ℕ → PauseCmdFlags
pause_flags v = record { to_black = has_bit v 1 }

pub data DecoderStartCmdFormat : Type 0 where
  format_none gop : DecoderStartCmdFormat

abbrev pub start_format_u32 : DecoderStartCmdFormat → ℕ
start_format_u32 format_none = 0
start_format_u32 gop = 1

abbrev pub start_formats : List DecoderStartCmdFormat
start_formats = format_none ∷ gop ∷ []

pub start_format_found :
    (f : DecoderStartCmdFormat)
    → find_value start_format_u32 start_formats (start_format_u32 f) ≡ some f
unfolding find_value
start_format_found format_none = refl
start_format_found gop = refl

instance abbrev pub start_format_enum : CEnum DecoderStartCmdFormat
start_format_enum = record {
  to_u32 = start_format_u32;
  variants = start_formats;
  found = start_format_found;
}

pub data DecoderCmd : Type 0 where
  start : StartCmdFlags → (speed : ℕ) → DecoderStartCmdFormat → DecoderCmd
  stop : StopCmdFlags → (pts : ℕ) → DecoderCmd
  pause : PauseCmdFlags → DecoderCmd
  resume : DecoderCmd

-- `DecoderCmd::start`, `stop` and `pause`
unfoldable pub simple_start : DecoderCmd
simple_start = start (record { mute_audio = false }) 0 format_none

unfoldable pub simple_stop : DecoderCmd
simple_stop = stop (record { to_black = false; immediately = false }) 0

unfoldable pub simple_pause : DecoderCmd
simple_pause = pause (record { to_black = false })

-- `v4l2_decoder_cmd`
pub record RawDecoderCmd : Type 0 where
  pub cmd : ℕ
  pub flags : ℕ
  pub params : ℕ

-- `From<DecoderCmd> for v4l2_decoder_cmd`
unfoldable pub decoder_cmd_from : DecoderCmd → RawDecoderCmd
decoder_cmd_from (start flags speed format) = record {
  cmd = 0;
  flags = start_bits flags;
  params = speed % 2 ^ 32 + start_format_u32 format * 2 ^ 32;
}
decoder_cmd_from (stop flags pts) = record {
  cmd = 1;
  flags = stop_bits flags;
  params = pts % 2 ^ 64;
}
decoder_cmd_from (pause flags) = record { cmd = 2; flags = pause_bits flags; params = 0 }
decoder_cmd_from resume = record { cmd = 3; flags = 0; params = 0 }

pub data BuildDecoderCmdError : Type 0 where
  invalid_command_code invalid_start_flags invalid_start_format invalid_stop_flags
        invalid_pause_flags :
      ℕ → BuildDecoderCmdError

-- `TryFrom<v4l2_decoder_cmd> for DecoderCmd`
unfoldable pub decoder_cmd_try_from : RawDecoderCmd → Result BuildDecoderCmdError DecoderCmd
decoder_cmd_try_from c =
    if c.cmd == 0
    then ok (
        start (start_flags c.flags) (c.params % 2 ^ 32)
          (unwrap_or (n (c.params / 2 ^ 32 % 2 ^ 32)) format_none))
    else if c.cmd == 1
    then ok (stop (stop_flags c.flags) (c.params % 2 ^ 64))
    else if c.cmd == 2
    then ok (pause (pause_flags c.flags))
    else if c.cmd == 3
    then ok resume
    else err (invalid_command_code c.cmd)

pub data DecoderCmdIoctlError : Type 0 where
  drain_in_progress unsupported_command : DecoderCmdIoctlError
  other : ℕ → DecoderCmdIoctlError

-- `From<DecoderCmdIoctlError> for Errno` and back; EBUSY is 16 and EINVAL is 22.
unfoldable pub decoder_cmd_errno : DecoderCmdIoctlError → ℕ
decoder_cmd_errno drain_in_progress = 16
decoder_cmd_errno unsupported_command = 22
decoder_cmd_errno (other e) = e

unfoldable pub decoder_cmd_error : ℕ → DecoderCmdIoctlError
decoder_cmd_error e =
    if e == 16 then drain_in_progress else if e == 22 then unsupported_command else other e

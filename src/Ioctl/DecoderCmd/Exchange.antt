-- ===== src/Ioctl/DecoderCmd/Exchange.antt =====
-- lib/src/ioctl/decoder_cmd.rs: the two conversions of commands, one after the other.
use v4l2r.Base.{ℕ, ◌+◌, ◌*◌, ◌/◌, ◌%◌, ◌^◌, ◌<◌, ◌≡◌, refl, Bool, true, false, ok, arith}
use v4l2r.Types.Enumn.{n_found}
use v4l2r.Ioctl.DecoderCmd.{
  StartCmdFlags, StopCmdFlags, PauseCmdFlags, start_bits, stop_bits, pause_bits, start_flags,
  stop_flags, pause_flags, DecoderStartCmdFormat, format_none, gop, start_format_u32,
  start_format_enum, DecoderCmd, start, stop, pause, resume, decoder_cmd_from, decoder_cmd_try_from,
  decoder_cmd_errno, decoder_cmd_error,
}

-- The numbers of a command fit their C types.
abbrev pub Fits : DecoderCmd → Type 0
Fits (start flags speed format) = speed < 2 ^ 32
Fits (stop flags pts) = pts < 2 ^ 64
Fits (pause flags) = Unit
Fits resume = Unit

start_flags-start_bits : (f : StartCmdFlags) → start_flags (start_bits f) ≡ f
unfolding start_flags start_bits
start_flags-start_bits f = go f.mute_audio
  where
    go :
        (b : Bool)
        → start_flags (start_bits (record { mute_audio = b })) ≡ record { mute_audio = b }
    go true = refl
    go false = refl

pause_flags-pause_bits : (f : PauseCmdFlags) → pause_flags (pause_bits f) ≡ f
unfolding pause_flags pause_bits
pause_flags-pause_bits f = go f.to_black
  where
    go : (b : Bool) → pause_flags (pause_bits (record { to_black = b })) ≡ record { to_black = b }
    go true = refl
    go false = refl

stop_flags-stop_bits : (f : StopCmdFlags) → stop_flags (stop_bits f) ≡ f
unfolding stop_flags stop_bits
stop_flags-stop_bits f = go f.to_black f.immediately
  where
    go :
        (b c : Bool)
        → stop_flags (stop_bits (record { to_black = b; immediately = c }))
          ≡ record { to_black = b; immediately = c }
    go true true = refl
    go true false = refl
    go false true = refl
    go false false = refl

speed_kept :
    (speed : ℕ) (f : DecoderStartCmdFormat)
    → speed < 2 ^ 32
    → (speed % 2 ^ 32 + start_format_u32 f * 2 ^ 32) % 2 ^ 32 ≡ speed
speed_kept speed format_none h = omega arith
speed_kept speed gop h = omega arith

format_kept :
    (speed : ℕ) (f : DecoderStartCmdFormat)
    → speed < 2 ^ 32
    → (speed % 2 ^ 32 + start_format_u32 f * 2 ^ 32) / 2 ^ 32 % 2 ^ 32 ≡ start_format_u32 f
format_kept speed format_none h = omega arith
format_kept speed gop h = omega arith

-- A command whose numbers fit their C types is unchanged by the conversion to the C structure and back,
-- its flags, speed, format and time included.
pub decoder_cmd_try_from-decoder_cmd_from :
    (c : DecoderCmd) → Fits c → decoder_cmd_try_from (decoder_cmd_from c) ≡ ok c
unfolding decoder_cmd_try_from decoder_cmd_from
decoder_cmd_try_from-decoder_cmd_from (start flags speed format) h =
    rw
      (
        start_flags-start_bits flags,
        speed_kept speed format h,
        format_kept speed format h,
        n_found format,
      )
      refl
decoder_cmd_try_from-decoder_cmd_from (stop flags pts) h =
    let kept : pts % 2 ^ 64 % 2 ^ 64 ≡ pts = omega arith in
    rw (stop_flags-stop_bits flags, kept) refl
decoder_cmd_try_from-decoder_cmd_from (pause flags) h = rw (pause_flags-pause_bits flags) refl
decoder_cmd_try_from-decoder_cmd_from resume h = refl

-- An error number that becomes an error of the command is given back by the error.
pub decoder_cmd_errno-decoder_cmd_error : (e : ℕ) → decoder_cmd_errno (decoder_cmd_error e) ≡ e
unfolding decoder_cmd_errno decoder_cmd_error
decoder_cmd_errno-decoder_cmd_error e = ground arith

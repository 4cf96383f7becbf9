-- ===== src/Tests/Kinds.antt =====
-- The theorems on queue types, formats and the buffers of the kernel, applied to concrete ones.
use v4l2r.Base.{
  ℕ, ◌≤◌, ◌<◌, ◌≡◌, refl, ◌↔◌, ◌⊎◌, true, List, [], ◌∷◌, none, some, ok, err, done, panicked, take,
  arith,
}
use v4l2r.Ioctl.DecoderCmd.{DecoderCmd, start, gop, decoder_cmd_from, decoder_cmd_try_from}
use v4l2r.Ioctl.DecoderCmd.Exchange.{decoder_cmd_try_from-decoder_cmd_from}
use v4l2r.Types.Enumn.{n}
use v4l2r.Types.QueueTypes.{
  memory_type_enum, queue_type_enum, QueueType, video_output, video_output_mplane, mmap,
  QueueDirection, is_multiplanar,
}
use v4l2r.Types.Colors.{ycbcr_encoding_enum, YcbcrEncoding}
use v4l2r.Types.Formats.{PlaneLayout, V4l2Format, format_try_from}
use v4l2r.Types.Formats.Layout.{Converts, format_try_from-Converts}
use v4l2r.Ioctl.Buffer.{
  V4l2Buffer, UncheckedBuffer, default_buffer, default_planes, video_max_planes, new, field,
  try_from, unknown_queue_type, set_num_planes, zero_planes_requested,
}
use v4l2r.Ioctl.Buffer.Planes.{IsValid, new-IsValid}
use v4l2r.Ioctl.Buffer.Checks.{Decides, try_from-Decides, try_from-field_panics}
use v4l2r.Ioctl.Buffer.Resize.{set_num_planes-panicked}
use v4l2r.Ioctl.Mplane.{
  PixMp, MplaneFormat, mplane_try_from, mplane_direction, mplane_ycbcr_enc, mplane_planes,
}
use v4l2r.Ioctl.Mplane.Validation.{Answers, mplane_try_from-accepted, mplane_try_from-ycbcr_enc}

abbrev layout : PlaneLayout
layout = record { sizeimage = 64; bytesperline = 8 }

abbrev layouts : List PlaneLayout
layouts = layout ∷ layout ∷ layout ∷ layout ∷ layout ∷ layout ∷ layout ∷ layout ∷ []

abbrev two_planes : V4l2Format
two_planes = record {
  type_ = 10;
  pix = record { width = 0; height = 0; pixelformat = 0; bytesperline = 0; sizeimage = 0 };
  pix_mp = record { width = 8; height = 8; pixelformat = 1; plane_fmt = layouts; num_planes = 2 };
}

format_try_from-Converts_example : Converts two_planes (format_try_from two_planes)
format_try_from-Converts_example = format_try_from-Converts two_planes

abbrev pix : PixMp
pix = record {
  width = 8;
  height = 8;
  pixelformat = 1;
  field = 77;
  colorspace = 1;
  plane_fmt = layouts;
  num_planes = 2;
  ycbcr_enc = 200;
  quantization = 1;
  xfer_func = 1;
}

abbrev good : MplaneFormat
good = record { type_ = 10; pix_mp = record pix { field = 1; ycbcr_enc = 1 } }

good_accepted : mplane_try_from good ≡ ok good
unfolding mplane_try_from n v4l2r.Types.Enumn.find_value
good_accepted = refl

mplane_try_from-accepted_example :
    (good ≡ good)
    × (1 ≤ 2)
    × (2 ≤ video_max_planes)
    × (mplane_planes good ≡ done (take 2 layouts))
    × ((d : QueueDirection) × (mplane_direction good ≡ done d))
    × Answers good
mplane_try_from-accepted_example = mplane_try_from-accepted good good_accepted refl

unknown_encoding : n {A = YcbcrEncoding} 200 ≡ none
unfolding n v4l2r.Types.Enumn.find_value
unknown_encoding = refl

abbrev bad : MplaneFormat
bad = record { type_ = 10; pix_mp = record pix { field = 1; ycbcr_enc = 200 } }

mplane_try_from-ycbcr_enc_example :
    (mplane_try_from bad ≡ ok bad) × (mplane_ycbcr_enc bad ≡ panicked)
mplane_try_from-ycbcr_enc_example =
    mplane_try_from-ycbcr_enc good 200 good_accepted unknown_encoding

abbrev bottom : UncheckedBuffer
bottom = record {
  raw = record default_buffer { type_ = 2; memory = 1; field = 3 };
  raw_planes = none;
}

abbrev bottom_checked : V4l2Buffer
bottom_checked = record {
  buffer = record default_buffer { type_ = 2; memory = 1; field = 3 };
  planes = default_planes;
}

bottom_accepted : try_from bottom ≡ ok bottom_checked
unfolding try_from n v4l2r.Types.Enumn.find_value
bottom_accepted = refl

try_from-field_panics_example :
    (field bottom_checked ≡ panicked) ↔ ((bottom.raw.field ≡ 3) ⊎ (9 < bottom.raw.field))
try_from-field_panics_example = try_from-field_panics bottom bottom_accepted

known_output : n {A = QueueType} 2 ≡ some video_output
unfolding n v4l2r.Types.Enumn.find_value
known_output = refl

try_from-Decides_example : Decides bottom (try_from bottom)
try_from-Decides_example = try_from-Decides bottom

abbrev odd : UncheckedBuffer
odd = record { raw = record default_buffer { type_ = 99 }; raw_planes = none }

odd_refused : try_from odd ≡ err (unknown_queue_type 99)
unfolding try_from n v4l2r.Types.Enumn.find_value
odd_refused = refl

abbrev fresh_buffer : V4l2Buffer
fresh_buffer = new video_output_mplane 0 mmap

fresh-IsValid : IsValid video_output_mplane fresh_buffer
fresh-IsValid = new-IsValid video_output_mplane 0 mmap

abbrev current : ℕ
current = fresh_buffer.buffer.length

set_num_planes-panicked_example : (set_num_planes fresh_buffer 2 ≡ panicked) ↔ (
    (is_multiplanar video_output_mplane ≡ true)
    × (fresh_buffer.buffer.length < 2)
    × (2 ≤ video_max_planes))
set_num_planes-panicked_example = set_num_planes-panicked fresh-IsValid 2

none_left : set_num_planes fresh_buffer 0 ≡ done (fresh_buffer, err zero_planes_requested)
unfolding set_num_planes v4l2r.Ioctl.Buffer.queue n v4l2r.Types.Enumn.find_value new
none_left = refl

abbrev no_planes : ℕ
no_planes = 0

same_size : set_num_planes fresh_buffer 1 ≡ done (fresh_buffer, ok tt)
unfolding set_num_planes v4l2r.Ioctl.Buffer.queue n v4l2r.Types.Enumn.find_value new
    v4l2r.Ioctl.Buffer.clear_planes
same_size = refl

abbrev play : DecoderCmd
play = start (record { mute_audio = true }) 5 gop

decoder_cmd_try_from-decoder_cmd_from_example :
    decoder_cmd_try_from (decoder_cmd_from play) ≡ ok play
decoder_cmd_try_from-decoder_cmd_from_example =
    decoder_cmd_try_from-decoder_cmd_from play (omega arith)

-- ===== src/Ioctl/Mplane.antt =====
-- lib/src/ioctl.rs: `V4l2MplaneFormat`, the validated multi-planar format, its two conversions and its
-- accessors. The fields that are `u8` in C keep their wrap-around.
pub mod Validation
use v4l2r.Base.{
  ℕ, ◌%◌, ◌^◌, Bool, true, false, ◌||◌, List, Option, some, Result, ok, err, Run, done, bind,
  unwrap, unwrap_or, ok_or, ◌>>=◌, ltb, leb, ◌==◌, if◌then◌else◌,
}
use v4l2r.Types.Enumn.{n}
use v4l2r.Types.QueueTypes.{
  queue_type_enum, QueueType, queue_type_u32, video_capture_mplane, video_output_mplane,
  QueueDirection, video_mplane, from_dir_and_class, direction,
}
use v4l2r.Types.Colors.{
  quantization_enum, ycbcr_encoding_enum, xfer_func_enum, colorspace_enum, buffer_field_enum,
  BufferField, field_any, buffer_field_u32, Colorspace, colorspace_default, colorspace_u32,
  XferFunc, xfer_default, xfer_func_u32, YcbcrEncoding, ycbcr_default, ycbcr_encoding_u32,
  Quantization, quantization_default, quantization_u32,
}
use v4l2r.Types.Formats.{PlaneLayout}
use v4l2r.Ioctl.Buffer.{video_max_planes, slice}

-- `v4l2_pix_format_mplane`
pub record PixMp : Type 0 where
  pub width : ℕ
  pub height : ℕ
  pub pixelformat : ℕ
  pub field : ℕ
  pub colorspace : ℕ
  pub plane_fmt : List PlaneLayout
  pub num_planes : ℕ
  pub ycbcr_enc : ℕ
  pub quantization : ℕ
  pub xfer_func : ℕ

-- `V4l2MplaneFormat`: a `v4l2_format` of which the union is read as `pix_mp`.
pub record MplaneFormat : Type 0 where
  pub type_ : ℕ
  pub pix_mp : PixMp

pub data MplaneFromError : Type 0 where
  not_multi_planar : MplaneFromError
  invalid_field : ℕ → MplaneFromError
  invalid_color_space : ℕ → MplaneFromError
  invalid_planes_number : ℕ → MplaneFromError
  invalid_ycbcr : ℕ → MplaneFromError
  invalid_quantization : ℕ → MplaneFromError
  invalid_xfer_func : ℕ → MplaneFromError

abbrev pub is_mplane : Option QueueType → Bool
is_mplane (some video_capture_mplane) = true
is_mplane (some video_output_mplane) = true
is_mplane _ = false

-- `TryFrom<v4l2_format> for V4l2MplaneFormat`. The result of the test of `ycbcr_enc` is bound to `_`
-- without a `?`, so that test has no effect and no line here.
unfoldable pub mplane_try_from : MplaneFormat → Result MplaneFromError MplaneFormat
mplane_try_from f =
    if is_mplane (n f.type_)
    then if f.pix_mp.num_planes == 0 || ltb video_max_planes f.pix_mp.num_planes
      then err (invalid_planes_number f.pix_mp.num_planes)
      else ok_or (n {A = BufferField} f.pix_mp.field) (invalid_field f.pix_mp.field)
        >>= (λ _.
            ok_or (n {A = Colorspace} f.pix_mp.colorspace)
              (invalid_color_space f.pix_mp.colorspace))
        >>= (λ _.
            ok_or (n {A = Quantization} f.pix_mp.quantization)
              (invalid_quantization f.pix_mp.quantization))
        >>= (λ _.
            ok_or (n {A = XferFunc} f.pix_mp.xfer_func) (invalid_xfer_func f.pix_mp.xfer_func))
        >>= (λ _. ok f)
    else err not_multi_planar

-- `From<(QueueDirection, v4l2_pix_format_mplane)> for V4l2MplaneFormat`
unfoldable pub mplane_from : QueueDirection → PixMp → MplaneFormat
mplane_from d p = record {
  type_ = queue_type_u32 (from_dir_and_class d video_mplane);
  pix_mp = record p {
    field = buffer_field_u32 (unwrap_or (n p.field) field_any);
    colorspace = colorspace_u32 (unwrap_or (n p.colorspace) colorspace_default);
    ycbcr_enc = ycbcr_encoding_u32 (unwrap_or (n p.ycbcr_enc) ycbcr_default) % 2 ^ 8;
    quantization = quantization_u32 (unwrap_or (n p.quantization) quantization_default) % 2 ^ 8;
    xfer_func = xfer_func_u32 (unwrap_or (n p.xfer_func) xfer_default) % 2 ^ 8;
  };
}

-- The accessors, each of which unwraps a conversion.
unfoldable pub mplane_direction : MplaneFormat → Run QueueDirection
mplane_direction f = bind (unwrap (n f.type_)) λ q. done (direction q)

unfoldable pub mplane_field : MplaneFormat → Run BufferField
mplane_field f = unwrap (n f.pix_mp.field)

unfoldable pub mplane_colorspace : MplaneFormat → Run Colorspace
mplane_colorspace f = unwrap (n f.pix_mp.colorspace)

unfoldable pub mplane_ycbcr_enc : MplaneFormat → Run YcbcrEncoding
mplane_ycbcr_enc f = unwrap (n f.pix_mp.ycbcr_enc)

unfoldable pub mplane_quantization : MplaneFormat → Run Quantization
mplane_quantization f = unwrap (n f.pix_mp.quantization)

unfoldable pub mplane_xfer_func : MplaneFormat → Run XferFunc
mplane_xfer_func f = unwrap (n f.pix_mp.xfer_func)

-- `V4l2MplaneFormat::planes`
unfoldable pub mplane_planes : MplaneFormat → Run (List PlaneLayout)
mplane_planes f =
    slice 0
      (if leb f.pix_mp.num_planes video_max_planes then f.pix_mp.num_planes else video_max_planes)
      f.pix_mp.plane_fmt

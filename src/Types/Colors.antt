-- ===== src/Types/Colors.antt =====
-- lib/src/lib.rs: `Colorspace`, `XferFunc`, `YCbCrEncoding`, `Quantization`; lib/src/ioctl.rs:
-- `BufferField`. The discriminants are those of lib/src/bindings/videodev2_64.rs, lines 8505 to
-- 8581. `n ... unwrap_or_default` falls back on the variant marked `#[default]`, the first one here.
use v4l2r.Base.{ℕ, ◌≡◌, refl, List, [], ◌∷◌, some}
use v4l2r.Types.Enumn.{CEnum, find_value}

pub data BufferField : Type 0 where
  field_any field_none top interlaced seq_tb seq_bt alternate interlaced_tb interlaced_bt :
      BufferField

abbrev pub buffer_field_u32 : BufferField → ℕ
buffer_field_u32 field_any = 0
buffer_field_u32 field_none = 1
buffer_field_u32 top = 2
buffer_field_u32 interlaced = 4
buffer_field_u32 seq_tb = 5
buffer_field_u32 seq_bt = 6
buffer_field_u32 alternate = 7
buffer_field_u32 interlaced_tb = 8
buffer_field_u32 interlaced_bt = 9

abbrev pub buffer_fields : List BufferField
buffer_fields =
    field_any ∷ field_none ∷ top ∷ interlaced ∷ seq_tb ∷ seq_bt ∷ alternate ∷ interlaced_tb
    ∷ interlaced_bt ∷ []

pub buffer_field_found :
    (q : BufferField) → find_value buffer_field_u32 buffer_fields (buffer_field_u32 q) ≡ some q
unfolding find_value
buffer_field_found field_any = refl
buffer_field_found field_none = refl
buffer_field_found top = refl
buffer_field_found interlaced = refl
buffer_field_found seq_tb = refl
buffer_field_found seq_bt = refl
buffer_field_found alternate = refl
buffer_field_found interlaced_tb = refl
buffer_field_found interlaced_bt = refl

instance abbrev pub buffer_field_enum : CEnum BufferField
buffer_field_enum = record {
  to_u32 = buffer_field_u32;
  variants = buffer_fields;
  found = buffer_field_found;
}

pub data Colorspace : Type 0 where
  colorspace_default smpte170m smpte240m rec709 bt878 system_m470 system_bg470 jpeg srgb op_rgb
        bt2020 raw dci_p3 :
      Colorspace

abbrev pub colorspace_u32 : Colorspace → ℕ
colorspace_u32 colorspace_default = 0
colorspace_u32 smpte170m = 1
colorspace_u32 smpte240m = 2
colorspace_u32 rec709 = 3
colorspace_u32 bt878 = 4
colorspace_u32 system_m470 = 5
colorspace_u32 system_bg470 = 6
colorspace_u32 jpeg = 7
colorspace_u32 srgb = 8
colorspace_u32 op_rgb = 9
colorspace_u32 bt2020 = 10
colorspace_u32 raw = 11
colorspace_u32 dci_p3 = 12

abbrev pub colorspaces : List Colorspace
colorspaces =
    colorspace_default ∷ smpte170m ∷ smpte240m ∷ rec709 ∷ bt878 ∷ system_m470 ∷ system_bg470 ∷ jpeg
    ∷ srgb ∷ op_rgb ∷ bt2020 ∷ raw ∷ dci_p3 ∷ []

pub colorspace_found :
    (q : Colorspace) → find_value colorspace_u32 colorspaces (colorspace_u32 q) ≡ some q
unfolding find_value
colorspace_found colorspace_default = refl
colorspace_found smpte170m = refl
colorspace_found smpte240m = refl
colorspace_found rec709 = refl
colorspace_found bt878 = refl
colorspace_found system_m470 = refl
colorspace_found system_bg470 = refl
colorspace_found jpeg = refl
colorspace_found srgb = refl
colorspace_found op_rgb = refl
colorspace_found bt2020 = refl
colorspace_found raw = refl
colorspace_found dci_p3 = refl

instance abbrev pub colorspace_enum : CEnum Colorspace
colorspace_enum = record {
  to_u32 = colorspace_u32;
  variants = colorspaces;
  found = colorspace_found;
}

pub data XferFunc : Type 0 where
  xfer_default f709 xfer_srgb xfer_op_rgb xfer_smpte240m xfer_none xfer_dci_p3 smpte2084 : XferFunc

abbrev pub xfer_func_u32 : XferFunc → ℕ
xfer_func_u32 xfer_default = 0
xfer_func_u32 f709 = 1
xfer_func_u32 xfer_srgb = 2
xfer_func_u32 xfer_op_rgb = 3
xfer_func_u32 xfer_smpte240m = 4
xfer_func_u32 xfer_none = 5
xfer_func_u32 xfer_dci_p3 = 6
xfer_func_u32 smpte2084 = 7

abbrev pub xfer_funcs : List XferFunc
xfer_funcs =
    xfer_default ∷ f709 ∷ xfer_srgb ∷ xfer_op_rgb ∷ xfer_smpte240m ∷ xfer_none ∷ xfer_dci_p3
    ∷ smpte2084 ∷ []

pub xfer_func_found :
    (q : XferFunc) → find_value xfer_func_u32 xfer_funcs (xfer_func_u32 q) ≡ some q
unfolding find_value
xfer_func_found xfer_default = refl
xfer_func_found f709 = refl
xfer_func_found xfer_srgb = refl
xfer_func_found xfer_op_rgb = refl
xfer_func_found xfer_smpte240m = refl
xfer_func_found xfer_none = refl
xfer_func_found xfer_dci_p3 = refl
xfer_func_found smpte2084 = refl

instance abbrev pub xfer_func_enum : CEnum XferFunc
xfer_func_enum = record { to_u32 = xfer_func_u32; variants = xfer_funcs; found = xfer_func_found }

pub data YcbcrEncoding : Type 0 where
  ycbcr_default e601 e709 xv601 xv709 sycc ycbcr_bt2020 bt2020_const_lum ycbcr_smpte240m :
      YcbcrEncoding

abbrev pub ycbcr_encoding_u32 : YcbcrEncoding → ℕ
ycbcr_encoding_u32 ycbcr_default = 0
ycbcr_encoding_u32 e601 = 1
ycbcr_encoding_u32 e709 = 2
ycbcr_encoding_u32 xv601 = 3
ycbcr_encoding_u32 xv709 = 4
ycbcr_encoding_u32 sycc = 5
ycbcr_encoding_u32 ycbcr_bt2020 = 6
ycbcr_encoding_u32 bt2020_const_lum = 7
ycbcr_encoding_u32 ycbcr_smpte240m = 8

abbrev pub ycbcr_encodings : List YcbcrEncoding
ycbcr_encodings =
    ycbcr_default ∷ e601 ∷ e709 ∷ xv601 ∷ xv709 ∷ sycc ∷ ycbcr_bt2020 ∷ bt2020_const_lum
    ∷ ycbcr_smpte240m ∷ []

pub ycbcr_encoding_found :
    (q : YcbcrEncoding)
    → find_value ycbcr_encoding_u32 ycbcr_encodings (ycbcr_encoding_u32 q) ≡ some q
unfolding find_value
ycbcr_encoding_found ycbcr_default = refl
ycbcr_encoding_found e601 = refl
ycbcr_encoding_found e709 = refl
ycbcr_encoding_found xv601 = refl
ycbcr_encoding_found xv709 = refl
ycbcr_encoding_found sycc = refl
ycbcr_encoding_found ycbcr_bt2020 = refl
ycbcr_encoding_found bt2020_const_lum = refl
ycbcr_encoding_found ycbcr_smpte240m = refl

instance abbrev pub ycbcr_encoding_enum : CEnum YcbcrEncoding
ycbcr_encoding_enum = record {
  to_u32 = ycbcr_encoding_u32;
  variants = ycbcr_encodings;
  found = ycbcr_encoding_found;
}

pub data Quantization : Type 0 where
  quantization_default full_range lim_range : Quantization

abbrev pub quantization_u32 : Quantization → ℕ
quantization_u32 quantization_default = 0
quantization_u32 full_range = 1
quantization_u32 lim_range = 2

abbrev pub quantizations : List Quantization
quantizations = quantization_default ∷ full_range ∷ lim_range ∷ []

pub quantization_found :
    (q : Quantization) → find_value quantization_u32 quantizations (quantization_u32 q) ≡ some q
unfolding find_value
quantization_found quantization_default = refl
quantization_found full_range = refl
quantization_found lim_range = refl

instance abbrev pub quantization_enum : CEnum Quantization
quantization_enum = record {
  to_u32 = quantization_u32;
  variants = quantizations;
  found = quantization_found;
}

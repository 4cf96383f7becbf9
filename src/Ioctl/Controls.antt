-- ===== src/Ioctl/Controls.antt =====
-- lib/src/ioctl/g_ext_ctrls.rs: the parameters of an FWHT frame, and which values of controls are meant;
-- lib/src/ioctl/queryctrl.rs: the number of a control. The structures keep the fields that are read here.
pub mod Validation
pub mod Selection
use v4l2r.Base.{
  ℕ, ◌+◌, ◌/◌, ◌%◌, ◌^◌, Bool, ◌&&◌, not, Option, none, some, Result, ok, err, Run, ok_or, unwrap,
  ◌>>=◌, ltb, leb, ◌==◌, if◌then◌else◌,
}
use v4l2r.Types.Enumn.{n}
use v4l2r.Types.Colors.{
  Colorspace, colorspace_enum, XferFunc, xfer_func_enum, YcbcrEncoding, ycbcr_encoding_enum,
  Quantization, quantization_enum,
}

-- `v4l2_ctrl_fwht_params`
pub record RawFwhtParams : Type 0 where
  pub backward_ref_ts : ℕ
  pub version : ℕ
  pub width : ℕ
  pub height : ℕ
  pub flags : ℕ
  pub colorspace : ℕ
  pub xfer_func : ℕ
  pub ycbcr_enc : ℕ
  pub quantization : ℕ

pub data FwhtParamsCtrlError : Type 0 where
  invalid_flags invalid_colorspace invalid_xfer_func invalid_ycbcr_encoding invalid_quantization :
      ℕ → FwhtParamsCtrlError

-- `FwhtFlags`, as the number of its bits, and `from_bits`: the known bits are the eleven lowest.
abbrev pub fwht_flags_from_bits : ℕ → Option ℕ
fwht_flags_from_bits bits = if ltb bits (2 ^ 11) then some bits else none

-- `TryFrom<v4l2_ctrl_fwht_params> for ValidControl<v4l2_ctrl_fwht_params>`
unfoldable pub fwht_try_from : RawFwhtParams → Result FwhtParamsCtrlError RawFwhtParams
fwht_try_from v = ok_or (fwht_flags_from_bits v.flags) (invalid_flags v.flags) >>= λ _.
    ok_or (n {A = Colorspace} v.colorspace) (invalid_colorspace v.colorspace) >>= λ _.
    ok_or (n {A = XferFunc} v.xfer_func) (invalid_xfer_func v.xfer_func) >>= λ _.
    ok_or (n {A = YcbcrEncoding} v.ycbcr_enc) (invalid_ycbcr_encoding v.ycbcr_enc) >>= λ _.
    ok_or (n {A = Quantization} v.quantization) (invalid_quantization v.quantization) >>= λ _. ok v

-- The accessors of a `ValidControl<v4l2_ctrl_fwht_params>`.
unfoldable pub fwht_flags : RawFwhtParams → Run ℕ
fwht_flags v = unwrap (fwht_flags_from_bits v.flags)

unfoldable pub fwht_colorspace : RawFwhtParams → Run Colorspace
fwht_colorspace v = unwrap (n v.colorspace)

unfoldable pub fwht_xfer_func : RawFwhtParams → Run XferFunc
fwht_xfer_func v = unwrap (n v.xfer_func)

unfoldable pub fwht_ycbcr_enc : RawFwhtParams → Run YcbcrEncoding
fwht_ycbcr_enc v = unwrap (n v.ycbcr_enc)

unfoldable pub fwht_quantization : RawFwhtParams → Run Quantization
fwht_quantization v = unwrap (n v.quantization)

pub data CtrlWhich : Type 0 where
  current_values default_values : CtrlWhich
  request_values class_values : ℕ → CtrlWhich

-- `v4l2_ext_controls`
pub record RawControls : Type 0 where
  pub which : ℕ
  pub request_fd : ℕ

-- `CtrlWhich::binding_value`
unfoldable pub binding_value : CtrlWhich → ℕ
binding_value current_values = 0
binding_value default_values = 251658240
binding_value (request_values fd) = 251723776
binding_value (class_values class) = class

-- The descriptor that `g_ext_ctrls`, `s_ext_ctrls` and `try_ext_ctrls` put into the structure.
abbrev pub request_fd_of : CtrlWhich → ℕ
request_fd_of (request_values fd) = fd
request_fd_of _ = 0

-- The classes the conversion knows: each is a multiple of `2 ^ 16`, from 0x980000 to 0xa50000.
abbrev pub is_known_class : ℕ → Bool
is_known_class class = leb 152 (class / 2 ^ 16) && leb (class / 2 ^ 16) 165 && (class % 2 ^ 16 == 0)

-- `TryFrom<&v4l2_ext_controls> for CtrlWhich`
unfoldable pub ctrl_which_try_from : RawControls → Result (Unit {0}) CtrlWhich
ctrl_which_try_from c =
    if c.which == 0
    then ok current_values
    else if c.which == 251658240
    then ok default_values
    else if c.which == 251723776
    then ok (request_values c.request_fd)
    else if is_known_class c.which
    then ok (class_values c.which)
    else err tt

-- `CtrlId`, as the number it holds; the mask `V4L2_CTRL_ID_MASK` keeps the lowest 28 bits.
pub data CtrlIdError : Type 0 where
  invalid_control : ℕ → CtrlIdError

unfoldable pub new_ctrl_id : ℕ → Result CtrlIdError ℕ
new_ctrl_id ctrl = if not (ctrl % 2 ^ 28 == ctrl) then err (invalid_control ctrl) else ok ctrl

-- `QueryCtrlFlags`: bit 31 and bit 30.
pub record QueryCtrlFlags : Type 0 where
  pub next_ctrl : Bool
  pub compound : Bool

unfoldable pub parse_ctrl_id_and_flags : ℕ → ℕ × QueryCtrlFlags
parse_ctrl_id_and_flags ctrl = (
  ctrl % 2 ^ 28,
  record { next_ctrl = ctrl / 2 ^ 31 % 2 == 1; compound = ctrl / 2 ^ 30 % 2 == 1 },
)

-- `id.0 | flags.bits()` in `queryctrl` and `query_ext_ctrl`; the bits of a `CtrlId` are below the flags.
unfoldable pub query_id : ℕ → QueryCtrlFlags → ℕ
query_id id f = id + (if f.next_ctrl then 2 ^ 31 else 0) + (if f.compound then 2 ^ 30 else 0)

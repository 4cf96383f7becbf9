-- ===== src/Types/Formats.antt =====
-- lib/src/lib.rs: `PlaneLayout`, `Format` and its conversion from the structure of the kernel. A
-- `PixelFormat` is its number. The union of the C structure is read as the two views that the code
-- takes of it.
pub mod Layout
use v4l2r.Base.{
  ℕ, zero, suc, ◌+◌, ◌||◌, List, [], ◌∷◌, none, some, Result, ok, err, Run, done, panicked, bind,
  ltb, ◌==◌, if◌then◌else◌, length, get_elem?,
}

pub record PlaneLayout : Type 0 where
  pub sizeimage : ℕ
  pub bytesperline : ℕ

pub record Format : Type 0 where
  pub width : ℕ
  pub height : ℕ
  pub pixelformat : ℕ
  pub plane_fmt : List PlaneLayout

pub data FormatConversionError : Type 0 where
  too_many_planes : ℕ → FormatConversionError
  invalid_buffer_type : ℕ → FormatConversionError

-- `v4l2_pix_format`, `v4l2_pix_format_mplane` (8 planes) and `v4l2_format`.
pub record PixFormat : Type 0 where
  pub width : ℕ
  pub height : ℕ
  pub pixelformat : ℕ
  pub bytesperline : ℕ
  pub sizeimage : ℕ

pub record PixFormatMplane : Type 0 where
  pub width : ℕ
  pub height : ℕ
  pub pixelformat : ℕ
  pub plane_fmt : List PlaneLayout
  pub num_planes : ℕ

pub record V4l2Format : Type 0 where
  pub type_ : ℕ
  pub pix : PixFormat
  pub pix_mp : PixFormatMplane

-- The loop `for i in 0..num_planes`, where `n` planes are left; indexing out of bounds panics.
unfoldable pub copy_planes : List PlaneLayout → ℕ → ℕ → Run (List PlaneLayout)
copy_planes planes i zero = done []
copy_planes planes i (suc n) = elim (get_elem? planes i) [
  | none ↦ panicked
  | some p ↦ bind (copy_planes planes (i + 1) n) λ rest. done (p ∷ rest)
]

-- `TryFrom<v4l2_format> for Format`; 1 and 2 are CAPTURE and OUTPUT, 9 and 10 the multi-planar ones.
unfoldable pub format_try_from : V4l2Format → Run (Result FormatConversionError Format)
format_try_from fmt =
    if fmt.type_ == 1 || fmt.type_ == 2
    then done (
        ok (record {
          width = fmt.pix.width;
          height = fmt.pix.height;
          pixelformat = fmt.pix.pixelformat;
          plane_fmt =
              record { sizeimage = fmt.pix.sizeimage; bytesperline = fmt.pix.bytesperline } ∷ [];
        }))
    else if fmt.type_ == 9 || fmt.type_ == 10
    then if ltb (length fmt.pix_mp.plane_fmt) fmt.pix_mp.num_planes
      then done (err (too_many_planes fmt.pix_mp.num_planes))
      else bind (copy_planes fmt.pix_mp.plane_fmt 0 fmt.pix_mp.num_planes) (λ planes. done (
          ok (record {
            width = fmt.pix_mp.width;
            height = fmt.pix_mp.height;
            pixelformat = fmt.pix_mp.pixelformat;
            plane_fmt = planes;
          })))
    else done (err (invalid_buffer_type fmt.type_))

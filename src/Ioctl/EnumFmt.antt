-- ===== src/Ioctl/EnumFmt.antt =====
-- lib/src/ioctl/enum_fmt.rs: listing the formats of a queue. What the kernel answers at an index is a
-- parameter, and so is the reading of its structure.
pub mod Listing
use v4l2r.Base.{
  ℕ, zero, suc, ◌+◌, ◌%◌, ◌^◌, Option, none, some, List, [], ◌∷◌, Result, ok, err, map_ok,
}
use v4l2r.Ioctl.Events.{Errno}

-- An item of the iterator and the formats that follow it.
abbrev pub add_format {ℓ} : {T : Type ℓ} → Option T → Option (List T) → Option (List T)
add_format none rest = some []
add_format (some fmtdesc) none = none
add_format (some fmtdesc) (some others) = some (fmtdesc ∷ others)

module _ {ℓ κ} {Raw : Type κ} {T : Type ℓ} (from : Raw → T) (ioctl : ℕ → Result Errno Raw) where
  -- `enum_fmt`, whose error is the number of the kernel.
  unfoldable pub enum_fmt : ℕ → Result Errno T
  enum_fmt index = map_ok from (ioctl index)

  -- `FormatIterator::next`, on the index of the iterator, a `u32` that wraps around. EINVAL and the other
  -- errors, which are logged, end the iteration alike.
  unfoldable pub next_format : ℕ → ℕ × Option T
  next_format index = elim (enum_fmt index) [
    | ok fmtdesc ↦ ((index + 1) % 2 ^ 32, some fmtdesc)
    | err e ↦ (index, none)
  ]

  -- The formats an iterator gives, `none` if it has not ended within the fuel.
  unfoldable pub collect_formats : (fuel : ℕ) → ℕ → Option (List T)
  collect_formats zero index = none
  collect_formats (suc fuel) index =
      let (index', item) = next_format index in add_format item (collect_formats fuel index')

-- ===== src/Ioctl/EnumFmt/Listing.antt =====
-- lib/src/ioctl/enum_fmt.rs: the iterator gives the formats of the kernel, and ends.
use v4l2r.Base.{
  ℕ, zero, suc, ◌+◌, ◌%◌, ◌^◌, ◌<◌, none, some, List, [], ◌∷◌, map, length, Result, ok, err, ◌≡◌,
  refl, ap, ◌∙◌, arith,
}
use v4l2r.Ioctl.Events.{Errno}
use v4l2r.Ioctl.EnumFmt.{add_format, enum_fmt, next_format, collect_formats}

-- From an index on, the kernel describes these formats, and refuses the index after them.
pub data Describes {κ} {Raw : Type κ} (ioctl : ℕ → Result Errno Raw) : ℕ → List Raw → Type κ where
  no_more : {i : ℕ} {e : Errno} → ioctl i ≡ err e → Describes ioctl i []
  one_more :
      {i : ℕ} {raw : Raw} {raws : List Raw}
      → ioctl i ≡ ok raw
      → Describes ioctl (i + 1) raws
      → Describes ioctl i (raw ∷ raws)

module _ {ℓ κ} {Raw : Type κ} {T : Type ℓ} (from : Raw → T) (ioctl : ℕ → Result Errno Raw) where
  next_format_given :
      (i : ℕ) {raw : Raw}
      → ioctl i ≡ ok raw
      → i + 1 < 2 ^ 32
      → next_format from ioctl i ≡ (i + 1, some (from raw))
  unfolding next_format enum_fmt
  next_format_given i e lt =
      let index : (i + 1) % 2 ^ 32 ≡ i + 1 = omega arith in
      rw (next_format, enum_fmt, e, index) refl

  next_format_refused : (i : ℕ) {e : Errno} → ioctl i ≡ err e → next_format from ioctl i ≡ (i, none)
  unfolding next_format enum_fmt
  next_format_refused i e = rw (next_format, enum_fmt, e) refl

  -- If the kernel describes fewer formats than there are indices from where the iterator stands, the
  -- iterator gives each of them once, in the kernel's order, and ends with the next call.
  pub collect_formats-Describes :
      (i : ℕ) (raws : List Raw)
      → Describes ioctl i raws
      → i + length raws < 2 ^ 32
      → collect_formats from ioctl (suc (length raws)) i ≡ some (map from raws)
  unfolding collect_formats
  collect_formats-Describes i [] (no_more e) lt =
      ap (λ p. add_format p.1 (collect_formats from ioctl zero p.0)) (next_format_refused i e)
  collect_formats-Describes i (raw ∷ raws) (one_more e d) lt =
      let room : i + 1 + length raws < 2 ^ 32 = omega arith in
      let few : i + 1 < 2 ^ 32 = omega arith in
      ap (λ p. add_format p.1 (collect_formats from ioctl (suc (length raws)) p.0))
        (next_format_given i e few)
      ∙ ap (add_format (some (from raw))) (collect_formats-Describes (i + 1) raws d room)

-- ===== src/Types/Formats/Layout.antt =====
-- lib/src/lib.rs: the planes of a converted format.
use v4l2r.Base.{
  ℕ, zero, suc, ◌+◌, ◌≤◌, ◌<◌, ◌≡◌, refl, ap, ◌∙◌, ◌⊎◌, ◌≢◌, true, false, ◌||◌, List, [], ◌∷◌, some,
  Result, ok, err, Run, done, arith, ltb, ◌==◌, length, get_elem?, take, drop, Bool-cases, inl, inr,
}
use v4l2r.Types.Formats.{
  PlaneLayout, Format, V4l2Format, FormatConversionError, too_many_planes, invalid_buffer_type,
  copy_planes, format_try_from,
}

drop-found :
    (planes : List PlaneLayout) (i : ℕ)
    → i < length planes
    → (p : PlaneLayout) × (get_elem? planes i ≡ some p) × (drop i planes ≡ p ∷ drop (suc i) planes)
drop-found [] i h = absurd (omega arith)
drop-found (p ∷ planes) zero h = (p, refl, refl)
drop-found (p ∷ planes) (suc i) h = drop-found planes i (omega arith)

copy_planes-take :
    (planes : List PlaneLayout) (i n : ℕ)
    → i + n ≤ length planes
    → copy_planes planes i n ≡ done (take n (drop i planes))
unfolding copy_planes
copy_planes-take planes i zero h = refl
copy_planes-take planes i (suc n) h =
    let (p, found, dropped) = drop-found planes i (omega arith) in
    let next : i + 1 ≡ suc i = omega arith in
    let rest : copy_planes planes (i + 1) n ≡ done (take n (drop (suc i) planes)) =
      copy_planes-take planes (i + 1) n (omega arith)
      ∙ ap (λ k. done (take n (drop k planes))) next in
    ground (arith, found, dropped, rest)

-- What converting the structure of the kernel gives, by its buffer type.
pub data Converts (fmt : V4l2Format) : Run (Result FormatConversionError Format) → Type 0 where
  single_planar :
      ((fmt.type_ ≡ 1) ⊎ (fmt.type_ ≡ 2))
      → Converts fmt (
          done (
            ok (record {
              width = fmt.pix.width;
              height = fmt.pix.height;
              pixelformat = fmt.pix.pixelformat;
              plane_fmt =
                  record { sizeimage = fmt.pix.sizeimage; bytesperline = fmt.pix.bytesperline }
                  ∷ [];
            })))
  multi_planar :
      ((fmt.type_ ≡ 9) ⊎ (fmt.type_ ≡ 10))
      → fmt.pix_mp.num_planes ≤ length fmt.pix_mp.plane_fmt
      → Converts fmt (
          done (
            ok (record {
              width = fmt.pix_mp.width;
              height = fmt.pix_mp.height;
              pixelformat = fmt.pix_mp.pixelformat;
              plane_fmt = take fmt.pix_mp.num_planes fmt.pix_mp.plane_fmt;
            })))
  malformed :
      ((fmt.type_ ≡ 9) ⊎ (fmt.type_ ≡ 10))
      → length fmt.pix_mp.plane_fmt < fmt.pix_mp.num_planes
      → Converts fmt (done (err (too_many_planes fmt.pix_mp.num_planes)))
  other_type :
      fmt.type_ ≢ 1
      → fmt.type_ ≢ 2
      → fmt.type_ ≢ 9
      → fmt.type_ ≢ 10
      → Converts fmt (done (err (invalid_buffer_type fmt.type_)))

type-cases :
    (t : ℕ)
    → (((t == 1 || t == 2) ≡ true) × ((t ≡ 1) ⊎ (t ≡ 2)))
      ⊎ (((t == 1 || t == 2) ≡ false) × ((t == 9 || t == 10) ≡ true) × ((t ≡ 9) ⊎ (t ≡ 10)))
      ⊎ (((t == 1 || t == 2) ≡ false)
          × ((t == 9 || t == 10) ≡ false)
          × (t ≢ 1)
          × (t ≢ 2)
          × (t ≢ 9)
          × (t ≢ 10))
type-cases t = elim (Bool-cases (t == 1 || t == 2)) [
  | inl e ↦ inl (e, ground arith)
  | inr e ↦ elim (Bool-cases (t == 9 || t == 10)) [
    | inl f ↦ inr (inl (e, f, ground arith))
    | inr f ↦ inr (inr (e, f, ground arith, ground arith, ground arith, ground arith))
  ]
]

-- Converting a format never panics. A CAPTURE or OUTPUT one gives a single plane; a multi-planar one
-- gives its first `num_planes` planes, in order, or an error if it claims more than it has; every
-- other buffer type is refused with its number.
pub format_try_from-Converts : (fmt : V4l2Format) → Converts fmt (format_try_from fmt)
unfolding format_try_from
format_try_from-Converts fmt = elim (type-cases fmt.type_) [
  | inl (e, t) ↦ rw e (single_planar t)
  | inr (inl (e, f, t)) ↦
      elim (Bool-cases (ltb (length fmt.pix_mp.plane_fmt) fmt.pix_mp.num_planes)) [
        | inl l ↦ rw (e, f, l) (malformed t (ground arith))
        | inr l ↦
            let copied =
              copy_planes-take fmt.pix_mp.plane_fmt 0 fmt.pix_mp.num_planes (ground arith) in
            rw (e, f, l, copied) (multi_planar t (ground arith))
      ]
  | inr (inr (e, f, n1, n2, n9, n10)) ↦ rw (e, f) (other_type n1 n2 n9 n10)
]

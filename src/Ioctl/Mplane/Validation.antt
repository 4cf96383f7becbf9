-- ===== src/Ioctl/Mplane/Validation.antt =====
-- lib/src/ioctl.rs: what a validated multi-planar format guarantees.
use v4l2r.Base.{
  ℕ, ◌%◌, ◌^◌, ◌≤◌, ◌≡◌, refl, ap, ◌∙◌, true, false, ◌||◌, none, some, ok, done, panicked, bind,
  unwrap, unwrap_or, arith, ltb, ◌==◌, length, take, Option-cases, Bool-cases, inl, inr,
}
use v4l2r.Types.Enumn.{n, n_found}
use v4l2r.Types.QueueTypes.{
  queue_type_enum, QueueType, QueueDirection, video_mplane, from_dir_and_class, direction,
}
use v4l2r.Types.Colors.{
  quantization_enum, ycbcr_encoding_enum, xfer_func_enum, colorspace_enum, buffer_field_enum,
  BufferField, field_any, Colorspace, colorspace_default, XferFunc, xfer_default, xfer_func_u32,
  YcbcrEncoding, ycbcr_default, ycbcr_encoding_u32, Quantization, quantization_default,
  quantization_u32,
}
use v4l2r.Ioctl.Buffer.{video_max_planes, slice}
use v4l2r.Ioctl.Mplane.{
  PixMp, MplaneFormat, is_mplane, mplane_try_from, mplane_from, mplane_direction, mplane_field,
  mplane_colorspace, mplane_ycbcr_enc, mplane_quantization, mplane_xfer_func, mplane_planes,
}

-- What the accessors of a format give, but for `ycbcr_enc`.
pub record Answers (f : MplaneFormat) : Type 0 where
  pub buffer_field : BufferField
  pub field_answers : mplane_field f ≡ done buffer_field
  pub space : Colorspace
  pub colorspace_answers : mplane_colorspace f ≡ done space
  pub range : Quantization
  pub quantization_answers : mplane_quantization f ≡ done range
  pub func : XferFunc
  pub xfer_func_answers : mplane_xfer_func f ≡ done func

-- What an accepted format has passed.
record Passed (f f' : MplaneFormat) : Type 0 where
  same : f ≡ f'
  mplane : is_mplane (n f.type_) ≡ true
  planes_ok : (f.pix_mp.num_planes == 0 || ltb video_max_planes f.pix_mp.num_planes) ≡ false
  answers : Answers f

passed : (f : MplaneFormat) {f' : MplaneFormat} → mplane_try_from f ≡ ok f' → Passed f f'
unfolding mplane_try_from mplane_field mplane_colorspace mplane_quantization mplane_xfer_func
passed f {f'} h = elim (Bool-cases (is_mplane (n f.type_))) [
  | inr t ↦ absurd (ground arith)
  | inl t ↦
      elim (Bool-cases (f.pix_mp.num_planes == 0 || ltb video_max_planes f.pix_mp.num_planes)) [
        | inl p ↦ absurd (ground arith)
        | inr p ↦ elim (Option-cases (n {A = BufferField} f.pix_mp.field)) [
          | inl a ↦ absurd (ground arith)
          | inr (x, a) ↦ elim (Option-cases (n {A = Colorspace} f.pix_mp.colorspace)) [
            | inl b ↦ absurd (ground arith)
            | inr (y, b) ↦ elim (Option-cases (n {A = Quantization} f.pix_mp.quantization)) [
              | inl c ↦ absurd (ground arith)
              | inr (z, c) ↦ elim (Option-cases (n {A = XferFunc} f.pix_mp.xfer_func)) [
                | inl d ↦ absurd (ground arith)
                | inr (u, d) ↦ record {
                  same = ground arith;
                  mplane = t;
                  planes_ok = p;
                  answers = record {
                    buffer_field = x;
                    field_answers = ground arith;
                    space = y;
                    colorspace_answers = ground arith;
                    range = z;
                    quantization_answers = ground arith;
                    func = u;
                    xfer_func_answers = ground arith;
                  };
                }
              ]
            ]
          ]
        ]
      ]
]

direction-answers :
    (f : MplaneFormat)
    → is_mplane (n f.type_) ≡ true
    → (d : QueueDirection) × (mplane_direction f ≡ done d)
unfolding mplane_direction
direction-answers f h = elim (Option-cases (n {A = QueueType} f.type_)) [
  | inl e ↦ absurd (ground arith)
  | inr (q, e) ↦ (direction q, ground arith)
]

-- A multi-planar format that the conversion accepts is the one given; it has 1 to `VIDEO_MAX_PLANES`
-- planes, `planes` gives the first `num_planes` of its array of `VIDEO_MAX_PLANES` layouts, and
-- `direction`, `field`, `colorspace`, `quantization` and `xfer_func` do not panic on it.
pub mplane_try_from-accepted :
    (f : MplaneFormat) {f' : MplaneFormat}
    → mplane_try_from f ≡ ok f'
    → length f.pix_mp.plane_fmt ≡ video_max_planes
    → (f ≡ f')
      × (1 ≤ f.pix_mp.num_planes)
      × (f.pix_mp.num_planes ≤ video_max_planes)
      × (mplane_planes f ≡ done (take f.pix_mp.num_planes f.pix_mp.plane_fmt))
      × ((d : QueueDirection) × (mplane_direction f ≡ done d))
      × Answers f
unfolding mplane_planes slice
mplane_try_from-accepted f h l =
    let p : Passed f _ = passed f h in
    let low : 1 ≤ f.pix_mp.num_planes = ground (arith, p.planes_ok) in
    let high : f.pix_mp.num_planes ≤ video_max_planes = ground (arith, p.planes_ok) in
    (p.same, low, high, ground arith, direction-answers f p.mplane, p.answers)

-- The checks that the conversion makes are all that it takes.
accepts :
    (f : MplaneFormat)
    → is_mplane (n f.type_) ≡ true
    → (f.pix_mp.num_planes == 0 || ltb video_max_planes f.pix_mp.num_planes) ≡ false
    → Answers f
    → mplane_try_from f ≡ ok f
unfolding mplane_try_from mplane_field mplane_colorspace mplane_quantization mplane_xfer_func
accepts f t p a = ground (
  arith, t, p, a.field_answers, a.colorspace_answers, a.quantization_answers, a.xfer_func_answers,
)

built_kind : (d : QueueDirection) → is_mplane (some (from_dir_and_class d video_mplane)) ≡ true
unfolding from_dir_and_class
built_kind d = ground arith

built_direction : (d : QueueDirection) → direction (from_dir_and_class d video_mplane) ≡ d
unfolding from_dir_and_class direction
built_direction d = ground arith

-- The conversion does not check `ycbcr_enc`: an accepted format is accepted too with any number in
-- that field that stands for no encoding, and the accessor `ycbcr_enc` then panics.
pub mplane_try_from-ycbcr_enc :
    (f : MplaneFormat) (enc : ℕ) {f' : MplaneFormat}
    → mplane_try_from f ≡ ok f'
    → n {A = YcbcrEncoding} enc ≡ none
    → let g : MplaneFormat = record f { pix_mp = record (f.pix_mp) { ycbcr_enc = enc } } in
      (mplane_try_from g ≡ ok g) × (mplane_ycbcr_enc g ≡ panicked)
unfolding mplane_ycbcr_enc mplane_field mplane_colorspace mplane_quantization mplane_xfer_func
mplane_try_from-ycbcr_enc f enc h none_such =
    let p : Passed f _ = passed f h in
    let a : Answers f = p.answers in
    let g : MplaneFormat = record f { pix_mp = record (f.pix_mp) { ycbcr_enc = enc } } in
    let b : Answers g = record {
      buffer_field = a.buffer_field;
      field_answers = a.field_answers;
      space = a.space;
      colorspace_answers = a.colorspace_answers;
      range = a.range;
      quantization_answers = a.quantization_answers;
      func = a.func;
      xfer_func_answers = a.xfer_func_answers;
    } in
    (accepts g p.mplane p.planes_ok b, rw none_such refl)

small-ycbcr : (e : YcbcrEncoding) → ycbcr_encoding_u32 e % 2 ^ 8 ≡ ycbcr_encoding_u32 e
small-ycbcr e = ground arith

small-quantization : (e : Quantization) → quantization_u32 e % 2 ^ 8 ≡ quantization_u32 e
small-quantization e = ground arith

small-xfer_func : (e : XferFunc) → xfer_func_u32 e % 2 ^ 8 ≡ xfer_func_u32 e
small-xfer_func e = ground arith

mplane_from-Answers : (d : QueueDirection) (p : PixMp) → Answers (mplane_from d p)
unfolding mplane_from mplane_field mplane_colorspace mplane_quantization mplane_xfer_func
mplane_from-Answers d p = record {
  buffer_field = _;
  field_answers = ap unwrap (n_found (unwrap_or (n p.field) field_any));
  space = _;
  colorspace_answers = ap unwrap (n_found (unwrap_or (n p.colorspace) colorspace_default));
  range = _;
  quantization_answers =
      ap (λ v. unwrap (n v))
        (small-quantization (unwrap_or (n p.quantization) quantization_default))
      ∙ ap unwrap (n_found (unwrap_or (n p.quantization) quantization_default));
  func = _;
  xfer_func_answers =
      ap (λ v. unwrap (n v)) (small-xfer_func (unwrap_or (n p.xfer_func) xfer_default))
      ∙ ap unwrap (n_found (unwrap_or (n p.xfer_func) xfer_default));
}

-- A format that is built from a direction and a structure of the kernel with 1 to
-- `VIDEO_MAX_PLANES` planes passes the checks of the conversion, whatever other numbers the
-- structure holds; its `direction` is the one given, and `ycbcr_enc`, `field`, `colorspace`,
-- `quantization` and `xfer_func` do not panic on it.
pub mplane_from-accepted :
    (d : QueueDirection) (p : PixMp)
    → 1 ≤ p.num_planes
    → p.num_planes ≤ video_max_planes
    → (mplane_try_from (mplane_from d p) ≡ ok (mplane_from d p))
      × (mplane_direction (mplane_from d p) ≡ done d)
      × ((e : YcbcrEncoding) × (mplane_ycbcr_enc (mplane_from d p) ≡ done e))
      × Answers (mplane_from d p)
unfolding mplane_from mplane_direction mplane_ycbcr_enc
mplane_from-accepted d p low high = (
  accepts f (ap is_mplane kind ∙ built_kind d) (ground arith) (mplane_from-Answers d p),
  ap (λ o. bind (unwrap o) (λ q. done (direction q))) kind ∙ ap done (built_direction d),
  (_, ap (λ v. unwrap (n v)) (small-ycbcr enc) ∙ ap unwrap (n_found enc)),
  mplane_from-Answers d p,
)
  where
    f : MplaneFormat
    f = mplane_from d p

    kind : n f.type_ ≡ some (from_dir_and_class d video_mplane)
    kind = n_found (from_dir_and_class d video_mplane)

    enc : YcbcrEncoding
    enc = unwrap_or (n p.ycbcr_enc) ycbcr_default

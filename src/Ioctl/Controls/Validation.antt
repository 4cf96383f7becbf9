-- ===== src/Ioctl/Controls/Validation.antt =====
-- lib/src/ioctl/g_ext_ctrls.rs: what a control that passed the checks can be asked.
use v4l2r.Base.{◌<◌, ◌^◌, ok, done, ◌≡◌, refl, sym, subst, Option-cases, inl, inr, arith}
use v4l2r.Types.Enumn.{n, n_sound}
use v4l2r.Types.Colors.{
  Colorspace, colorspace_enum, XferFunc, xfer_func_enum, YcbcrEncoding, ycbcr_encoding_enum,
  Quantization, quantization_enum,
}
use v4l2r.Ioctl.Controls.{
  RawFwhtParams, fwht_try_from, fwht_flags, fwht_colorspace, fwht_xfer_func, fwht_ycbcr_enc,
  fwht_quantization,
}

-- Every accessor returns, and gives what the number of its field stands for.
pub record Readable (v : RawFwhtParams) : Type 0 where
  pub known_flags : (v.flags < 2 ^ 11) × (fwht_flags v ≡ done v.flags)
  pub space :
      (c : Colorspace) × (fwht_colorspace v ≡ done c) × (colorspace_enum.to_u32 c ≡ v.colorspace)
  pub xfer : (x : XferFunc) × (fwht_xfer_func v ≡ done x) × (xfer_func_enum.to_u32 x ≡ v.xfer_func)
  pub encoding :
      (y : YcbcrEncoding) × (fwht_ycbcr_enc v ≡ done y)
      × (ycbcr_encoding_enum.to_u32 y ≡ v.ycbcr_enc)
  pub range :
      (q : Quantization) × (fwht_quantization v ≡ done q)
      × (quantization_enum.to_u32 q ≡ v.quantization)

-- The checks of FWHT parameters change nothing, and no accessor of parameters that pass them panics: each
-- gives the value whose number the parameters hold.
pub fwht_try_from-Readable :
    (v : RawFwhtParams) {w : RawFwhtParams} → fwht_try_from v ≡ ok w → (w ≡ v) × Readable w
unfolding fwht_try_from fwht_flags fwht_colorspace fwht_xfer_func fwht_ycbcr_enc fwht_quantization
fwht_try_from-Readable v {w} h = elim (Option-cases (n {A = Colorspace} v.colorspace)) [
  | inl e ↦ absurd (ground arith)
  | inr (c, e) ↦ elim (Option-cases (n {A = XferFunc} v.xfer_func)) [
    | inl e₁ ↦ absurd (ground arith)
    | inr (x, e₁) ↦ elim (Option-cases (n {A = YcbcrEncoding} v.ycbcr_enc)) [
      | inl e₂ ↦ absurd (ground arith)
      | inr (y, e₂) ↦ elim (Option-cases (n {A = Quantization} v.quantization)) [
        | inl e₃ ↦ absurd (ground arith)
        | inr (q, e₃) ↦
            let same : v ≡ w = ground arith in
            let below : v.flags < 2 ^ 11 = ground arith in
            let kept : Readable v = record {
              known_flags = (below, ground arith);
              space = (c, rw e refl, n_sound v.colorspace e);
              xfer = (x, rw e₁ refl, n_sound v.xfer_func e₁);
              encoding = (y, rw e₂ refl, n_sound v.ycbcr_enc e₂);
              range = (q, rw e₃ refl, n_sound v.quantization e₃);
            } in
            (sym same, subst Readable same kept)
      ]
    ]
  ]
]

-- ===== src/Tests/Requests.antt =====
-- The theorems on the inputs of a device, on controls and on encoder commands, applied to concrete ones.
use v4l2r.Base.{ℕ, zero, suc, ◌+◌, [], ◌∷◌, some, err, ◌≡◌, refl, ok, Result, arith}
use v4l2r.Ioctl.Events.{Errno}
use v4l2r.Ioctl.Input.{Written, g_input, s_input}
use v4l2r.Ioctl.Input.Selecting.{Documented, s_input-g_input}
use v4l2r.Ioctl.EnumFmt.{collect_formats}
use v4l2r.Ioctl.EnumFmt.Listing.{Describes, no_more, one_more, collect_formats-Describes}
use v4l2r.Ioctl.Controls.{RawFwhtParams, fwht_try_from}
use v4l2r.Ioctl.Controls.Validation.{Readable, fwht_try_from-Readable}

-- A driver whose state is the number of its current input, and which accepts every number.
abbrev current : ℕ → ℕ
current s = s

abbrev get : ℕ → Result Errno Written
get s = ok (record { returned = 0; number = s })

abbrev set : ℕ → ℕ → ℕ × Result Errno Written
set i s = (i, ok (record { returned = 0; number = i }))

set_number : (i s : ℕ) (w : Written) → (set i s).1 ≡ ok w → w.number ≡ i
set_number i s w e = cc

documented : Documented current get set
documented = record { get_current = λ s. refl; set_current = λ s i w e. (set_number i s w e, refl) }

third_chosen : (s_input set 3 0).1 ≡ ok 3
unfolding s_input
third_chosen = refl

s_input-g_input_example :
    ◌≡◌ {A = ℕ} 3 3 × (current (s_input set 3 0).0 ≡ 3) × (g_input (get (s_input set 3 0).0) ≡ ok 0)
s_input-g_input_example = s_input-g_input documented 0 3 3 (omega arith) third_chosen

abbrev params : RawFwhtParams
params = record {
  backward_ref_ts = 0;
  version = 3;
  width = 640;
  height = 480;
  flags = 1025;
  colorspace = 3;
  xfer_func = 1;
  ycbcr_enc = 2;
  quantization = 1;
}

params_accepted : fwht_try_from params ≡ ok params
unfolding fwht_try_from v4l2r.Types.Enumn.n v4l2r.Types.Enumn.find_value
params_accepted = refl

fwht_try_from-Readable_example : (params ≡ params) × Readable params
fwht_try_from-Readable_example = fwht_try_from-Readable params params_accepted

-- A kernel that describes two formats.
abbrev two_formats : ℕ → Result Errno ℕ
two_formats zero = ok 10
two_formats (suc zero) = ok 20
two_formats (suc (suc i)) = err 22

abbrev add_one : ℕ → ℕ
add_one raw = raw + 1

two_described : Describes two_formats 0 (10 ∷ 20 ∷ [])
two_described = one_more refl (one_more refl (no_more refl))

collect_formats-Describes_example : collect_formats add_one two_formats 3 0 ≡ some (11 ∷ 21 ∷ [])
collect_formats-Describes_example =
    collect_formats-Describes add_one two_formats 0 (10 ∷ 20 ∷ []) two_described (omega arith)

-- ===== src/Ioctl/Input/Selecting.antt =====
-- lib/src/ioctl/g_input.rs: choosing an input and reading it back.
use v4l2r.Base.{ℕ, ◌<◌, ◌^◌, Result, ok, err, ◌≡◌, refl, sym, ◌∙◌, map_ok, map_err, arith}
use v4l2r.Ioctl.Events.{Errno}
use v4l2r.Ioctl.Input.{Written, as_c_int, as_usize, refused_index, g_input, s_input}

-- What V4L2 documents of the two ioctls: they return 0; VIDIOC_G_INPUT writes the number of the current
-- input; VIDIOC_S_INPUT, when it accepts a number, makes it the current one and writes it back.
pub record Documented {S : Type 0} (current : S → ℕ) (get : S → Result Errno Written)
    (set : ℕ → S → S × Result Errno Written) : Type 0 where
  pub get_current : (s : S) → get s ≡ ok (record { returned = 0; number = current s })
  pub set_current :
      (s : S) (i : ℕ) (w : Written)
      → (set i s).1 ≡ ok w
      → (w.number ≡ i) × (current (set i s).0 ≡ i)

as_c_int_small : (i : ℕ) → i < 2 ^ 31 → as_c_int i ≡ i
as_c_int_small i lt = omega arith

as_usize_small : (i : ℕ) → i < 2 ^ 31 → as_usize i ≡ i
as_usize_small i lt = ground arith

-- With a driver that does what V4L2 documents, a successful `s_input` of a number below `2 ^ 31` makes that
-- input the current one and returns its number. `g_input` then gives 0, whichever number it was.
pub s_input-g_input :
    {S : Type 0} {current : S → ℕ} {get : S → Result Errno Written}
    {set : ℕ → S → S × Result Errno Written} (h : Documented current get set) (s : S) (index j : ℕ)
    → index < 2 ^ 31
    → (s_input set index s).1 ≡ ok j
    → (j ≡ index)
      × (current (s_input set index s).0 ≡ index)
      × (g_input (get (s_input set index s).0) ≡ ok 0)
unfolding s_input g_input
s_input-g_input {S} {current} {get} {set} h s index j lt e = go (set (as_c_int index) s).1 refl e
  where
    after : S
    after = (set (as_c_int index) s).0

    go :
        (r : Result Errno Written)
        → (set (as_c_int index) s).1 ≡ r
        → map_ok (λ w. as_usize w.number) (map_err (refused_index index) r) ≡ ok j
        → (j ≡ index) × (current after ≡ index) × (g_input (get after) ≡ ok 0)
    go (err x) a b = absurd (cc)
    go (ok w) a b =
        let (number, now) = h.set_current s (as_c_int index) w a in
        let same : as_c_int index ≡ index = as_c_int_small index lt in
        let kept : w.number ≡ index = number ∙ same in
        let small : as_usize w.number ≡ index = rw kept (as_usize_small index lt) in
        let value : as_usize w.number ≡ j = cc in
        (sym value ∙ small, now ∙ same, rw (h.get_current after) refl)

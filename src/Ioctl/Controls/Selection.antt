-- ===== src/Ioctl/Controls/Selection.antt =====
-- lib/src/ioctl/g_ext_ctrls.rs and lib/src/ioctl/queryctrl.rs: the numbers that name controls, both ways.
use v4l2r.Base.{ℕ, ◌<◌, ◌^◌, ◌/◌, ◌%◌, Bool, true, false, ok, ◌≡◌, refl, ◌==◌, arith}
use v4l2r.Ioctl.Controls.{
  CtrlWhich, current_values, default_values, request_values, class_values, RawControls,
  binding_value, request_fd_of, ctrl_which_try_from, new_ctrl_id, QueryCtrlFlags,
  parse_ctrl_id_and_flags, query_id,
}

-- A control number is accepted exactly when it is below `2 ^ 28`, and the number with any flags added is
-- taken apart into the same number and flags.
pub parse_ctrl_id_and_flags-query_id :
    (ctrl : ℕ) {id : ℕ} (f : QueryCtrlFlags)
    → new_ctrl_id ctrl ≡ ok id
    → (id ≡ ctrl) × (parse_ctrl_id_and_flags (query_id id f) ≡ (ctrl, f))
unfolding new_ctrl_id parse_ctrl_id_and_flags query_id
parse_ctrl_id_and_flags-query_id ctrl {id} f h = (same, go f.next_ctrl f.compound)
  where
    same : id ≡ ctrl
    same = ground arith

    low : id < 2 ^ 28
    low = ground arith

    parts :
        (k : ℕ) {b c : Bool}
        → k % 2 ^ 28 ≡ ctrl
        → (k / 2 ^ 31 % 2 == 1) ≡ b
        → (k / 2 ^ 30 % 2 == 1) ≡ c
        → parse_ctrl_id_and_flags k ≡ (ctrl, record { next_ctrl = b; compound = c })
    parts k e e₁ e₂ = rw (e, e₁, e₂) refl

    go :
        (b c : Bool)
        → parse_ctrl_id_and_flags (query_id id (record { next_ctrl = b; compound = c }))
          ≡ (ctrl, record { next_ctrl = b; compound = c })
    go true true = parts _ (omega (arith, low, same)) (ground arith) (ground arith)
    go true false = parts _ (omega (arith, low, same)) (ground arith) (ground arith)
    go false true = parts _ (omega (arith, low, same)) (ground arith) (ground arith)
    go false false = parts _ (omega (arith, low, same)) (ground arith) (ground arith)

-- The structure that is read as `w` has the number of `w`, and the structure made from `w` is read as `w`.
pub ctrl_which_try_from-binding_value :
    (c : RawControls) {w : CtrlWhich}
    → ctrl_which_try_from c ≡ ok w
    → (binding_value w ≡ c.which)
      × (ctrl_which_try_from (record { which = binding_value w; request_fd = request_fd_of w })
          ≡ ok w)
unfolding ctrl_which_try_from binding_value
ctrl_which_try_from-binding_value c {w = current_values} h = (ground arith, refl)
ctrl_which_try_from-binding_value c {w = default_values} h = (ground arith, refl)
ctrl_which_try_from-binding_value c {w = request_values fd} h = (ground arith, refl)
ctrl_which_try_from-binding_value c {w = class_values class} h =
    let same : class ≡ c.which = ground arith in (same, ground arith)

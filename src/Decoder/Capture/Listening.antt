-- ===== src/Decoder/Capture/Listening.antt =====
-- lib/src/decoder/stateful/capture_thread.rs: how the state of the CAPTURE queue and what the
-- thread polls for go together.
use v4l2r.Base.{
  ℕ, ◌≡◌, refl, sym, ap, ◌∙◌, ◌≢◌, Bool, true, false, List, ◌∷◌, none, some, Result, ok, arith,
  subst,
}
use v4l2r.Poller.{
  Poller, Waker, lookup, add_waker, remove_waker, update_waker, wake_direct, set_event,
  output_ready, DeviceEvent, is_event_enabled,
}
use v4l2r.Poller.Registration.{InStep, set_event-ok}
use v4l2r.Poller.Keyed.{
  Keyed, one_more, lookup-remove_ne, lookup-remove_self, remove-Keyed, present_after_update,
  update_waker-Keyed, add_waker-ok, remove_waker-ok, set_event-wakers,
}
use v4l2r.Queue.Creation.{QueueBase}
use v4l2r.Decoder.Capture.{
  Errno, capture_ready_id, command_waiting_id, DecodingQueue, CaptureQueue, awaiting_resolution,
  decoding, CaptureThread,
}

-- The poller listens to exactly what is enabled, never to OUTPUT buffers, and to the waker of the
-- commands; each waker is there once.
pub record Listens (p : Poller) : Type 0 where
  pub in_step : InStep p
  pub no_output : p.output_enabled ≡ false
  pub commands_wake : (w : Waker) × (lookup command_waiting_id p.wakers ≡ some w)
  pub keyed : Keyed p.wakers

-- Before the format is known the thread listens to V4L2 events, and there is no waker for buffers.
-- Afterwards it does not listen to V4L2 events, and there is such a waker.
pub data Mode {V H : Type 0} : CaptureQueue V H → Poller → Type 0 where
  waits :
      {base : QueueBase} {p : Poller}
      → p.events_enabled ≡ true
      → p.capture_enabled ≡ false
      → lookup capture_ready_id p.wakers ≡ none
      → Mode (awaiting_resolution base) p
  decodes :
      {d : DecodingQueue V H} {p : Poller}
      → p.events_enabled ≡ false
      → (w : Waker) × (lookup capture_ready_id p.wakers ≡ some w)
      → Mode (decoding d) p

pub record Linked {V H : Type 0} (t : CaptureThread V H) : Type 0 where
  pub listens : Listens t.poller
  pub mode : Mode t.capture_queue t.poller

-- What `set_event` leaves of `Listens`, for an event that is not OUTPUT.
pub record Switched (event : DeviceEvent) (enable : Bool) (p p' : Poller) : Type 0 where
  pub listens : Listens p'
  pub now : is_event_enabled event p' ≡ enable
  pub others : (e : DeviceEvent) → event ≢ e → is_event_enabled e p' ≡ is_event_enabled e p
  pub wakers_kept : p'.wakers ≡ p.wakers

pub set_event-Switched :
    (m : Result Errno (Unit {0})) (event : DeviceEvent) (enable : Bool) (p : Poller) {p' : Poller}
    → event ≢ output_ready
    → Listens p
    → set_event m event enable p ≡ (p', ok tt)
    → Switched event enable p p'
unfolding is_event_enabled
set_event-Switched m event enable p {p'} ne l h =
    let (step, now, others) = set_event-ok m event enable p l.in_step h in
    let kept : p'.wakers ≡ p.wakers =
      ap (λ r. r.0.wakers) (sym h) ∙ set_event-wakers m event enable p in
    record {
      listens = record {
        in_step = step;
        no_output = others output_ready ne ∙ l.no_output;
        commands_wake =
            (l.commands_wake.0, ap (lookup command_waiting_id) kept ∙ l.commands_wake.1);
        keyed = subst Keyed (sym kept) l.keyed;
      };
      now = now;
      others = others;
      wakers_kept = kept;
    }

relisten :
    (p : Poller) (ws : List (ℕ × Waker))
    → Listens p
    → (w : Waker) × (lookup command_waiting_id ws ≡ some w)
    → Keyed ws
    → Listens (record p { wakers = ws })
relisten p ws l c k = record {
  in_step = record {
    listens_in = l.in_step.listens_in;
    listens_out = l.in_step.listens_out;
    listens_pri = l.in_step.listens_pri;
  };
  no_output = l.no_output;
  commands_wake = c;
  keyed = k;
}

pub removed-Listens :
    (delete : Result Errno (Unit {0})) (p : Poller) {p' : Poller} {w : Waker}
    → Listens p
    → remove_waker capture_ready_id delete p ≡ (p', ok w)
    → Listens p'
      × (lookup capture_ready_id p'.wakers ≡ none)
      × (p'.events_enabled ≡ p.events_enabled)
      × (p'.capture_enabled ≡ p.capture_enabled)
removed-Listens delete p l h =
    let (found, eq) = remove_waker-ok capture_ready_id delete p h in
    let (w, c) = l.commands_wake in
    rw eq (
      relisten p _ l
          (w, lookup-remove_ne capture_ready_id command_waiting_id p.wakers (omega arith) ∙ c)
          (remove-Keyed capture_ready_id l.keyed),
      lookup-remove_self capture_ready_id p.wakers l.keyed,
      refl,
      refl,
    )

pub added-Listens :
    (eventfd add : Result Errno (Unit {0})) (p : Poller) {p' : Poller} {w : Waker}
    → Listens p
    → add_waker capture_ready_id eventfd add p ≡ (p', ok w)
    → Listens (record p' { wakers = update_waker wake_direct capture_ready_id p'.wakers })
      × ((x : Waker) × (lookup capture_ready_id
              (update_waker wake_direct capture_ready_id p'.wakers)
            ≡ some x))
      × (p'.events_enabled ≡ p.events_enabled)
unfolding lookup
added-Listens eventfd add p {p'} {w} l h =
    let (missing, eq) = add_waker-ok capture_ready_id eventfd add p h in
    let ws : List (ℕ × Waker) = (capture_ready_id, w) ∷ p.wakers in
    let (c, ec) = l.commands_wake in
    rw eq (
      relisten p (update_waker wake_direct capture_ready_id ws) l
          (present_after_update wake_direct capture_ready_id command_waiting_id ws {w = c} ec)
          (update_waker-Keyed wake_direct capture_ready_id (one_more missing l.keyed)),
      present_after_update wake_direct capture_ready_id capture_ready_id ws {w = w} refl,
      refl,
    )

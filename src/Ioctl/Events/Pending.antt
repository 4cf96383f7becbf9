-- ===== src/Ioctl/Events/Pending.antt =====
-- lib/src/ioctl/subscribe_event.rs and lib/src/decoder/stateful/capture_thread.rs: the events that are
-- pending.
use v4l2r.Base.{
  ℕ, zero, suc, ◌<◌, ◌≡◌, refl, ◌≢◌, sym, ap, ◌∙◌, ◌&&◌, ◌++◌, ◌==◌, some, get_elem?, Bool, false,
  ◌||◌, List, [], ◌∷◌, map, Result, ok, err, Run, done, panicked, arith,
}
use v4l2r.Ioctl.Events.{
  Errno, EventType, vsync, eos, frame_sync, motion_det, ctrl, source_change, SubscribeEventFlags,
  event_type_try_from, build_v4l2_event_subscription, Event, src_change_event, end_of_stream,
  RawEvent, event_try_from, DqEventError, not_ready, ioctl_error, dqevent_error, dqevent,
}

-- The event that a subscription is built from is read back from it, whatever the flags.
pub event_type_try_from-build :
    (event : EventType) (flags : SubscribeEventFlags)
    → event_type_try_from (build_v4l2_event_subscription event flags) ≡ ok event
unfolding event_type_try_from build_v4l2_event_subscription
event_type_try_from-build vsync flags = refl
event_type_try_from-build eos flags = refl
event_type_try_from-build frame_sync flags = refl
event_type_try_from-build motion_det flags = refl
event_type_try_from-build (ctrl id) flags = refl
event_type_try_from-build (source_change id) flags = refl

-- What `is_drc_event_pending` notes of an event.
abbrev pub is_drc : Event → Bool
is_drc (src_change_event changes) = changes.resolution
is_drc end_of_stream = false

-- How a turn of the loop ends when it is the last one.
abbrev pub last_turn : Bool → Result DqEventError Event → Result DqEventError Bool
last_turn drc_pending (ok event) = ok (drc_pending || is_drc event)
last_turn drc_pending (err not_ready) = ok drc_pending
last_turn drc_pending (err e) = err e

-- `is_drc_event_pending`, with what is left of the answers. With none left, `dqevent` gives its answer to
-- ENOENT, and the loop ends with that turn.
unfoldable pub drc_loop :
    Bool
    → List (Result Errno RawEvent)
    → Run (List (Result Errno RawEvent) × Result DqEventError Bool)
drc_loop drc_pending [] = elim (dqevent []) [
  | panicked ↦ panicked
  | done (rest, r) ↦ done (rest, last_turn drc_pending r)
]
drc_loop drc_pending (a ∷ answers) = elim (dqevent (a ∷ answers)) [
  | panicked ↦ panicked
  | done (_, ok event) ↦ drc_loop (drc_pending || is_drc event) answers
  | done (_, err e) ↦ done (answers, last_turn drc_pending (err e))
]

unfoldable pub is_drc_event_pending :
    List (Result Errno RawEvent) → Run (List (Result Errno RawEvent) × Result DqEventError Bool)
is_drc_event_pending answers = drc_loop false answers

-- The events that the driver was asked for, by the numbers of their C structures: V4L2_EVENT_EOS is 2,
-- V4L2_EVENT_SOURCE_CHANGE is 5, and V4L2_EVENT_SRC_CH_RESOLUTION is the lowest bit of its changes.
pub data Subscribed (e : RawEvent) : Type 0 where
  an_eos : e.type_ ≡ 2 → Subscribed e
  a_source_change : e.type_ ≡ 5 → e.changes < 2 → Subscribed e

-- Whether one of these events is a source change with the bit of the resolution.
unfoldable pub has_resolution_change : List RawEvent → Bool
has_resolution_change [] = false
has_resolution_change (e ∷ events) =
    ((e.type_ == 5) && (e.changes == 1)) || has_resolution_change events

or_assoc : (a b c : Bool) → ((a || b) || c) ≡ (a || (b || c))
or_assoc a b c = ground arith

or_false : (b : Bool) → (b || false) ≡ b
or_false b = ground arith

reads_noted :
    (e : RawEvent)
    → Subscribed e
    → (event : Event) × (event_try_from e ≡ done (ok event))
      × (is_drc event ≡ ((e.type_ == 5) && (e.changes == 1)))
unfolding event_try_from
reads_noted e (an_eos t) = (end_of_stream, ground arith, ground arith)
reads_noted e (a_source_change t c) =
    (src_change_event (record { resolution = e.changes == 1 }), ground arith, ground arith)

drc_loop-taken :
    (b : Bool) (answers : List (Result Errno RawEvent)) (e : RawEvent) (event : Event)
    → event_try_from e ≡ done (ok event)
    → drc_loop b (ok e ∷ answers) ≡ drc_loop (b || is_drc event) answers
unfolding drc_loop dqevent
drc_loop-taken b answers e event read = ground (arith, read)

++_nil : {A : Type 0} (xs : List A) → (xs ++ []) ≡ xs
++_nil [] = refl
++_nil (x ∷ xs) = ap (◌∷◌ x) (++_nil xs)

-- The events that are pending first are taken and noted, whatever follows them.
drc_loop-append :
    (b : Bool) (events : List RawEvent) (answers : List (Result Errno RawEvent))
    → ((j : ℕ) (e : RawEvent) → get_elem? events j ≡ some e → Subscribed e)
    → drc_loop b (map ok events ++ answers) ≡ drc_loop (b || has_resolution_change events) answers
unfolding has_resolution_change
drc_loop-append b [] answers s = ap (λ x. drc_loop x answers) (sym (or_false b))
drc_loop-append b (e ∷ events) answers s =
    let (event, read, noted) = reads_noted e (s zero e refl) in
    let drc = (e.type_ == 5) && (e.changes == 1) in
    drc_loop-taken b (map ok events ++ answers) e event read
    ∙ ap (λ x. drc_loop (b || x) (map ok events ++ answers)) noted
    ∙ drc_loop-append (b || drc) events answers (λ j x h. s (suc j) x h)
    ∙ ap (λ x. drc_loop x answers) (or_assoc b drc (has_resolution_change events))

-- On the events that the driver was asked for, `is_drc_event_pending` takes them all, up to the first
-- refusal of the ioctl or to the last one. With ENOENT, or none left, it tells whether one of them was a
-- source change with the bit of the resolution; with any other number it fails with that error.
pub is_drc_event_pending-events :
    (events : List RawEvent) (rest : List (Result Errno RawEvent)) (x : Errno)
    → ((j : ℕ) (e : RawEvent) → get_elem? events j ≡ some e → Subscribed e)
    → x ≢ 2
    → (is_drc_event_pending (map ok events) ≡ done ([], ok (has_resolution_change events)))
      × (is_drc_event_pending (map ok events ++ (err 2 ∷ rest))
          ≡ done (rest, ok (has_resolution_change events)))
      × (is_drc_event_pending (map ok events ++ (err x ∷ rest)) ≡ done (rest, err (ioctl_error x)))
unfolding is_drc_event_pending drc_loop dqevent dqevent_error
is_drc_event_pending-events events rest x s ne = (
  ap (drc_loop false) (sym (++_nil (map ok events))) ∙ drc_loop-append false events [] s,
  drc_loop-append false events (err 2 ∷ rest) s,
  drc_loop-append false events (err x ∷ rest) s ∙ refused (has_resolution_change events),
)
  where
    refused : (b : Bool) → drc_loop b (err x ∷ rest) ≡ done (rest, err (ioctl_error x))
    refused b = ground arith

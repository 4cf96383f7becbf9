-- ===== src/Ioctl/Events.antt =====
-- lib/src/ioctl/subscribe_event.rs: events, their C structures, and taking the next one.
pub mod Pending
use v4l2r.Base.{
  ℕ, Bool, true, false, ◌||◌, List, [], ◌∷◌, Result, ok, err, Run, done, panicked, ltb, ◌==◌,
  if◌then◌else◌, map_err,
}

abbrev pub Errno : Type 0
Errno = ℕ

-- `SubscribeEventFlags`, with `bits`.
pub record SubscribeEventFlags : Type 0 where
  pub send_initial : Bool
  pub allow_feedback : Bool

abbrev pub subscribe_bits : SubscribeEventFlags → ℕ
subscribe_bits f = elim f.send_initial [
  | false ↦ if f.allow_feedback then 2 else 0
  | true ↦ if f.allow_feedback then 3 else 1
]

pub data EventType : Type 0 where
  vsync eos frame_sync motion_det : EventType
  ctrl source_change : (id : ℕ) → EventType

pub data EventConversionError : Type 0 where
  unrecognized_event unrecognized_source_change : ℕ → EventConversionError

-- `v4l2_event_subscription`, without the reserved words, which are zero.
pub record RawSubscription : Type 0 where
  pub type_ : ℕ
  pub id : ℕ
  pub flags : ℕ

-- `TryFrom<&v4l2_event_subscription> for EventType`
unfoldable pub event_type_try_from : RawSubscription → Result EventConversionError EventType
event_type_try_from s =
    if s.type_ == 1
    then ok vsync
    else if s.type_ == 2
    then ok eos
    else if s.type_ == 3
    then ok (ctrl s.id)
    else if s.type_ == 4
    then ok frame_sync
    else if s.type_ == 5
    then ok (source_change s.id)
    else if s.type_ == 6
    then ok motion_det
    else err (unrecognized_event s.type_)

-- The two `match` expressions of `build_v4l2_event_subscription`.
abbrev pub event_code : EventType → ℕ
event_code vsync = 1
event_code eos = 2
event_code (ctrl id) = 3
event_code frame_sync = 4
event_code (source_change id) = 5
event_code motion_det = 6

abbrev pub event_id : EventType → ℕ
event_id (ctrl id) = id
event_id (source_change id) = id
event_id _ = 0

unfoldable pub build_v4l2_event_subscription : EventType → SubscribeEventFlags → RawSubscription
build_v4l2_event_subscription event flags = record {
  type_ = event_code event;
  id = event_id event;
  flags = subscribe_bits flags;
}

-- `SrcChanges`, of one bit.
pub record SrcChanges : Type 0 where
  pub resolution : Bool

pub data Event : Type 0 where
  src_change_event : SrcChanges → Event
  end_of_stream : Event

-- The fields of `v4l2_event` that are read here; `changes` is the member `src_change` of its union.
pub record RawEvent : Type 0 where
  pub type_ : ℕ
  pub changes : ℕ

-- `SrcChanges::from_bits`: no bit but the known one may be set.
abbrev pub src_changes : ℕ → Result EventConversionError Event
src_changes bits =
    if ltb bits 2
    then ok (src_change_event (record { resolution = bits == 1 }))
    else err (unrecognized_source_change bits)

-- `TryFrom<v4l2_event> for Event`; four of the types are `todo!()`.
unfoldable pub event_try_from : RawEvent → Run (Result EventConversionError Event)
event_try_from e =
    if (e.type_ == 1) || (e.type_ == 3) || (e.type_ == 4) || (e.type_ == 6)
    then panicked
    else if e.type_ == 2
    then done (ok end_of_stream)
    else if e.type_ == 5
    then done (src_changes e.changes)
    else done (err (unrecognized_event e.type_))

pub data DqEventError : Type 0 where
  not_ready event_conversion_error : DqEventError
  ioctl_error : Errno → DqEventError

-- `From<Errno> for DqEventError` and back; ENOENT is 2 and EINVAL is 22.
unfoldable pub dqevent_error : Errno → DqEventError
dqevent_error e = if e == 2 then not_ready else ioctl_error e

unfoldable pub dqevent_errno : DqEventError → Errno
dqevent_errno not_ready = 2
dqevent_errno event_conversion_error = 22
dqevent_errno (ioctl_error e) = e

abbrev pub convert : Result EventConversionError Event → Result DqEventError Event
convert r = map_err (λ _. event_conversion_error) r

-- `dqevent` on the answers that the kernel has ready. One is used up; with none left there is no event
-- pending, and the answer is ENOENT.
unfoldable pub dqevent :
    List (Result Errno RawEvent) → Run (List (Result Errno RawEvent) × Result DqEventError Event)
dqevent [] = done ([], err (dqevent_error 2))
dqevent (err e ∷ answers) = done (answers, err (dqevent_error e))
dqevent (ok raw ∷ answers) = elim (event_try_from raw) [
  | panicked ↦ panicked
  | done r ↦ done (answers, convert r)
]

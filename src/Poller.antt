-- ===== src/Poller.antt =====
-- lib/src/device/poller.rs: the poller of a device and its wakers. The answers of epoll and of the
-- eventfds are arguments.
pub mod Events
pub mod Iterating
pub mod Keyed
pub mod Registration
pub mod Waking
use v4l2r.Base.{
  ℕ, ◌+◌, ◌%◌, ◌^◌, Bool, true, false, List, [], ◌∷◌, Option, none, some, Result, ok, err, ltb,
  ◌==◌, if◌then◌else◌,
}

abbrev pub Errno : Type 0
Errno = ℕ

pub data DeviceEvent : Type 0 where
  capture_ready output_ready v4l2_event : DeviceEvent

pub data PollEvent : Type 0 where
  device : DeviceEvent → PollEvent
  waker : ℕ → PollEvent

-- The flags of `EpollFlags` that are used here, and an `EpollEvent`.
pub record EpollFlags : Type 0 where
  pub epollin : Bool
  pub epollout : Bool
  pub epollpri : Bool
  pub epollerr : Bool

pub record EpollEvent : Type 0 where
  pub events : EpollFlags
  pub data_ : ℕ

-- `DEVICE_ID`; `LAST_WAKER_ID` is the number before it.
abbrev pub device_id : ℕ
device_id = 2 ^ 32

abbrev pub no_flags : EpollFlags
no_flags = record { epollin = false; epollout = false; epollpri = false; epollerr = false }

-- A `Waker`: the value of the counter of its eventfd, which the kernel keeps.
pub record Waker : Type 0 where
  pub counter : ℕ

-- `Poller`. `registered` is what epoll listens to for the device. The map of the wakers is a list with
-- the ids.
pub record Poller : Type 0 where
  pub wakers : List (ℕ × Waker)
  pub registered : EpollFlags
  pub capture_enabled : Bool
  pub output_enabled : Bool
  pub events_enabled : Bool
  pub poll_wakeups_counter : Option ℕ

pub data IoError : Type 0 where
  already_exists : IoError
  os : Errno → IoError

pub data PollError : Type 0 where
  epoll_wait : Errno → PollError
  waker_reset : Errno → PollError
  v4l2_device : PollError

-- `BTreeMap::entry` and `remove`
unfoldable pub lookup : ℕ → List (ℕ × Waker) → Option Waker
lookup id [] = none
lookup id ((i, w) ∷ rest) = if i == id then some w else lookup id rest

unfoldable pub remove : ℕ → List (ℕ × Waker) → List (ℕ × Waker)
remove id [] = []
remove id ((i, w) ∷ rest) = if i == id then rest else (i, w) ∷ remove id rest

-- `Poller::new`, after its three calls of epoll have answered.
unfoldable pub new_poller :
    Result Errno (Unit {0})
    → Result Errno (Unit {0})
    → Result Errno (Unit {0})
    → Result Errno Poller
new_poller (err e) _ _ = err e
new_poller (ok _) (err e) _ = err e
new_poller (ok _) (ok _) (err e) = err e
new_poller (ok _) (ok _) (ok _) = ok (record {
  wakers = [];
  registered = no_flags;
  capture_enabled = false;
  output_enabled = false;
  events_enabled = false;
  poll_wakeups_counter = none;
})

-- `Poller::add_waker`: `eventfd` and `add` are the answers of the two calls.
unfoldable pub add_waker :
    ℕ → Result Errno (Unit {0}) → Result Errno (Unit {0}) → Poller → Poller × Result IoError Waker
add_waker id eventfd add p = elim (lookup id p.wakers) [
  | some _ ↦ (p, err already_exists)
  | none ↦ elim eventfd [
    | err e ↦ (p, err (os e))
    | ok _ ↦ elim add [
      | err e ↦ (p, err (os e))
      | ok _ ↦
          let w : Waker = record { counter = 0 } in (record p { wakers = (id, w) ∷ p.wakers }, ok w)
    ]
  ]
]

-- `Poller::remove_waker`
unfoldable pub remove_waker : ℕ → Result Errno (Unit {0}) → Poller → Poller × Result IoError Waker
remove_waker id delete p = elim (lookup id p.wakers) [
  | none ↦ (p, err already_exists)
  | some w ↦ elim delete [
    | err e ↦ (p, err (os e))
    | ok _ ↦ (record p { wakers = remove id p.wakers }, ok w)
  ]
]

-- `Poller::update_device_registration`: `modify` is the answer of epoll.
unfoldable pub update_device_registration :
    Result Errno (Unit {0}) → Poller → Poller × Result Errno (Unit {0})
update_device_registration (err e) p = (p, err e)
update_device_registration (ok _) p = (
  record p {
    registered = record {
      epollin = p.capture_enabled;
      epollout = p.output_enabled;
      epollpri = p.events_enabled;
      epollerr = false;
    };
  },
  ok tt,
)

-- `Poller::is_event_enabled`, and the assignment `*event = enable`.
unfoldable pub is_event_enabled : DeviceEvent → Poller → Bool
is_event_enabled capture_ready p = p.capture_enabled
is_event_enabled output_ready p = p.output_enabled
is_event_enabled v4l2_event p = p.events_enabled

unfoldable pub assign_event : DeviceEvent → Bool → Poller → Poller
assign_event capture_ready b p = record p { capture_enabled = b }
assign_event output_ready b p = record p { output_enabled = b }
assign_event v4l2_event b p = record p { events_enabled = b }

abbrev pub same : Bool → Bool → Bool
same true b = b
same false true = false
same false false = true

-- `Poller::set_event`
unfoldable pub set_event :
    Result Errno (Unit {0}) → DeviceEvent → Bool → Poller → Poller × Result Errno (Unit {0})
set_event modify event enable p =
    if same (is_event_enabled event p) enable
    then (p, ok tt)
    else update_device_registration modify (assign_event event enable p)

-- `Waker::wake_direct`, and `Waker::reset` on a counter that read back, or was already 0.
unfoldable pub wake_direct : Waker → Waker
wake_direct w = record { counter = w.counter + 1 }

unfoldable pub reset : Waker → Waker
reset w = record { counter = 0 }

unfoldable pub update_waker : (Waker → Waker) → ℕ → List (ℕ × Waker) → List (ℕ × Waker)
update_waker f id [] = []
update_waker f id ((i, w) ∷ rest) =
    if i == id then (i, f w) ∷ rest else (i, w) ∷ update_waker f id rest

-- The loop of `poll` that resets the wakers: `read` answers the read of each waker's eventfd, where an
-- error is any but `WouldBlock`.
unfoldable pub reset_wakers :
    (ℕ → Result Errno (Unit {0}))
    → List EpollEvent
    → List (ℕ × Waker)
    → List (ℕ × Waker) × Result PollError (Unit {0})
reset_wakers read [] ws = (ws, ok tt)
reset_wakers read (e ∷ es) ws =
    let go = reset_wakers read es in
    if ltb e.data_ device_id
    then elim (lookup (e.data_ % 2 ^ 32) ws) [
      | none ↦ go ws
      | some _ ↦ elim (read (e.data_ % 2 ^ 32)) [
        | err x ↦ (ws, err (waker_reset x))
        | ok _ ↦ go (update_waker reset (e.data_ % 2 ^ 32) ws)
      ]
    ]
    else go ws

-- The second loop of `poll`.
unfoldable pub device_error : List EpollEvent → Bool
device_error [] = false
device_error (e ∷ es) =
    if e.data_ == device_id
    then if e.events.epollerr then true else device_error es
    else device_error es

-- `Poller::poll`: `wait` is what `epoll_wait` answers, at most 4 events.
unfoldable pub poll :
    Result Errno (List EpollEvent)
    → (ℕ → Result Errno (Unit {0}))
    → Poller
    → Poller × Result PollError (List EpollEvent)
poll (err e) read p = (p, err (epoll_wait e))
poll (ok es) read p =
    let counter : Option ℕ = elim p.poll_wakeups_counter [
      | none ↦ none
      | some c ↦ some ((c + 1) % 2 ^ 64)
    ] in
    let (ws, r) = reset_wakers read es p.wakers in
    (
      record p { wakers = ws; poll_wakeups_counter = counter },
      elim r [ err e ↦ err e | ok _ ↦ if device_error es then err v4l2_device else ok es ],
    )

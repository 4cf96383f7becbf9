-- ===== src/Queue/Buffers.antt =====
-- lib/src/device/queue/buffer.rs: the state of one buffer, the shared counters, and the update that
-- keeps the two in step. The `Arc<BufferStats>` that the buffers of a queue share is passed along.
use v4l2r.Base.{ℕ, ◌+◌, ◌-◌, ◌%◌, ◌^◌, Bool, true, false, List}

-- `ioctl::QueryBufPlane` and `ioctl::QueryBuffer`, from lib/src/ioctl/querybuf.rs
pub record QueryBufPlane : Type 0 where
  pub mem_offset : ℕ
  pub plane_length : ℕ

pub record QueryBuffer : Type 0 where
  pub index : ℕ
  pub flags : ℕ
  pub planes : List QueryBufPlane

pub data BufferState (P : Type 0) : Type 0 where
  free pre_queue dequeued : BufferState P
  queued : P → BufferState P

pub record BufferStats : Type 0 where
  pub num_free : ℕ
  pub num_queued : ℕ

pub record BufferInfo (P : Type 0) : Type 0 where
  pub features : QueryBuffer
  pub state : BufferState P

-- An `AtomicUsize` wraps at this number.
abbrev pub usize_mod : ℕ
usize_mod = 2 ^ 64

abbrev pub fetch_add_one : ℕ → ℕ
fetch_add_one c = (c + 1) % usize_mod

abbrev pub fetch_sub_one : ℕ → ℕ
fetch_sub_one c = (c + usize_mod - 1) % usize_mod

-- `BufferStats::new`
unfoldable pub new_stats : BufferStats
new_stats = record { num_free = 0; num_queued = 0 }

module _ {P : Type 0} where
  -- `BufferInfo::new`
  unfoldable pub new_info : QueryBuffer → BufferStats → BufferInfo P × BufferStats
  new_info features stats = (
    record { features = features; state = free },
    record stats { num_free = fetch_add_one stats.num_free },
  )

  -- The first and the second `match *state` of `BufferInfo::update_state`.
  unfoldable pub leave : BufferState P → BufferStats → BufferStats
  leave free s = record s { num_free = fetch_sub_one s.num_free }
  leave (queued _) s = record s { num_queued = fetch_sub_one s.num_queued }
  leave pre_queue s = s
  leave dequeued s = s

  unfoldable pub enter : BufferState P → BufferStats → BufferStats
  enter free s = record s { num_free = fetch_add_one s.num_free }
  enter (queued _) s = record s { num_queued = fetch_add_one s.num_queued }
  enter pre_queue s = s
  enter dequeued s = s

  -- `BufferInfo::update_state`: `f` decides the new state.
  unfoldable pub update_state {ℓ} :
      {R : Type ℓ}
      → (BufferState P → BufferState P × R)
      → BufferInfo P
      → BufferStats
      → BufferInfo P × BufferStats × R
  update_state f b stats =
      let (state', r) = f b.state in
      (record b { state = state' }, enter state' (leave b.state stats), r)

  -- `matches!(s, BufferState::Free)` and `matches!(s, BufferState::Queued(_))`
  abbrev pub is_free : BufferState P → Bool
  is_free free = true
  is_free _ = false

  abbrev pub is_queued : BufferState P → Bool
  is_queued (queued _) = true
  is_queued _ = false

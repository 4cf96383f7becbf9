-- ===== src/Queue/Allocated.antt =====
-- lib/src/device/queue.rs: the state `BuffersAllocated` of a queue, the operations on it that do not
-- depend on the direction, and `BufferStateFuse`.
pub mod Counters
pub mod Counting
pub mod Changed
pub mod Cancel
pub mod Obtain
use v4l2r.Base.{
  ℕ, suc, List, [], ◌∷◌, Option, none, some, Result, ok, err, Run, done, panicked, ◌==◌,
  if◌then◌else◌, get_elem?, set, length,
}
use v4l2r.Types.QueueTypes.{MemoryType}
use v4l2r.Queue.Buffers.{
  QueryBuffer, BufferState, free, pre_queue, queued, BufferStats, BufferInfo, new_info,
  update_state, is_free,
}

-- `alloc` stands for the identity of the `Arc`s: no two allocations share it.
pub record Allocated (P : Type 0) : Type 0 where
  pub alloc : ℕ
  pub memory_type : MemoryType
  pub buffer_info : List (BufferInfo P)
  pub stats : BufferStats

-- A `Weak<BufferInfo>`: the allocation and the position of the buffer that it points to.
pub record WeakInfo : Type 0 where
  pub alloc : ℕ
  pub slot : ℕ

pub data TryGetBufferError : Type 0 where
  invalid_index : ℕ → TryGetBufferError
  already_used : TryGetBufferError

pub record CanceledBuffer (P : Type 0) : Type 0 where
  pub index : ℕ
  pub plane_handles : P

module _ {P : Type 0} where
  -- `buffer_info.get(i)`, then `update_state` on it.
  unfoldable pub update_at {ℓ} :
      {R : Type ℓ}
      → (BufferState P → BufferState P × R)
      → ℕ
      → Allocated P
      → Option (Allocated P × R)
  update_at f i q = elim (get_elem? q.buffer_info i) [
    | none ↦ none
    | some b ↦
        let (b', stats', r) = update_state f b q.stats in
        some (record q { buffer_info = set q.buffer_info i b'; stats = stats' }, r)
  ]

  -- The loop of `request_buffers_generic` over the answers to QUERYBUF, and `BufferInfo::new` on each.
  unfoldable pub register : List QueryBuffer → BufferStats → List (BufferInfo P) × BufferStats
  register [] stats = ([], stats)
  register (f ∷ rest) stats =
      let (b, stats') = new_info f stats in
      let (infos, stats'') = register rest stats' in (b ∷ infos, stats'')

  -- The closure of `try_obtain_buffer`.
  abbrev pub take_free : BufferState P → BufferState P × Result TryGetBufferError (Unit {0})
  take_free free = (pre_queue, ok tt)
  take_free s = (s, err already_used)

  -- `Queue::try_obtain_buffer`
  unfoldable pub try_obtain_buffer :
      Allocated P → ℕ → Allocated P × Result TryGetBufferError (BufferInfo P)
  try_obtain_buffer q i = elim (get_elem? q.buffer_info i) [
    | none ↦ (q, err (invalid_index i))
    | some b ↦ elim (update_at take_free i q) [
      | none ↦ (q, err (invalid_index i))
      | some (q', ok _) ↦ (q', ok b)
      | some (q', err e) ↦ (q', err e)
    ]
  ]

  -- The position of the first free buffer, from `i` on: `iter().enumerate().find(...)`.
  unfoldable pub find_free : ℕ → List (BufferInfo P) → Option ℕ
  find_free i [] = none
  find_free i (b ∷ rest) = if is_free b.state then some i else find_free (suc i) rest

  -- `GetFreeBuffer::try_get_free_buffer`, up to the wrapping of the buffer: `NoFreeBuffer` is `none`;
  -- the inner `try_get_buffer` is unwrapped. It takes the lock of the buffer again, and `others` is
  -- what other threads do to the queue between the two.
  unfoldable pub try_get_free_buffer_during :
      (others : Allocated P → Allocated P)
      → Allocated P
      → Run (Allocated P × Option (ℕ × BufferInfo P))
  try_get_free_buffer_during others q = elim (find_free 0 q.buffer_info) [
    | none ↦ done (q, none)
    | some i ↦
        let (q', r) = try_obtain_buffer (others q) i in
        elim r [ ok b ↦ done (q', some (i, b)) | err e ↦ panicked ]
  ]

  -- The same, while no other thread uses the queue.
  unfoldable pub try_get_free_buffer : Allocated P → Run (Allocated P × Option (ℕ × BufferInfo P))
  try_get_free_buffer q = try_get_free_buffer_during (λ q. q) q

  -- The closure of `cancel_queued_buffers`.
  abbrev pub steal : BufferState P → BufferState P × Option P
  steal (queued h) = (free, some h)
  steal s = (s, none)

  -- The `filter_map` of `cancel_queued_buffers`.
  unfoldable pub cancel_all :
      List (BufferInfo P)
      → BufferStats
      → List (BufferInfo P) × BufferStats × List (CanceledBuffer P)
  cancel_all [] stats = ([], stats, [])
  cancel_all (b ∷ rest) stats =
      let (b', stats', handles) = update_state steal b stats in
      let (rest', stats'', canceled) = cancel_all rest stats' in
      (
        b' ∷ rest',
        stats'',
        elim handles [
          | none ↦ canceled
          | some h ↦ record { index = b.features.index; plane_handles = h } ∷ canceled
        ],
      )

  -- `Queue::cancel_queued_buffers`, with its `assert_eq!`.
  unfoldable pub cancel_queued_buffers : Allocated P → Run (Allocated P × List (CanceledBuffer P))
  cancel_queued_buffers q =
      let (infos, stats, canceled) = cancel_all q.buffer_info q.stats in
      if stats.num_queued == 0
      then done (record q { buffer_info = infos; stats = stats }, canceled)
      else panicked

  -- `AllocatedQueue`: `num_buffers`, `num_queued_buffers`, `num_free_buffers`.
  unfoldable pub num_buffers : Allocated P → ℕ
  num_buffers q = length q.buffer_info

  unfoldable pub num_queued_buffers : Allocated P → ℕ
  num_queued_buffers q = q.stats.num_queued

  unfoldable pub num_free_buffers : Allocated P → ℕ
  num_free_buffers q = q.stats.num_free

  -- `Weak::upgrade`: the buffer is gone with its allocation.
  abbrev pub upgrade : WeakInfo → Allocated P → Option (BufferInfo P)
  upgrade w q = if w.alloc == q.alloc then get_elem? q.buffer_info w.slot else none

  abbrev pub set_free : BufferState P → BufferState P × Unit {0}
  set_free s = (free, tt)

  -- `BufferStateFuse::trigger`; a disarmed fuse is `none`.
  unfoldable pub trigger : Option WeakInfo → Allocated P → Option WeakInfo × Allocated P
  trigger none q = (none, q)
  trigger (some w) q = elim (upgrade w q) [
    | none ↦ (some w, q)
    | some _ ↦ elim (update_at set_free w.slot q) [ none ↦ (some w, q) | some (q', _) ↦ (none, q') ]
  ]

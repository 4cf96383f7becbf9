-- ===== src/Queue/Queueing.antt =====
-- lib/src/device/queue/qbuf.rs and lib/src/ioctl/qbuf.rs: preparing a buffer and queueing it. The
-- answer of the kernel to QBUF is the argument `kernel`.

pub mod Planes
pub mod Outcome
pub mod Restore
use v4l2r.Base.{
  ℕ, suc, ◌%◌, ◌^◌, List, [], ◌∷◌, map, Option, none, some, Result, ok, err, Run, done, panicked,
  bind, ◌==◌, if◌then◌else◌, length, replicate,
}
use v4l2r.Types.QueueTypes.{QueueType, queue_type_u32, MemoryType, memory_type_u32}
use v4l2r.Ioctl.Buffer.{V4l2Plane, UncheckedBuffer, RawBuffer, default_plane, new_for_querybuf}
use v4l2r.Memory.{BufferHandles}
use v4l2r.Queue.Buffers.{BufferState, queued, BufferInfo}
use v4l2r.Queue.Allocated.{
  Allocated, WeakInfo, TryGetBufferError, update_at, trigger, try_obtain_buffer,
}

-- A number of nix's `Errno`.
abbrev pub Errno : Type 0
Errno = ℕ

pub data QBufIoctlError : Type 0 where
  num_planes_mismatch : (got expected : ℕ) → QBufIoctlError
  data_offset_not_supported : QBufIoctlError
  other : Errno → QBufIoctlError

-- `QBufPlane::new`
unfoldable pub new_plane : ℕ → V4l2Plane
new_plane bytes_used = record default_plane { bytesused = bytes_used % 2 ^ 32 }

-- `ioctl::QBuffer`, the fields that the queue sets; the others keep their defaults, which are zero.
pub record IoctlQBuffer : Type 0 where
  pub index : ℕ
  pub queue : QueueType
  pub memory : MemoryType
  pub tv_sec : ℕ
  pub tv_usec : ℕ
  pub planes : List V4l2Plane

-- `for (dst, src) in planes.iter_mut().zip(qbuf.planes)`
unfoldable pub overwrite : List V4l2Plane → List V4l2Plane → List V4l2Plane
overwrite [] src = []
overwrite (d ∷ dst) [] = d ∷ dst
overwrite (d ∷ dst) (s ∷ src) = s ∷ overwrite dst src

abbrev pub head? : List V4l2Plane → Option V4l2Plane
head? [] = none
head? (p ∷ ps) = some p

-- `From<QBuffer<H>> for UncheckedV4l2Buffer`; `qbuf.planes[0]` panics if there is none. The union of a
-- plane converts to that of a buffer of the same memory type by copying its bytes.
unfoldable pub to_unchecked : IoctlQBuffer → Run UncheckedBuffer
to_unchecked qbuf =
    let base = new_for_querybuf qbuf.queue (some qbuf.index) in
    let raw : RawBuffer = record (base.raw) {
      index = qbuf.index;
      type_ = queue_type_u32 qbuf.queue;
      memory = memory_type_u32 qbuf.memory;
      flags = 0;
      field = 0;
      sequence = 0;
      tv_sec = qbuf.tv_sec;
      tv_usec = qbuf.tv_usec;
    } in
    elim base.raw_planes [
      | some planes ↦ done (record { raw = raw; raw_planes = some (overwrite planes qbuf.planes) })
      | none ↦ elim (head? qbuf.planes) [
        | none ↦ panicked
        | some p ↦ done (record {
          raw = record raw { length = p.length; bytesused = p.bytesused; m = p.m };
          raw_planes = none;
        })
      ]
    ]

-- `device::queue::qbuf::QBuffer`
pub record QBuffer : Type 0 where
  pub index : ℕ
  pub num_planes : ℕ
  pub tv_sec : ℕ
  pub tv_usec : ℕ
  pub fuse : Option WeakInfo

-- `QBuffer::set_timestamp`
unfoldable pub set_timestamp : QBuffer → ℕ → ℕ → QBuffer
set_timestamp qb sec usec = record qb { tv_sec = sec; tv_usec = usec }

-- `QueueError`: the error, and the handles given back.
pub record QueueError (P : Type 0) : Type 0 where
  pub error : QBufIoctlError
  pub plane_handles : P

module _ {P : Type 0} where
  -- `QBuffer::new` on the buffer `b`, which stands at `slot`.
  unfoldable pub new_qbuffer : Allocated P → ℕ → BufferInfo P → QBuffer
  new_qbuffer q slot b = record {
    index = b.features.index;
    num_planes = length b.features.planes;
    tv_sec = 0;
    tv_usec = 0;
    fuse = some (record { alloc = q.alloc; slot = slot });
  }

  -- `GetBufferByIndex::try_get_buffer`
  unfoldable pub try_get_buffer : Allocated P → ℕ → Allocated P × Result TryGetBufferError QBuffer
  try_get_buffer q i =
      let (q', r) = try_obtain_buffer q i in
      (q', elim r [ ok b ↦ ok (new_qbuffer q' i b) | err e ↦ err e ])

  abbrev pub set_queued : P → BufferState P → BufferState P × Unit {0}
  set_queued handles s = (queued handles, tt)

  module _ (h : BufferHandles P) where
    -- The planes that are built from `QBufPlane::new` of each size and the handles, from the plane
    -- `i` on.
    unfoldable pub build_planes : P → ℕ → List ℕ → Run (List V4l2Plane)
    build_planes handles i [] = done []
    build_planes handles i (size ∷ sizes) =
        bind (h.fill_v4l2_plane handles i (new_plane size))
          λ p. bind (build_planes handles (suc i) sizes) λ ps. done (p ∷ ps)

  module _ (kernel : UncheckedBuffer → Result Errno (Unit {0})) (type_ : QueueType)
      (memory : MemoryType) where
    -- `QBuffer::queue_bound_planes`. A `QBuffer` that is dropped with its fuse armed triggers it.
    unfoldable pub queue_bound_planes :
        Allocated P
        → QBuffer
        → List V4l2Plane
        → P
        → Run (Allocated P × Result (QueueError P) (Unit {0}))
    queue_bound_planes q qb planes handles =
        bind
          (to_unchecked (record {
            index = qb.index % 2 ^ 32;
            queue = type_;
            memory = memory;
            tv_sec = qb.tv_sec;
            tv_usec = qb.tv_usec;
            planes = planes;
          }))
          λ buf. elim (kernel buf) [
            | err e ↦
                done
                  ((trigger qb.fuse q).1, err (record { error = other e; plane_handles = handles }))
            | ok _ ↦ elim (update_at (set_queued handles) qb.index q) [
              | none ↦ panicked
              | some (q', _) ↦ done (q', ok tt)
            ]
          ]

    -- An error that is returned before the ioctl: the `QBuffer` is dropped.
    abbrev pub refuse :
        Allocated P
        → QBuffer
        → QBufIoctlError
        → P
        → Run (Allocated P × Result (QueueError P) (Unit {0}))
    refuse q qb e handles =
        done ((trigger qb.fuse q).1, err (record { error = e; plane_handles = handles }))

    module _ (h : BufferHandles P) where
      -- `CaptureQueueable::queue_with_handles`
      unfoldable pub queue_capture :
          Allocated P → QBuffer → P → Run (Allocated P × Result (QueueError P) (Unit {0}))
      queue_capture q qb handles =
          if h.len handles == qb.num_planes
          then bind (build_planes h handles 0 (replicate qb.num_planes 0))
              (λ planes. queue_bound_planes q qb planes handles)
          else refuse q qb (num_planes_mismatch (h.len handles) qb.num_planes) handles

      -- `OutputQueueable::queue_with_handles`
      unfoldable pub queue_output :
          Allocated P → QBuffer → P → List ℕ → Run (Allocated P × Result (QueueError P) (Unit {0}))
      queue_output q qb handles bytes_used =
          if h.len handles == qb.num_planes
          then if length bytes_used == qb.num_planes
            then bind (build_planes h handles 0 bytes_used)
                (λ planes. queue_bound_planes q qb planes handles)
            else refuse q qb (num_planes_mismatch (length bytes_used) qb.num_planes) handles
          else refuse q qb (num_planes_mismatch (h.len handles) qb.num_planes) handles

    -- `QBuffer<Capture>::queue` and `QBuffer<Output>::queue`, for handles that need not be given:
    -- `default_handles` is their `Default::default()`.
    unfoldable pub queue_capture_self_backed :
        P → Allocated P → QBuffer → Run (Allocated P × Result (QueueError P) (Unit {0}))
    queue_capture_self_backed default_handles q qb =
        queue_bound_planes q qb (replicate qb.num_planes (new_plane 0)) default_handles

    unfoldable pub queue_output_self_backed :
        P → Allocated P → QBuffer → List ℕ → Run (Allocated P × Result (QueueError P) (Unit {0}))
    queue_output_self_backed default_handles q qb bytes_used =
        if length bytes_used == qb.num_planes
        then queue_bound_planes q qb (map new_plane bytes_used) default_handles
        else refuse q qb (num_planes_mismatch (length bytes_used) qb.num_planes) default_handles

-- ===== src/Queue/Queueing/Outcome.antt =====
-- lib/src/device/queue/qbuf.rs: every way in which queueing a buffer can end.
use v4l2r.Base.{
  ℕ, ◌%◌, ◌^◌, ◌≤◌, ◌≡◌, refl, ◌≢◌, ◌⊎◌, List, some, Result, ok, err, Run, done, arith, length,
  length-replicate, replicate, get_elem?, ==_eq, ==_ne, inl, inr, subst,
}
use native.Mathlib.Decide.{ℕ_discrete}
use v4l2r.Types.QueueTypes.{QueueType, MemoryType}
use v4l2r.Ioctl.Buffer.{V4l2Plane, UncheckedBuffer, video_max_planes}
use v4l2r.Memory.{BufferHandles, FillsPlanes}
use v4l2r.Queue.Buffers.{free, pre_queue, queued, BufferInfo}
use v4l2r.Queue.Allocated.{Allocated, trigger, set_free}
use v4l2r.Queue.Allocated.Counters.{updated}
use v4l2r.Queue.Allocated.Changed.{Changed, updated-Changed, update_at-found, trigger_live}
use v4l2r.Queue.Queueing.{
  Errno, QBufIoctlError, num_planes_mismatch, other, IoctlQBuffer, to_unchecked, QBuffer,
  QueueError, set_queued, queue_bound_planes, queue_capture, queue_output,
}
use v4l2r.Queue.Queueing.Planes.{Handed, to_unchecked_total, build_planes_total, EachFilled}

-- `qb` is the `QBuffer` for the buffer `b`, reserved at position `i`, and its index is that position.
pub record Reserved {P : Type 0} (i : ℕ) (q : Allocated P) (b : BufferInfo P) (qb : QBuffer)
    : Type 0 where
  pub found : get_elem? q.buffer_info i ≡ some b
  pub is_reserved : b.state ≡ pre_queue
  pub index : qb.index ≡ i
  pub fuse : qb.fuse ≡ some (record { alloc = q.alloc; slot = i })

-- The structure that `queue_bound_planes` converts for the kernel.
abbrev pub request : QueueType → MemoryType → QBuffer → List V4l2Plane → IoctlQBuffer
request type_ memory qb planes = record {
  index = qb.index % 2 ^ 32;
  queue = type_;
  memory = memory;
  tv_sec = qb.tv_sec;
  tv_usec = qb.tv_usec;
  planes = planes;
}

module _ {P : Type 0} (kernel : UncheckedBuffer → Result Errno (Unit {0})) (type_ : QueueType)
    (memory : MemoryType) where
  module _ {i : ℕ} {q : Allocated P} {b : BufferInfo P} {qb : QBuffer} (r : Reserved i q b qb)
      (handles : P) where
    -- How queueing can end: the kernel took the buffer, handed to it with the planes `planes`, and it is
    -- now queued with the handles; the kernel refused it; or nothing was submitted, for the reason
    -- `Refused`. In the last two cases the handles come back and the buffer is free again.
    pub data Ends (Refused : QBufIoctlError → Type 0) (Built : List V4l2Plane → Type 0)
        : Run (Allocated P × Result (QueueError P) (Unit {0})) → Type 0 where
      accepted :
          (planes : List V4l2Plane) (u : UncheckedBuffer) (q' : Allocated P)
          → Built planes
          → Handed (request type_ memory qb planes) u
          → kernel u ≡ ok tt
          → Changed i q q' b (queued handles)
          → Ends Refused Built (done (q', ok tt))
      kernel_refused :
          (planes : List V4l2Plane) (u : UncheckedBuffer) (q' : Allocated P) (e : Errno)
          → Built planes
          → Handed (request type_ memory qb planes) u
          → kernel u ≡ err e
          → Changed i q q' b free
          → Ends Refused Built
              (done (q', err (record { error = other e; plane_handles = handles })))
      refused :
          (q' : Allocated P) (e : QBufIoctlError)
          → Refused e
          → Changed i q q' b free
          → Ends Refused Built (done (q', err (record { error = e; plane_handles = handles })))

    triggered : (trigger qb.fuse q).1 ≡ updated set_free i b q
    triggered = rw (r.fuse, trigger_live i q r.found) refl

    pub freed : Changed i q (trigger qb.fuse q).1 b free
    freed = rw triggered (updated-Changed set_free i q r.found)

    run_accepted :
        (planes : List V4l2Plane) (u : UncheckedBuffer)
        → to_unchecked (request type_ memory qb planes) ≡ done u
        → kernel u ≡ ok tt
        → done (updated (set_queued handles) i b q, ok tt)
          ≡ queue_bound_planes kernel type_ memory q qb planes handles
    unfolding queue_bound_planes
    run_accepted planes u e f =
        ground (arith, r.index, update_at-found (set_queued handles) i q r.found)

    run_refused :
        (planes : List V4l2Plane) (u : UncheckedBuffer) (x : Errno)
        → to_unchecked (request type_ memory qb planes) ≡ done u
        → kernel u ≡ err x
        → done ((trigger qb.fuse q).1, err (record { error = other x; plane_handles = handles }))
          ≡ queue_bound_planes kernel type_ memory q qb planes handles
    unfolding queue_bound_planes
    run_refused planes u x e f = ground arith

    module _ (Refused : QBufIoctlError → Type 0) (Built : List V4l2Plane → Type 0) where
      answered :
          (planes : List V4l2Plane) (u : UncheckedBuffer)
          → Built planes
          → to_unchecked (request type_ memory qb planes) ≡ done u
          → Handed (request type_ memory qb planes) u
          → (k : Result Errno (Unit {0})) → kernel u ≡ k
          → Ends Refused Built (queue_bound_planes kernel type_ memory q qb planes handles)
      answered planes u built e handed (ok x) f =
          subst (Ends Refused Built) (run_accepted planes u e f)
            (accepted planes u _ built handed f (updated-Changed (set_queued handles) i q r.found))
      answered planes u built e handed (err x) f =
          subst (Ends Refused Built) (run_refused planes u x e f)
            (kernel_refused planes u _ x built handed f freed)

      queue_bound_planes-Ends :
          (planes : List V4l2Plane)
          → 1 ≤ length planes
          → length planes ≤ video_max_planes
          → Built planes
          → Ends Refused Built (queue_bound_planes kernel type_ memory q qb planes handles)
      queue_bound_planes-Ends planes lo hi built =
          let (u, e, handed) = to_unchecked_total (request type_ memory qb planes) lo hi in
          answered planes u built e handed (kernel u) refl

    module _ (h : BufferHandles P) (laws : FillsPlanes h) (some_planes : 1 ≤ qb.num_planes)
        (few : qb.num_planes ≤ video_max_planes) where
      -- Queueing a reserved CAPTURE buffer of 1 to `VIDEO_MAX_PLANES` planes never panics. If the number
      -- of handles is not the number of planes, it is refused with that error. Otherwise the kernel gets
      -- a plane of size 0 for each handle, filled in by it, and the buffer is queued with the handles if
      -- the kernel accepts. On each failure the handles come back and the buffer is free again.
      pub queue_capture-Ends :
          Ends
            (λ e.
              (h.len handles ≢ qb.num_planes)
              × (e ≡ num_planes_mismatch (h.len handles) qb.num_planes))
            (λ planes.
              (h.len handles ≡ qb.num_planes)
              × EachFilled h handles 0 (replicate qb.num_planes 0) planes)
            (queue_capture kernel type_ memory h q qb handles)
      unfolding queue_capture
      queue_capture-Ends = elim (ℕ_discrete (h.len handles) qb.num_planes) [
        | no ne ↦ rw (==_ne _ _ ne) (refused _ _ (ne, refl) freed)
        | yes eq ↦
            let sizes : List ℕ = replicate qb.num_planes 0 in
            let count : length sizes ≡ qb.num_planes = length-replicate qb.num_planes 0 in
            let (planes, built, len, each) =
              build_planes_total h laws handles 0 sizes (omega arith) in
            rw (==_eq _ _ eq, built)
              (queue_bound_planes-Ends _ _ planes (omega arith) (omega arith) (eq, each))
      ]

      -- Queueing a reserved OUTPUT buffer of 1 to `VIDEO_MAX_PLANES` planes never panics. If the number
      -- of handles, or that of sizes, is not the number of planes, it is refused with that error, the
      -- handles checked first. Otherwise the kernel gets a plane of each size, filled in by its handle,
      -- and the buffer is queued with the handles if the kernel accepts. On each failure the handles
      -- come back and the buffer is free again.
      pub queue_output-Ends :
          (bytes_used : List ℕ)
          → Ends
              (λ e.
                ((h.len handles ≢ qb.num_planes)
                  × (e ≡ num_planes_mismatch (h.len handles) qb.num_planes))
                ⊎ ((h.len handles ≡ qb.num_planes)
                    × (length bytes_used ≢ qb.num_planes)
                    × (e ≡ num_planes_mismatch (length bytes_used) qb.num_planes)))
              (λ planes.
                (h.len handles ≡ qb.num_planes)
                × (length bytes_used ≡ qb.num_planes)
                × EachFilled h handles 0 bytes_used planes)
              (queue_output kernel type_ memory h q qb handles bytes_used)
      unfolding queue_output
      queue_output-Ends bytes_used = elim (ℕ_discrete (h.len handles) qb.num_planes) [
        | no ne ↦ rw (==_ne _ _ ne) (refused _ _ (inl (ne, refl)) freed)
        | yes eq ↦ elim (ℕ_discrete (length bytes_used) qb.num_planes) [
          | no ne ↦ rw (==_eq _ _ eq, ==_ne _ _ ne) (refused _ _ (inr (eq, ne, refl)) freed)
          | yes eq' ↦
              let (planes, built, len, each) =
                build_planes_total h laws handles 0 bytes_used (omega arith) in
              rw (==_eq _ _ eq, ==_eq _ _ eq', built)
                (queue_bound_planes-Ends _ _ planes (omega arith) (omega arith) (eq, eq', each))
        ]
      ]

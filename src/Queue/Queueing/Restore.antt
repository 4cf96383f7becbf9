-- ===== src/Queue/Queueing/Restore.antt =====
-- lib/src/device/queue.rs and queue/qbuf.rs: getting a buffer by its index and then queueing it.
use v4l2r.Base.{
  ℕ, ◌≤◌, ◌≡◌, refl, ap, ◌∙◌, List, some, Result, ok, err, Run, done, arith, get_elem?, subst,
}
use v4l2r.Types.QueueTypes.{QueueType, MemoryType}
use v4l2r.Ioctl.Buffer.{V4l2Plane}
use v4l2r.Queue.Queueing.{QBufIoctlError}
use v4l2r.Ioctl.Buffer.{UncheckedBuffer, video_max_planes}
use v4l2r.Memory.{BufferHandles, FillsPlanes}
use v4l2r.Queue.Buffers.{free, pre_queue, queued, BufferInfo}
use v4l2r.Queue.Allocated.{Allocated, TryGetBufferError, try_obtain_buffer}
use v4l2r.Queue.Allocated.Counters.{Agree}
use v4l2r.Queue.Allocated.Changed.{Changed, Changed-restores}
use v4l2r.Queue.Allocated.Obtain.{Obtained, try_obtain_buffer-ok}
use v4l2r.Queue.Queueing.{
  Errno, QBuffer, QueueError, new_qbuffer, try_get_buffer, queue_capture, queue_output,
}
use v4l2r.Queue.Queueing.Outcome.{
  Reserved, Ends, accepted, kernel_refused, refused, queue_capture-Ends, queue_output-Ends,
}

module _ {P : Type 0} where
  -- What `try_get_buffer` hands out for the buffer `i`.
  pub record Got (i : ℕ) (q q' : Allocated P) (qb : QBuffer) : Type 0 where
    pub buffer : BufferInfo P
    pub obtained : Obtained i q q' buffer
    pub made : qb ≡ new_qbuffer q' i buffer

  -- A buffer that is got was free; it is reserved, with its fuse armed for it, and nothing else changed.
  pub try_get_buffer-Got :
      (q : Allocated P) (i : ℕ) {q' : Allocated P} {qb : QBuffer}
      → try_get_buffer q i ≡ (q', ok qb)
      → Got i q q' qb
  unfolding try_get_buffer
  try_get_buffer-Got q i {q'} {qb} h = go (try_obtain_buffer q i) refl
    where
      go :
          (r : Allocated P × Result TryGetBufferError (BufferInfo P))
          → try_obtain_buffer q i ≡ r
          → Got i q q' qb
      go (q₁, ok b) e =
          let same : q₁ ≡ q' = ground arith in
          record {
            buffer = b;
            obtained = try_obtain_buffer-ok q i (ground arith);
            made = ground arith;
          }
      go (q₁, err x) e = absurd (ground arith)

  pub Got-Reserved :
      (q q' : Allocated P) (i : ℕ) {qb : QBuffer} (g : Got i q q' qb)
      → g.buffer.features.index ≡ i
      → Reserved i q' (record (g.buffer) { state = pre_queue }) qb
  unfolding new_qbuffer
  Got-Reserved q q' i g e = record {
    found = g.obtained.change.now;
    is_reserved = refl;
    index = ap QBuffer.index g.made ∙ e;
    fuse = ap QBuffer.fuse g.made;
  }

module _ {P : Type 0} (kernel : UncheckedBuffer → Result Errno (Unit {0})) (type_ : QueueType)
    (memory : MemoryType) {i : ℕ} {q' : Allocated P} {b : BufferInfo P} {qb : QBuffer}
    (r : Reserved i q' b qb) (handles : P) (Refused : QBufIoctlError → Type 0)
    (Built : List V4l2Plane → Type 0) where
  pub Ends-err :
      {o : Run (Allocated P × Result (QueueError P) (Unit {0}))} {q'' : Allocated P}
      {e : QueueError P}
      → Ends kernel type_ memory r handles Refused Built o
      → o ≡ done (q'', err e)
      → Changed i q' q'' b free × (e.plane_handles ≡ handles)
  Ends-err (accepted planes u x built handed k c) h = absurd (ground arith)
  Ends-err {q'' = q''} (kernel_refused planes u x e built handed k c) h =
      let same : x ≡ q'' = ground arith in (subst (λ y. Changed i q' y b free) same c, ground arith)
  Ends-err {q'' = q''} (refused x e why c) h =
      let same : x ≡ q'' = ground arith in (subst (λ y. Changed i q' y b free) same c, ground arith)

  pub Ends-ok :
      {o : Run (Allocated P × Result (QueueError P) (Unit {0}))} {q'' : Allocated P} {t : Unit {0}}
      → Ends kernel type_ memory r handles Refused Built o
      → o ≡ done (q'', ok t)
      → Changed i q' q'' b (queued handles)
  Ends-ok {q'' = q''} (accepted planes u x built handed k c) h =
      let same : x ≡ q'' = ground arith in subst (λ y. Changed i q' y b (queued handles)) same c
  Ends-ok (kernel_refused planes u x e built handed k c) h = absurd (ground arith)
  Ends-ok (refused x e why c) h = absurd (ground arith)

-- Every buffer carries the index of its position.
pub record Numbered {P : Type 0} (q : Allocated P) : Type 0 where
  pub index_at :
      (i : ℕ) (b : BufferInfo P) → get_elem? q.buffer_info i ≡ some b → b.features.index ≡ i

module _ {P : Type 0} (kernel : UncheckedBuffer → Result Errno (Unit {0})) (type_ : QueueType)
    (memory : MemoryType) (h : BufferHandles P) (laws : FillsPlanes h) (q : Allocated P) (i : ℕ)
    {q' : Allocated P} {qb : QBuffer} (handles : P) (numbered : Numbered q)
    (got : try_get_buffer q i ≡ (q', ok qb)) (some_planes : 1 ≤ qb.num_planes)
    (few : qb.num_planes ≤ video_max_planes) where
  pub what_got : Got i q q' qb
  what_got = try_get_buffer-Got q i got

  pub reserved : Reserved i q' (record (what_got.buffer) { state = pre_queue }) qb
  reserved =
      Got-Reserved q q' i what_got
        (numbered.index_at i what_got.buffer what_got.obtained.change.found)

  restored :
      {q'' : Allocated P}
      → Changed i q' q'' (record (what_got.buffer) { state = pre_queue }) free
      → Agree q.buffer_info q.stats
      → q'' ≡ q
  restored {q''} c a =
      Changed-restores i q q' q'' what_got.buffer _ _ _ what_got.obtained.change c
        what_got.obtained.was_free a

  -- Take a queue whose counters agree with its buffers and whose buffers are numbered by position. If
  -- a buffer of 1 to `VIDEO_MAX_PLANES` planes is got and queueing it on CAPTURE fails, the queue is
  -- exactly what it was before the buffer was got, and the handles come back.
  pub queue_capture-restores :
      {q'' : Allocated P} {e : QueueError P}
      → Agree q.buffer_info q.stats
      → queue_capture kernel type_ memory h q' qb handles ≡ done (q'', err e)
      → (q'' ≡ q) × (e.plane_handles ≡ handles)
  queue_capture-restores a eq =
      let (c, back) =
        Ends-err kernel type_ memory reserved handles _ _
          (queue_capture-Ends kernel type_ memory reserved handles h laws some_planes few) eq in
      (restored c a, back)

  -- Take a queue whose counters agree with its buffers and whose buffers are numbered by position. If
  -- a buffer of 1 to `VIDEO_MAX_PLANES` planes is got and queueing it on OUTPUT fails, the queue is
  -- exactly what it was before the buffer was got, and the handles come back.
  pub queue_output-restores :
      (bytes_used : List ℕ) {q'' : Allocated P} {e : QueueError P}
      → Agree q.buffer_info q.stats
      → queue_output kernel type_ memory h q' qb handles bytes_used ≡ done (q'', err e)
      → (q'' ≡ q) × (e.plane_handles ≡ handles)
  queue_output-restores bytes_used a eq =
      let (c, back) =
        Ends-err kernel type_ memory reserved handles _ _
          (queue_output-Ends kernel type_ memory reserved handles h laws some_planes few bytes_used)
          eq in
      (restored c a, back)

  -- What `queue_output` leaves when it succeeds on a buffer that was got by its position.
  pub queue_output-queues :
      (bytes_used : List ℕ) {q'' : Allocated P} {t : Unit {0}}
      → queue_output kernel type_ memory h q' qb handles bytes_used ≡ done (q'', ok t)
      → Changed i q' q'' (record (what_got.buffer) { state = pre_queue }) (queued handles)
  queue_output-queues bytes_used eq =
      Ends-ok kernel type_ memory reserved handles _ _
        (queue_output-Ends kernel type_ memory reserved handles h laws some_planes few bytes_used)
        eq

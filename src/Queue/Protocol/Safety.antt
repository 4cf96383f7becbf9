-- ===== src/Queue/Protocol/Safety.antt =====
-- lib/src/device/queue.rs: the panics of the queue, and the reachable states.
use v4l2r.Base.{
  ℕ, ◌≡◌, refl, sym, ◌∙◌, ◌≢◌, true, List, map, some, Result, ok, Run, done, panicked, arith,
  get_elem?,
}
use v4l2r.Ioctl.Buffer.{V4l2Buffer, UncheckedBuffer}
use v4l2r.Types.QueueTypes.{QueueType, MemoryType}
use v4l2r.Memory.{BufferHandles, FillsPlanes}
use v4l2r.Queue.Buffers.{queued, dequeued, BufferInfo, is_queued}
use v4l2r.Queue.Allocated.{Allocated, num_queued_buffers}
use v4l2r.Queue.Allocated.Changed.{Changed}
use v4l2r.Queue.Allocated.Cancel.{held, released, cancel_queued_buffers_total}
use v4l2r.Queue.Queueing.{Errno, QBuffer, QueueError, QBufIoctlError, queue_output}
use v4l2r.Ioctl.Buffer.{V4l2Plane}
use v4l2r.Queue.Queueing.Outcome.{
  Reserved, Ends, accepted, kernel_refused, refused, queue_output-Ends,
}
use v4l2r.Queue.Dequeueing.{DqBufError, DqBuffer, new_dqbuffer, try_dequeue, stream_off}
use v4l2r.Queue.Dequeueing.Returned.{Dequeues, returned, inconsistent, try_dequeue-Dequeues}
use v4l2r.Queue.Protocol.{Holder, preparer, driver, IsFor, Reachable}
use v4l2r.Queue.Protocol.Invariant.{Invariant, holder_at-driver, preparer-Reserved}
use v4l2r.Queue.Protocol.Reaching.{Reachable-Invariant}

module _ {P : Type 0} where
  -- What a dequeue that succeeds gives: the handles that the queue had stored with the buffer.
  pub record Succeeds (q : Allocated P) (buf : V4l2Buffer) : Type 0 where
    pub after : Allocated P
    pub buffer : BufferInfo P
    pub handles : P
    pub stored : buffer.state ≡ queued handles
    pub change : Changed buf.buffer.index q after buffer dequeued
    pub answer :
        try_dequeue (ok buf) q ≡ done (after, ok (new_dqbuffer after buf.buffer.index handles buf))

  Dequeues-Succeeds :
      {q : Allocated P} {buf : V4l2Buffer} {o : Run (Allocated P × Result DqBufError (DqBuffer P))}
      {b : BufferInfo P}
      → Dequeues q buf o
      → get_elem? q.buffer_info buf.buffer.index ≡ some b
      → is_queued b.state ≡ true
      → try_dequeue (ok buf) q ≡ o
      → Succeeds q buf
  Dequeues-Succeeds (returned q' b handles s c) e k eq = record {
    after = q';
    buffer = b;
    handles = handles;
    stored = s;
    change = c;
    answer = eq;
  }
  Dequeues-Succeeds {b = b} (inconsistent n) e k eq = absurd (ground (arith, n b e))

  Ends-runs :
      (kernel : UncheckedBuffer → Result Errno (Unit {0})) (type_ : QueueType) (memory : MemoryType)
      {i : ℕ} {q : Allocated P} {b : BufferInfo P} {qb : QBuffer} (r : Reserved i q b qb)
      (handles : P) {Refused : QBufIoctlError → Type 0} {Built : List V4l2Plane → Type 0}
      {o : Run (Allocated P × Result (QueueError P) (Unit {0}))}
      → Ends kernel type_ memory r handles Refused Built o
      → o ≢ panicked
  Ends-runs kernel type_ memory r handles (accepted planes u q' built handed k c) = λ e. cc
  Ends-runs kernel type_ memory r handles (kernel_refused planes u q' e built handed k c) = λ e. cc
  Ends-runs kernel type_ memory r handles (refused q' e why c) = λ e. cc

module _ {P : Type 0} (h : BufferHandles P) (laws : FillsPlanes h)
    (kernel : UncheckedBuffer → Result Errno (Unit {0})) (type_ : QueueType) (memory : MemoryType)
    {q : Allocated P} {w : ℕ → Holder} (reach : Reachable h kernel type_ memory q w) where
  inv : Invariant q w
  inv = Reachable-Invariant h laws kernel type_ memory reach

  -- In every reachable state, when the kernel returns a buffer that the driver holds,
  -- `try_dequeue` succeeds without a panic: it returns the handles stored with the buffer, which
  -- becomes dequeued, with no other change.
  pub Reachable-try_dequeue : (buf : V4l2Buffer) → w buf.buffer.index ≡ driver → Succeeds q buf
  Reachable-try_dequeue buf e =
      let (b, there, k) =
        holder_at-driver (get_elem? q.buffer_info buf.buffer.index)
          (sym (inv.matches buf.buffer.index) ∙ e) in
      Dequeues-Succeeds (try_dequeue-Dequeues q buf) there k refl

  -- In every reachable state, the owner of a `QBuffer` of 1 to `VIDEO_MAX_PLANES` planes can queue it on
  -- OUTPUT with any handles and sizes without a panic.
  pub Reachable-queue_output :
      (i : ℕ) (qb : QBuffer) (handles : P) (bytes_used : List ℕ)
      → w i ≡ preparer
      → IsFor q i qb
      → queue_output kernel type_ memory h q qb handles bytes_used ≢ panicked
  Reachable-queue_output i qb handles bytes_used e f =
      let (b, r) = preparer-Reserved inv e f in
      Ends-runs kernel type_ memory r handles (
        queue_output-Ends kernel type_ memory r handles h laws f.some_planes f.few_planes
          bytes_used)

  -- In every reachable state, `stream_off` passes its assertion when the ioctl succeeds: it returns
  -- exactly the handles that were stored in queued buffers, in the order of the buffers, frees those
  -- buffers, and leaves the count of queued buffers at 0.
  pub Reachable-stream_off :
      (q' : Allocated P) × (stream_off (ok tt) q ≡ done (q', ok (held q.buffer_info)))
      × (q'.buffer_info ≡ map released q.buffer_info)
      × (num_queued_buffers q' ≡ 0)
  unfolding stream_off num_queued_buffers
  Reachable-stream_off =
      let (q₁, run, infos, same, a, none_left) = cancel_queued_buffers_total q inv.agree in
      (q₁, rw run refl, infos, none_left)

-- ===== src/Queue/Protocol.antt =====
-- lib/src/device/queue.rs and its child modules: the life of the buffers of one allocation, as steps.
-- Rust's ownership decides which step is possible: only the holder of a `QBuffer` can queue or drop it,
-- and only the holder of a `DqBuffer` can drop that. The driver only returns a buffer that it holds.
pub mod Invariant
pub mod Reaching
pub mod Safety
use v4l2r.Base.{
  ℕ, ◌≤◌, ◌<◌, ◌≡◌, List, some, Result, ok, err, done, length, get_elem?, if◌then◌else◌, ◌==◌,
}
use v4l2r.Ioctl.Buffer.{V4l2Buffer, UncheckedBuffer, video_max_planes}
use v4l2r.Types.QueueTypes.{QueueType, MemoryType}
use v4l2r.Memory.{BufferHandles}
use v4l2r.Queue.Buffers.{QueryBuffer, usize_mod, new_stats}
use v4l2r.Queue.Allocated.{Allocated, TryGetBufferError, CanceledBuffer, trigger, register}
use v4l2r.Queue.Queueing.{Errno, QBuffer, QueueError, try_get_buffer, queue_output, queue_capture}
use v4l2r.Queue.Dequeueing.{DqBuffer, try_dequeue, drop_dqbuffer, stream_off}

-- Who has a buffer: nobody, the owner of its `QBuffer`, the driver, the owner of its `DqBuffer`.
pub data Holder : Type 0 where
  nobody preparer driver reader : Holder

abbrev pub give : ℕ → Holder → (ℕ → Holder) → ℕ → Holder
give i who holder j = if i == j then who else holder j

-- Streaming off takes every buffer from the driver.
abbrev pub withdrawn : Holder → Holder
withdrawn driver = nobody
withdrawn who = who

-- A queue that `request_buffers_generic` has just built, over answers to QUERYBUF that are numbered by
-- position.
pub record Fresh {P : Type 0} (q : Allocated P) : Type 0 where
  pub features : List QueryBuffer
  pub infos : q.buffer_info ≡ (register {P = P} features new_stats).0
  pub counted : q.stats ≡ (register {P = P} features new_stats).1
  pub few : length features < usize_mod
  pub numbered : (i : ℕ) (f : QueryBuffer) → get_elem? features i ≡ some f → f.index ≡ i

-- A `QBuffer` of the queue `q` for its buffer `i`.
pub record IsFor {P : Type 0} (q : Allocated P) (i : ℕ) (qb : QBuffer) : Type 0 where
  pub index : qb.index ≡ i
  pub fuse : qb.fuse ≡ some (record { alloc = q.alloc; slot = i })
  pub some_planes : 1 ≤ qb.num_planes
  pub few_planes : qb.num_planes ≤ video_max_planes

module _ {P : Type 0} (h : BufferHandles P) (kernel : UncheckedBuffer → Result Errno (Unit {0}))
    (type_ : QueueType) (memory : MemoryType) where
  pub data Step : Allocated P → (ℕ → Holder) → Allocated P → (ℕ → Holder) → Type 0 where
    get :
        (q q' : Allocated P) (w : ℕ → Holder) (i : ℕ) (qb : QBuffer)
        → try_get_buffer q i ≡ (q', ok qb)
        → Step q w q' (give i preparer w)
    get_refused :
        (q q' : Allocated P) (w : ℕ → Holder) (i : ℕ) (e : TryGetBufferError)
        → try_get_buffer q i ≡ (q', err e)
        → Step q w q' w
    submit_output :
        (q q' : Allocated P) (w : ℕ → Holder) (i : ℕ) (qb : QBuffer) (handles : P)
        (bytes_used : List ℕ) (t : Unit {0})
        → w i ≡ preparer
        → IsFor q i qb
        → queue_output kernel type_ memory h q qb handles bytes_used ≡ done (q', ok t)
        → Step q w q' (give i driver w)
    submit_output_failed :
        (q q' : Allocated P) (w : ℕ → Holder) (i : ℕ) (qb : QBuffer) (handles : P)
        (bytes_used : List ℕ) (e : QueueError P)
        → w i ≡ preparer
        → IsFor q i qb
        → queue_output kernel type_ memory h q qb handles bytes_used ≡ done (q', err e)
        → Step q w q' (give i nobody w)
    submit_capture :
        (q q' : Allocated P) (w : ℕ → Holder) (i : ℕ) (qb : QBuffer) (handles : P) (t : Unit {0})
        → w i ≡ preparer
        → IsFor q i qb
        → queue_capture kernel type_ memory h q qb handles ≡ done (q', ok t)
        → Step q w q' (give i driver w)
    submit_capture_failed :
        (q q' : Allocated P) (w : ℕ → Holder) (i : ℕ) (qb : QBuffer) (handles : P)
        (e : QueueError P)
        → w i ≡ preparer
        → IsFor q i qb
        → queue_capture kernel type_ memory h q qb handles ≡ done (q', err e)
        → Step q w q' (give i nobody w)
    abandon :
        (q : Allocated P) (w : ℕ → Holder) (i : ℕ) (qb : QBuffer)
        → w i ≡ preparer
        → IsFor q i qb
        → Step q w (trigger qb.fuse q).1 (give i nobody w)
    dequeue :
        (q q' : Allocated P) (w : ℕ → Holder) (buf : V4l2Buffer) (dq : DqBuffer P)
        → w buf.buffer.index ≡ driver
        → try_dequeue (ok buf) q ≡ done (q', ok dq)
        → Step q w q' (give buf.buffer.index reader w)
    drop_dequeued :
        (q : Allocated P) (w : ℕ → Holder) (i : ℕ) (dq : DqBuffer P)
        → w i ≡ reader
        → dq.fuse ≡ some (record { alloc = q.alloc; slot = i })
        → Step q w (drop_dqbuffer dq q).0 (give i nobody w)
    stop :
        (q q' : Allocated P) (w : ℕ → Holder) (canceled : List (CanceledBuffer P))
        → stream_off (ok tt) q ≡ done (q', ok canceled)
        → Step q w q' (λ j. withdrawn (w j))

  pub data Reachable : Allocated P → (ℕ → Holder) → Type 0 where
    start : (q : Allocated P) → Fresh q → Reachable q (λ j. nobody)
    next :
        (q q' : Allocated P) (w w' : ℕ → Holder) → Reachable q w → Step q w q' w' → Reachable q' w'

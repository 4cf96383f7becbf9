-- ===== src/Queue/Dequeueing.antt =====
-- lib/src/device/queue.rs (`try_dequeue`, `stream_off`, `free_buffers`) and
-- lib/src/device/queue/dqbuf.rs: getting buffers back from the kernel. Its answers to DQBUF, STREAMOFF
-- and REQBUFS are arguments. A drop callback is a number; running one is recorded in a list.
pub mod Returned
pub mod Roundtrip
use v4l2r.Base.{ℕ, List, [], ◌∷◌, Option, none, some, Result, ok, err, Run, done, panicked, bind}
use Prim.Native.Nat.{compare, Ordering}
use v4l2r.Ioctl.Buffer.{V4l2Buffer, BufferFromError}
use v4l2r.Queue.Buffers.{BufferState, dequeued, queued}
use v4l2r.Queue.Allocated.{
  Allocated, WeakInfo, CanceledBuffer, update_at, trigger, cancel_queued_buffers,
}

abbrev pub Errno : Type 0
Errno = ℕ

pub data DqBufError : Type 0 where
  eos not_ready : DqBufError
  ioctl_error : Errno → DqBufError
  conversion_error : BufferFromError → DqBufError

-- `From<Errno> for DqBufIoctlError`; EAGAIN is 11 and EPIPE is 32.
unfoldable pub from_errno : Errno → DqBufError
from_errno e = elim (compare e 11) [
  | Ordering.eq ↦ not_ready
  | _ ↦ elim (compare e 32) [ Ordering.eq ↦ eos | _ ↦ ioctl_error e ]
]

-- `DqBuffer`. `plane_handles` is emptied by `take_handles`.
pub record DqBuffer (P : Type 0) : Type 0 where
  pub contents : V4l2Buffer
  pub plane_handles : Option P
  pub buffer_info : WeakInfo
  pub drop_callbacks : List ℕ
  pub fuse : Option WeakInfo

-- The `while let Some(callback) = self.drop_callbacks.pop()` of `drop`: what was run, in order.
unfoldable pub run_callbacks : List ℕ → List ℕ
run_callbacks [] = []
run_callbacks (callback ∷ rest) = callback ∷ run_callbacks rest

module _ {P : Type 0} where
  -- The closure of `try_dequeue`; `none` is its `unreachable!`.
  abbrev pub take_handles_of : BufferState P → BufferState P × Option P
  take_handles_of (queued handles) = (dequeued, some handles)
  take_handles_of s = (s, none)

  -- `DqBuffer::new` on the buffer at `slot`.
  unfoldable pub new_dqbuffer : Allocated P → ℕ → P → V4l2Buffer → DqBuffer P
  new_dqbuffer q slot handles contents =
      let weak : WeakInfo = record { alloc = q.alloc; slot = slot } in
      record {
        contents = contents;
        plane_handles = some handles;
        buffer_info = weak;
        drop_callbacks = [];
        fuse = some weak;
      }

  -- `Queue::try_dequeue`
  unfoldable pub try_dequeue :
      Result DqBufError V4l2Buffer
      → Allocated P
      → Run (Allocated P × Result DqBufError (DqBuffer P))
  try_dequeue (err e) q = done (q, err e)
  try_dequeue (ok buf) q = elim (update_at take_handles_of buf.buffer.index q) [
    | none ↦ panicked
    | some (q', r) ↦ elim r [
      | none ↦ panicked
      | some handles ↦ done (q', ok (new_dqbuffer q' buf.buffer.index handles buf))
    ]
  ]

  -- `DqBuffer::take_handles`
  unfoldable pub take_handles : DqBuffer P → DqBuffer P × Option P
  take_handles dq = (record dq { plane_handles = none }, dq.plane_handles)

  -- `DqBuffer::add_drop_callback`: `Vec::push`. The last callback comes first in the list.
  unfoldable pub add_drop_callback : ℕ → DqBuffer P → DqBuffer P
  add_drop_callback callback dq = record dq { drop_callbacks = callback ∷ dq.drop_callbacks }

  -- `Drop for DqBuffer`: the fuse first, then the callbacks.
  unfoldable pub drop_dqbuffer : DqBuffer P → Allocated P → Allocated P × List ℕ
  drop_dqbuffer dq q = let (fuse', q') = trigger dq.fuse q in (q', run_callbacks dq.drop_callbacks)

  -- `Stream::stream_off`
  unfoldable pub stream_off :
      Result Errno (Unit {0})
      → Allocated P
      → Run (Allocated P × Result Errno (List (CanceledBuffer P)))
  stream_off (err e) q = done (q, err e)
  stream_off (ok _) q = bind (cancel_queued_buffers q) λ r. done (r.0, ok r.1)

  -- `AllocatedQueue::free_buffers`; the queue goes on as `QueueInit`, so only the canceled buffers
  -- are left. An error drops the queue, for `free_buffers` consumes it.
  unfoldable pub free_buffers :
      Result Errno (Unit {0}) → Allocated P → Run (Result Errno (List (CanceledBuffer P)))
  free_buffers (err e) q = done (err e)
  free_buffers (ok _) q = bind (cancel_queued_buffers q) λ r. done (ok r.1)

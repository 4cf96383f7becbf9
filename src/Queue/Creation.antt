-- ===== src/Queue/Creation.antt =====
-- lib/src/device/queue.rs (`create`, `request_buffers_generic`, `Drop for QueueBase`),
-- lib/src/ioctl/reqbufs.rs and lib/src/ioctl/querybuf.rs: taking a queue of a device, allocating its
-- buffers, and giving it back. The answers of the kernel to REQBUFS and QUERYBUF are arguments.
pub mod Exclusive
pub mod Allocating
use v4l2r.Base.{
  ℕ, zero, suc, ◌+◌, ◌%◌, ◌^◌, Bool, true, false, List, [], ◌∷◌, map, none, some, Result, ok, err,
  Run, done, panicked, map_ok, ◌==◌, if◌then◌else◌, take,
}
use Prim.Native.Nat.{bit_and}
use v4l2r.Types.QueueTypes.{QueueType, queue_type_u32, MemoryType, mmap, dma_buf}
use v4l2r.Ioctl.Buffer.{V4l2Plane, UncheckedBuffer, all_buffer_flags}
use v4l2r.Queue.Buffers.{QueryBufPlane, QueryBuffer, new_stats}
use v4l2r.Queue.Allocated.{Allocated, register}

abbrev pub Errno : Type 0
Errno = ℕ

pub data ReqbufsError : Type 0 where
  invalid_buffer_type : QueueType → MemoryType → ReqbufsError
  ioctl_error : Errno → ReqbufsError

-- The end of `ioctl::reqbufs`, on the answer of the kernel; EINVAL is 22.
unfoldable pub reqbufs {ℓ} :
    {O : Type ℓ} → QueueType → MemoryType → Result Errno O → Result ReqbufsError O
reqbufs queue memory (ok o) = ok o
reqbufs queue memory (err e) =
    if e == 22 then err (invalid_buffer_type queue memory) else err (ioctl_error e)

-- `QueueBase`, without the device, which is passed along.
pub record QueueBase : Type 0 where
  pub type_ : QueueType
  pub capabilities : ℕ

pub data CreateQueueError : Type 0 where
  already_borrowed : CreateQueueError
  reqbufs_error : ReqbufsError → CreateQueueError

-- The set `used_queues` of a `Device`: `contains`, `insert` and `remove`, which tells whether the type
-- was there.
unfoldable pub contains : QueueType → List QueueType → Bool
contains t [] = false
contains t (u ∷ used) = if queue_type_u32 u == queue_type_u32 t then true else contains t used

unfoldable pub insert : QueueType → List QueueType → List QueueType
insert t used = if contains t used then used else t ∷ used

unfoldable pub remove : QueueType → List QueueType → List QueueType × Bool
remove t [] = ([], false)
remove t (u ∷ used) =
    let (rest, found) = remove t used in
    if queue_type_u32 u == queue_type_u32 t then (used, true) else (u ∷ rest, found)

-- `Queue::create`: `kernel` answers REQBUFS with a count of 0 for each memory type.
unfoldable pub create :
    (MemoryType → Result Errno ℕ)
    → QueueType
    → List QueueType
    → List QueueType × Result CreateQueueError QueueBase
create kernel t used =
    if contains t used then (used, err already_borrowed) else elim (reqbufs t mmap (kernel mmap)) [
      | ok c ↦ (insert t used, ok (record { type_ = t; capabilities = c }))
      | err (ioctl_error e) ↦ (used, err (reqbufs_error (ioctl_error e)))
      | err (invalid_buffer_type _ _) ↦ elim (reqbufs t dma_buf (kernel dma_buf)) [
        | ok c ↦ (insert t used, ok (record { type_ = t; capabilities = c }))
        | err e ↦ (used, err (reqbufs_error e))
      ]
    ]

-- `Drop for QueueBase`, with its assertion.
unfoldable pub drop_queue : QueueBase → List QueueType → Run (List QueueType)
drop_queue q used =
    let (used', found) = remove q.type_ used in if found then done used' else panicked

-- `TryFrom<UncheckedV4l2Buffer> for QueryBuffer`; `offset` is the low half of the union.
abbrev pub query_plane : V4l2Plane → QueryBufPlane
query_plane p = record { mem_offset = p.m % 2 ^ 32; plane_length = p.length }

unfoldable pub query_buffer : UncheckedBuffer → QueryBuffer
query_buffer u = record {
  index = u.raw.index;
  flags = bit_and u.raw.flags all_buffer_flags;
  planes = elim u.raw_planes [
    | none ↦ record { mem_offset = u.raw.m % 2 ^ 32; plane_length = u.raw.length } ∷ []
    | some planes ↦ map query_plane (take u.raw.length planes)
  ];
}

pub data RequestBuffersError : Type 0 where
  request_failed : ReqbufsError → RequestBuffersError
  query_failed : Errno → RequestBuffersError

-- `for i in 0..num_buffers`, where `n` buffers are left.
unfoldable pub query_all :
    (ℕ → Result Errno UncheckedBuffer) → ℕ → ℕ → Result RequestBuffersError (List QueryBuffer)
query_all querybuf i zero = ok []
query_all querybuf i (suc n) = elim (querybuf i) [
  | err e ↦ err (query_failed e)
  | ok u ↦ map_ok (◌∷◌ (query_buffer u)) (query_all querybuf (i + 1) n)
]

-- `Queue::request_buffers_generic`; `alloc` is the identity of the allocation. An error drops the
-- queue, for the method consumes it.
unfoldable pub request_buffers_generic :
    (P : Type 0)
    → Result Errno ℕ
    → (ℕ → Result Errno UncheckedBuffer)
    → QueueType
    → MemoryType
    → ℕ
    → Result RequestBuffersError (Allocated P)
request_buffers_generic P kernel querybuf t memory alloc = elim (reqbufs t memory kernel) [
  | err e ↦ err (request_failed e)
  | ok num_buffers ↦ elim (query_all querybuf 0 num_buffers) [
    | err e ↦ err e
    | ok features ↦
        let (infos, stats) = register {P = P} features new_stats in
        ok (record { alloc = alloc; memory_type = memory; buffer_info = infos; stats = stats })
  ]
]

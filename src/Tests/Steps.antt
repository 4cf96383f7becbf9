-- ===== src/Tests/Steps.antt =====
-- The theorems on the life of the buffers, applied to a run that ends with a buffer at the driver, and
-- those on creating queues and on the pool.
use v4l2r.Base.{
  ℕ, zero, suc, ◌≡◌, refl, false, Bool, List, [], ◌∷◌, map, none, some, Result, ok, err, done,
  get_elem?, arith, ◌+◌, ◌==◌,
}
use v4l2r.Types.QueueTypes.{QueueType, video_output, video_capture, MemoryType, mmap, user_ptr}
use v4l2r.Ioctl.Buffer.{UncheckedBuffer, default_buffer}
use v4l2r.Memory.Vectors.{vector_handles, vector-FillsPlanes}
use v4l2r.Queue.Buffers.{QueryBuffer, new_stats}
use v4l2r.Queue.Allocated.{Allocated, num_queued_buffers}
use v4l2r.Queue.Allocated.Cancel.{held, released}
use v4l2r.Queue.Queueing.{queue_output}
use v4l2r.Queue.Dequeueing.{stream_off}
use v4l2r.Queue.Protocol.{
  Holder, nobody, preparer, driver, give, Fresh, IsFor, get, submit_output, Reachable, next,
}
use v4l2r.Queue.Protocol.Invariant.{Invariant}
use v4l2r.Queue.Protocol.Reaching.{Reachable-Invariant}
use v4l2r.Queue.Protocol.Safety.{Succeeds, Reachable-try_dequeue, Reachable-stream_off}
use v4l2r.Queue.Creation.{
  ioctl_error, QueueBase, already_borrowed, reqbufs_error, contains, create, drop_queue,
  request_buffers_generic,
}
use v4l2r.Queue.Creation.Exclusive.{drop_queue-create}
use v4l2r.Queue.Creation.Allocating.{KeepsIndex, Granted, request_buffers_generic-Granted}
use v4l2r.Queue.Pool.{Pool, get_handles}
use v4l2r.Queue.Pool.Recycling.{tally, Reaches, taken, Reaches-tally}
use v4l2r.Tests.Fixtures.{
  Handles, features, idle, reserved_first, handles, queued_first, first_buffer, accepting,
  returned_first, got_first,
}

submitted :
    queue_output accepting video_output user_ptr vector_handles reserved_first first_buffer handles
      (3 ∷ [])
    ≡ done (queued_first, ok tt)
unfolding queue_output v4l2r.Memory.Vectors.vector_len v4l2r.Queue.Queueing.build_planes
    v4l2r.Memory.Vectors.vector_fill v4l2r.Queue.Queueing.queue_bound_planes
    v4l2r.Queue.Queueing.to_unchecked v4l2r.Ioctl.Buffer.new_for_querybuf
    v4l2r.Queue.Allocated.update_at v4l2r.Queue.Buffers.update_state v4l2r.Queue.Buffers.enter
    v4l2r.Queue.Buffers.leave
submitted = refl

idle-Fresh : Fresh idle
unfolding v4l2r.Queue.Allocated.register v4l2r.Queue.Buffers.new_info new_stats
idle-Fresh = record {
  features = features 0 ∷ features 1 ∷ [];
  infos = refl;
  counted = refl;
  few = omega arith;
  numbered = at;
}
  where
    at :
        (i : ℕ) (f : QueryBuffer)
        → get_elem? (features 0 ∷ features 1 ∷ []) i ≡ some f
        → f.index ≡ i
    at zero b e = ground arith
    at (suc zero) b e = ground arith
    at (suc (suc i)) b e = absurd (cc)

abbrev nobody_holds : ℕ → Holder
nobody_holds j = nobody

reach_reserved :
    Reachable vector_handles accepting video_output user_ptr reserved_first
      (give 0 preparer nobody_holds)
reach_reserved =
    next idle reserved_first nobody_holds (give 0 preparer nobody_holds)
      (Reachable.start idle idle-Fresh)
      (get idle reserved_first nobody_holds 0 first_buffer got_first)

is_first : IsFor reserved_first 0 first_buffer
is_first = record { index = refl; fuse = refl; some_planes = omega arith; few_planes = omega arith }

abbrev driver_holds : ℕ → Holder
driver_holds = give 0 driver (give 0 preparer nobody_holds)

reach_queued : Reachable vector_handles accepting video_output user_ptr queued_first driver_holds
reach_queued =
    next reserved_first queued_first (give 0 preparer nobody_holds) driver_holds reach_reserved (
      submit_output reserved_first queued_first (give 0 preparer nobody_holds) 0 first_buffer
        handles (3 ∷ []) tt refl is_first submitted)

Reachable-Invariant_example : Invariant queued_first driver_holds
Reachable-Invariant_example =
    Reachable-Invariant vector_handles vector-FillsPlanes accepting video_output user_ptr
      reach_queued

Reachable-try_dequeue_example : Succeeds queued_first returned_first
Reachable-try_dequeue_example =
    Reachable-try_dequeue vector_handles vector-FillsPlanes accepting video_output user_ptr
      reach_queued returned_first refl

Reachable-stream_off_example :
    (q' : Allocated Handles) × (stream_off (ok tt) queued_first
      ≡ done (q', ok (held queued_first.buffer_info)))
    × (q'.buffer_info ≡ map released queued_first.buffer_info)
    × (num_queued_buffers q' ≡ 0)
Reachable-stream_off_example =
    Reachable-stream_off vector_handles vector-FillsPlanes accepting video_output user_ptr
      reach_queued

-- A kernel that has no MMAP buffers, and one that refuses everything.
abbrev only_dma_buf : MemoryType → Result ℕ ℕ
only_dma_buf mmap = err 22
only_dma_buf m = ok 9

abbrev broken : MemoryType → Result ℕ ℕ
broken m = err 5

abbrev made : QueueBase
made = record { type_ = video_output; capabilities = 9 }

created :
    create only_dma_buf video_output (video_capture ∷ [])
    ≡ (video_output ∷ video_capture ∷ [], ok made)
unfolding create contains v4l2r.Queue.Creation.reqbufs v4l2r.Queue.Creation.insert
created = refl

drop_queue-create_example :
    (create broken video_output (video_output ∷ video_capture ∷ [])
      ≡ (video_output ∷ video_capture ∷ [], err already_borrowed))
    × (drop_queue made (video_output ∷ video_capture ∷ []) ≡ done (video_capture ∷ []))
    × (contains video_output (video_capture ∷ []) ≡ false)
drop_queue-create_example =
    drop_queue-create only_dma_buf broken video_output (video_capture ∷ []) created

not_created :
    create broken video_output (video_capture ∷ [])
    ≡ (video_capture ∷ [], err (reqbufs_error (ioctl_error 5)))
unfolding create contains v4l2r.Queue.Creation.reqbufs
not_created = refl

abbrev in_use : List QueueType
in_use = video_capture ∷ []

abbrev querybuf : ℕ → Result ℕ UncheckedBuffer
querybuf i =
    ok (record { raw = record default_buffer { index = i; length = 64 }; raw_planes = none })

querybuf-KeepsIndex : KeepsIndex querybuf
querybuf-KeepsIndex = record { keeps = λ i u e. ground arith }

requested : request_buffers_generic Handles (ok 2) querybuf video_output mmap 7 ≡ ok idle
unfolding request_buffers_generic v4l2r.Queue.Creation.reqbufs v4l2r.Queue.Creation.query_all
    v4l2r.Queue.Allocated.register v4l2r.Queue.Buffers.new_info v4l2r.Queue.Creation.query_buffer
    new_stats
requested = refl

request_buffers_generic-Granted_example : Granted 2 idle
request_buffers_generic-Granted_example =
    request_buffers_generic-Granted Handles 2 querybuf querybuf-KeepsIndex video_output mmap 7
      (omega arith) requested

abbrev full : Pool ℕ
full = record { buffers = 3 ∷ 4 ∷ []; waker = none }

abbrev one_left : Pool ℕ
one_left = record { buffers = 4 ∷ []; waker = none }

take_one : get_handles 0 full ≡ (one_left, some (record { handles = some 3 }))
unfolding get_handles
take_one = refl

abbrev is_three : ℕ → Bool
is_three h = h == 3

three_out : Reaches full [] one_left (3 ∷ [])
three_out = taken full full one_left [] [] 0 3 (Reaches.start full []) take_one

Reaches-tally_example :
    tally is_three (4 ∷ []) + tally is_three (3 ∷ [])
    ≡ tally is_three (3 ∷ 4 ∷ []) + tally is_three []
Reaches-tally_example = Reaches-tally is_three three_out

abbrev drained : Pool ℕ
drained = record { buffers = []; waker = none }

abbrev waiting : Pool ℕ
waiting = record { buffers = []; waker = some 6 }

asked : get_handles 6 drained ≡ (waiting, none)
unfolding get_handles
asked = refl

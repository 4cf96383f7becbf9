-- ===== src/Tests/Queues.antt =====
-- The theorems on queues, applied to a queue of two buffers.
use v4l2r.Base.{panicked, ℕ, ◌≡◌, refl, ◌≢◌, ◌⊎◌, List, [], ◌∷◌, some, ok, err, done, length, arith}
use v4l2r.Types.QueueTypes.{video_output, user_ptr}
use v4l2r.Memory.Vectors.{vector_handles, vector-FillsPlanes}
use v4l2r.Queue.Buffers.{free, pre_queue, dequeued}
use v4l2r.Queue.Allocated.{
  Allocated, already_used, update_at, try_obtain_buffer, try_get_free_buffer_during,
}
use v4l2r.Queue.Allocated.Obtain.{Contends, try_get_free_buffer_during-Contends}
use v4l2r.Queue.Queueing.{num_planes_mismatch, other, queue_output, queue_capture}
use v4l2r.Queue.Queueing.Planes.{EachFilled}
use v4l2r.Queue.Queueing.Outcome.{Reserved, Ends, queue_output-Ends, queue_capture-Ends}
use v4l2r.Queue.Queueing.Restore.{queue_output-restores}
use v4l2r.Queue.Dequeueing.{DqBuffer, try_dequeue}
use v4l2r.Queue.Dequeueing.Returned.{Dequeues, try_dequeue-Dequeues}
use v4l2r.Queue.Dequeueing.Roundtrip.{ComesBack, queue_dequeue_drop}
use v4l2r.Tests.Fixtures.{
  Handles, features, two, idle, reserved_first, handles, queued_first, first_buffer, accepting,
  refusing, returned_first, idle-Agree, idle-Numbered, got_first,
}

queued_output :
    queue_output accepting video_output user_ptr vector_handles reserved_first first_buffer handles
      (3 ∷ [])
    ≡ done (queued_first, ok tt)
unfolding queue_output v4l2r.Memory.Vectors.vector_len v4l2r.Queue.Queueing.build_planes
    v4l2r.Memory.Vectors.vector_fill v4l2r.Queue.Queueing.queue_bound_planes
    v4l2r.Queue.Queueing.to_unchecked v4l2r.Ioctl.Buffer.new_for_querybuf update_at
    v4l2r.Queue.Buffers.update_state v4l2r.Queue.Buffers.enter v4l2r.Queue.Buffers.leave
queued_output = refl

failed_output :
    queue_output refusing video_output user_ptr vector_handles reserved_first first_buffer handles
      (3 ∷ [])
    ≡ done (idle, err (record { error = other 5; plane_handles = handles }))
unfolding queue_output v4l2r.Memory.Vectors.vector_len v4l2r.Queue.Queueing.build_planes
    v4l2r.Memory.Vectors.vector_fill v4l2r.Queue.Queueing.queue_bound_planes
    v4l2r.Queue.Queueing.to_unchecked v4l2r.Ioctl.Buffer.new_for_querybuf
    v4l2r.Queue.Allocated.trigger update_at v4l2r.Queue.Buffers.update_state
    v4l2r.Queue.Buffers.enter v4l2r.Queue.Buffers.leave
failed_output = refl

abbrev none_given : Handles
none_given = []

failed_capture :
    queue_capture accepting video_output user_ptr vector_handles reserved_first first_buffer []
    ≡ done (idle, err (record { error = num_planes_mismatch 0 1; plane_handles = [] }))
unfolding queue_capture v4l2r.Memory.Vectors.vector_len v4l2r.Queue.Allocated.trigger update_at
    v4l2r.Queue.Buffers.update_state v4l2r.Queue.Buffers.enter v4l2r.Queue.Buffers.leave
failed_capture = refl

reserved_buffer :
    Reserved 0 reserved_first (record { features = features 0; state = pre_queue }) first_buffer
reserved_buffer = record { found = refl; is_reserved = refl; index = refl; fuse = refl }

queue_dequeue_drop_example : ComesBack 0 queued_first returned_first handles idle
queue_dequeue_drop_example =
    queue_dequeue_drop accepting video_output user_ptr vector_handles vector-FillsPlanes idle 0
      handles idle-Numbered got_first (omega arith) (omega arith) (3 ∷ []) returned_first idle-Agree
      queued_output refl

queue_output-restores_example : (idle ≡ idle) × (handles ≡ handles)
queue_output-restores_example =
    queue_output-restores refusing video_output user_ptr vector_handles vector-FillsPlanes idle 0
      handles idle-Numbered got_first (omega arith) (omega arith) (3 ∷ []) idle-Agree failed_output

abbrev two_sizes : List ℕ
two_sizes = 3 ∷ 4 ∷ []

abbrev len : ℕ
len = vector_handles.len handles

queue_output-Ends_example :
    Ends accepting video_output user_ptr reserved_buffer handles
      (λ e.
        ((len ≢ first_buffer.num_planes) × (e ≡ num_planes_mismatch len 1))
        ⊎ ((len ≡ first_buffer.num_planes)
            × (length two_sizes ≢ first_buffer.num_planes)
            × (e ≡ num_planes_mismatch 2 1)))
      (λ planes.
        (len ≡ first_buffer.num_planes)
        × (length two_sizes ≡ first_buffer.num_planes)
        × EachFilled vector_handles handles 0 two_sizes planes)
      (queue_output accepting video_output user_ptr vector_handles reserved_first first_buffer
        handles two_sizes)
queue_output-Ends_example =
    queue_output-Ends accepting video_output user_ptr reserved_buffer handles vector_handles
      vector-FillsPlanes (omega arith) (omega arith) two_sizes

queue_capture-Ends_example :
    Ends accepting video_output user_ptr reserved_buffer handles
      (λ e. (len ≢ first_buffer.num_planes) × (e ≡ num_planes_mismatch len 1))
      (λ planes.
        (len ≡ first_buffer.num_planes) × EachFilled vector_handles handles 0 (0 ∷ []) planes)
      (queue_capture accepting video_output user_ptr vector_handles reserved_first first_buffer
        handles)
queue_capture-Ends_example =
    queue_capture-Ends accepting video_output user_ptr reserved_buffer handles vector_handles
      vector-FillsPlanes (omega arith) (omega arith)

try_dequeue-Dequeues_example :
    Dequeues queued_first returned_first (try_dequeue (ok returned_first) queued_first)
try_dequeue-Dequeues_example = try_dequeue-Dequeues queued_first returned_first

abbrev dequeued_first : Allocated Handles
dequeued_first = two dequeued free 1 0

abbrev in_hand : DqBuffer Handles
in_hand = record {
  contents = returned_first;
  plane_handles = some handles;
  buffer_info = record { alloc = 7; slot = 0 };
  drop_callbacks = 5 ∷ 4 ∷ [];
  fuse = some (record { alloc = 7; slot = 0 });
}

abbrev reallocated : Allocated Handles
reallocated = record dequeued_first { alloc = 8 }

-- Another thread takes the first buffer between the two steps.
abbrev first_taken : Allocated Handles → Allocated Handles
first_taken q = (try_obtain_buffer q 0).0

try_get_free_buffer_during-Contends_example :
    Contends first_taken idle (try_get_free_buffer_during first_taken idle)
try_get_free_buffer_during-Contends_example =
    try_get_free_buffer_during-Contends first_taken idle idle-Agree

raced : try_get_free_buffer_during first_taken idle ≡ panicked
unfolding try_get_free_buffer_during v4l2r.Queue.Allocated.find_free try_obtain_buffer update_at
    v4l2r.Queue.Buffers.update_state
raced = refl

not_free : try_obtain_buffer queued_first 0 ≡ (queued_first, err already_used)
unfolding try_obtain_buffer update_at v4l2r.Queue.Buffers.update_state v4l2r.Queue.Buffers.enter
    v4l2r.Queue.Buffers.leave
not_free = refl

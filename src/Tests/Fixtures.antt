-- ===== src/Tests/Fixtures.antt =====
-- A queue of two buffers of one plane each, and what goes through it.
use v4l2r.Base.{ℕ, ◌≡◌, refl, List, [], ◌∷◌, some, Result, ok, err, get_elem?, arith, zero, suc}
use v4l2r.Types.QueueTypes.{mmap}
use v4l2r.Ioctl.Buffer.{default_buffer, default_planes, V4l2Buffer, UncheckedBuffer}
use v4l2r.Memory.Vectors.{Handle, user_ptr_handle}
use v4l2r.Queue.Buffers.{QueryBuffer, BufferState, free, pre_queue, queued, BufferInfo}
use v4l2r.Queue.Allocated.{Allocated}
use v4l2r.Queue.Allocated.Counters.{Agree}
use v4l2r.Queue.Queueing.{QBuffer, try_get_buffer}
use v4l2r.Queue.Queueing.Restore.{Numbered}

abbrev pub Handles : Type 0
Handles = List Handle

abbrev pub features : ℕ → QueryBuffer
features i = record {
  index = i;
  flags = 0;
  planes = record { mem_offset = 0; plane_length = 64 } ∷ [];
}

-- The queue with its buffers in two given states.
abbrev pub two : BufferState Handles → BufferState Handles → ℕ → ℕ → Allocated Handles
two s t f k = record {
  alloc = 7;
  memory_type = mmap;
  buffer_info =
      record { features = features 0; state = s }
      ∷ record { features = features 1; state = t }
      ∷ [];
  stats = record { num_free = f; num_queued = k };
}

abbrev pub idle : Allocated Handles
idle = two free free 2 0

abbrev pub reserved_first : Allocated Handles
reserved_first = two pre_queue free 1 0

abbrev pub handles : Handles
handles = user_ptr_handle 4096 64 ∷ []

abbrev pub queued_first : Allocated Handles
queued_first = two (queued handles) free 1 1

abbrev pub first_buffer : QBuffer
first_buffer = record {
  index = 0;
  num_planes = 1;
  tv_sec = 0;
  tv_usec = 0;
  fuse = some (record { alloc = 7; slot = 0 });
}

abbrev pub accepting : UncheckedBuffer → Result ℕ (Unit {0})
accepting u = ok tt

abbrev pub refusing : UncheckedBuffer → Result ℕ (Unit {0})
refusing u = err 5

-- What the kernel returns for the first buffer.
abbrev pub returned_first : V4l2Buffer
returned_first = record {
  buffer = record default_buffer { type_ = 2; memory = 1 };
  planes = default_planes;
}

pub idle-Agree : Agree idle.buffer_info idle.stats
unfolding v4l2r.Queue.Allocated.Counters.count
idle-Agree = record { frees = refl; queueds = refl; small = omega arith }

pub queued_first-Agree : Agree queued_first.buffer_info queued_first.stats
unfolding v4l2r.Queue.Allocated.Counters.count
queued_first-Agree = record { frees = refl; queueds = refl; small = omega arith }

pub idle-Numbered : Numbered idle
idle-Numbered = record { index_at = at }
  where
    at :
        (i : ℕ) (b : BufferInfo Handles)
        → get_elem? idle.buffer_info i ≡ some b
        → b.features.index ≡ i
    at zero b e = ground arith
    at (suc zero) b e = ground arith
    at (suc (suc i)) b e = absurd (cc)

pub got_first : try_get_buffer idle 0 ≡ (reserved_first, ok first_buffer)
unfolding try_get_buffer v4l2r.Queue.Allocated.try_obtain_buffer v4l2r.Queue.Allocated.update_at
    v4l2r.Queue.Buffers.update_state v4l2r.Queue.Buffers.leave v4l2r.Queue.Buffers.enter
    v4l2r.Queue.Queueing.new_qbuffer
got_first = refl

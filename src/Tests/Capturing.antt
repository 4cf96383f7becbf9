-- ===== src/Tests/Capturing.antt =====
-- The theorems on the capture thread, applied to a thread that decodes into two buffers.
use v4l2r.Base.{
  ℕ, ◌≡◌, refl, Bool, true, false, List, [], ◌∷◌, none, some, Result, ok, err, done, Returns,
  Yields, Succeeds,
}
use v4l2r.Types.QueueTypes.{video_capture_mplane, mmap}
use v4l2r.Ioctl.Buffer.{UncheckedBuffer, V4l2Buffer, default_buffer, default_planes, is_last}
use v4l2r.Ioctl.Events.{RawEvent}
use v4l2r.Ioctl.Events.Pending.{is_drc_event_pending}
use v4l2r.Memory.Vectors.{vector_handles}
use v4l2r.Poller.{Poller, device, waker, v4l2_event, epoll_wait, is_event_enabled}
use v4l2r.Poller.Keyed.{no_wakers, one_more}
use v4l2r.Queue.Allocated.{Allocated}
use v4l2r.Queue.Creation.{QueueBase}
use v4l2r.Queue.Provider.{HandlesProvider, mmap_provider}
use v4l2r.Decoder.Capture.{
  DecodingQueue, awaiting_resolution, decoding, CaptureThread, Answers, update_capture_format,
  dequeue_capture_buffer,
}
use v4l2r.Decoder.Capture.Updating.{Updated, update_capture_format-Updated}
use v4l2r.Decoder.Capture.Listening.{waits, decodes, Linked}
use v4l2r.Decoder.Capture.Commands.{drain, enqueue}
use v4l2r.Decoder.Capture.Commands.Draining.{Promises, Settled}
use v4l2r.Decoder.Capture.Commands.Obliging.{
  Obliging, drain-completes, dequeue_capture_buffer-completes,
}
use v4l2r.Decoder.Capture.Running.{Turn, run}
use v4l2r.Decoder.Capture.Running.Ending.{Waiting}
use v4l2r.Decoder.Capture.Running.Safety.{run-Waiting}
use v4l2r.Tests.Fixtures.{Handles, idle, handles, queued_first, returned_first, queued_first-Agree}

abbrev provider : HandlesProvider Handles Handles
provider = mmap_provider Handles

abbrev pub base : QueueBase
base = record { type_ = video_capture_mplane; capabilities = 0 }

abbrev drc_answer : List (Result ℕ RawEvent)
drc_answer = ok (record { type_ = 5; changes = 1 }) ∷ []

abbrev pub querybuf : ℕ → Result ℕ UncheckedBuffer
querybuf i = ok (record {
  raw = record default_buffer { index = i; length = 1 };
  raw_planes = some default_planes;
})

abbrev pub last_frame : V4l2Buffer
last_frame = record returned_first { buffer = record (returned_first.buffer) { flags = 1048576 } }

abbrev answers : Answers Handles
answers = record {
  receiver_alive = true;
  decoder_cmd = ok tt;
  streamoff = ok tt;
  streamon = ok tt;
  free_answer = ok tt;
  qbuf = λ n u. ok tt;
  events = [];
  dqbuf = ok last_frame;
  modify_first = ok tt;
  modify_second = ok tt;
  delete = ok tt;
  eventfd = ok tt;
  add = ok tt;
  selection = ok tt;
  format = ok tt;
  reply = ok (record { provider = handles; mem_type = mmap; num_buffers = 2 });
  reqbufs = λ n. ok n;
  querybuf = querybuf;
  name = 7;
}

abbrev waiting_thread : CaptureThread Handles Handles
waiting_thread = record {
  capture_queue = awaiting_resolution base;
  poller = record {
    wakers = (2, record { counter = 0 }) ∷ [];
    registered = record { epollin = false; epollout = false; epollpri = true; epollerr = false };
    capture_enabled = false;
    output_enabled = false;
    events_enabled = true;
    poll_wakeups_counter = none;
  };
  responses = [];
  emitted = [];
}

abbrev decoding_queue : Allocated Handles → Bool → DecodingQueue Handles Handles
decoding_queue q blocking = record {
  base = base;
  capture_queue = q;
  provider = handles;
  cap_buffer_waker = 7;
  blocking_drain_in_progress = blocking;
}

abbrev decoding_thread : Allocated Handles → Bool → CaptureThread Handles Handles
decoding_thread q blocking = record {
  capture_queue = decoding (decoding_queue q blocking);
  poller = record {
    wakers = (1, record { counter = 0 }) ∷ (2, record { counter = 0 }) ∷ [];
    registered = record { epollin = true; epollout = false; epollpri = false; epollerr = false };
    capture_enabled = true;
    output_enabled = false;
    events_enabled = false;
    poll_wakeups_counter = none;
  };
  responses = [];
  emitted = [];
}

waiting-Linked : Linked waiting_thread
unfolding v4l2r.Poller.lookup
waiting-Linked = record {
  listens = record {
    in_step = record { listens_in = refl; listens_out = refl; listens_pri = refl };
    no_output = refl;
    commands_wake = (_, refl);
    keyed = one_more refl no_wakers;
  };
  mode = waits refl refl refl;
}

decoding-Linked : Linked (decoding_thread queued_first true)
unfolding v4l2r.Poller.lookup
decoding-Linked = record {
  listens = record {
    in_step = record { listens_in = refl; listens_out = refl; listens_pri = refl };
    no_output = refl;
    commands_wake = (_, refl);
    keyed = one_more refl (one_more refl no_wakers);
  };
  mode = decodes refl (_, refl);
}

-- The first resolution is found, and then the poll fails.
abbrev turns : List (Turn Handles)
turns =
    record {
      modify = ok tt;
      polled = ok (
          record {
            event = device v4l2_event;
            answers = record answers { events = drc_answer };
            commands = [];
          }
          ∷ []);
    }
    ∷ record {
      modify = ok tt;
      polled = ok (record { event = waker 1; answers = answers; commands = [] } ∷ []);
    }
    ∷ record { modify = ok tt; polled = err (epoll_wait 4) }
    ∷ []

run-Waiting_example : Yields Waiting (run provider vector_handles 3 answers turns waiting_thread)
run-Waiting_example =
    run-Waiting provider vector_handles 3 answers turns waiting_thread waiting-Linked

run_returns :
    run provider vector_handles 3 answers turns waiting_thread ≡ some (done waiting_thread)
unfolding run v4l2r.Decoder.Capture.Running.main_loop v4l2r.Decoder.Capture.Running.adjust_polling
    v4l2r.Decoder.Capture.Running.finish v4l2r.Decoder.Capture.Running.handle_events
    v4l2r.Decoder.Capture.Running.handle_event v4l2r.Decoder.Capture.process_v4l2_event
    v4l2r.Decoder.Capture.update_if_drc is_drc_event_pending v4l2r.Ioctl.Events.Pending.drc_loop
    v4l2r.Ioctl.Events.dqevent v4l2r.Ioctl.Events.dqevent_error v4l2r.Ioctl.Events.event_try_from
    update_capture_format v4l2r.Decoder.Capture.reset_queue v4l2r.Decoder.Capture.build_queue
    v4l2r.Poller.set_event is_event_enabled v4l2r.Poller.assign_event
    v4l2r.Poller.update_device_registration v4l2r.Poller.add_waker v4l2r.Poller.remove_waker
    v4l2r.Poller.lookup v4l2r.Poller.remove v4l2r.Poller.update_waker v4l2r.Poller.wake_direct
    v4l2r.Queue.Creation.request_buffers_generic v4l2r.Queue.Creation.reqbufs
    v4l2r.Queue.Creation.query_all v4l2r.Queue.Creation.query_buffer v4l2r.Queue.Allocated.register
    v4l2r.Queue.Buffers.new_info v4l2r.Queue.Buffers.new_stats
    v4l2r.Decoder.Capture.Commands.enqueue_capture_buffers enqueue
    v4l2r.Decoder.Capture.Commands.queued_or_dropped mmap_provider v4l2r.Queue.Provider.any_suitable
    v4l2r.Queue.Allocated.try_get_free_buffer v4l2r.Queue.Allocated.try_get_free_buffer_during
    v4l2r.Queue.Allocated.find_free v4l2r.Queue.Allocated.try_obtain_buffer
    v4l2r.Queue.Allocated.update_at v4l2r.Queue.Buffers.update_state v4l2r.Queue.Buffers.leave
    v4l2r.Queue.Buffers.enter v4l2r.Queue.Queueing.new_qbuffer v4l2r.Queue.Queueing.queue_capture
    v4l2r.Queue.Queueing.build_planes v4l2r.Memory.Vectors.vector_len
    v4l2r.Memory.Vectors.vector_fill v4l2r.Queue.Queueing.queue_bound_planes
    v4l2r.Queue.Queueing.to_unchecked v4l2r.Queue.Queueing.overwrite v4l2r.Queue.Queueing.new_plane
    v4l2r.Ioctl.Buffer.new_for_querybuf v4l2r.Queue.Dequeueing.stream_off
    v4l2r.Queue.Dequeueing.free_buffers v4l2r.Queue.Allocated.cancel_queued_buffers
    v4l2r.Queue.Allocated.cancel_all v4l2r.Queue.Allocated.num_queued_buffers
run_returns = refl

update_capture_format-Updated_example :
    Returns
      (Succeeds (Updated answers (decoding_thread queued_first true)))
      (update_capture_format answers (decoding_thread queued_first true))
update_capture_format-Updated_example =
    update_capture_format-Updated answers (decoding_thread queued_first true) decoding-Linked

obliging : Obliging provider answers
unfolding mmap_provider
obliging = record {
  receives = refl;
  takes_command = refl;
  streams_off = refl;
  streams_on = refl;
  takes_back = λ handles v. (v, refl);
}

idle-Settled : Settled 0 (decoding_thread idle false)
idle-Settled = record { sent = refl; none_due = refl }

due : Promises 1 (decoding_thread queued_first true)
unfolding v4l2r.Decoder.Capture.Commands.Draining.promised
due = record { total = refl }

drain-completes_example :
    (t' : CaptureThread Handles Handles) × (drain provider vector_handles answers true
        (decoding_thread idle false)
      ≡ done t')
    × Promises 1 t'
drain-completes_example =
    drain-completes provider answers obliging vector_handles true (decoding_thread idle false) 0
      idle-Settled

no_events : is_drc_event_pending [] ≡ done ([], ok false)
unfolding is_drc_event_pending v4l2r.Ioctl.Events.Pending.drc_loop v4l2r.Ioctl.Events.dqevent
    v4l2r.Ioctl.Events.dqevent_error
no_events = refl

dequeue_capture_buffer-completes_example :
    (t' : CaptureThread Handles Handles) × (dequeue_capture_buffer provider answers
        (decoding_thread queued_first true)
      ≡ done t')
    × Promises 1 t'
    × (is_last last_frame ≡ true → Settled 1 t')
dequeue_capture_buffer-completes_example =
    dequeue_capture_buffer-completes provider answers obliging 1 last_frame
      (decoding_thread queued_first true) (decoding_queue queued_first true) _ handles no_events
      refl refl refl refl queued_first-Agree due

last_is_last : is_last last_frame ≡ true
unfolding is_last v4l2r.Ioctl.Buffer.flags
last_is_last = refl

-- ===== src/Decoder/Capture.antt =====
-- lib/src/decoder/stateful/capture_thread.rs: the thread that manages the CAPTURE queue of a decoder:
-- its state, changes of format and decoded frames. What the kernel and the client answer while an event
-- or a command is processed is an argument.
pub mod Commands
pub mod Listening
pub mod Running
pub mod Updating
use v4l2r.Base.{
  ℕ, ◌%◌, ◌^◌, Bool, true, false, List, [], ◌∷◌, Result, ok, err, Run, done, panicked, bind,
  unwrap_ok,
}
use v4l2r.Types.QueueTypes.{MemoryType}
use v4l2r.Ioctl.Buffer.{V4l2Buffer, UncheckedBuffer, is_last}
use v4l2r.Ioctl.Events.{RawEvent}
use v4l2r.Ioctl.Events.Pending.{is_drc_event_pending}
use v4l2r.Poller.{
  Poller, IoError, v4l2_event, capture_ready, add_waker, remove_waker, set_event, update_waker,
  wake_direct,
}
use v4l2r.Queue.Allocated.{Allocated, CanceledBuffer}
use v4l2r.Queue.Dequeueing.{
  DqBufError, DqBuffer, try_dequeue, add_drop_callback, stream_off, free_buffers,
}
use v4l2r.Queue.Creation.{QueueBase, RequestBuffersError, request_buffers_generic}
use v4l2r.Queue.Provider.{HandlesProvider}

abbrev pub Errno : Type 0
Errno = ℕ

-- `CAPTURE_READY` and `COMMAND_WAITING`
abbrev pub capture_ready_id : ℕ
capture_ready_id = 1

abbrev pub command_waiting_id : ℕ
command_waiting_id = 2

-- `DrainError`, whose last variant stands for any error message, and `CaptureThreadResponse`.
pub data DrainError : Type 0 where
  try_again send_error recv_error capture_thread_error : DrainError

pub data CaptureThreadResponse : Type 0 where
  drain_done : Result DrainError Bool → CaptureThreadResponse
  flush_done : Result ℕ (Unit {0}) → CaptureThreadResponse

-- `DecoderEvent`
pub data DecoderEvent (H : Type 0) : Type 0 where
  frame_decoded : DqBuffer H → DecoderEvent H
  end_of_stream : DecoderEvent H

-- `CaptureQueue`. The queue `base` is the one that both states have; `cap_buffer_waker` is the number
-- that stands for the `Arc`.
pub record DecodingQueue (V H : Type 0) : Type 0 where
  pub base : QueueBase
  pub capture_queue : Allocated H
  pub provider : V
  pub cap_buffer_waker : ℕ
  pub blocking_drain_in_progress : Bool

pub data CaptureQueue (V H : Type 0) : Type 0 where
  awaiting_resolution : QueueBase → CaptureQueue V H
  decoding : DecodingQueue V H → CaptureQueue V H

-- `CaptureThread`. What was sent through `response_sender` and given to `event_cb` so far is in two
-- lists, the last one first.
pub record CaptureThread (V H : Type 0) : Type 0 where
  pub capture_queue : CaptureQueue V H
  pub poller : Poller
  pub responses : List CaptureThreadResponse
  pub emitted : List (DecoderEvent H)

-- `FormatChangedReply`
pub record FormatChangedReply (V : Type 0) : Type 0 where
  pub provider : V
  pub mem_type : MemoryType
  pub num_buffers : ℕ

-- What is answered while one event or command is processed: whether the receiver of the responses
-- still exists; each ioctl, `qbuf` by the turn of its loop; epoll and eventfd; the number that names
-- what a change of format allocates; and what the callback of the client replies.
pub record Answers (V : Type 0) : Type 0 where
  pub receiver_alive : Bool
  pub decoder_cmd : Result Errno (Unit {0})
  pub streamoff : Result Errno (Unit {0})
  pub streamon : Result Errno (Unit {0})
  pub free_answer : Result Errno (Unit {0})
  pub qbuf : ℕ → UncheckedBuffer → Result Errno (Unit {0})
  pub events : List (Result Errno RawEvent)
  pub dqbuf : Result DqBufError V4l2Buffer
  pub modify_first : Result Errno (Unit {0})
  pub modify_second : Result Errno (Unit {0})
  pub delete : Result Errno (Unit {0})
  pub eventfd : Result Errno (Unit {0})
  pub add : Result Errno (Unit {0})
  pub selection : Result Errno (Unit {0})
  pub format : Result Errno (Unit {0})
  pub reply : Result ℕ (FormatChangedReply V)
  pub reqbufs : ℕ → Result Errno ℕ
  pub querybuf : ℕ → Result Errno UncheckedBuffer
  pub name : ℕ

-- `UpdateCaptureError`
pub data UpdateCaptureError : Type 0 where
  poller_events streamoff_error g_fmt g_selection callback stream_on : Errno → UpdateCaptureError
  free_buffers_error : Errno → UpdateCaptureError
  remove_waker_error add_waker_error : IoError → UpdateCaptureError
  request_buffers : RequestBuffersError → UpdateCaptureError

module _ {V H : Type 0} where
  -- `CaptureThread::new`, on the poller that `Poller::new` returned.
  unfoldable pub new_thread :
      Answers V → QueueBase → Result Errno Poller → Result IoError (CaptureThread V H)
  new_thread a capture_queue (err e) = err (IoError.os e)
  new_thread a capture_queue (ok poller) =
      let (p, r) = set_event a.modify_first v4l2_event true poller in
      elim r [
        | err e ↦ err (IoError.os e)
        | ok _ ↦
            let (p', w) = add_waker command_waiting_id a.eventfd a.add p in
            elim w [
              | err e ↦ err e
              | ok _ ↦ ok (record {
                capture_queue = awaiting_resolution capture_queue;
                poller = p';
                responses = [];
                emitted = [];
              })
            ]
      ]

  -- `CaptureThread::send_response`
  unfoldable pub send_response :
      Answers V → CaptureThreadResponse → CaptureThread V H → Run (CaptureThread V H)
  send_response a response t = elim a.receiver_alive [
    | true ↦ done (record t { responses = response ∷ t.responses })
    | false ↦ panicked
  ]

  -- The `match` that `update_capture_format` begins with.
  unfoldable pub reset_queue :
      Answers V → CaptureThread V H → Run (Result UpdateCaptureError (Poller × QueueBase))
  reset_queue a t = elim t.capture_queue [
    | awaiting_resolution base ↦
        let (p, r) = set_event a.modify_first v4l2_event false t.poller in
        elim r [
          | err e ↦ done (err (poller_events e))
          | ok _ ↦
              let (p', r') = set_event a.modify_second capture_ready true p in
              elim r' [ err e ↦ done (err (poller_events e)) | ok _ ↦ done (ok (p', base)) ]
        ]
    | decoding d ↦
        let (p, r) = remove_waker capture_ready_id a.delete t.poller in
        elim r [
          | err e ↦ done (err (remove_waker_error e))
          | ok _ ↦ bind (stream_off a.streamoff d.capture_queue) λ s. elim s.1 [
            | err e ↦ done (err (streamoff_error e))
            | ok _ ↦ bind (free_buffers a.free_answer s.0) λ f. elim f [
              | err e ↦ done (err (free_buffers_error e))
              | ok _ ↦ done (ok (p, d.base))
            ]
          ]
        ]
  ]

  -- The rest of `update_capture_format`: the new queue.
  unfoldable pub build_queue :
      Answers V
      → CaptureThread V H
      → Poller × QueueBase
      → Result UpdateCaptureError (CaptureThread V H)
  build_queue a t (poller, base) = elim a.selection [
    | err e ↦ err (g_selection e)
    | ok _ ↦ elim a.format [
      | err e ↦ err (g_fmt e)
      | ok _ ↦ elim a.reply [
        | err e ↦ err (callback e)
        | ok reply ↦
            elim (request_buffers_generic H (a.reqbufs (reply.num_buffers % 2 ^ 32)) a.querybuf
              base.type_ reply.mem_type a.name) [
                | err e ↦ err (request_buffers e)
                | ok queue ↦
                    let (p, w) = add_waker capture_ready_id a.eventfd a.add poller in
                    elim w [
                      | err e ↦ err (add_waker_error e)
                      | ok _ ↦ elim a.streamon [
                        | err e ↦ err (stream_on e)
                        | ok _ ↦ ok (record t {
                          capture_queue = decoding (record {
                            base = base;
                            capture_queue = queue;
                            provider = reply.provider;
                            cap_buffer_waker = a.name;
                            blocking_drain_in_progress = false;
                          });
                          poller = record p {
                            wakers = update_waker wake_direct capture_ready_id p.wakers;
                          };
                        })
                      ]
                    ]
              ]
      ]
    ]
  ]

  -- `CaptureThread::update_capture_format`
  unfoldable pub update_capture_format :
      Answers V → CaptureThread V H → Run (Result UpdateCaptureError (CaptureThread V H))
  update_capture_format a t =
      bind (reset_queue a t)
        λ r. elim r [ err e ↦ done (err e) | ok queue ↦ done (build_queue a t queue) ]

  -- `if is_drc_event_pending(...).unwrap() { update_capture_format().unwrap() }`, or `otherwise`.
  unfoldable pub update_if_drc :
      Answers V → CaptureThread V H → Run (CaptureThread V H) → Run (CaptureThread V H)
  update_if_drc a t otherwise = bind (is_drc_event_pending a.events) λ r.
      bind (unwrap_ok r.1)
        λ drc. elim drc [ true ↦ bind (update_capture_format a t) unwrap_ok | false ↦ otherwise ]

  -- `CaptureThread::process_v4l2_event`
  unfoldable pub process_v4l2_event : Answers V → CaptureThread V H → Run (CaptureThread V H)
  process_v4l2_event a t = elim t.capture_queue [
    | awaiting_resolution _ ↦ update_if_drc a t (done t)
    | decoding _ ↦ panicked
  ]

  -- Canceled buffers are dropped at once, and their handles with them.
  unfoldable pub discard_all : HandlesProvider V H → List (CanceledBuffer H) → V → Run V
  discard_all h [] v = done v
  discard_all h (b ∷ bs) v = bind (h.discard b.plane_handles v) (discard_all h bs)

  -- `capture_queue.stream_off().unwrap(); capture_queue.stream_on().unwrap();`
  unfoldable pub restart :
      HandlesProvider V H → Answers V → DecodingQueue V H → Run (DecodingQueue V H)
  restart h a d = bind (stream_off a.streamoff d.capture_queue) λ s.
      bind (unwrap_ok s.1) λ canceled.
        bind (discard_all h canceled d.provider) λ v.
          bind (unwrap_ok a.streamon) λ _. done (record d { capture_queue = s.0; provider = v })

  -- The end of the stream: the `else` of `dequeue_capture_buffer`.
  unfoldable pub end_stream :
      HandlesProvider V H
      → Answers V
      → CaptureThread V H
      → DecodingQueue V H
      → Run (CaptureThread V H)
  end_stream h a t d = bind (restart h a d) λ d'.
      let ended : CaptureThread V H = record t {
        capture_queue = decoding (record d' { blocking_drain_in_progress = false });
        emitted = end_of_stream ∷ t.emitted;
      } in
      elim d.blocking_drain_in_progress [
        | true ↦ send_response a (drain_done (ok true)) ended
        | false ↦ done ended
      ]

  -- `CaptureThread::dequeue_capture_buffer`. The drop callback is the number of the waker. The client
  -- keeps the buffer it is given; dropping it is a step of its own.
  unfoldable pub dequeue_capture_buffer :
      HandlesProvider V H → Answers V → CaptureThread V H → Run (CaptureThread V H)
  dequeue_capture_buffer h a t = elim t.capture_queue [
    | awaiting_resolution _ ↦ panicked
    | decoding d ↦ bind (try_dequeue a.dqbuf d.capture_queue) λ r. elim r.1 [
      | err e ↦ done (record t { capture_queue = decoding (record d { capture_queue = r.0 }) })
      | ok dq ↦
          let d' : DecodingQueue V H = record d { capture_queue = r.0 } in
          let t' : CaptureThread V H = record t {
            capture_queue = decoding d';
            emitted = frame_decoded (add_drop_callback d.cap_buffer_waker dq) ∷ t.emitted;
          } in
          elim (is_last dq.contents) [
            | true ↦ update_if_drc a t' (end_stream h a t' d')
            | false ↦ done t'
          ]
    ]
  ]

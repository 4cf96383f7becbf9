-- ===== src/Decoder/Capture/Running.antt =====
-- lib/src/decoder/stateful/capture_thread.rs: the main loop of the thread.
pub mod Linked
pub mod Safety
pub mod Ending
use v4l2r.Base.{
  ℕ, Bool, true, false, List, [], ◌∷◌, Option, none, some, Result, ok, err, Run, done, panicked,
  bind, chain, unwrap_ok, ◌==◌, if◌then◌else◌, not,
}
use v4l2r.Memory.{BufferHandles}
use v4l2r.Poller.{
  PollError, PollEvent, device, waker, v4l2_event, capture_ready, output_ready, set_event,
  remove_waker,
}
use v4l2r.Queue.Allocated.{num_queued_buffers}
use v4l2r.Queue.Dequeueing.{stream_off, free_buffers}
use v4l2r.Queue.Provider.{HandlesProvider}
use v4l2r.Decoder.Capture.{
  Errno, capture_ready_id, command_waiting_id, awaiting_resolution, decoding, CaptureThread,
  Answers, process_v4l2_event, dequeue_capture_buffer,
}
use v4l2r.Decoder.Capture.Commands.{DecoderCommand, enqueue_capture_buffers, process_commands}

-- One event of a poll, what is answered while it is processed, and the commands that are waiting then.
pub record Happening (V : Type 0) : Type 0 where
  pub event : PollEvent
  pub answers : Answers V
  pub commands : List (DecoderCommand × Answers V)

-- One turn of the main loop: the answer of epoll to the change of the events, and what `poll` returns.
pub record Turn (V : Type 0) : Type 0 where
  pub modify : Result Errno (Unit {0})
  pub polled : Result PollError (List (Happening V))

module _ {V H : Type 0} where
  -- The beginning of a turn of `run`.
  unfoldable pub adjust_polling :
      Result Errno (Unit {0}) → CaptureThread V H → Run (CaptureThread V H)
  adjust_polling modify t = elim t.capture_queue [
    | awaiting_resolution _ ↦ done t
    | decoding d ↦
        let wanted : Bool = not (num_queued_buffers d.capture_queue == 0) in
        let (p, r) = set_event modify capture_ready wanted t.poller in
        bind (unwrap_ok r) λ _. done (record t { poller = p })
  ]

  -- The end of `run`.
  unfoldable pub finish : Answers V → CaptureThread V H → Run (CaptureThread V H)
  finish a t = elim t.capture_queue [
    | awaiting_resolution _ ↦ done t
    | decoding d ↦ bind (stream_off a.streamoff d.capture_queue) λ s. bind (unwrap_ok s.1) λ _.
        bind (free_buffers a.free_answer s.0) λ f. bind (unwrap_ok f) λ _.
          let (p, r) = set_event a.modify_first capture_ready false t.poller in
          let (p', r') = set_event a.modify_second v4l2_event true p in
          let (p'', r'') = remove_waker capture_ready_id a.delete p' in
          bind (unwrap_ok r) λ _. bind (unwrap_ok r') λ _.
            bind (unwrap_ok r'')
              λ _. done (record t { capture_queue = awaiting_resolution d.base; poller = p'' })
  ]

module _ {V H : Type 0} (h : HandlesProvider V H) (b : BufferHandles H) (fuel : ℕ) where
  -- The `match` of `run` on an event; whether the loop is left.
  unfoldable pub handle_event :
      Happening V → CaptureThread V H → Option (Run (CaptureThread V H × Bool))
  handle_event e t = elim e.event [
    | device v4l2_event ↦ some (bind (process_v4l2_event e.answers t) λ t'. done (t', false))
    | device capture_ready ↦
        some (bind (dequeue_capture_buffer h e.answers t) λ t'. done (t', false))
    | device output_ready ↦ some panicked
    | waker id ↦
        if id == capture_ready_id
        then chain (enqueue_capture_buffers h b fuel e.answers t) (λ t'. some (done (t', false)))
        else if id == command_waiting_id
        then process_commands h b fuel e.commands t
        else some panicked
  ]

  -- `for event in events`
  unfoldable pub handle_events :
      List (Happening V) → CaptureThread V H → Option (Run (CaptureThread V H × Bool))
  handle_events [] t = some (done (t, false))
  handle_events (e ∷ events) t =
      chain (handle_event e t)
        λ r. elim r.1 [ true ↦ some (done (r.0, true)) | false ↦ handle_events events r.0 ]

  -- `'mainloop`: the thread when it is left. It is still running at the end of the turns: `none`.
  unfoldable pub main_loop : List (Turn V) → CaptureThread V H → Option (Run (CaptureThread V H))
  main_loop [] t = none
  main_loop (turn ∷ turns) t = chain (some (adjust_polling turn.modify t)) λ t'. elim turn.polled [
    | err e ↦ some (done t')
    | ok events ↦
        chain (handle_events events t')
          λ r. elim r.1 [ true ↦ some (done r.0) | false ↦ main_loop turns r.0 ]
  ]

  -- `CaptureThread::run`
  unfoldable pub run :
      Answers V → List (Turn V) → CaptureThread V H → Option (Run (CaptureThread V H))
  run a turns t = chain (main_loop turns t) λ t'. some (finish a t')

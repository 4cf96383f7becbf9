-- ===== src/Decoder/Stateful/Decoding.antt =====
-- lib/src/decoder/stateful.rs: the decoder while it is decoding. What the capture thread answers is an
-- argument: `alive` tells whether it still takes commands, and `received` is what `recv` returns.
use v4l2r.Base.{
  ℕ, zero, suc, Bool, true, false, List, [], ◌∷◌, Option, none, some, Result, ok, err, Run, done,
  panicked, bind, chain, ◌==◌, if◌then◌else◌,
}
use v4l2r.Ioctl.Buffer.{V4l2Buffer}
use v4l2r.Poller.{PollError, PollEvent, device, output_ready, wake_direct, Waker}
use v4l2r.Queue.Allocated.{
  Allocated, CanceledBuffer, num_buffers, num_queued_buffers, try_get_free_buffer,
}
use v4l2r.Queue.Queueing.{QBuffer, new_qbuffer}
use v4l2r.Queue.Dequeueing.{DqBufError, not_ready, DqBuffer, try_dequeue, stream_off}
use v4l2r.Decoder.Capture.{
  Errno, DrainError, send_error, recv_error, capture_thread_error, CaptureThreadResponse,
  drain_done, flush_done,
}
use v4l2r.Decoder.Capture.Commands.{DecoderCommand, drain_command, flush_command, stop_command}

-- `CompletedInputBuffer`
pub data CompletedInputBuffer (P : Type 0) : Type 0 where
  dequeued_buffer : DqBuffer P → CompletedInputBuffer P
  canceled_buffer : CanceledBuffer P → CompletedInputBuffer P

-- `Decoding`: its OUTPUT queue, the waker and the channel of the commands, with those not yet read, the
-- last one first, and what was given to `input_done_cb`, the last one first.
pub record Decoding (P : Type 0) : Type 0 where
  pub output_queue : Allocated P
  pub command_waker : Waker
  pub commands : List DecoderCommand
  pub completed : List (CompletedInputBuffer P)

pub data StopError : Type 0 where
  stop_send_command join : StopError
  stop_streamoff : Errno → StopError

pub data FlushError : Type 0 where
  flush_streamoff flush_streamon : Errno → FlushError
  flush_send_command flush_recv_error flush_capture_thread_error : FlushError

-- `GetBufferError`
pub data GetBufferError : Type 0 where
  dequeue_error : DqBufError → GetBufferError
  poll_error : PollError → GetBufferError
  no_free_buffer_error : GetBufferError

-- The `match` of `Decoder::drain` on the response.
unfoldable pub drain_response : Option CaptureThreadResponse → Result DrainError Bool
drain_response none = err recv_error
drain_response (some (drain_done response)) = response
drain_response (some (flush_done r)) = err capture_thread_error

-- The end of `Decoder::flush`: the response, and STREAMON.
unfoldable pub flush_response :
    Option CaptureThreadResponse → Result Errno (Unit {0}) → Result FlushError (Unit {0})
flush_response none streamon = err flush_recv_error
flush_response (some (drain_done r)) streamon = err flush_capture_thread_error
flush_response (some (flush_done (err e))) streamon = err flush_capture_thread_error
flush_response (some (flush_done (ok _))) (err e) = err (flush_streamon e)
flush_response (some (flush_done (ok _))) (ok _) = ok tt

module _ {P : Type 0} where
  -- `Decoder::send_command`: the channel takes it, and the waker is woken, unless the receiver is gone.
  unfoldable pub send_command : (alive : Bool) → DecoderCommand → Decoding P → Option (Decoding P)
  send_command true command d =
      some
        (record d { commands = command ∷ d.commands; command_waker = wake_direct d.command_waker })
  send_command false command d = none

  -- `Decoder::stop`
  unfoldable pub stop :
      (alive : Bool)
      → (joined : Bool) → Result Errno (Unit {0})
      → Decoding P
      → Run (Result StopError (List (CanceledBuffer P)))
  stop alive joined streamoff d = elim (send_command alive stop_command d) [
    | none ↦ done (err stop_send_command)
    | some d' ↦
        if joined
        then bind (stream_off streamoff d'.output_queue) (λ r. elim r.1 [
          | err e ↦ done (err (stop_streamoff e))
          | ok canceled ↦ done (ok canceled)
        ])
        else done (err join)
  ]

  -- `Decoder::drain`
  unfoldable pub drain :
      (alive : Bool)
      → Option CaptureThreadResponse
      → Bool
      → Decoding P
      → Decoding P × Result DrainError Bool
  drain alive received blocking d = elim (send_command alive (drain_command blocking) d) [
    | none ↦ (d, err send_error)
    | some d' ↦ (d', drain_response received)
  ]

  -- The loop of `flush` over the canceled buffers.
  unfoldable pub give_canceled : List (CanceledBuffer P) → Decoding P → Decoding P
  give_canceled [] d = d
  give_canceled (b ∷ rest) d =
      give_canceled rest (record d { completed = canceled_buffer b ∷ d.completed })

  -- `Decoder::flush`
  unfoldable pub flush :
      (alive : Bool)
      → Option CaptureThreadResponse
      → (streamoff streamon : Result Errno (Unit {0})) → Decoding P
      → Run (Decoding P × Result FlushError (Unit {0}))
  flush alive received streamoff streamon d = bind (stream_off streamoff d.output_queue) λ r.
      let stopped : Decoding P = record d { output_queue = r.0 } in
      elim r.1 [
        | err e ↦ done (stopped, err (flush_streamoff e))
        | ok canceled ↦ elim (send_command alive flush_command stopped) [
          | none ↦ done (stopped, err flush_send_command)
          | some d' ↦ done (give_canceled canceled d', flush_response received streamon)
        ]
      ]

  -- `Decoder::dequeue_output_buffers`, from the turn `turn` on, in at most `fuel` turns; `dqbuf` answers
  -- DQBUF in each turn. The callback keeps the buffers; dropping one is a step of its own.
  unfoldable pub dequeue_output_buffers :
      ℕ
      → (ℕ → Result DqBufError V4l2Buffer)
      → (turn : ℕ) → Decoding P
      → Option (Run (Decoding P × Result DqBufError (Unit {0})))
  dequeue_output_buffers zero dqbuf turn d = none
  dequeue_output_buffers (suc fuel) dqbuf turn d = elim (num_queued_buffers d.output_queue == 0) [
    | true ↦ some (done (d, ok tt))
    | false ↦ chain (some (try_dequeue (dqbuf turn) d.output_queue)) λ r. elim r.1 [
      | ok buf ↦
          dequeue_output_buffers fuel dqbuf (suc turn)
            (record d { output_queue = r.0; completed = dequeued_buffer buf ∷ d.completed })
      | err not_ready ↦ some (done (record d { output_queue = r.0 }, ok tt))
      | err e ↦ some (done (record d { output_queue = r.0 }, err e))
    ]
  ]

  -- The loop of `Decoder::wait_for_output_buffer` over the events of the poll.
  unfoldable pub handle_output_events :
      ℕ
      → (ℕ → ℕ → Result DqBufError V4l2Buffer)
      → List PollEvent
      → Decoding P
      → Option (Run (Decoding P × Result GetBufferError (Unit {0})))
  handle_output_events fuel dqbuf [] d = some (done (d, ok tt))
  handle_output_events fuel dqbuf (device output_ready ∷ events) d =
      chain (dequeue_output_buffers fuel (dqbuf (suc zero)) 0 d) λ r. elim r.1 [
        | err e ↦ some (done (r.0, err (dequeue_error e)))
        | ok _ ↦ handle_output_events fuel (λ n. dqbuf (suc n)) events r.0
      ]
  handle_output_events fuel dqbuf (e ∷ events) d = some panicked

  unfoldable pub wait_for_output_buffer :
      ℕ
      → Result PollError (List PollEvent)
      → (ℕ → ℕ → Result DqBufError V4l2Buffer)
      → Decoding P
      → Option (Run (Decoding P × Result GetBufferError (Unit {0})))
  wait_for_output_buffer fuel (err e) dqbuf d = some (done (d, err (poll_error e)))
  wait_for_output_buffer fuel (ok events) dqbuf d = handle_output_events fuel dqbuf events d

  -- `try_get_free_buffer` of the decoder.
  unfoldable pub try_get_free_output :
      ℕ
      → (ℕ → Result DqBufError V4l2Buffer)
      → Decoding P
      → Option (Run (Decoding P × Result GetBufferError QBuffer))
  try_get_free_output fuel dqbuf d = chain (dequeue_output_buffers fuel dqbuf 0 d) λ r. elim r.1 [
    | err e ↦ some (done (r.0, err (dequeue_error e)))
    | ok _ ↦ chain (some (try_get_free_buffer r.0.output_queue)) λ g. some (
        done (
          record (r.0) { output_queue = g.0 },
          elim g.1 [ none ↦ err no_free_buffer_error | some (i, b) ↦ ok (new_qbuffer g.0 i b) ],
        ))
  ]

  -- `Decoder::get_buffer`; `dqbuf 0` answers in `try_get_free_buffer`, the others in each of the events.
  unfoldable pub get_buffer :
      ℕ
      → Result PollError (List PollEvent)
      → (ℕ → ℕ → Result DqBufError V4l2Buffer)
      → Decoding P
      → Option (Run (Decoding P × Result GetBufferError QBuffer))
  get_buffer fuel polled dqbuf d =
      elim (num_queued_buffers d.output_queue == num_buffers d.output_queue) [
        | false ↦ try_get_free_output fuel (dqbuf 0) d
        | true ↦ chain (wait_for_output_buffer fuel polled dqbuf d) λ r. elim r.1 [
          | err e ↦ some (done (r.0, err e))
          | ok _ ↦ try_get_free_output fuel (dqbuf 0) r.0
        ]
      ]

  -- `Decoder::kick`
  unfoldable pub kick :
      ℕ
      → (ℕ → Result DqBufError V4l2Buffer)
      → Decoding P
      → Option (Run (Decoding P × Result DqBufError (Unit {0})))
  kick fuel dqbuf d = dequeue_output_buffers fuel dqbuf 0 d

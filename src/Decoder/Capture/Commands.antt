-- ===== src/Decoder/Capture/Commands.antt =====
-- lib/src/decoder/stateful/capture_thread.rs: queueing the free CAPTURE buffers, and the commands of the
-- decoder.
pub mod Enqueueing
pub mod Draining
pub mod Terminating
pub mod Obliging
use v4l2r.Base.{
  ℕ, zero, suc, Bool, true, false, List, [], ◌∷◌, Option, none, some, Result, ok, err, Run, done,
  bind, chain, unwrap_ok,
}
use v4l2r.Ioctl.Buffer.{UncheckedBuffer}
use v4l2r.Memory.{BufferHandles}
use v4l2r.Queue.Allocated.{Allocated}
use v4l2r.Queue.Queueing.{QueueError, queue_capture}
use v4l2r.Queue.Creation.{QueueBase}
use v4l2r.Queue.Provider.{HandlesProvider}
use v4l2r.Decoder.Capture.{
  Errno, try_again, drain_done, flush_done, awaiting_resolution, decoding, CaptureThread, Answers,
  send_response, restart,
}

-- `DecoderCommand`, of lib/src/decoder/stateful.rs
pub data DecoderCommand : Type 0 where
  drain_command : (blocking : Bool) → DecoderCommand
  flush_command stop_command : DecoderCommand

module _ {V H : Type 0} (h : HandlesProvider V H) (b : BufferHandles H) where
  -- The handles that come back from a refused `queue_with_handles` are dropped with the error.
  unfoldable pub queued_or_dropped :
      V → Allocated H × Result (QueueError H) (Unit {0}) → Run (V × Allocated H)
  queued_or_dropped v (q, ok _) = done (v, q)
  queued_or_dropped v (q, err e) = bind (h.discard e.plane_handles v) λ v'. done (v', q)

  -- The loop of `enqueue_capture_buffers`, from the turn `turn` on, in at most `fuel` turns; `kernel`
  -- answers the QBUF of each turn.
  unfoldable pub enqueue :
      ℕ
      → (ℕ → UncheckedBuffer → Result Errno (Unit {0}))
      → QueueBase
      → (waker turn : ℕ) → V
      → Allocated H
      → Option (Run (V × Allocated H))
  enqueue zero kernel base waker turn v q = none
  enqueue (suc fuel) kernel base waker turn v q =
      let (v', o) = h.provide waker v in
      elim o [
        | none ↦ some (done (v', q))
        | some handles ↦ chain (some (h.get_suitable_buffer_for handles v' q)) λ r. elim r.1 [
          | err e ↦ some (bind (h.discard handles v') λ v''. done (v'', r.0))
          | ok buffer ↦
              chain
                (some (
                  bind (queue_capture (kernel turn) base.type_ q.memory_type b r.0 buffer handles)
                    (queued_or_dropped v')))
                λ s. enqueue fuel kernel base waker (suc turn) s.0 s.1
        ]
      ]

  -- `CaptureThread::enqueue_capture_buffers`
  unfoldable pub enqueue_capture_buffers :
      ℕ → Answers V → CaptureThread V H → Option (Run (CaptureThread V H))
  enqueue_capture_buffers fuel a t = elim t.capture_queue [
    | awaiting_resolution _ ↦ some (done t)
    | decoding d ↦
        chain (enqueue fuel a.qbuf d.base d.cap_buffer_waker 0 d.provider d.capture_queue) λ r.
          some (
            done (record t {
              capture_queue = decoding (record d { provider = r.0; capture_queue = r.1 });
            }))
  ]

  -- `CaptureThread::drain`
  unfoldable pub drain : Answers V → Bool → CaptureThread V H → Run (CaptureThread V H)
  drain a blocking t = elim t.capture_queue [
    | awaiting_resolution _ ↦ send_response a (drain_done (err try_again)) t
    | decoding d ↦ bind (unwrap_ok a.decoder_cmd) λ _. elim blocking [
      | true ↦
          done
            (record t { capture_queue = decoding (record d { blocking_drain_in_progress = true }) })
      | false ↦ send_response a (drain_done (ok false)) t
    ]
  ]

  -- The `match` of `CaptureThread::flush`.
  unfoldable pub restart_for_flush : Answers V → CaptureThread V H → Run (CaptureThread V H)
  restart_for_flush a t = elim t.capture_queue [
    | awaiting_resolution _ ↦ done t
    | decoding d ↦ bind (restart h a d) λ d'.
        done
          (record t { capture_queue = decoding (record d' { blocking_drain_in_progress = false }) })
  ]

  -- `CaptureThread::flush`
  unfoldable pub flush : ℕ → Answers V → CaptureThread V H → Option (Run (CaptureThread V H))
  flush fuel a t =
      chain (some (bind (restart_for_flush a t) (send_response a (flush_done (ok tt)))))
        (enqueue_capture_buffers fuel a)

  -- The loop of `run` over the commands that are waiting, each with what is answered while it is
  -- processed; whether `Stop` was among them.
  unfoldable pub process_commands :
      ℕ
      → List (DecoderCommand × Answers V)
      → CaptureThread V H
      → Option (Run (CaptureThread V H × Bool))
  process_commands fuel [] t = some (done (t, false))
  process_commands fuel ((drain_command blocking, a) ∷ rest) t =
      chain (some (drain a blocking t)) (process_commands fuel rest)
  process_commands fuel ((flush_command, a) ∷ rest) t =
      chain (flush fuel a t) (process_commands fuel rest)
  process_commands fuel ((stop_command, a) ∷ rest) t = some (done (t, true))

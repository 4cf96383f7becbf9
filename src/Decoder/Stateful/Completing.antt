-- ===== src/Decoder/Stateful/Completing.antt =====
-- lib/src/decoder/stateful.rs: getting back the OUTPUT buffers that the driver is done with.
use v4l2r.Base.{
  ℕ, suc, ◌+◌, ◌≡◌, ◌⊎◌, false, ◌∷◌, Option, some, Result, ok, err, Run, done, panicked, length,
  get_elem?,
}
use v4l2r.Ioctl.Buffer.{V4l2Buffer}
use v4l2r.Queue.Buffers.{BufferInfo, is_queued}
use v4l2r.Queue.Allocated.{Allocated, num_queued_buffers, num_free_buffers}
use v4l2r.Queue.Allocated.Counters.{Agree}
use v4l2r.Queue.Dequeueing.{DqBufError, not_ready, DqBuffer, try_dequeue}
use v4l2r.Decoder.Stateful.Decoding.{Decoding, dequeued_buffer}

module _ {P : Type 0} (dqbuf : ℕ → Result DqBufError V4l2Buffer) where
  -- The loop from the turn `turn` on: the driver returns buffers that `try_dequeue` takes, and each is
  -- given to the callback.
  pub data Took : ℕ → Decoding P → ℕ → Decoding P → Type 0 where
    took_none : {turn : ℕ} {d : Decoding P} → Took turn d turn d
    took_one :
        {turn last : ℕ} {d d' : Decoding P} (buf : V4l2Buffer) (q : Allocated P) (dq : DqBuffer P)
        → dqbuf turn ≡ ok buf
        → try_dequeue (ok buf) d.output_queue ≡ done (q, ok dq)
        → Took
            (suc turn)
            (record d { output_queue = q; completed = dequeued_buffer dq ∷ d.completed })
            last
            d'
        → Took turn d last d'

  -- The buffer that the driver returned is not one that was queued.
  abbrev pub NotQueued : Decoding P → V4l2Buffer → Type 0
  NotQueued d buf =
      (b : BufferInfo P)
      → get_elem? d.output_queue.buffer_info buf.buffer.index ≡ some b
      → is_queued b.state ≡ false

  -- How the loop can end in the turn `last`, with what it has taken until then: the driver returned a
  -- buffer that was not queued, which is a panic; no buffer is queued any more; or the driver had none
  -- ready, or failed.
  pub data Completes (turn : ℕ) (d : Decoding P)
      : Option (Run (Decoding P × Result DqBufError (Unit {0}))) → Type 0 where
    wrong_buffer :
        (last : ℕ) (d' : Decoding P) (buf : V4l2Buffer)
        → Took turn d last d'
        → dqbuf last ≡ ok buf
        → NotQueued d' buf
        → Completes turn d (some panicked)
    completed_all :
        (last : ℕ) (d' : Decoding P) (r : Result DqBufError (Unit {0}))
        → Took turn d last d'
        → Agree d'.output_queue.buffer_info d'.output_queue.stats
        → num_queued_buffers d'.output_queue + length d'.completed
          ≡ num_queued_buffers d.output_queue + length d.completed
        → num_free_buffers d'.output_queue ≡ num_free_buffers d.output_queue
        → (r ≡ ok tt → (num_queued_buffers d'.output_queue ≡ 0) ⊎ (dqbuf last ≡ err not_ready))
        → ((e : DqBufError) → r ≡ err e → dqbuf last ≡ err e)
        → Completes turn d (some (done (d', r)))

-- ===== src/Decoder/Stateful.antt =====
-- lib/src/decoder/stateful.rs: the decoder as its client sees it, up to its start. What the kernel and
-- the client answer is an argument.
pub mod Decoding
pub mod Opening
pub mod Completing
pub mod Answering
pub mod Returning
use v4l2r.Base.{
  ℕ, ◌%◌, ◌^◌, Bool, true, false, not, List, [], ◌∷◌, Result, ok, err, Run, done, bind, ◌==◌,
  if◌then◌else◌,
}
use Prim.Native.Nat.{bit_and}
use v4l2r.Types.QueueTypes.{QueueType, video_capture_mplane, video_output_mplane, MemoryType}
use v4l2r.Ioctl.Buffer.{UncheckedBuffer}
use v4l2r.Poller.{Poller, IoError, output_ready, set_event}
use v4l2r.Queue.Allocated.{Allocated}
use v4l2r.Queue.Creation.{
  QueueBase, CreateQueueError, RequestBuffersError, create, drop_queue, request_buffers_generic,
}
use v4l2r.Decoder.Capture.{Errno, CaptureThread, Answers, new_thread}

-- `DecoderOpenError`
pub data DecoderOpenError : Type 0 where
  device_open_error : ℕ → DecoderOpenError
  create_queue_error : CreateQueueError → DecoderOpenError
  not_a_stateful_decoder : DecoderOpenError

-- `AwaitingOutputFormat` and `AwaitingOutputBuffers`, which have the same two queues.
pub record Queues : Type 0 where
  pub output_queue : QueueBase
  pub capture_queue : QueueBase

-- `BufferCapabilities::SUPPORTS_REQUESTS`
abbrev pub supports_requests : ℕ
supports_requests = 8

-- `format_iter().find(...)`, on whether each format of the queue is compressed.
unfoldable pub any_format : (Bool → Bool) → List Bool → Bool
any_format wanted [] = false
any_format wanted (compressed ∷ rest) = if wanted compressed then true else any_format wanted rest

-- Both queues are dropped when `open` fails after it has made them, the last one first.
unfoldable pub drop_queues :
    QueueBase
    → QueueBase
    → DecoderOpenError
    → List QueueType
    → Run (List QueueType × Result DecoderOpenError Queues)
drop_queues capture_queue output_queue e used =
    bind (drop_queue output_queue used)
      λ used'. bind (drop_queue capture_queue used') λ used''. done (used'', err e)

-- `Decoder::open` after the device was opened: `kernel` answers REQBUFS and `formats` ENUM_FMT, for
-- each type of queue.
unfoldable pub open_queues :
    (QueueType → MemoryType → Result Errno ℕ)
    → (QueueType → List Bool)
    → List QueueType
    → Run (List QueueType × Result DecoderOpenError Queues)
open_queues kernel formats used =
    let (used', c) = create (kernel video_capture_mplane) video_capture_mplane used in
    elim c [
      | err e ↦ done (used', err (create_queue_error e))
      | ok capture_queue ↦
          let (used'', o) = create (kernel video_output_mplane) video_output_mplane used' in
          elim o [
            | err e ↦
                bind (drop_queue capture_queue used'')
                  λ released. done (released, err (create_queue_error e))
            | ok output_queue ↦
                if any_format (λ compressed. compressed) (formats video_output_mplane)
                then if any_format not (formats video_capture_mplane)
                  then if bit_and output_queue.capabilities supports_requests == supports_requests
                    then drop_queues capture_queue output_queue not_a_stateful_decoder used''
                    else done (
                      used'',
                      ok (record { output_queue = output_queue; capture_queue = capture_queue }),
                    )
                  else drop_queues capture_queue output_queue not_a_stateful_decoder used''
                else drop_queues capture_queue output_queue not_a_stateful_decoder used''
          ]
    ]

-- `Decoder::open`, for a device whose queues in use are none yet.
unfoldable pub open_decoder :
    Result ℕ (Unit {0})
    → (QueueType → MemoryType → Result Errno ℕ)
    → (QueueType → List Bool)
    → Run (List QueueType × Result DecoderOpenError Queues)
open_decoder (err e) kernel formats = done ([], err (device_open_error e))
open_decoder (ok _) kernel formats = open_queues kernel formats []

-- `set_output_format`: `format` is the answer of `change_format` and `callback` that of the client.
unfoldable pub set_output_format :
    Result Errno (Unit {0}) → Result ℕ (Unit {0}) → Queues → Result ℕ Queues
set_output_format (err e) callback queues = err e
set_output_format (ok _) (err e) queues = err e
set_output_format (ok _) (ok _) queues = ok queues

-- `ReadyToDecode`, without the counter of the wake-ups.
pub record ReadyToDecode (P : Type 0) : Type 0 where
  pub base : QueueBase
  pub output_queue : Allocated P
  pub capture_queue : QueueBase

-- `allocate_output_buffers_generic`; `num_buffers as u32` is what REQBUFS is asked for.
unfoldable pub allocate_output_buffers_generic :
    (P : Type 0)
    → (ℕ → Result Errno ℕ)
    → (ℕ → Result Errno UncheckedBuffer)
    → MemoryType
    → (num_buffers alloc : ℕ) → Queues
    → Result RequestBuffersError (ReadyToDecode P)
allocate_output_buffers_generic P reqbufs querybuf memory_type num_buffers alloc queues =
    elim (request_buffers_generic P (reqbufs (num_buffers % 2 ^ 32)) querybuf
      queues.output_queue.type_ memory_type alloc) [
        | err e ↦ err e
        | ok q ↦ ok (record {
          base = queues.output_queue;
          output_queue = q;
          capture_queue = queues.capture_queue;
        })
      ]

-- `StartDecoderError`
pub data StartDecoderError : Type 0 where
  subscribe_event_error cannot_create_poller cannot_enable_event : Errno → StartDecoderError
  cannot_create_capture_thread : IoError → StartDecoderError
  cannot_start_capture_thread stream_on_error : Errno → StartDecoderError

-- What `start` gives: the queue and the poller of the decoder, and the thread that was spawned.
pub record Started (P V H : Type 0) : Type 0 where
  pub ready : ReadyToDecode P
  pub output_poller : Poller
  pub thread : CaptureThread V H

-- `Decoder::start`: the answers to SUBSCRIBE_EVENT, to the creation of the two pollers, to enabling the
-- event, to spawning the thread and to STREAMON; `a` has those for the new capture thread.
unfoldable pub start :
    {P V H : Type 0}
    → Result Errno (Unit {0})
    → (output_poller capture_poller : Result Errno Poller)
    → (modify spawn streamon : Result Errno (Unit {0})) → Answers V
    → ReadyToDecode P
    → Result StartDecoderError (Started P V H)
start (err e) output_poller capture_poller modify spawn streamon a ready =
    err (subscribe_event_error e)
start (ok _) (err e) capture_poller modify spawn streamon a ready = err (cannot_create_poller e)
start (ok _) (ok poller) capture_poller modify spawn streamon a ready =
    let (p, r) = set_event modify output_ready true poller in
    elim r [
      | err e ↦ err (cannot_enable_event e)
      | ok _ ↦ elim (new_thread a ready.capture_queue capture_poller) [
        | err e ↦ err (cannot_create_capture_thread e)
        | ok thread ↦ elim spawn [
          | err e ↦ err (cannot_start_capture_thread e)
          | ok _ ↦ elim streamon [
            | err e ↦ err (stream_on_error e)
            | ok _ ↦ ok (record { ready = ready; output_poller = p; thread = thread })
          ]
        ]
      ]
    ]

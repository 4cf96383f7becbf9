-- ===== src/Tests/Streams.antt =====
-- The theorems on streams, events, and the OUTPUT queue of a decoder, applied to concrete ones.
use v4l2r.Base.{
  ℕ, zero, suc, get_elem?, err, ◌≡◌, refl, ◌≢◌, Bool, true, false, List, [], ◌∷◌, ◌++◌, map, some,
  Result, ok, done, arith,
}
use v4l2r.Types.QueueTypes.{QueueType, MemoryType}
use v4l2r.Ioctl.Buffer.{V4l2Buffer}
use v4l2r.Ioctl.Events.{RawEvent, ioctl_error}
use v4l2r.Ioctl.Events.Pending.{
  Subscribed, an_eos, a_source_change, has_resolution_change, is_drc_event_pending,
  is_drc_event_pending-events,
}
use v4l2r.Queue.Dequeueing.{DqBufError}
use v4l2r.Decoder.Format.{new_splitter, PatternSplitter, all_frames, all_chunks, h264_start_code}
use v4l2r.Decoder.Format.Lossless.{Splits, next_frame-Splits}
use v4l2r.Decoder.Format.Joined.{
  joined, no_bytes, avoids, Bodies, last_body, more_bodies, new_splitter-joined,
}
use v4l2r.Decoder.Format.Chunks.{IntoChunks, next_chunk-IntoChunks}
use v4l2r.Decoder.Stateful.{open_queues}
use v4l2r.Decoder.Stateful.Opening.{Opens, open_queues-Opens}
use v4l2r.Decoder.Stateful.Decoding.{Decoding}
use v4l2r.Tests.Fixtures.{Handles, queued_first, returned_first}

abbrev bytes : List ℕ
bytes = 9 ∷ 0 ∷ 0 ∷ 0 ∷ 1 ∷ 0 ∷ 0 ∷ 1 ∷ 5 ∷ 0 ∷ 0 ∷ 0 ∷ 1 ∷ []

next_frame-Splits_example :
    (fs : List (List ℕ)) × (all_frames 15
        (record { pattern = h264_start_code; stream = map ok bytes })
      ≡ some fs)
    × Splits h264_start_code bytes fs
next_frame-Splits_example = next_frame-Splits h264_start_code 15 bytes (omega arith)

next_chunk-IntoChunks_example :
    (cs : List (List ℕ)) × (all_chunks 15 15
        (record { pattern = h264_start_code; stream = map ok bytes })
      ≡ some (done cs))
    × IntoChunks bytes cs
next_chunk-IntoChunks_example = next_chunk-IntoChunks 15 15 bytes (omega arith) (omega arith)

abbrev body_byte : ℕ
body_byte = 5

abbrev zero_byte : ℕ
zero_byte = 0

five_ne : body_byte ≢ zero_byte
five_ne e = absurd (omega arith)

bodies : Bodies zero_byte (body_byte ∷ []) ((body_byte ∷ body_byte ∷ []) ∷ [])
bodies =
    more_bodies (avoids five_ne no_bytes) (last_body (avoids five_ne (avoids five_ne no_bytes)))

new_splitter-joined_example :
    (s : PatternSplitter) × (new_splitter h264_start_code (
        map ok (
          h264_start_code
          ++ joined h264_start_code (body_byte ∷ []) ((body_byte ∷ body_byte ∷ []) ∷ [])))
      ≡ some s)
    × (all_frames 3 s
        ≡ some (map (◌++◌ h264_start_code) ((body_byte ∷ []) ∷ (body_byte ∷ body_byte ∷ []) ∷ [])))
new_splitter-joined_example =
    new_splitter-joined 0 (0 ∷ 0 ∷ 1 ∷ []) (body_byte ∷ []) ((body_byte ∷ body_byte ∷ []) ∷ []) 3
      bodies (omega arith)

-- A start code after one more zero byte is not found.
missed_start_code :
    all_frames 4
      (record { pattern = h264_start_code; stream = map ok (7 ∷ 0 ∷ 0 ∷ 0 ∷ 0 ∷ 1 ∷ 8 ∷ []) })
    ≡ some ((0 ∷ 0 ∷ 0 ∷ 1 ∷ 7 ∷ 0 ∷ 0 ∷ 0 ∷ 0 ∷ 1 ∷ 8 ∷ []) ∷ [])
unfolding all_frames v4l2r.Decoder.Format.next_frame v4l2r.Decoder.Format.scan
    v4l2r.Decoder.Format.header_next
missed_start_code = refl

abbrev some_events : List RawEvent
some_events = record { type_ = 5; changes = 1 } ∷ record { type_ = 2; changes = 0 } ∷ []

some_events-Subscribed : (j : ℕ) (e : RawEvent) → get_elem? some_events j ≡ some e → Subscribed e
some_events-Subscribed zero e h = a_source_change (ground arith) (ground arith)
some_events-Subscribed (suc zero) e h = an_eos (ground arith)
some_events-Subscribed (suc (suc j)) e h = absurd (cc)

abbrev io_error : ℕ
io_error = 5

abbrev no_event : ℕ
no_event = 2

not_enoent : io_error ≢ no_event
not_enoent e = absurd (omega arith)

is_drc_event_pending-events_example :
    (is_drc_event_pending (map ok some_events) ≡ done ([], ok (has_resolution_change some_events)))
    × (is_drc_event_pending (map ok some_events ++ (err no_event ∷ []))
        ≡ done ([], ok (has_resolution_change some_events)))
    × (is_drc_event_pending (map ok some_events ++ (err io_error ∷ []))
        ≡ done ([], err (ioctl_error io_error)))
is_drc_event_pending-events_example =
    is_drc_event_pending-events some_events [] io_error some_events-Subscribed not_enoent

abbrev kernel : QueueType → MemoryType → Result ℕ ℕ
kernel t m = ok 0

abbrev formats : QueueType → List Bool
formats t = true ∷ false ∷ []

open_queues-Opens_example : Opens kernel formats [] (open_queues kernel formats [])
open_queues-Opens_example = open_queues-Opens kernel formats []

abbrev decoder : Decoding Handles
decoder = record {
  output_queue = queued_first;
  command_waker = record { counter = 0 };
  commands = [];
  completed = [];
}

abbrev dqbuf : ℕ → Result DqBufError V4l2Buffer
dqbuf n = ok returned_first

-- ===== src/Decoder/Format.antt =====
-- lib/src/decoder/format.rs and its children h264.rs and fwht.rs: splitting an encoded stream into
-- chunks. A stream is the list of what `io::Bytes` yields: bytes, and errors by their numbers.
pub mod Lossless
pub mod Joined
pub mod Extending
pub mod Chunks
use v4l2r.Base.{
  ℕ, zero, suc, ◌%◌, Bool, true, false, ◌&&◌, ◌||◌, List, [], ◌∷◌, ◌++◌, Option, none, some, Result,
  ok, err, Run, done, panicked, bind, leb, ltb, ◌==◌, if◌then◌else◌, length,
}

abbrev pub Stream : Type 0
Stream = List (Result ℕ ℕ)

-- `PatternSplitter`
pub record PatternSplitter : Type 0 where
  pub pattern : List ℕ
  pub stream : Stream

-- `Vec<u8>::eq`
unfoldable pub same_bytes : List ℕ → List ℕ → Bool
same_bytes [] [] = true
same_bytes [] (b ∷ bs) = false
same_bytes (a ∷ rest) [] = false
same_bytes (a ∷ rest) (b ∷ bs) = (a == b) && same_bytes rest bs

-- `stream.next().unwrap_or(Ok(0)).unwrap_or(0)`, once for each of the `n` bytes of the pattern.
unfoldable pub stream_start : ℕ → Stream → List ℕ × Stream
stream_start zero stream = ([], stream)
stream_start (suc n) [] = let (bs, rest) = stream_start n [] in (0 ∷ bs, rest)
stream_start (suc n) (ok b ∷ stream) = let (bs, rest) = stream_start n stream in (b ∷ bs, rest)
stream_start (suc n) (err e ∷ stream) = let (bs, rest) = stream_start n stream in (0 ∷ bs, rest)

-- `PatternSplitter::new`
unfoldable pub new_splitter : List ℕ → Stream → Option PatternSplitter
new_splitter pattern stream =
    let (start, rest) = stream_start (length pattern) stream in
    if same_bytes start pattern then some (record { pattern = pattern; stream = rest }) else none

-- Whether the byte read is the next one of the header, and what is left of it then.
unfoldable pub header_next : ℕ → List ℕ → Option (List ℕ)
header_next b [] = none
header_next b (c ∷ header) = if b == c then some header else none

-- The loop of `PatternSplitter::next`; `header` is what `header_iter` has left.
unfoldable pub scan : List ℕ → List ℕ → List ℕ → List ℕ → Stream → Stream × Option (List ℕ)
scan pattern frame_data header_window header [] =
    let all = frame_data ++ header_window in
    ([], if leb (length all) (length pattern) then none else some all)
scan pattern frame_data header_window header (err e ∷ stream) = (stream, none)
scan pattern frame_data header_window header (ok b ∷ stream) = elim (header_next b header) [
  | some [] ↦ (stream, some frame_data)
  | some (c ∷ rest) ↦ scan pattern frame_data (header_window ++ b ∷ []) (c ∷ rest) stream
  | none ↦
      let window = header_window ++ b ∷ [] in
      scan pattern (frame_data ++ window) [] (if ltb 1 (length window) then pattern else header)
        stream
]

-- `PatternSplitter::next`
unfoldable pub next_frame : PatternSplitter → PatternSplitter × Option (List ℕ)
next_frame s =
    let (rest, frame) = scan s.pattern s.pattern [] s.pattern s.stream in
    (record s { stream = rest }, frame)

-- The frames that calling `next` until it returns `None` collects, in at most `fuel` calls.
unfoldable pub all_frames : ℕ → PatternSplitter → Option (List (List ℕ))
all_frames zero s = none
all_frames (suc fuel) s =
    let (s', frame) = next_frame s in
    let rest = all_frames fuel s' in
    elim frame [ none ↦ some [] | some f ↦ elim rest [ none ↦ none | some fs ↦ some (f ∷ fs) ] ]

-- `FRAME_HEADER` and `FwhtFrameParser::new`, `H264_START_CODE` and `H264FrameSplitter::new`
abbrev pub frame_header : List ℕ
frame_header = 79 ∷ 79 ∷ 79 ∷ 79 ∷ 255 ∷ 255 ∷ 255 ∷ 255 ∷ []

unfoldable pub new_fwht : Stream → Option PatternSplitter
new_fwht stream = new_splitter frame_header stream

abbrev pub h264_start_code : List ℕ
h264_start_code = 0 ∷ 0 ∷ 0 ∷ 1 ∷ []

unfoldable pub new_h264 : Stream → Option PatternSplitter
new_h264 stream = new_splitter h264_start_code stream

-- The closure of `contains_frame`; `& 0x1f` keeps the low five bits.
abbrev pub starts_slice : ℕ → ℕ → ℕ → ℕ → Bool
starts_slice a b c d = (a == 0) && (b == 0) && (c == 1) && (((d % 32) == 5) || ((d % 32) == 1))

-- `windows(4).any(...)`
unfoldable pub any_slice : List ℕ → Bool
any_slice [] = false
any_slice (a ∷ []) = false
any_slice (a ∷ b ∷ []) = false
any_slice (a ∷ b ∷ c ∷ []) = false
any_slice (a ∷ b ∷ c ∷ d ∷ rest) = starts_slice a b c d || any_slice (b ∷ c ∷ d ∷ rest)

-- `H264FrameSplitter::contains_frame`; the slice `data[4..]` panics on fewer bytes.
unfoldable pub contains_frame : List ℕ → Run Bool
contains_frame (a ∷ b ∷ c ∷ d ∷ rest) = done (any_slice rest)
contains_frame _ = panicked

-- The `while` of `H264FrameSplitter::next`, in at most `fuel` turns; out of fuel is `none`.
unfoldable pub extend_slice : ℕ → List ℕ → PatternSplitter → Option (Run (PatternSplitter × List ℕ))
extend_slice zero slice s = none
extend_slice (suc fuel) slice s =
    let (s', frame) = next_frame s in
    elim (contains_frame slice) [
      | panicked ↦ some panicked
      | done true ↦ some (done (s, slice))
      | done false ↦ elim frame [
        | none ↦ some (done (s', slice))
        | some data_ ↦ extend_slice fuel (slice ++ data_) s'
      ]
    ]

-- `H264FrameSplitter::next`
unfoldable pub next_chunk : ℕ → PatternSplitter → Option (Run (PatternSplitter × Option (List ℕ)))
next_chunk fuel s =
    let (s', frame) = next_frame s in
    elim frame [
      | none ↦ some (done (s', none))
      | some slice ↦ elim (extend_slice fuel slice s') [
        | none ↦ none
        | some r ↦ some (bind r λ x. done (x.0, some x.1))
      ]
    ]

-- The chunks that calling `next` until it returns `None` collects, in at most `fuel` calls of at most
-- `fuel` turns.
unfoldable pub all_chunks : ℕ → ℕ → PatternSplitter → Option (Run (List (List ℕ)))
all_chunks turns zero s = none
all_chunks turns (suc fuel) s = elim (next_chunk turns s) [
  | none ↦ none
  | some panicked ↦ some panicked
  | some (done (s', chunk)) ↦
      let rest = all_chunks turns fuel s' in
      elim chunk [
        | none ↦ some (done [])
        | some c ↦ elim rest [ none ↦ none | some r ↦ some (bind r λ cs. done (c ∷ cs)) ]
      ]
]

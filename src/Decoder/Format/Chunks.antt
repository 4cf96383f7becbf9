-- ===== src/Decoder/Format/Chunks.antt =====
-- lib/src/decoder/format/h264.rs: the chunks of an H.264 stream put together again.
use v4l2r.Base.{
  ℕ, zero, suc, ◌+◌, ◌<◌, ◌≡◌, refl, sym, ap, ◌∙◌, ◌⊎◌, inl, inr, subst, true, List, [], ◌∷◌, ◌++◌,
  map, Option, none, some, ok, Run, done, arith, length,
}
use mathlib.Core.List.{append-nil, append_assoc, flatten}
use v4l2r.Decoder.Format.{
  Stream, PatternSplitter, h264_start_code, contains_frame, scan, next_frame, extend_slice,
  next_chunk, all_chunks,
}
use v4l2r.Decoder.Format.Lossless.{Scanned, at_header, at_end, nothing, next_frame-Scanned}
use v4l2r.Decoder.Format.Extending.{
  splitter, code, Tail, Extended, has_frame, stream_over, short_rest, slice_over,
  extend_slice-Extended,
}

-- What `H264FrameSplitter::next` answers.
data Chunk (bs : List ℕ) : Option (Run (PatternSplitter × Option (List ℕ))) → Type 0 where
  next_chunk_is :
      (chunk rest : List ℕ)
      → code ++ bs ≡ chunk ++ (code ++ rest)
      → contains_frame chunk ≡ done true
      → length rest < length bs
      → Chunk bs (some (done (splitter (map ok rest), some chunk)))
  last_chunk_is :
      (chunk tail : List ℕ)
      → code ++ bs ≡ chunk ++ tail
      → Tail tail
      → Chunk bs (some (done (splitter [], some chunk)))
  no_chunk : bs ≡ [] → Chunk bs (some (done (splitter [], none)))

module _ (turns : ℕ) (bs : List ℕ) where
  slice_gives :
      (f rest : List ℕ)
      → scan code code [] code (map ok bs) ≡ (map ok rest, some f)
      → code ++ bs ≡ f ++ (code ++ rest)
      → length rest < length bs
      → (r : Option (Run (PatternSplitter × List ℕ)))
      → extend_slice turns f (splitter (map ok rest)) ≡ r
      → Extended (f ++ (code ++ rest)) (length rest) r
      → Chunk bs (next_chunk turns (splitter (map ok bs)))
  unfolding next_chunk next_frame
  slice_gives f rest e w lt r x (has_frame slice rest' w' c l) =
      let answer : some (done (splitter (map ok rest'), some slice))
          ≡ next_chunk turns (splitter (map ok bs)) =
        ground (arith, e, x) in
      subst (Chunk bs) answer (next_chunk_is slice rest' (w ∙ w') c (omega arith))
  slice_gives f rest e w lt r x (stream_over slice tail w' t) =
      let answer : some (done (splitter [], some slice)) ≡ next_chunk turns (splitter (map ok bs)) =
        ground (arith, e, x) in
      subst (Chunk bs) answer (last_chunk_is slice tail (w ∙ w') t)

  scan_gives :
      length bs + 1 < turns
      → (r : Stream × Option (List ℕ)) → scan code code [] code (map ok bs) ≡ r
      → Scanned code (code ++ bs) (length bs) r
      → Chunk bs (next_chunk turns (splitter (map ok bs)))
  unfolding next_chunk next_frame
  scan_gives lt r e (at_header f g rest w starts_f le) =
      slice_gives f rest e w le _ refl (extend_slice-Extended turns f g rest starts_f (omega arith))
  scan_gives lt r e (at_end g eq) =
      let over = slice_over turns (code ++ bs) g eq (omega arith) in
      let answer : some (done (splitter [], some (code ++ bs)))
          ≡ next_chunk turns (splitter (map ok bs)) =
        ground (arith, e, over) in
      subst (Chunk bs) answer (last_chunk_is (code ++ bs) [] (sym (append-nil _)) (inl refl))
  scan_gives lt r e (nothing n) =
      let answer : some (done (splitter [], none)) ≡ next_chunk turns (splitter (map ok bs)) =
        ground (arith, e) in
      subst (Chunk bs) answer (no_chunk (short_rest bs n))

next_chunk-Chunk :
    (turns : ℕ) (bs : List ℕ)
    → length bs + 1 < turns
    → Chunk bs (next_chunk turns (splitter (map ok bs)))
next_chunk-Chunk turns bs lt =
    scan_gives turns bs lt (scan code code [] code (map ok bs)) refl
      (next_frame-Scanned code bs (length bs) (omega arith))

-- Every chunk but the last one has a frame in it.
pub data HaveFrames : List (List ℕ) → Type 0 where
  no_chunks : HaveFrames []
  only_last : (c : List ℕ) → HaveFrames (c ∷ [])
  have_frames :
      (c : List ℕ) {cs : List (List ℕ)}
      → contains_frame c ≡ done true
      → HaveFrames cs
      → HaveFrames (c ∷ cs)

-- The chunks `cs` are what the bytes `bs`, which come after a start code, are split into.
pub record IntoChunks (bs : List ℕ) (cs : List (List ℕ)) : Type 0 where
  pub tail : List ℕ
  pub lossless : flatten cs ++ tail ≡ h264_start_code ++ bs
  pub at_most_code : (tail ≡ []) ⊎ (tail ≡ h264_start_code)
  pub have_frames_but_last : HaveFrames cs

no_more_chunks : (turns fuel : ℕ) → all_chunks turns (suc fuel) (splitter []) ≡ some (done [])
unfolding all_chunks next_chunk next_frame scan
no_more_chunks turns fuel = refl

all_from :
    (turns fuel : ℕ) (bs : List ℕ)
    → ((rest : List ℕ)
        → length rest < length bs
        → (cs : List (List ℕ)) × (all_chunks turns fuel (splitter (map ok rest)) ≡ some (done cs))
          × IntoChunks rest cs)
    → all_chunks turns fuel (splitter []) ≡ some (done [])
    → (r : Option (Run (PatternSplitter × Option (List ℕ))))
    → next_chunk turns (splitter (map ok bs)) ≡ r
    → Chunk bs r
    → (cs : List (List ℕ)) × (all_chunks turns (suc fuel) (splitter (map ok bs)) ≡ some (done cs))
      × IntoChunks bs cs
unfolding all_chunks flatten
all_from turns fuel bs again over r e (next_chunk_is chunk rest w c lt) =
    let (cs, es, s) = again rest lt in
    (
      chunk ∷ cs,
      ground (arith, e, es),
      record {
        tail = s.tail;
        lossless = append_assoc chunk (flatten cs) s.tail ∙ ap (λ l. chunk ++ l) s.lossless ∙ sym w;
        at_most_code = s.at_most_code;
        have_frames_but_last = have_frames chunk c s.have_frames_but_last;
      },
    )
all_from turns fuel bs again over r e (last_chunk_is chunk tail w t) = (
  chunk ∷ [],
  ground (arith, e, over),
  record {
    tail = tail;
    lossless = ap (λ l. l ++ tail) (append-nil chunk) ∙ sym w;
    at_most_code = t;
    have_frames_but_last = only_last chunk;
  },
)
all_from turns fuel bs again over r e (no_chunk empty) = (
  [],
  ground (arith, e),
  record {
    tail = h264_start_code;
    lossless = ap (λ l. h264_start_code ++ l) (sym empty);
    at_most_code = inr refl;
    have_frames_but_last = no_chunks;
  },
)

-- On an H.264 stream of bytes without read errors, calling `next` until it returns `None` ends within
-- two calls more than there are bytes, and so does the loop in each call, and `contains_frame`
-- never panics. Every chunk but the last has a frame in it, and one after the other the chunks are the
-- start code and then all the bytes, except that a start code at the very end is left out.
pub next_chunk-IntoChunks :
    (turns fuel : ℕ) (bs : List ℕ)
    → length bs + 1 < turns
    → length bs + 1 < fuel
    → (cs : List (List ℕ)) × (all_chunks turns fuel
          (record { pattern = h264_start_code; stream = map ok bs })
        ≡ some (done cs))
      × IntoChunks bs cs
next_chunk-IntoChunks turns zero bs lt le = absurd (omega arith)
next_chunk-IntoChunks turns (suc zero) bs lt le = absurd (omega arith)
next_chunk-IntoChunks turns (suc (suc fuel)) bs lt le =
    all_from turns (suc fuel) bs
      (λ rest less. next_chunk-IntoChunks turns (suc fuel) rest (omega arith) (omega arith))
      (no_more_chunks turns fuel) (next_chunk turns (splitter (map ok bs))) refl
      (next_chunk-Chunk turns bs lt)

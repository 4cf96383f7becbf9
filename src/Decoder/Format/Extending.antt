-- ===== src/Decoder/Format/Extending.antt =====
-- lib/src/decoder/format/h264.rs: extending a slice of an H.264 stream up to a frame.
use v4l2r.Base.{
  ℕ, zero, suc, ◌+◌, ◌≤◌, ◌<◌, ◌≡◌, refl, sym, ap, ◌∙◌, ◌⊎◌, inl, inr, subst, subst₂, true, false,
  List, [], ◌∷◌, ◌++◌, map, Option, some, ok, Run, done, arith, length, Bool-cases,
}
use mathlib.Core.List.{append-nil, append_assoc}
use v4l2r.Decoder.Format.{
  Stream, PatternSplitter, h264_start_code, any_slice, contains_frame, scan, next_frame,
  extend_slice,
}
use v4l2r.Decoder.Format.Lossless.{Scanned, at_header, at_end, nothing, next_frame-Scanned}

abbrev pub splitter : Stream → PatternSplitter
splitter stream = record { pattern = h264_start_code; stream = stream }

abbrev pub code : List ℕ
code = h264_start_code

-- What is missing of the stream in the end: nothing, or a start code with nothing after it.
abbrev pub Tail : List ℕ → Type 0
Tail tail = (tail ≡ []) ⊎ (tail ≡ code)

-- How `extend_slice` ends, where `whole` is the slice and what is left of the stream.
pub data Extended (whole : List ℕ) (n : ℕ) : Option (Run (PatternSplitter × List ℕ)) → Type 0 where
  has_frame :
      (slice rest : List ℕ)
      → whole ≡ slice ++ (code ++ rest)
      → contains_frame slice ≡ done true
      → length rest ≤ n
      → Extended whole n (some (done (splitter (map ok rest), slice)))
  stream_over :
      (slice tail : List ℕ)
      → whole ≡ slice ++ tail
      → Tail tail
      → Extended whole n (some (done (splitter [], slice)))

pub code_contains :
    (slice g : List ℕ) → slice ≡ code ++ g → contains_frame slice ≡ done (any_slice g)
unfolding contains_frame
code_contains slice g e = ap contains_frame e

pub short_rest : (bs : List ℕ) → length (code ++ bs) ≤ length code → bs ≡ []
short_rest [] h = refl
short_rest (b ∷ bs) h = absurd (omega arith)

Extended-weaken :
    {whole : List ℕ} {m n : ℕ} {r : Option (Run (PatternSplitter × List ℕ))}
    → m ≤ n
    → Extended whole m r
    → Extended whole n r
Extended-weaken le (has_frame slice rest w c l) = has_frame slice rest w c (omega arith)
Extended-weaken le (stream_over slice tail w t) = stream_over slice tail w t

module _ (fuel : ℕ) (slice g bs : List ℕ) where
  -- One turn of the loop: what the rest gives for the frame that `next` returns.
  extend_turn :
      slice ≡ code ++ g
      → ((slice' g' rest : List ℕ)
          → length rest < length bs
          → slice' ≡ code ++ g'
          → Extended
              (slice' ++ (code ++ rest))
              (length rest)
              (extend_slice fuel slice' (splitter (map ok rest))))
      → ((slice' g' : List ℕ)
          → slice' ≡ code ++ g'
          → extend_slice fuel slice' (splitter []) ≡ some (done (splitter [], slice')))
      → (r : Stream × Option (List ℕ)) → scan code code [] code (map ok bs) ≡ r
      → Scanned code (code ++ bs) (length bs) r
      → any_slice g ≡ false
      → Extended
          (slice ++ (code ++ bs))
          (length bs)
          (extend_slice (suc fuel) slice (splitter (map ok bs)))
  unfolding extend_slice next_frame
  extend_turn s again over r e (at_header f h rest w starts_f lt) a =
      let answer : extend_slice fuel (slice ++ f) (splitter (map ok rest))
          ≡ extend_slice (suc fuel) slice (splitter (map ok bs)) =
        ground (arith, e, code_contains slice g s, a) in
      let whole : (slice ++ f) ++ (code ++ rest) ≡ slice ++ (code ++ bs) =
        append_assoc slice f (code ++ rest) ∙ ap (λ l. slice ++ l) (sym w) in
      let first : slice ++ f ≡ code ++ (g ++ f) = ap (λ l. l ++ f) s ∙ append_assoc code g f in
      subst₂ (λ l r. Extended l (length bs) r) whole answer
        (Extended-weaken (omega arith) (again (slice ++ f) (g ++ f) rest lt first))
  extend_turn s again over r e (at_end h eq) a =
      let first : slice ++ (code ++ bs) ≡ code ++ (g ++ (code ++ bs)) =
        ap (λ l. l ++ (code ++ bs)) s ∙ append_assoc code g (code ++ bs) in
      let last = over (slice ++ (code ++ bs)) (g ++ (code ++ bs)) first in
      let answer : some (done (splitter [], slice ++ (code ++ bs)))
          ≡ extend_slice (suc fuel) slice (splitter (map ok bs)) =
        ground (arith, e, code_contains slice g s, a, last) in
      subst (Extended (slice ++ (code ++ bs)) (length bs)) answer
        (stream_over (slice ++ (code ++ bs)) [] (sym (append-nil _)) (inl refl))
  extend_turn s again over r e (nothing n) a =
      let answer : some (done (splitter [], slice))
          ≡ extend_slice (suc fuel) slice (splitter (map ok bs)) =
        ground (arith, e, code_contains slice g s, a) in
      subst (Extended (slice ++ (code ++ bs)) (length bs)) answer
        (stream_over slice code (ap (λ l. slice ++ (code ++ l)) (short_rest bs n)) (inr refl))

-- At the end of the stream the slice is returned as it is.
extend_over :
    (fuel : ℕ) (slice g : List ℕ)
    → slice ≡ code ++ g
    → extend_slice (suc fuel) slice (splitter []) ≡ some (done (splitter [], slice))
unfolding extend_slice next_frame scan
extend_over fuel slice g s = elim (Bool-cases (any_slice g)) [
  | inl a ↦ ground (arith, code_contains slice g s)
  | inr a ↦ ground (arith, code_contains slice g s)
]

pub slice_over :
    (turns : ℕ) (slice g : List ℕ)
    → slice ≡ code ++ g
    → 0 < turns
    → extend_slice turns slice (splitter []) ≡ some (done (splitter [], slice))
slice_over zero slice g s lt = absurd (omega arith)
slice_over (suc fuel) slice g s lt = extend_over fuel slice g s

pub extend_slice-Extended :
    (fuel : ℕ) (slice g bs : List ℕ)
    → slice ≡ code ++ g
    → length bs + 1 < fuel
    → Extended (slice ++ (code ++ bs)) (length bs) (extend_slice fuel slice (splitter (map ok bs)))
unfolding extend_slice
extend_slice-Extended zero slice g bs s lt = absurd (omega arith)
extend_slice-Extended (suc zero) slice g bs s lt = absurd (omega arith)
extend_slice-Extended (suc (suc fuel)) slice g bs s lt = elim (Bool-cases (any_slice g)) [
  | inl a ↦
      let answer : some (done (splitter (map ok bs), slice))
          ≡ extend_slice (suc (suc fuel)) slice (splitter (map ok bs)) =
        ground (arith, code_contains slice g s) in
      subst (Extended (slice ++ (code ++ bs)) (length bs)) answer
        (has_frame slice bs refl (code_contains slice g s ∙ ap done a) (omega arith))
  | inr a ↦
      extend_turn (suc fuel) slice g bs s
        (λ slice' g' rest le s'. extend_slice-Extended (suc fuel) slice' g' rest s' (omega arith))
        (extend_over fuel) (scan code code [] code (map ok bs)) refl
        (next_frame-Scanned code bs (length bs) (omega arith)) a
]

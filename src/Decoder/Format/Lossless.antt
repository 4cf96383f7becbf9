-- ===== src/Decoder/Format/Lossless.antt =====
-- lib/src/decoder/format.rs: the frames of a stream put together again.
use v4l2r.Base.{
  ℕ, zero, suc, ◌+◌, ◌≤◌, ◌<◌, ◌≡◌, refl, sym, ap, ◌∙◌, ◌⊎◌, inl, inr, subst, subst₂, List, [], ◌∷◌,
  ◌++◌, map, Option, none, some, ok, arith, leb, ltb, length, length-append, Bool-cases, ◌==◌,
  if◌then◌else◌,
}
use mathlib.Core.List.{append-nil, append_assoc, flatten}
use v4l2r.Decoder.Format.{Stream, header_next, scan, next_frame, all_frames}

-- How `scan` ends, where `whole` is what it was given, the header of the frame included: at the next
-- header, at the end of the stream, or with nothing after the header.
pub data Scanned (pattern whole : List ℕ) (n : ℕ) : Stream × Option (List ℕ) → Type 0 where
  at_header :
      (f g rest : List ℕ)
      → whole ≡ f ++ (pattern ++ rest)
      → f ≡ pattern ++ g
      → length rest < n
      → Scanned pattern whole n (map ok rest, some f)
  at_end : (g : List ℕ) → whole ≡ pattern ++ g → Scanned pattern whole n ([], some whole)
  nothing : length whole ≤ length pattern → Scanned pattern whole n ([], none)

header_next-cases :
    (b : ℕ) (header : List ℕ)
    → (header_next b header ≡ none)
      ⊎ ((rest : List ℕ) × (header ≡ b ∷ rest) × (header_next b header ≡ some rest))
unfolding header_next
header_next-cases b [] = inl refl
header_next-cases b (c ∷ header) = elim (Bool-cases (b == c)) [
  | inl e ↦
      let eq : b ≡ c = ground arith in inr (header, ap (λ x. x ∷ header) (sym eq), ground arith)
  | inr e ↦ inl (ground arith)
]

moved :
    (frame window bs : List ℕ) (b : ℕ)
    → (frame ++ (window ++ (b ∷ []))) ++ bs ≡ (frame ++ window) ++ (b ∷ bs)
moved frame window bs b =
    append_assoc frame (window ++ (b ∷ [])) bs
    ∙ ap (λ l. frame ++ l) (append_assoc window (b ∷ []) bs)
    ∙ sym (append_assoc frame window (b ∷ bs))

started :
    (pattern g window header : List ℕ) (b : ℕ)
    → window ++ header ≡ pattern
    → (if ltb 1 (length (window ++ (b ∷ []))) then pattern else header) ≡ pattern
started pattern g [] header b h = h
started pattern g (w ∷ window) header b h =
    let len = length-append window (b ∷ []) in ground (arith, len)

scan-Scanned :
    (pattern frame g window header bs : List ℕ) (n : ℕ)
    → frame ≡ pattern ++ g
    → window ++ header ≡ pattern
    → length bs ≤ n
    → Scanned pattern ((frame ++ window) ++ bs) n (scan pattern frame window header (map ok bs))
unfolding scan
scan-Scanned pattern frame g window header [] n f w le =
    let whole : List ℕ = frame ++ window in
    subst (λ l. Scanned pattern l n (scan pattern frame window header [])) (sym (append-nil whole))
      (elim (Bool-cases (leb (length whole) (length pattern))) [
        | inl e ↦
            let answer : ([], none) ≡ scan pattern frame window header [] = ground arith in
            subst (Scanned pattern whole n) answer (nothing (ground arith))
        | inr e ↦
            let all : whole ≡ pattern ++ (g ++ window) =
              ap (λ l. l ++ window) f ∙ append_assoc pattern g window in
            let answer : ([], some whole) ≡ scan pattern frame window header [] = ground arith in
            subst (Scanned pattern whole n) answer (at_end (g ++ window) all)
      ])
scan-Scanned pattern frame g window header (b ∷ bs) n f w le = elim (header_next-cases b header) [
  | inl e ↦
      let next : List ℕ = window ++ (b ∷ []) in
      let again =
        scan-Scanned pattern (frame ++ next) (g ++ next) []
          (if ltb 1 (length next) then pattern else header) bs n
          (ap (λ l. l ++ next) f ∙ append_assoc pattern g next)
          (started pattern g window header b w) (omega arith) in
      let same : ((frame ++ next) ++ []) ++ bs ≡ (frame ++ window) ++ (b ∷ bs) =
        ap (λ l. l ++ bs) (append-nil (frame ++ next)) ∙ moved frame window bs b in
      let answer : scan pattern (frame ++ next) [] (if ltb 1 (length next) then pattern else header)
            (map ok bs)
          ≡ scan pattern frame window header (map ok (b ∷ bs)) =
        ground arith in
      subst₂ (λ l r. Scanned pattern l n r) same answer again
  | inr ([], h, e) ↦
      let full : window ++ (b ∷ []) ≡ pattern = ap (λ l. window ++ l) (sym h) ∙ w in
      let whole : (frame ++ window) ++ (b ∷ bs) ≡ frame ++ (pattern ++ bs) =
        sym (moved frame window bs b)
        ∙ append_assoc frame (window ++ (b ∷ [])) bs
        ∙ ap (λ l. frame ++ (l ++ bs)) full in
      let answer : (map ok bs, some frame) ≡ scan pattern frame window header (map ok (b ∷ bs)) =
        ground arith in
      subst (Scanned pattern _ n) answer (at_header frame g bs whole f (omega arith))
  | inr (c ∷ rest, h, e) ↦
      let next : List ℕ = window ++ (b ∷ []) in
      let still : next ++ (c ∷ rest) ≡ pattern =
        append_assoc window (b ∷ []) (c ∷ rest) ∙ ap (λ l. window ++ l) (sym h) ∙ w in
      let again = scan-Scanned pattern frame g next (c ∷ rest) bs n f still (omega arith) in
      let same : (frame ++ next) ++ bs ≡ (frame ++ window) ++ (b ∷ bs) = moved frame window bs b in
      let answer : scan pattern frame next (c ∷ rest) (map ok bs)
          ≡ scan pattern frame window header (map ok (b ∷ bs)) =
        ground arith in
      subst₂ (λ l r. Scanned pattern l n r) same answer again
]

-- What `next` leaves of a stream without read errors.
pub next_frame-Scanned :
    (pattern bs : List ℕ) (n : ℕ)
    → length bs ≤ n
    → Scanned pattern (pattern ++ bs) n (scan pattern pattern [] pattern (map ok bs))
next_frame-Scanned pattern bs n le =
    let same : (pattern ++ []) ++ bs ≡ pattern ++ bs = ap (λ l. l ++ bs) (append-nil pattern) in
    subst (λ l. Scanned pattern l n (scan pattern pattern [] pattern (map ok bs))) same
      (scan-Scanned pattern pattern [] [] pattern bs n (sym (append-nil pattern)) refl le)

-- Each frame starts with the header.
pub data EachStarts (pattern : List ℕ) : List (List ℕ) → Type 0 where
  no_more : EachStarts pattern []
  starts :
      (f g : List ℕ) {fs : List (List ℕ)}
      → f ≡ pattern ++ g
      → EachStarts pattern fs
      → EachStarts pattern (f ∷ fs)

-- The frames `fs` are what the bytes `bs`, which come after a header, are split into: each starts with
-- the header, and together they are the header and the bytes, but for a header at the very end.
pub record Splits (pattern bs : List ℕ) (fs : List (List ℕ)) : Type 0 where
  pub tail : List ℕ
  pub lossless : flatten fs ++ tail ≡ pattern ++ bs
  pub at_most_header : (tail ≡ []) ⊎ (tail ≡ pattern)
  pub each_starts : EachStarts pattern fs

split_more :
    (pattern bs rest f g : List ℕ) (fs : List (List ℕ))
    → pattern ++ bs ≡ f ++ (pattern ++ rest)
    → f ≡ pattern ++ g
    → Splits pattern rest fs
    → Splits pattern bs (f ∷ fs)
unfolding flatten
split_more pattern bs rest f g fs whole starts_f s = record {
  tail = s.tail;
  lossless = append_assoc f (flatten fs) s.tail ∙ ap (λ l. f ++ l) s.lossless ∙ sym whole;
  at_most_header = s.at_most_header;
  each_starts = starts f g starts_f s.each_starts;
}

split_last :
    (pattern bs g : List ℕ)
    → pattern ++ bs ≡ pattern ++ g
    → Splits pattern bs ((pattern ++ bs) ∷ [])
unfolding flatten
split_last pattern bs g e = record {
  tail = [];
  lossless = append-nil _ ∙ append-nil _;
  at_most_header = inl refl;
  each_starts = starts _ g e no_more;
}

empty_rest : (pattern bs : List ℕ) → length (pattern ++ bs) ≤ length pattern → Splits pattern bs []
unfolding flatten
empty_rest pattern [] h = record {
  tail = pattern;
  lossless = sym (append-nil pattern);
  at_most_header = inr refl;
  each_starts = no_more;
}
empty_rest pattern (b ∷ bs) h = absurd (omega (arith, length-append pattern (b ∷ bs)))

-- What collecting the frames gives, for a result of the first `next`.
collect_from :
    (pattern bs : List ℕ) (fuel : ℕ)
    → ((rest : List ℕ)
        → length rest < length bs
        → (fs : List (List ℕ)) × (all_frames fuel
              (record { pattern = pattern; stream = map ok rest })
            ≡ some fs)
          × Splits pattern rest fs)
    → (r : Stream × Option (List ℕ)) → scan pattern pattern [] pattern (map ok bs) ≡ r
    → Scanned pattern (pattern ++ bs) (length bs) r
    → (last : List (List ℕ))
    → all_frames fuel (record { pattern = pattern; stream = [] }) ≡ some last
    → last ≡ []
    → (fs : List (List ℕ)) × (all_frames
          (suc fuel)
          (record { pattern = pattern; stream = map ok bs })
        ≡ some fs)
      × Splits pattern bs fs
unfolding all_frames next_frame
collect_from pattern bs fuel again r e (at_header f g rest whole starts_f lt) last l n =
    let (fs, es, s) = again rest lt in
    (f ∷ fs, ground (arith, e, es), split_more pattern bs rest f g fs whole starts_f s)
collect_from pattern bs fuel again r e (at_end g eq) last l n =
    ((pattern ++ bs) ∷ [], ground arith, split_last pattern bs g eq)
collect_from pattern bs fuel again r e (nothing h) last l n =
    ([], ground arith, empty_rest pattern bs h)

pub nothing_left :
    (pattern : List ℕ) (fuel : ℕ)
    → all_frames (suc fuel) (record { pattern = pattern; stream = [] }) ≡ some []
unfolding all_frames next_frame scan
nothing_left pattern fuel = let len = ap length (append-nil pattern) in ground (arith, len)

-- On a stream of bytes without read errors, calling `next` until it returns `None` ends within
-- two calls more than there are bytes. The frames that it yields each start with the pattern, and
-- one after the other they are the pattern and then all the bytes, except that a pattern at the very end
-- of the stream is left out.
pub next_frame-Splits :
    (pattern : List ℕ) (fuel : ℕ) (bs : List ℕ)
    → length bs + 1 < fuel
    → (fs : List (List ℕ)) × (all_frames fuel (record { pattern = pattern; stream = map ok bs })
        ≡ some fs)
      × Splits pattern bs fs
next_frame-Splits pattern zero bs lt = absurd (omega arith)
next_frame-Splits pattern (suc zero) bs lt = absurd (omega arith)
next_frame-Splits pattern (suc (suc fuel)) bs lt =
    collect_from pattern bs (suc fuel)
      (λ rest le. next_frame-Splits pattern (suc fuel) rest (omega arith))
      (scan pattern pattern [] pattern (map ok bs)) refl
      (next_frame-Scanned pattern bs (length bs) (omega arith)) [] (nothing_left pattern fuel) refl

-- ===== src/Decoder/Format/Joined.antt =====
-- lib/src/decoder/format.rs: splitting a stream that frames were joined into.
use v4l2r.Base.{
  ℕ, zero, suc, ◌+◌, ◌<◌, ◌≡◌, refl, sym, ap, ◌∙◌, ◌≢◌, true, List, [], ◌∷◌, ◌++◌, map, some, ok,
  arith, ==_refl, ==_ne, length, length-append,
}
use mathlib.Core.List.{append-nil, append_assoc}
use v4l2r.Decoder.Format.Lossless.{nothing_left}
use v4l2r.Decoder.Format.{
  PatternSplitter, same_bytes, stream_start, new_splitter, header_next, scan, next_frame,
  all_frames,
}

-- No byte is `c`.
pub data Avoids (c : ℕ) : List ℕ → Type 0 where
  no_bytes : Avoids c []
  avoids : {b : ℕ} {bs : List ℕ} → b ≢ c → Avoids c bs → Avoids c (b ∷ bs)

-- The bytes after the first header of a stream whose frames have the contents `body`, then `more`.
unfoldable pub joined : List ℕ → List ℕ → List (List ℕ) → List ℕ
joined pattern body [] = body
joined pattern body (next ∷ more) = body ++ (pattern ++ joined pattern next more)

-- The contents avoid the byte `c`, and those of the last frame are not empty.
pub data Bodies (c : ℕ) : List ℕ → List (List ℕ) → Type 0 where
  last_body : {b : ℕ} {bs : List ℕ} → Avoids c (b ∷ bs) → Bodies c (b ∷ bs) []
  more_bodies :
      {body next : List ℕ} {more : List (List ℕ)}
      → Avoids c body
      → Bodies c next more
      → Bodies c body (next ∷ more)

scan_body :
    (c : ℕ) (p frame body rest : List ℕ)
    → Avoids c body
    → scan (c ∷ p) frame [] (c ∷ p) (map ok (body ++ rest))
      ≡ scan (c ∷ p) (frame ++ body) [] (c ∷ p) (map ok rest)
unfolding scan header_next
scan_body c p frame [] rest no_bytes =
    ap (λ l. scan (c ∷ p) l [] (c ∷ p) (map ok rest)) (sym (append-nil frame))
scan_body c p frame (b ∷ body) rest (avoids ne a) =
    let again = scan_body c p (frame ++ (b ∷ [])) body rest a in
    let same : (frame ++ (b ∷ [])) ++ body ≡ frame ++ (b ∷ body) =
      append_assoc frame (b ∷ []) body in
    ground (arith, again, same, ==_ne b c ne)

scan_header :
    (pattern frame window : List ℕ) (c : ℕ) (header rest : List ℕ)
    → scan pattern frame window (c ∷ header) (map ok ((c ∷ header) ++ rest))
      ≡ (map ok rest, some frame)
unfolding scan header_next
scan_header pattern frame window c [] rest = ground (arith, ==_refl c)
scan_header pattern frame window c (d ∷ header) rest =
    ground (arith, ==_refl c, scan_header pattern frame (window ++ (c ∷ [])) d header rest)

at_end :
    (pattern whole : List ℕ)
    → length pattern < length whole
    → scan pattern whole [] pattern [] ≡ ([], some whole)
unfolding scan
at_end pattern whole h = let nil = append-nil whole in let len = ap length nil in ground arith

all_joined :
    (c : ℕ) (p body : List ℕ) (more : List (List ℕ)) (fuel : ℕ)
    → Bodies c body more
    → length more + 1 < fuel
    → all_frames fuel (record { pattern = c ∷ p; stream = map ok (joined (c ∷ p) body more) })
      ≡ some (map (◌++◌ (c ∷ p)) (body ∷ more))
unfolding all_frames next_frame joined
all_joined c p body more zero h lt = absurd (omega arith)
all_joined c p body more (suc zero) h lt = absurd (omega arith)
all_joined c p [] [] (suc (suc fuel)) h lt = elim h [ ]
all_joined c p (b ∷ bs) [] (suc (suc fuel)) (last_body a) lt =
    let whole : List ℕ = (c ∷ p) ++ (b ∷ bs) in
    let step =
      ap (λ l. scan (c ∷ p) (c ∷ p) [] (c ∷ p) (map ok l)) (sym (append-nil (b ∷ bs)))
      ∙ scan_body c p (c ∷ p) (b ∷ bs) [] a in
    let long : length (c ∷ p) < length whole = omega (arith, length-append p (b ∷ bs)) in
    let ended : scan (c ∷ p) whole [] (c ∷ p) [] ≡ ([], some whole) = at_end (c ∷ p) whole long in
    ground (arith, step, ended, nothing_left (c ∷ p) fuel)
all_joined c p body (next ∷ more) (suc (suc fuel)) (more_bodies a h) lt =
    let rest : List ℕ = joined (c ∷ p) next more in
    let step =
      scan_body c p (c ∷ p) body ((c ∷ p) ++ rest) a
      ∙ scan_header (c ∷ p) ((c ∷ p) ++ body) [] c p rest in
    let again = all_joined c p next more (suc fuel) h (omega arith) in ground (arith, step, again)

same_bytes_refl : (bs : List ℕ) → same_bytes bs bs ≡ true
unfolding same_bytes
same_bytes_refl [] = refl
same_bytes_refl (b ∷ bs) = ground (arith, ==_refl b, same_bytes_refl bs)

stream_start-append :
    (start rest : List ℕ)
    → stream_start (length start) (map ok (start ++ rest)) ≡ (start, map ok rest)
unfolding stream_start
stream_start-append [] rest = refl
stream_start-append (b ∷ start) rest = ground (arith, stream_start-append start rest)

-- A stream made of frames, each the header and then its contents, is accepted if it begins with the
-- header, and splitting it gives those frames again, if the header is not empty, its first byte occurs
-- in none of the contents, and the contents of the last frame are not empty.
pub new_splitter-joined :
    (c : ℕ) (p body : List ℕ) (more : List (List ℕ)) (fuel : ℕ)
    → Bodies c body more
    → length more + 1 < fuel
    → (s : PatternSplitter) × (new_splitter (c ∷ p) (map ok ((c ∷ p) ++ joined (c ∷ p) body more))
        ≡ some s)
      × (all_frames fuel s ≡ some (map (◌++◌ (c ∷ p)) (body ∷ more)))
unfolding new_splitter
new_splitter-joined c p body more fuel h lt = (
  record { pattern = c ∷ p; stream = map ok (joined (c ∷ p) body more) },
  ground (arith, stream_start-append (c ∷ p) (joined (c ∷ p) body more), same_bytes_refl (c ∷ p)),
  all_joined c p body more fuel h lt,
)

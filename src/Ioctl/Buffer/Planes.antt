-- ===== src/Ioctl/Buffer/Planes.antt =====
-- lib/src/ioctl.rs: how many planes a `V4l2Buffer` shows, and how their number changes.
use v4l2r.Base.{
  ℕ, zero, suc, ◌-◌, ◌≤◌, ◌≡◌, refl, ap, ◌∙◌, true, List, [], ◌∷◌, map, some, done, arith, length,
  take, drop, if◌then◌else◌, inl, inr, Bool-cases,
}
use v4l2r.Types.Enumn.{n, n_found}
use v4l2r.Types.QueueTypes.{
  memory_type_enum, queue_type_enum, QueueType, MemoryType, is_multiplanar,
}
use v4l2r.Ioctl.Buffer.{
  V4l2Buffer, PlaneAccessor, video_max_planes, new, queue, num_planes, slice, as_v4l2_planes,
  planes_iter, get_first_plane, new_single_planar, new_multi_planar, head?,
}

-- A buffer of queue type `q` whose plane array is whole and, if the buffer is multi-planar, whose
-- number of planes lies between 1 and `VIDEO_MAX_PLANES`.
pub record IsValid (q : QueueType) (b : V4l2Buffer) : Type 0 where
  pub typed : n b.buffer.type_ ≡ some q
  pub whole : length b.planes ≡ video_max_planes
  pub fits : is_multiplanar q ≡ true → (1 ≤ b.buffer.length) × (b.buffer.length ≤ video_max_planes)

pub length-take : {A : Type 0} (k : ℕ) (xs : List A) → k ≤ length xs → length (take k xs) ≡ k
length-take zero xs h = refl
length-take (suc k) [] h = absurd (omega arith)
length-take (suc k) (x ∷ xs) h = ap suc (length-take k xs (omega arith))

pub length-drop : {A : Type 0} (k : ℕ) (xs : List A) → length (drop k xs) ≡ length xs - k
length-drop zero xs = omega arith
length-drop (suc k) [] = omega arith
length-drop (suc k) (x ∷ xs) = omega (arith, length-drop k xs)

length-map : {A B : Type 0} (f : A → B) (xs : List A) → length (map f xs) ≡ length xs
length-map f [] = refl
length-map f (x ∷ xs) = ap suc (length-map f xs)

-- A new buffer is valid, whatever its queue, index and memory type.
pub new-IsValid : (q : QueueType) (i : ℕ) (m : MemoryType) → IsValid q (new q i m)
unfolding new
new-IsValid q i m = record { typed = n_found q; whole = refl; fits = λ h. ground arith }

-- The number of planes that a valid buffer shows.
abbrev pub shown : QueueType → V4l2Buffer → ℕ
shown q b = if is_multiplanar q then b.buffer.length else 1

module _ {q : QueueType} {b : V4l2Buffer} (v : IsValid q b) where
  pub queue-typed : queue b ≡ done q
  unfolding queue
  queue-typed = rw v.typed

  -- On a valid buffer `num_planes` does not panic and returns the number of planes shown.
  pub num_planes-shown : num_planes b ≡ done (shown q b)
  unfolding num_planes
  num_planes-shown = rw queue-typed

  as_v4l2_planes-take :
      as_v4l2_planes b ≡ done (take (if is_multiplanar q then b.buffer.length else 0) b.planes)
  unfolding as_v4l2_planes slice
  as_v4l2_planes-take = rw queue-typed (ground (arith, v.fits, v.whole))

  -- The accessors that `planes_iter` returns, as a list.
  abbrev accessors : List PlaneAccessor
  accessors =
      if is_multiplanar q
      then map new_multi_planar (take b.buffer.length b.planes)
      else new_single_planar b.buffer ∷ []

  planes_iter-accessors : planes_iter b ≡ done accessors
  unfolding planes_iter
  planes_iter-accessors = elim (Bool-cases (is_multiplanar q)) [
    | inl e ↦ rw (queue-typed, as_v4l2_planes-take, e) refl
    | inr e ↦ rw (queue-typed, as_v4l2_planes-take, e) refl
  ]

  length-accessors : length accessors ≡ shown q b
  length-accessors = elim (Bool-cases (is_multiplanar q)) [
    | inl e ↦ rw e (
        length-map new_multi_planar (take b.buffer.length b.planes)
        ∙ length-take b.buffer.length b.planes (omega (arith, v.fits e, v.whole)))
    | inr e ↦ rw e refl
  ]

  -- On a valid buffer `planes_iter` does not panic and yields as many accessors as the buffer shows
  -- planes: exactly one for a single-planar buffer, `length` for a multi-planar one.
  pub planes_iter_total :
      (l : List PlaneAccessor) × (planes_iter b ≡ done l) × (length l ≡ shown q b)
  planes_iter_total = (accessors, planes_iter-accessors, length-accessors)

  head?-accessors : (a : PlaneAccessor) × (head? accessors ≡ some a)
  unfolding head?
  head?-accessors = go accessors length-accessors
    where
      positive : 1 ≤ shown q b
      positive = ground (arith, v.fits)

      go :
          (l : List PlaneAccessor) → length l ≡ shown q b → (a : PlaneAccessor) × (head? l ≡ some a)
      go [] e = absurd (omega (arith, positive))
      go (a ∷ l) e = (a, refl)

  -- `get_first_plane` never panics on a valid buffer.
  pub get_first_plane_total : (a : PlaneAccessor) × (get_first_plane b ≡ done a)
  unfolding get_first_plane
  get_first_plane_total = let (a, e) = head?-accessors in (a, rw (planes_iter-accessors, e) refl)

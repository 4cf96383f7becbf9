-- ===== src/Ioctl/Buffer/Resize.antt =====
-- lib/src/ioctl.rs: `V4l2Buffer::set_num_planes`, branch by branch.
use v4l2r.Base.{
  ℕ, zero, suc, ◌+◌, ◌-◌, ◌≤◌, ◌<◌, ◌≡◌, refl, ◌∙◌, sym, subst, ◌⊎◌, ◌↔◌, true, false, List, [],
  ◌∷◌, ◌++◌, some, ok, err, done, panicked, arith, length, length-append, length-replicate, take,
  drop, replicate, get_elem?, inl, inr, Bool-cases,
}
use v4l2r.Types.QueueTypes.{queue_type_enum, QueueType, is_multiplanar}
use v4l2r.Ioctl.Buffer.{
  V4l2Buffer, V4l2Plane, ResizePlanesError, default_plane, video_max_planes, clear_planes,
  set_num_planes, zero_planes_requested, single_planar, too_many_planes,
}
use v4l2r.Ioctl.Buffer.Planes.{IsValid, shown, length-take, length-drop, queue-typed}

-- What `clear_planes` leaves: the planes below `from`, default ones up to `to`, and the rest.
abbrev cleared : ℕ → ℕ → List V4l2Plane → List V4l2Plane
cleared from to planes = take from planes ++ (replicate (to - from) default_plane ++ drop to planes)

length-cleared :
    (from to : ℕ) (planes : List V4l2Plane)
    → from ≤ to
    → to ≤ length planes
    → length (cleared from to planes) ≡ length planes
length-cleared from to planes h k = omega (
  arith,
  length-append (take from planes) (replicate (to - from) default_plane ++ drop to planes),
  length-append (replicate (to - from) default_plane) (drop to planes),
  length-take from planes (omega arith),
  length-drop to planes,
  length-replicate (to - from) default_plane,
)

get_elem?-replicate_append :
    (n i : ℕ) (rest : List V4l2Plane)
    → i < n
    → get_elem? (replicate n default_plane ++ rest) i ≡ some default_plane
get_elem?-replicate_append zero i rest h = absurd (omega arith)
get_elem?-replicate_append (suc n) zero rest h = refl
get_elem?-replicate_append (suc n) (suc i) rest h =
    get_elem?-replicate_append n i rest (omega arith)

get_elem?-take_append_below :
    (k i : ℕ) (xs ys : List V4l2Plane)
    → k ≤ length xs
    → i < k
    → get_elem? (take k xs ++ ys) i ≡ get_elem? xs i
get_elem?-take_append_below zero i xs ys h lt = absurd (omega arith)
get_elem?-take_append_below (suc k) i [] ys h lt = absurd (omega arith)
get_elem?-take_append_below (suc k) zero (x ∷ xs) ys h lt = refl
get_elem?-take_append_below (suc k) (suc i) (x ∷ xs) ys h lt =
    get_elem?-take_append_below k i xs ys (omega arith) (omega arith)

get_elem?-take_append_above :
    (k j : ℕ) (xs ys : List V4l2Plane)
    → k ≤ length xs
    → get_elem? (take k xs ++ ys) (k + j) ≡ get_elem? ys j
get_elem?-take_append_above zero j xs ys h = ground arith
get_elem?-take_append_above (suc k) j [] ys h = absurd (omega arith)
get_elem?-take_append_above (suc k) j (x ∷ xs) ys h =
    let e : suc k + j ≡ suc (k + j) = omega arith in
    rw e (get_elem?-take_append_above k j xs ys (omega arith))

module _ {q : QueueType} {b : V4l2Buffer} (v : IsValid q b) (k : ℕ) where
  -- Resizing a valid buffer panics exactly when the buffer is multi-planar and the requested number,
  -- although within `VIDEO_MAX_PLANES`, is larger than the current one.
  pub set_num_planes-panicked :
      (set_num_planes b k ≡ panicked)
      ↔ ((is_multiplanar q ≡ true) × (b.buffer.length < k) × (k ≤ video_max_planes))
  unfolding set_num_planes clear_planes
  set_num_planes-panicked = (
    λ h. ground (arith, queue-typed v, v.fits, v.whole),
    λ h. ground (arith, queue-typed v, v.fits, v.whole),
  )

  -- A refused request leaves a valid buffer as it was, and is refused for a reason: no plane, more
  -- planes than `VIDEO_MAX_PLANES`, or more than one plane on a single-planar buffer.
  pub set_num_planes_refused :
      {b' : V4l2Buffer} {e : ResizePlanesError}
      → set_num_planes b k ≡ done (b', err e)
      → (b' ≡ b)
        × (((k ≡ 0) × (e ≡ zero_planes_requested))
            ⊎ ((video_max_planes < k) × (e ≡ too_many_planes))
            ⊎ ((is_multiplanar q ≡ false) × (1 < k) × (e ≡ single_planar)))
  unfolding set_num_planes clear_planes
  set_num_planes_refused h = ground (arith, queue-typed v)

  abbrev resized : V4l2Buffer
  resized = record b {
    buffer = record (b.buffer) { length = k };
    planes = cleared k b.buffer.length b.planes;
  }

  -- What an accepted request for `k` planes leaves in `b'`: a valid buffer that shows `k` planes, the
  -- first `k` planes as they were, and default planes where planes were dropped.
  pub record Resized (b' : V4l2Buffer) : Type 0 where
    pub valid : IsValid q b'
    pub count : shown q b' ≡ k
    pub kept : (i : ℕ) → i < k → get_elem? b'.planes i ≡ get_elem? b.planes i
    pub dropped :
        is_multiplanar q ≡ true
        → (i : ℕ) → k ≤ i
        → i < b.buffer.length
        → get_elem? b'.planes i ≡ some default_plane

  accepted_multi :
      {b' : V4l2Buffer}
      → is_multiplanar q ≡ true
      → set_num_planes b k ≡ done (b', ok tt)
      → (resized ≡ b') × (1 ≤ k) × (k ≤ b.buffer.length)
  unfolding set_num_planes clear_planes
  accepted_multi m h = ground (arith, queue-typed v)

  accepted_single :
      {b' : V4l2Buffer}
      → is_multiplanar q ≡ false
      → set_num_planes b k ≡ done (b', ok tt)
      → (b ≡ b') × (k ≡ 1)
  unfolding set_num_planes clear_planes
  accepted_single m h = ground (arith, queue-typed v)

  resized-Resized : is_multiplanar q ≡ true → 1 ≤ k → k ≤ b.buffer.length → Resized resized
  resized-Resized m lo hi = record {
    valid = record {
      typed = v.typed;
      whole = length-cleared k b.buffer.length b.planes hi room ∙ v.whole;
      fits = λ _. (lo, omega (arith, v.fits m));
    };
    count = rw m refl;
    kept = λ i h. get_elem?-take_append_below k i b.planes _ (omega arith) h;
    dropped = λ _ i h lt.
        let e : i ≡ k + (i - k) = omega arith in
        rw e (
          get_elem?-take_append_above k (i - k) b.planes _ (omega arith)
          ∙ get_elem?-replicate_append (b.buffer.length - k) (i - k) _ (omega arith));
  }
    where
      room : b.buffer.length ≤ length b.planes
      room = omega (arith, v.fits m, v.whole)

  -- An accepted request for `k` planes on a valid buffer leaves a valid buffer that shows `k` planes,
  -- keeps the first `k` planes and resets the planes that were dropped.
  pub set_num_planes_accepted :
      {b' : V4l2Buffer} → set_num_planes b k ≡ done (b', ok tt) → Resized b'
  set_num_planes_accepted h = elim (Bool-cases (is_multiplanar q)) [
    | inl m ↦ let (e, lo, hi) = accepted_multi m h in subst Resized e (resized-Resized m lo hi)
    | inr m ↦
        let (e, one) = accepted_single m h in
        subst Resized e (record {
          valid = v;
          count = rw m (sym one);
          kept = λ i _. refl;
          dropped = λ m' i _ _. absurd (cc);
        })
  ]

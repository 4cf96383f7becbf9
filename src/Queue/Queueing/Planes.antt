-- ===== src/Queue/Queueing/Planes.antt =====
-- lib/src/device/queue/qbuf.rs and lib/src/ioctl/qbuf.rs: the planes that are built for the kernel.
use v4l2r.Base.{
  ℕ, zero, suc, ◌+◌, ◌≤◌, ◌<◌, ◌≡◌, refl, ap, true, false, List, [], ◌∷◌, none, some, Run, done,
  panicked, arith, length, get_elem?,
}
use v4l2r.Types.QueueTypes.{is_multiplanar}
use v4l2r.Ioctl.Buffer.{
  V4l2Plane, UncheckedBuffer, default_planes, new_for_querybuf, video_max_planes,
}
use v4l2r.Memory.{BufferHandles, FillsPlanes}
use v4l2r.Queue.Queueing.{IoctlQBuffer, to_unchecked, overwrite, head?, build_planes, new_plane}

module _ {P : Type 0} (h : BufferHandles P) where
  -- The plane built for each size, from the plane `i` on.
  abbrev pub EachFilled : P → ℕ → List ℕ → List V4l2Plane → Type 0
  EachFilled handles i sizes planes =
      (j size : ℕ)
      → get_elem? sizes j ≡ some size
      → (p : V4l2Plane) × (get_elem? planes j ≡ some p)
        × (h.fill_v4l2_plane handles (i + j) (new_plane size) ≡ done p)

  cons-EachFilled :
      (handles : P) (i size : ℕ) (sizes : List ℕ) (p : V4l2Plane) (ps : List V4l2Plane)
      → h.fill_v4l2_plane handles i (new_plane size) ≡ done p
      → EachFilled handles (suc i) sizes ps
      → EachFilled handles i (size ∷ sizes) (p ∷ ps)
  cons-EachFilled handles i size sizes p ps filled each zero s e =
      let k : i + 0 ≡ i = omega arith in let e' : size ≡ s = cc in (p, refl, rw (k, ← e') filled)
  cons-EachFilled handles i size sizes p ps filled each (suc j) s e =
      let k : i + suc j ≡ suc i + j = omega arith in rw k (each j s e)

module _ {P : Type 0} (h : BufferHandles P) (laws : FillsPlanes h) where
  -- With a size for each plane from `i` up to the number of handles at most, all planes are built: the
  -- plane `j` carries its size, wrapped to 32 bits, filled in by its handle.
  pub build_planes_total :
      (handles : P) (i : ℕ) (sizes : List ℕ)
      → i + length sizes ≤ h.len handles
      → (planes : List V4l2Plane) × (build_planes h handles i sizes ≡ done planes)
        × (length planes ≡ length sizes)
        × EachFilled h handles i sizes planes
  unfolding build_planes
  build_planes_total handles i [] le = ([], refl, refl, λ j size e. absurd (cc))
  build_planes_total handles i (size ∷ sizes) le =
      let (p, filled) = laws.fills handles i (new_plane size) (omega arith) in
      let (ps, built, len, each) = build_planes_total handles (suc i) sizes (omega arith) in
      (
        p ∷ ps,
        ground (arith, filled, built),
        ap suc len,
        cons-EachFilled h handles i size sizes p ps filled each,
      )

-- Planes that are written over the default ones: all of them arrive, as far as there is room.
pub overwrite_lem :
    (dst src : List V4l2Plane) (j : ℕ)
    → length src ≤ length dst
    → j < length src
    → get_elem? (overwrite dst src) j ≡ get_elem? src j
unfolding overwrite
overwrite_lem [] src j le lt = absurd (omega arith)
overwrite_lem (d ∷ dst) [] j le lt = absurd (omega arith)
overwrite_lem (d ∷ dst) (s ∷ src) zero le lt = refl
overwrite_lem (d ∷ dst) (s ∷ src) (suc j) le lt =
    overwrite_lem dst src j (omega arith) (omega arith)

-- What the kernel is handed for a buffer of `planes`: each plane in the array of a multi-planar buffer,
-- the only plane in the buffer itself for a single-planar one.
pub record Handed (qb : IoctlQBuffer) (u : UncheckedBuffer) : Type 0 where
  pub multi :
      is_multiplanar qb.queue ≡ true
      → (array : List V4l2Plane) × (u.raw_planes ≡ some array)
        × ((j : ℕ) → j < length qb.planes → get_elem? array j ≡ get_elem? qb.planes j)
  pub single :
      is_multiplanar qb.queue ≡ false
      → (p : V4l2Plane) × (get_elem? qb.planes 0 ≡ some p)
        × (u.raw_planes ≡ none)
        × (u.raw.length ≡ p.length)
        × (u.raw.bytesused ≡ p.bytesused)
        × (u.raw.m ≡ p.m)
  pub indexed : u.raw.index ≡ qb.index

first_plane :
    (ps : List V4l2Plane)
    → 1 ≤ length ps
    → (p : V4l2Plane) × (head? ps ≡ some p) × (get_elem? ps 0 ≡ some p)
first_plane [] h = absurd (omega arith)
first_plane (p ∷ ps) h = (p, refl, refl)

-- A buffer with one plane at least and `VIDEO_MAX_PLANES` at most is converted for the kernel without
-- a panic, and the kernel gets its planes.
pub to_unchecked_total :
    (qb : IoctlQBuffer)
    → 1 ≤ length qb.planes
    → length qb.planes ≤ video_max_planes
    → (u : UncheckedBuffer) × (to_unchecked qb ≡ done u) × Handed qb u
unfolding to_unchecked new_for_querybuf
to_unchecked_total qb lo hi = go (to_unchecked qb) refl
  where
    first : (p : V4l2Plane) × (head? qb.planes ≡ some p) × (get_elem? qb.planes 0 ≡ some p)
    first = first_plane qb.planes lo

    go :
        (r : Run UncheckedBuffer)
        → to_unchecked qb ≡ r
        → (u : UncheckedBuffer) × (to_unchecked qb ≡ done u) × Handed qb u
    go panicked e = absurd (ground (arith, first.1))
    go (done u) e = (
      u,
      e,
      record {
        multi = λ m. (
          overwrite default_planes qb.planes,
          ground arith,
          λ j lt. overwrite_lem default_planes qb.planes j hi lt,
        );
        single = λ m. (
          first.0,
          first.2,
          ground (arith, first.1),
          ground (arith, first.1),
          ground (arith, first.1),
          ground (arith, first.1),
        );
        indexed = ground (arith, first.1);
      },
    )

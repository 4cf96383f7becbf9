-- ===== src/Ioctl/Buffer/Checks.antt =====
-- lib/src/ioctl.rs: what the conversion into a `V4l2Buffer` checks, and what it leaves unchecked.
use v4l2r.Base.{
  ℕ, ◌<◌, ◌≡◌, refl, ◌≢◌, ◌⊎◌, ◌↔◌, none, some, ok, err, done, panicked, arith, inl, inr,
  Option-cases, unwrap_or, subst, Result,
}
use v4l2r.Types.Enumn.{CEnum, n, n_sound, n_found, find_value}
use v4l2r.Types.QueueTypes.{memory_type_enum, queue_type_enum, QueueType, MemoryType}
use v4l2r.Types.Colors.{buffer_field_enum, BufferField}
use v4l2r.Ioctl.Buffer.{
  V4l2Buffer, UncheckedBuffer, BufferFromError, unknown_queue_type, unknown_memory_type,
  default_planes, queue, memory, field, try_from,
}

-- If the conversion refuses a buffer, its queue type is unknown, or its queue type is known and
-- its memory type is not; the error carries the number that is unknown.
pub try_from_refused :
    (u : UncheckedBuffer) {e : BufferFromError}
    → try_from u ≡ err e
    → ((n {A = QueueType} u.raw.type_ ≡ none) × (e ≡ unknown_queue_type u.raw.type_))
      ⊎ ((n {A = QueueType} u.raw.type_ ≢ none)
          × (n {A = MemoryType} u.raw.memory ≡ none)
          × (e ≡ unknown_memory_type u.raw.memory))
unfolding try_from
try_from_refused u h = ground arith

-- What an accepted buffer is made of.
record Accepted (u : UncheckedBuffer) (b : V4l2Buffer) : Type 0 where
  kind : QueueType
  known_kind : n u.raw.type_ ≡ some kind
  backing : MemoryType
  known_backing : n u.raw.memory ≡ some backing
  same : b.buffer ≡ u.raw
  array : b.planes ≡ unwrap_or u.raw_planes default_planes

accepted : (u : UncheckedBuffer) {b : V4l2Buffer} → try_from u ≡ ok b → Accepted u b
unfolding try_from
accepted u {b} h = elim (Option-cases (n {A = QueueType} u.raw.type_)) [
  | inl e ↦ absurd (ground arith)
  | inr (q, e) ↦ elim (Option-cases (n {A = MemoryType} u.raw.memory)) [
    | inl f ↦ absurd (ground arith)
    | inr (m, f) ↦ record {
      kind = q;
      known_kind = e;
      backing = m;
      known_backing = f;
      same = ground arith;
      array = ground arith;
    }
  ]
]

-- A buffer that the conversion accepts has a queue type and a memory type: `queue` and `memory` do not
-- panic on it.
pub try_from_accepted :
    (u : UncheckedBuffer) {b : V4l2Buffer}
    → try_from u ≡ ok b
    → ((q : QueueType) × (queue b ≡ done q)) × ((m : MemoryType) × (memory b ≡ done m))
unfolding queue memory
try_from_accepted u {b} h =
    let a : Accepted u b = accepted u h in
    ((a.kind, rw (a.same, a.known_kind) refl), (a.backing, rw (a.same, a.known_backing) refl))

-- The numbers that stand for no `BufferField`: 3, which is V4L2_FIELD_BOTTOM, and those above 9.
unknown_field : (v : ℕ) → (n {A = BufferField} v ≡ none) ↔ ((v ≡ 3) ⊎ (9 < v))
unfolding n find_value
unknown_field v = (λ h. ground arith, λ h. ground arith)

-- On a buffer that the conversion accepts, `field` panics exactly when the field number is that of
-- V4L2_FIELD_BOTTOM, 3, or above 9.
pub try_from-field_panics :
    (u : UncheckedBuffer) {b : V4l2Buffer}
    → try_from u ≡ ok b
    → (field b ≡ panicked) ↔ ((u.raw.field ≡ 3) ⊎ (9 < u.raw.field))
unfolding field
try_from-field_panics u {b} h = (
  λ p. (unknown_field u.raw.field).0 (ground (arith, (accepted u h).same)),
  λ p. ground (arith, (accepted u h).same, (unknown_field u.raw.field).1 p),
)

-- How the conversion ends: no queue type has the number of the buffer; one has, but no memory type has
-- its number; or both are known and are what the accessors give.
pub data Decides (u : UncheckedBuffer) : Result BufferFromError V4l2Buffer → Type 0 where
  no_queue_type :
      ((q : QueueType) → queue_type_enum.to_u32 q ≢ u.raw.type_)
      → Decides u (err (unknown_queue_type u.raw.type_))
  no_memory_type :
      (q : QueueType)
      → queue_type_enum.to_u32 q ≡ u.raw.type_
      → ((m : MemoryType) → memory_type_enum.to_u32 m ≢ u.raw.memory)
      → Decides u (err (unknown_memory_type u.raw.memory))
  both_known :
      (b : V4l2Buffer) (q : QueueType) (m : MemoryType)
      → (queue b ≡ done q) × (queue_type_enum.to_u32 q ≡ u.raw.type_)
      → (memory b ≡ done m) × (memory_type_enum.to_u32 m ≡ u.raw.memory)
      → b.buffer ≡ u.raw
      → b.planes ≡ unwrap_or u.raw_planes default_planes
      → Decides u (ok b)

unknown_number : {A : Type 0} ⦃e : CEnum A⦄ (v : ℕ) → n {A = A} v ≡ none → (a : A) → e.to_u32 a ≢ v
unknown_number {A} ⦃e⦄ v none_found a same =
    let found : n {A = A} v ≡ some a = subst (λ k. n k ≡ some a) same (n_found a) in absurd (cc)

-- The conversion refuses a buffer exactly if no queue type has its type number, or else no memory type has
-- its memory number, and the error carries that number. It accepts every other one unchanged, with the
-- planes it came with, or the default ones, and `queue` and `memory` then return the types that have those
-- numbers.
pub try_from-Decides : (u : UncheckedBuffer) → Decides u (try_from u)
unfolding try_from queue memory
try_from-Decides u = elim (Option-cases (n {A = QueueType} u.raw.type_)) [
  | inl e ↦ rw e (no_queue_type (unknown_number u.raw.type_ e))
  | inr (q, e) ↦ elim (Option-cases (n {A = MemoryType} u.raw.memory)) [
    | inl f ↦ rw (e, f) (no_memory_type q (n_sound u.raw.type_ e) (unknown_number u.raw.memory f))
    | inr (m, f) ↦
        rw (e, f)
          (both_known _ q m (rw e refl, n_sound u.raw.type_ e) (rw f refl, n_sound u.raw.memory f)
            refl refl)
  ]
]

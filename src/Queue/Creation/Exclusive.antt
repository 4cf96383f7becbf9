-- ===== src/Queue/Creation/Exclusive.antt =====
-- lib/src/device/queue.rs: taking a type of queue and giving it back.
use v4l2r.Base.{
  ℕ, ◌≡◌, ◌↔◌, Bool, true, false, List, [], ◌∷◌, Result, ok, err, done, arith, Bool-cases, inl, inr,
  ==_refl, if◌then◌else◌,
}
use v4l2r.Types.QueueTypes.{QueueType, queue_type_u32, MemoryType}
use v4l2r.Queue.Creation.{
  Errno, QueueBase, CreateQueueError, already_borrowed, contains, insert, remove, create,
  drop_queue,
}

-- Each type stands at most once in the set.
unfoldable pub no_repeats : List QueueType → Bool
no_repeats [] = true
no_repeats (u ∷ used) = if contains u used then false else no_repeats used

-- What a successful `create` did.
pub create-made :
    (kernel : MemoryType → Result Errno ℕ) (t : QueueType) (used : List QueueType)
    {used' : List QueueType} {q : QueueBase}
    → create kernel t used ≡ (used', ok q)
    → (contains t used ≡ false) × (t ∷ used ≡ used') × (t ≡ q.type_)
unfolding create insert
create-made kernel t used {used'} {q} h = elim (Bool-cases (contains t used)) [
  | inl c ↦ absurd (ground arith)
  | inr c ↦ (c, ground arith, ground arith)
]

-- A queue that was created is now in use: creating another one of its type fails whatever the kernel
-- would answer; and dropping it passes its assertion and makes the type available again, leaving
-- the set of types in use as it was.
pub drop_queue-create :
    (kernel again : MemoryType → Result Errno ℕ) (t : QueueType) (used : List QueueType)
    {used' : List QueueType} {q : QueueBase}
    → create kernel t used ≡ (used', ok q)
    → (create again t used' ≡ (used', err already_borrowed))
      × (drop_queue q used' ≡ done used)
      × (contains t used ≡ false)
unfolding drop_queue remove create contains
drop_queue-create kernel again t used {used'} {q} h =
    let (free, made, same) = create-made kernel t used h in
    (
      ground (arith, made, ==_refl (queue_type_u32 t)),
      ground (arith, made, same, ==_refl (queue_type_u32 t)),
      free,
    )

-- When `create` fails, the set of types in use is unchanged; and it fails for the type being in use
-- exactly when that is so.
pub create-err :
    (kernel : MemoryType → Result Errno ℕ) (t : QueueType) (used : List QueueType)
    {used' : List QueueType} {e : CreateQueueError}
    → create kernel t used ≡ (used', err e)
    → (used' ≡ used) × ((e ≡ already_borrowed) ↔ (contains t used ≡ true))
unfolding create
create-err kernel t used {used'} {e} h = elim (Bool-cases (contains t used)) [
  | inl c ↦ (ground arith, ((λ x. c), (λ x. ground arith)))
  | inr c ↦ (ground arith, ((λ x. absurd (ground arith)), (λ x. absurd (ground arith))))
]

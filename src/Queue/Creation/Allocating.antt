-- ===== src/Queue/Creation/Allocating.antt =====
-- lib/src/device/queue.rs: the queue that `request_buffers_generic` builds.
use v4l2r.Base.{
  ℕ, zero, suc, ◌+◌, ◌<◌, ◌≡◌, refl, sym, ap, List, [], ◌∷◌, some, Result, ok, err, arith, length,
  get_elem?, subst,
}
use v4l2r.Types.QueueTypes.{QueueType, MemoryType}
use v4l2r.Ioctl.Buffer.{UncheckedBuffer}
use v4l2r.Queue.Buffers.{BufferStats, QueryBuffer, usize_mod, new_stats}
use v4l2r.Queue.Allocated.{Allocated, register, num_buffers, num_free_buffers, num_queued_buffers}
use v4l2r.Queue.Allocated.Obtain.{register-Agree}
use v4l2r.Queue.Protocol.{Fresh}
use v4l2r.Queue.Creation.{
  Errno, RequestBuffersError, reqbufs, query_buffer, query_all, request_buffers_generic,
}

-- QUERYBUF answers with the index that it was asked for.
pub record KeepsIndex (querybuf : ℕ → Result Errno UncheckedBuffer) : Type 0 where
  pub keeps : (i : ℕ) (u : UncheckedBuffer) → querybuf i ≡ ok u → u.raw.index ≡ i

-- The answers carry the indices from `i` on.
record From (i n : ℕ) (fs : List QueryBuffer) : Type 0 where
  count : length fs ≡ n
  indices : (j : ℕ) (f : QueryBuffer) → get_elem? fs j ≡ some f → f.index ≡ i + j

From-cons :
    (i n : ℕ) (f : QueryBuffer) (fs : List QueryBuffer)
    → f.index ≡ i
    → From (i + 1) n fs
    → From i (suc n) (f ∷ fs)
From-cons i n f fs here rest = record { count = ap suc rest.count; indices = at }
  where
    at : (j : ℕ) (x : QueryBuffer) → get_elem? (f ∷ fs) j ≡ some x → x.index ≡ i + j
    at zero x e = ground (arith, here)
    at (suc j) x e = omega (arith, rest.indices j x e)

query_all-numbered :
    (querybuf : ℕ → Result Errno UncheckedBuffer) (k : KeepsIndex querybuf) (i n : ℕ)
    (fs : List QueryBuffer)
    → query_all querybuf i n ≡ ok fs
    → From i n fs
unfolding query_all query_buffer
query_all-numbered querybuf k i zero fs h =
    let nil : [] ≡ fs = ground arith in
    subst (From i zero) nil (record { count = refl; indices = λ j f e. absurd (cc) })
query_all-numbered querybuf k i (suc n) fs h =
    go (querybuf i) refl (query_all querybuf (i + 1) n) refl
      (query_all-numbered querybuf k (i + 1) n)
  where
    go :
        (r : Result Errno UncheckedBuffer)
        → querybuf i ≡ r
        → (s : Result RequestBuffersError (List QueryBuffer)) → query_all querybuf (i + 1) n ≡ s
        → ((gs : List QueryBuffer) → query_all querybuf (i + 1) n ≡ ok gs → From (i + 1) n gs)
        → From i (suc n) fs
    go (err e) a s b ih = absurd (ground arith)
    go (ok u) a (err e) b ih = absurd (ground arith)
    go (ok u) a (ok gs) b ih =
        let eq : query_buffer u ∷ gs ≡ fs = ground arith in
        subst (From i (suc n)) eq (From-cons i n (query_buffer u) gs (k.keeps i u a) (ih gs b))

-- What a successful `request_buffers_generic` gives: a fresh queue of the buffers the kernel granted,
-- all of them free.
pub record Granted {P : Type 0} (num_granted : ℕ) (q : Allocated P) : Type 0 where
  pub fresh : Fresh q
  pub size : num_buffers q ≡ num_granted
  pub all_free : num_free_buffers q ≡ num_granted
  pub none_queued : num_queued_buffers q ≡ 0

-- If QUERYBUF answers with the index it is asked for and REQBUFS grants fewer than `2 ^ 64` buffers, a
-- successful `request_buffers_generic` gives a queue of exactly the granted buffers, numbered by
-- position, all counted as free and none as queued.
pub request_buffers_generic-Granted :
    (P : Type 0) (granted : ℕ) (querybuf : ℕ → Result Errno UncheckedBuffer)
    (k : KeepsIndex querybuf) (t : QueueType) (memory : MemoryType) (alloc : ℕ) {q : Allocated P}
    → granted < usize_mod
    → request_buffers_generic P (ok granted) querybuf t memory alloc ≡ ok q
    → Granted granted q
unfolding request_buffers_generic reqbufs num_buffers num_free_buffers num_queued_buffers new_stats
request_buffers_generic-Granted P granted querybuf k t memory alloc {q} few h =
    go (query_all querybuf 0 granted) refl
  where
    go :
        (s : Result RequestBuffersError (List QueryBuffer))
        → query_all querybuf 0 granted ≡ s
        → Granted granted q
    go (err e) b = absurd (ground arith)
    go (ok fs) b =
        let f = query_all-numbered querybuf k 0 granted fs b in
        let made = register-Agree P fs new_stats (omega (arith, f.count)) in
        let infos : (register {P = P} fs new_stats).0 ≡ q.buffer_info = ground arith in
        let stats : (register {P = P} fs new_stats).1 ≡ q.stats = ground arith in
        record {
          fresh = record {
            features = fs;
            infos = sym infos;
            counted = sym stats;
            few = omega (arith, f.count);
            numbered = λ i x e. omega (arith, f.indices i x e);
          };
          size = omega (arith, ap length infos, made.4, f.count);
          all_free = omega (arith, ap BufferStats.num_free stats, made.0, f.count);
          none_queued = omega (arith, ap BufferStats.num_queued stats, made.1);
        }

-- ===== src/Ring/Queue.antt =====
-- The abstract view of a ring buffer, a queue of at most `size - 1` bytes, and any sequence of reads
-- and writes on both.
use mathlib.Core.Option
use network_lab.Base.{
  ℕ, ◌+◌, ◌≡◌, refl, ap, ap₂, ◌∙◌, ◌>>=◌, bind-map, min, ◌&&◌, List, [], ◌∷◌, ◌++◌, Option, none,
  some, arith, length, take, drop, ltb, leb, if◌then◌else◌,
}
use network_lab.Ring.{RingBuffer, read_ring_buffer, write_ring_buffer}
use network_lab.Ring.Valid.{IsValid, read-IsValid, write-IsValid}
use network_lab.Ring.Contents.{contents}
use network_lab.Ring.Refine.{read_refines, write_refines}

pub data Op : Type 0 where
  reads : ℕ → Op
  writes : List ℕ → Op

-- What the reads return, or `none` where an assertion fails.
unfoldable pub run : RingBuffer → List Op → Option (List (List ℕ))
run r [] = some []
run r (reads n ∷ ops) = let (_, out, r') = read_ring_buffer r n in Option.map (◌∷◌ out) (run r' ops)
run r (writes src ∷ ops) = write_ring_buffer r src (length src) >>= λ r'. run r' ops

push : ℕ → List ℕ → List ℕ → Option (List ℕ)
push size q src =
    if ltb 0 (length src) && leb (length q + length src + 1) size then some (q ++ src) else none

-- The same operations on a plain queue.
unfoldable pub run_queue : ℕ → List ℕ → List Op → Option (List (List ℕ))
unfolding push
run_queue size q [] = some []
run_queue size q (reads n ∷ ops) =
    let len = min (length q) n in Option.map (◌∷◌ (take len q)) (run_queue size (drop len q) ops)
run_queue size q (writes src ∷ ops) = push size q src >>= λ q'. run_queue size q' ops

size-read : (r : RingBuffer) (n : ℕ) → (read_ring_buffer r n).2.size ≡ r.size
unfolding read_ring_buffer
size-read r n = ground arith

pub size-write :
    (r r' : RingBuffer) (src : List ℕ) (n : ℕ)
    → write_ring_buffer r src n ≡ some r'
    → r'.size ≡ r.size
unfolding write_ring_buffer
size-write r r' src n e = ground arith

pub take-length {ℓ} : {A : Type ℓ} (xs : List A) → take (length xs) xs ≡ xs
take-length [] = refl
take-length (x ∷ xs) = ap (◌∷◌ x) (take-length xs)

write-push :
    (r : RingBuffer) (src : List ℕ)
    → IsValid r
    → Option.map contents (write_ring_buffer r src (length src)) ≡ push r.size (contents r) src
unfolding push
write-push r src v =
    write_refines src (length src) v (omega arith)
    ∙ ap
        (λ xs.
          if ltb 0 (length src) && leb (length (contents r) + length src + 1) r.size
          then some (contents r ++ xs)
          else none)
        (take-length src)

-- No sequence of reads and writes tells a valid ring from the bounded queue of its contents: the
-- reads return the same bytes and an assertion fails in one when it fails in the other.
pub run_refines :
    (ops : List Op) (r : RingBuffer) → IsValid r → run r ops ≡ run_queue r.size (contents r) ops
unfolding run run_queue
run_refines [] r v = refl
run_refines (reads n ∷ ops) r v =
    ap (Option.map (◌∷◌ (read_ring_buffer r n).1)) (
      run_refines ops (read_ring_buffer r n).2 (read-IsValid n v)
      ∙ ap₂ (λ s q. run_queue s q ops) (size-read r n)
          (spec.2 ∙ ap (λ k. drop k (contents r)) spec.0))
    ∙ ap
        (λ out.
          Option.map (◌∷◌ out)
            (run_queue r.size (drop (min (length (contents r)) n) (contents r)) ops))
        (spec.1 ∙ ap (λ k. take k (contents r)) spec.0)
  where
    spec :
        let (len, out, r') = read_ring_buffer r n in
        (len ≡ min (length (contents r)) n)
        × (out ≡ take len (contents r))
        × (contents r' ≡ drop len (contents r))
    spec = read_refines n v
run_refines (writes src ∷ ops) r v =
    bind-map (write_ring_buffer r src (length src)) contents (λ r'. run r' ops)
      (λ q. run_queue r.size q ops)
      (λ r' e.
        run_refines ops r' (write-IsValid src (length src) v e)
        ∙ ap (λ s. run_queue s (contents r') ops) (size-write r r' src (length src) e))
    ∙ ap (λ p. p >>= λ q. run_queue r.size q ops) (write-push r src v)

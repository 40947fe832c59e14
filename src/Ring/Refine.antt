-- ===== src/Ring/Refine.antt =====
-- A valid ring is a bounded queue of bytes.
use network_lab.Base.{
  ℕ, ◌+◌, ◌-◌, ◌%◌, ◌≤◌, ◌<◌, ◌≡◌, refl, sym, ap, ap₂, ◌∙◌, min, ◌&&◌, List, ◌++◌, none, some,
  false, arith, inl, inr, length, get_or, take, drop, ltb, leb, if◌then◌else◌, Bool-cases, leb→le,
}
use mathlib.Core.Option
use network_lab.Base.Tabulate.{
  tabulate_from, length-tabulate_from, tabulate_ext, tabulate-append, slice-tabulate, mod_wrap,
  take-append_length, drop-append_length,
}
use network_lab.Ring.{
  RingBuffer, ring_buffer_used, ring_buffer_free, read_ring_buffer, write_ring_buffer, copy_in,
}
use network_lab.Ring.Valid.{IsValid, used_cases, used-lt-size, used-add-free, length-copy_in}
use network_lab.Ring.Contents.{entry, contents, copy_out_lem, copy_in_new, copy_in_old}

length-contents : (r : RingBuffer) → length (contents r) ≡ ring_buffer_used r
length-contents r = length-tabulate_from 0 (ring_buffer_used r) (entry r)

module _ {r : RingBuffer} (v : IsValid r) (len : ℕ) (within : len ≤ ring_buffer_used r) where
  -- the ring after a read of `len` bytes
  abbrev moved : RingBuffer
  moved = record r { head = (r.head + len) % r.size }

  moved-IsValid : IsValid moved
  moved-IsValid = omega arith

  used-moved : ring_buffer_used moved ≡ ring_buffer_used r - len
  used-moved = ground (
    arith,
    used_cases v,
    used_cases moved-IsValid,
    used-lt-size v,
    mod_wrap (r.head + len) r.size,
  )

  entry-moved : (k : ℕ) → k < ring_buffer_used r - len → entry moved (0 + k) ≡ entry r (0 + len + k)
  entry-moved k hk =
      ap (λ j. get_or r.buf j 0)
        (ground (
          arith,
          used-lt-size v,
          mod_wrap (r.head + len) r.size,
          mod_wrap ((r.head + len) % r.size + (0 + k)) r.size,
          mod_wrap (r.head + (0 + len + k)) r.size,
        ))

  contents-split : contents r ≡ tabulate_from 0 len (entry r) ++ contents moved
  contents-split =
      ap (λ n. tabulate_from 0 n (entry r)) (omega arith)
      ∙ tabulate-append 0 len (ring_buffer_used r - len) (entry r)
      ∙ ap (◌++◌ (tabulate_from 0 len (entry r))) (
          sym (
            tabulate_ext 0 (0 + len) (ring_buffer_used r - len) (entry moved) (entry r) entry-moved)
          ∙ ap (λ n. tabulate_from 0 n (entry moved)) (sym used-moved))

  take-contents : take len (contents r) ≡ tabulate_from 0 len (entry r)
  take-contents =
      ap (take len) contents-split
      ∙ take-append_length len _ _ (length-tabulate_from 0 len (entry r))

  drop-contents : drop len (contents r) ≡ contents moved
  drop-contents =
      ap (drop len) contents-split
      ∙ drop-append_length len _ _ (length-tabulate_from 0 len (entry r))

-- A read of a valid ring takes the oldest bytes, as many as there are of those asked for, and leaves
-- the others.
pub read_refines :
    {r : RingBuffer} (size : ℕ)
    → IsValid r
    → let (len, out, r') = read_ring_buffer r size in
      (len ≡ min (length (contents r)) size)
      × (out ≡ take len (contents r))
      × (contents r' ≡ drop len (contents r))
unfolding read_ring_buffer
read_refines {r} size v = elim (Bool-cases (ltb 0 (min (ring_buffer_used r) size))) [
  | inl some_bytes ↦ rw some_bytes (
    rw length-contents refl,
    copy_out_lem v (min (ring_buffer_used r) size) (omega (arith, used-lt-size v))
        ∙ sym (take-contents v (min (ring_buffer_used r) size) (omega arith)),
    sym (drop-contents v (min (ring_buffer_used r) size) (omega arith)),
  )
  | inr nothing ↦ rw nothing (
    rw length-contents refl,
    ap (λ n. take n (contents r)) (is_zero nothing),
    ap (λ n. drop n (contents r)) (is_zero nothing),
  )
]
  where
    is_zero : ltb 0 (min (ring_buffer_used r) size) ≡ false → 0 ≡ min (ring_buffer_used r) size
    is_zero h = ground arith

module _ {r : RingBuffer} (v : IsValid r) (src : List ℕ) (n : ℕ) (given : n ≤ length src)
    (room : n ≤ ring_buffer_free r) where
  -- the ring after a write of `n` bytes
  abbrev written : RingBuffer
  written = record r { buf = copy_in r src n; tail = (r.tail + n) % r.size }

  written-IsValid : IsValid written
  written-IsValid = omega (arith, length-copy_in r src n)

  used-written : ring_buffer_used written ≡ ring_buffer_used r + n
  used-written = ground (
    arith,
    used_cases v,
    used_cases written-IsValid,
    used-add-free v,
    mod_wrap (r.tail + n) r.size,
  )

  small : n < r.size
  small = omega (arith, used-add-free v)

  entry_old : (k : ℕ) → k < ring_buffer_used r → entry written (0 + k) ≡ entry r (0 + k)
  entry_old k hk =
      copy_in_old v src n small given ((r.head + (0 + k)) % r.size) (omega arith)
        (λ up. ground (arith, used_cases v, used-add-free v, mod_wrap (r.head + (0 + k)) r.size))
        (λ down. ground (arith, used_cases v, used-add-free v, mod_wrap (r.head + (0 + k)) r.size))

  place : (k : ℕ) → k < n → (r.head + (0 + ring_buffer_used r + k)) % r.size ≡ (r.tail + k) % r.size
  place k hk = ground (
    arith,
    used_cases v,
    used-add-free v,
    mod_wrap (r.head + (0 + ring_buffer_used r + k)) r.size,
    mod_wrap (r.tail + k) r.size,
  )

  entry_new : (k : ℕ) → k < n → entry written (0 + ring_buffer_used r + k) ≡ get_or src (0 + k) 0
  entry_new k hk =
      ap (λ j. get_or (copy_in r src n) j 0) (place k hk)
      ∙ copy_in_new v src n small given k hk
      ∙ ap (λ j. get_or src j 0) (omega arith)

  contents-written : contents written ≡ contents r ++ take n src
  contents-written =
      ap (λ m. tabulate_from 0 m (entry written)) used-written
      ∙ tabulate-append 0 (ring_buffer_used r) n (entry written)
      ∙ ap₂ ◌++◌ (tabulate_ext 0 0 (ring_buffer_used r) (entry written) (entry r) entry_old) (
          tabulate_ext (0 + ring_buffer_used r) 0 n (entry written) (λ j. get_or src j 0) entry_new
          ∙ sym (slice-tabulate src 0 n 0 (omega arith)))

-- With room in a valid ring for the bytes and at least one of them, a write of bytes that the source
-- has appends exactly those, in order; otherwise the assertion fails.
pub write_refines :
    {r : RingBuffer} (src : List ℕ) (n : ℕ)
    → IsValid r
    → n ≤ length src
    → Option.map contents (write_ring_buffer r src n) ≡ (
        if ltb 0 n && leb (length (contents r) + n + 1) r.size
        then some (contents r ++ take n src)
        else none)
unfolding write_ring_buffer
write_refines {r} src n v given = rw same_test (elim (Bool-cases (leb n (ring_buffer_free r))) [
  | inl room ↦ rw room (elim (Bool-cases (ltb 0 n)) [
    | inl some_bytes ↦ rw some_bytes (ap some (contents-written v src n given (leb→le _ _ room)))
    | inr no_byte ↦ rw no_byte refl
  ])
  | inr full ↦ rw full (elim (Bool-cases (ltb 0 n)) [
    | inl some_bytes ↦ rw some_bytes refl
    | inr no_byte ↦ rw no_byte refl
  ])
])
  where
    same_test : leb (length (contents r) + n + 1) r.size ≡ leb n (ring_buffer_free r)
    same_test = ground (arith, length-contents r, used-add-free v)

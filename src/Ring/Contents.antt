-- ===== src/Ring/Contents.antt =====
-- The bytes that the ring holds, oldest first, and what the copies of a read and a write do to them.
use network_lab.Base.{
  ℕ, refl, ◌+◌, ◌-◌, ◌%◌, ◌≤◌, ◌<◌, ◌≡◌, sym, ap, ap₂, ◌∙◌, List, ◌++◌, arith, inl, inr, length,
  get_or, take, drop, length-take, length-drop, ltb, if◌then◌else◌, Bool-cases, ltb→lt,
}
use network_lab.Base.Tabulate.{
  tabulate_from, tabulate_ext, tabulate-append, slice-tabulate, copy_to, length-copy_to, mod_wrap,
  get_or-copy_to_before, get_or-copy_to_behind, get_or-copy_to_in, get_or-take, get_or-drop,
}
use network_lab.Ring.{RingBuffer, ring_buffer_used, copy_out, copy_in}
use network_lab.Ring.Valid.{IsValid}

abbrev pub entry : RingBuffer → ℕ → ℕ
entry r i = get_or r.buf ((r.head + i) % r.size) 0

abbrev pub contents : RingBuffer → List ℕ
contents r = tabulate_from 0 (ring_buffer_used r) (entry r)

module _ {r : RingBuffer} (v : IsValid r) (len : ℕ) (in_range : len < r.size) where
  copy_out_wrapped :
      r.size < r.head + len
      → (take (r.size - r.head) (drop r.head r.buf) ++ take (len - (r.size - r.head)) r.buf)
        ≡ tabulate_from 0 len (entry r)
  copy_out_wrapped h =
      ap₂ ◌++◌
        (slice-tabulate r.buf r.head (r.size - r.head) 0 (omega arith)
          ∙ tabulate_ext r.head 0 (r.size - r.head) _ (entry r) (λ k hk.
            ap (λ j. get_or r.buf j 0) (ground (arith, mod_wrap (r.head + (0 + k)) r.size))))
        (slice-tabulate r.buf 0 (len - (r.size - r.head)) 0 (omega arith)
          ∙ tabulate_ext 0 (0 + (r.size - r.head)) (len - (r.size - r.head)) _ (entry r) (λ k hk.
            ap (λ j. get_or r.buf j 0)
              (ground (arith, mod_wrap (r.head + (0 + (r.size - r.head) + k)) r.size))))
      ∙ sym (tabulate-append 0 (r.size - r.head) (len - (r.size - r.head)) (entry r))
      ∙ ap (λ n. tabulate_from 0 n (entry r)) (omega arith)

  copy_out_straight :
      r.head + len ≤ r.size → take len (drop r.head r.buf) ≡ tabulate_from 0 len (entry r)
  copy_out_straight h =
      slice-tabulate r.buf r.head len 0 (omega arith)
      ∙ tabulate_ext r.head 0 len _ (entry r)
          (λ k hk. ap (λ j. get_or r.buf j 0) (ground (arith, mod_wrap (r.head + (0 + k)) r.size)))

  pub copy_out_lem : copy_out r len ≡ tabulate_from 0 len (entry r)
  unfolding copy_out
  copy_out_lem = elim (Bool-cases (ltb r.size (r.head + len))) [
    | inl wraps ↦ rw wraps (copy_out_wrapped (ltb→lt _ _ wraps))
    | inr fits ↦ rw fits (copy_out_straight (ground arith))
  ]

module _ {r : RingBuffer} (v : IsValid r) (src : List ℕ) (n : ℕ) (fits : n < r.size)
    (given : n ≤ length src) where
  first : List ℕ
  first = copy_to r.buf r.tail (take (r.size - r.tail) src)

  second : List ℕ
  unfolding first
  second = copy_to first 0 (take (n - (r.size - r.tail)) (drop (r.size - r.tail) src))

  straight : List ℕ
  straight = copy_to r.buf r.tail (take n src)

  copy_in_cases : copy_in r src n ≡ (if ltb r.size (r.tail + n) then second else straight)
  unfolding copy_in second straight
  copy_in_cases = refl

  length-second :
      length (take (n - (r.size - r.tail)) (drop (r.size - r.tail) src)) ≤ n - (r.size - r.tail)
  length-second = omega (arith, length-take (n - (r.size - r.tail)) (drop (r.size - r.tail) src))

  new_wrapped :
      (k : ℕ)
      → k < n
      → r.size < r.tail + n
      → get_or second ((r.tail + k) % r.size) 0 ≡ get_or src k 0
  unfolding second
  new_wrapped k hk h = elim (Bool-cases (ltb k (r.size - r.tail))) [
    | inl low ↦
        ap (λ j. get_or second j 0) (ground (arith, mod_wrap (r.tail + k) r.size))
        ∙ get_or-copy_to_behind (take (n - (r.size - r.tail)) (drop (r.size - r.tail) src)) first 0
            (r.tail + k) 0 (omega (arith, length-second))
        ∙ get_or-copy_to_in (take (r.size - r.tail) src) r.buf r.tail k 0
            (ground (arith, length-take (r.size - r.tail) src))
            (omega (arith, length-take (r.size - r.tail) src))
        ∙ get_or-take (r.size - r.tail) src k 0 (ltb→lt _ _ low)
    | inr high ↦
        ap (λ j. get_or second j 0) (ground (arith, mod_wrap (r.tail + k) r.size))
        ∙ get_or-copy_to_in (take (n - (r.size - r.tail)) (drop (r.size - r.tail) src)) first 0
            (k - (r.size - r.tail)) 0
            (ground (
              arith,
              length-take (n - (r.size - r.tail)) (drop (r.size - r.tail) src),
              length-drop (r.size - r.tail) src,
            ))
            (omega (arith, length-second, length-copy_to (take (r.size - r.tail) src) r.buf r.tail))
        ∙ get_or-take (n - (r.size - r.tail)) (drop (r.size - r.tail) src) (k - (r.size - r.tail)) 0
            (ground arith)
        ∙ get_or-drop src (r.size - r.tail) (k - (r.size - r.tail)) 0
        ∙ ap (λ j. get_or src j 0) (ground arith)
  ]

  new_straight :
      (k : ℕ)
      → k < n
      → r.tail + n ≤ r.size
      → get_or straight ((r.tail + k) % r.size) 0 ≡ get_or src k 0
  unfolding straight
  new_straight k hk h =
      ap (λ j. get_or straight j 0) (ground (arith, mod_wrap (r.tail + k) r.size))
      ∙ get_or-copy_to_in (take n src) r.buf r.tail k 0 (omega (arith, length-take n src))
          (omega (arith, length-take n src))
      ∙ get_or-take n src k 0 hk

  -- The byte at offset `k` of `src` lands `k` places behind the old tail.
  pub copy_in_new :
      (k : ℕ) → k < n → get_or (copy_in r src n) ((r.tail + k) % r.size) 0 ≡ get_or src k 0
  copy_in_new k hk = rw copy_in_cases (elim (Bool-cases (ltb r.size (r.tail + n))) [
    | inl wraps ↦ rw wraps (new_wrapped k hk (ltb→lt _ _ wraps))
    | inr inside ↦ rw inside (new_straight k hk (ground arith))
  ])

  old_wrapped :
      (j : ℕ)
      → r.size < r.tail + n
      → j < r.tail
      → r.tail + n ≤ j + r.size
      → get_or second j 0 ≡ get_or r.buf j 0
  unfolding second first
  old_wrapped j h below above =
      get_or-copy_to_behind (take (n - (r.size - r.tail)) (drop (r.size - r.tail) src)) first 0 j 0
        (omega (arith, length-second))
      ∙ get_or-copy_to_before (take (r.size - r.tail) src) r.buf r.tail j 0 below

  old_straight : (j : ℕ) → (r.tail ≤ j → r.tail + n ≤ j) → get_or straight j 0 ≡ get_or r.buf j 0
  unfolding straight
  old_straight j up = elim (Bool-cases (ltb j r.tail)) [
    | inl below ↦ get_or-copy_to_before (take n src) r.buf r.tail j 0 (ltb→lt _ _ below)
    | inr above ↦
        get_or-copy_to_behind (take n src) r.buf r.tail j 0
          (omega (arith, length-take n src, up (ground arith)))
  ]

  -- A place that is not among the `n` behind the tail keeps its byte.
  pub copy_in_old :
      (j : ℕ)
      → j < r.size
      → (r.tail ≤ j → r.tail + n ≤ j)
      → (j < r.tail → r.tail + n ≤ j + r.size)
      → get_or (copy_in r src n) j 0 ≡ get_or r.buf j 0
  copy_in_old j hj up down = rw copy_in_cases (elim (Bool-cases (ltb r.size (r.tail + n))) [
    | inl wraps ↦ rw wraps (wrapped (ltb→lt _ _ wraps))
    | inr inside ↦ rw inside (old_straight j up)
  ])
    where
      wrapped : r.size < r.tail + n → get_or second j 0 ≡ get_or r.buf j 0
      wrapped h = let below : j < r.tail = grind arith in old_wrapped j h below (down below)

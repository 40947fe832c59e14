-- ===== src/Ring/Valid.antt =====
-- The invariant of `struct ring_buffer`, and the count of the bytes that are stored.
use network_lab.Base.{
  ℕ, ◌+◌, ◌-◌, ◌<◌, ◌≡◌, List, some, arith, length, take, drop, length-replicate, leb,
  if◌then◌else◌,
}
use network_lab.Base.Tabulate.{copy_to, length-copy_to, mod_wrap}
use network_lab.Ring.{
  RingBuffer, alloc_ring_buffer, ring_buffer_used, ring_buffer_free, read_ring_buffer, copy_in,
  write_ring_buffer,
}

pub record IsValid (r : RingBuffer) : Type 0 where
  pub positive : 0 < r.size
  pub storage : r.size < length r.buf
  pub head_in : r.head < r.size
  pub tail_in : r.tail < r.size

-- A fresh buffer of positive size is valid.
pub alloc_ring_buffer-IsValid : (size : ℕ) → 0 < size → IsValid (alloc_ring_buffer size)
unfolding alloc_ring_buffer
alloc_ring_buffer-IsValid size h = omega (arith, length-replicate {A = ℕ} (size + 1) 0)

-- The count without `%`.
pub used_cases :
    {r : RingBuffer}
    → IsValid r
    → ring_buffer_used r ≡ (if leb r.head r.tail then r.tail - r.head else r.tail + r.size - r.head)
unfolding ring_buffer_used
used_cases {r} v = ground (arith, mod_wrap (r.tail + r.size - r.head) r.size)

pub used-lt-size : {r : RingBuffer} → IsValid r → ring_buffer_used r < r.size
used-lt-size v = ground (arith, used_cases v)

-- The bytes stored, the bytes free and the gap byte make up the size.
pub used-add-free :
    {r : RingBuffer} → IsValid r → ring_buffer_used r + ring_buffer_free r + 1 ≡ r.size
unfolding ring_buffer_free
used-add-free v = omega (arith, used-lt-size v)

pub length-copy_in :
    (r : RingBuffer) (src : List ℕ) (len : ℕ) → length (copy_in r src len) ≡ length r.buf
unfolding copy_in
length-copy_in r src len = ground (
  arith,
  length-copy_to (take len src) r.buf r.tail,
  length-copy_to (take (r.size - r.tail) src) r.buf r.tail,
  length-copy_to (take (len - (r.size - r.tail)) (drop (r.size - r.tail) src))
      (copy_to r.buf r.tail (take (r.size - r.tail) src)) 0,
)

-- Reading keeps the invariant.
pub read-IsValid : {r : RingBuffer} (n : ℕ) → IsValid r → IsValid (read_ring_buffer r n).2
unfolding read_ring_buffer
read-IsValid {r} n v = ground arith

-- Writing keeps the invariant.
pub write-IsValid :
    {r r' : RingBuffer} (src : List ℕ) (n : ℕ)
    → IsValid r
    → write_ring_buffer r src n ≡ some r'
    → IsValid r'
unfolding write_ring_buffer
write-IsValid {r} src n v e = ground (arith, length-copy_in r src n)

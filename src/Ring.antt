-- ===== src/Ring.antt =====
-- 16-tcp_data_transfer/include/ring_buffer.h: the receiving buffer of a tcp sock. A function that
-- updates `*rbuf` returns the new buffer. Bytes are only moved, so a byte is any number, and sizes
-- are the non-negative values of the source's `int`.
pub mod Valid
pub mod Contents
pub mod Refine
pub mod Queue
mod Tests
use network_lab.Base.{
  ℕ, ◌+◌, ◌-◌, ◌%◌, min, Bool, ◌&&◌, List, [], ◌++◌, Option, none, some, ltb, leb, ◌==◌,
  if◌then◌else◌, replicate, take, drop,
}
use network_lab.Base.Tabulate.{copy_to}

pub record RingBuffer : Type 0 where
  pub size : ℕ
  pub head : ℕ
  pub tail : ℕ
  pub buf : List ℕ

-- One byte more than `size`, all zero. (`malloc` is taken to succeed.)
unfoldable pub alloc_ring_buffer : ℕ → RingBuffer
alloc_ring_buffer size = record { size = size; head = 0; tail = 0; buf = replicate (size + 1) 0 }

-- `tail - head + size`, summed before it is subtracted from: it is never negative with an index
-- `head` below `size`.
unfoldable pub ring_buffer_used : RingBuffer → ℕ
ring_buffer_used rbuf = (rbuf.tail + rbuf.size - rbuf.head) % rbuf.size

unfoldable pub ring_buffer_free : RingBuffer → ℕ
ring_buffer_free rbuf = rbuf.size - ring_buffer_used rbuf - 1

unfoldable pub ring_buffer_empty : RingBuffer → Bool
ring_buffer_empty rbuf = ring_buffer_used rbuf == 0

unfoldable ring_buffer_full : RingBuffer → Bool
ring_buffer_full rbuf = ring_buffer_free rbuf == 0

-- The one or two `memcpy` out of the buffer.
pub copy_out : RingBuffer → ℕ → List ℕ
copy_out rbuf len =
    if ltb rbuf.size (rbuf.head + len)
    then (let right = rbuf.size - rbuf.head in
        let left = len - right in take right (drop rbuf.head rbuf.buf) ++ take left rbuf.buf)
    else take len (drop rbuf.head rbuf.buf)

-- The length returned, the bytes copied to `buf`, and the new ring.
unfoldable pub read_ring_buffer : RingBuffer → ℕ → ℕ × List ℕ × RingBuffer
unfolding copy_out
read_ring_buffer rbuf size =
    let len = min (ring_buffer_used rbuf) size in
    if ltb 0 len
    then (len, copy_out rbuf len, record rbuf { head = (rbuf.head + len) % rbuf.size })
    else (len, [], rbuf)

-- The one or two `memcpy` into the buffer.
pub copy_in : RingBuffer → List ℕ → ℕ → List ℕ
copy_in rbuf src len =
    if ltb rbuf.size (rbuf.tail + len)
    then (let right = rbuf.size - rbuf.tail in
        let left = len - right in
        copy_to (copy_to rbuf.buf rbuf.tail (take right src)) 0 (take left (drop right src)))
    else copy_to rbuf.buf rbuf.tail (take len src)

-- `none` is a failed `assert`, which ends the process.
unfoldable pub write_ring_buffer : RingBuffer → List ℕ → ℕ → Option RingBuffer
unfolding copy_in
write_ring_buffer rbuf src size =
    if ltb 0 size && leb size (ring_buffer_free rbuf)
    then (let len = size in
        if ltb 0 len
        then some (record rbuf { buf = copy_in rbuf src len; tail = (rbuf.tail + len) % rbuf.size })
        else some rbuf)
    else none

-- ===== src/Ring/Tests.antt =====
-- The ring buffer on small inputs.
use network_lab.Base.{◌+◌, ◌≡◌, refl, List, [], ◌∷◌, none, some, arith}
use network_lab.Base.Tabulate.{copy_to}
use network_lab.Ring.{
  RingBuffer, alloc_ring_buffer, ring_buffer_used, ring_buffer_free, read_ring_buffer,
  write_ring_buffer,
}
use network_lab.Ring.Valid.{
  IsValid, alloc_ring_buffer-IsValid, used-add-free, read-IsValid, write-IsValid,
}
use network_lab.Ring.Contents.{contents}
use network_lab.Ring.Queue.{Op, reads, writes, run, run_queue, run_refines}

-- 10, then 11, round the end of the storage
abbrev wrapped : RingBuffer
wrapped = record { size = 4; head = 3; tail = 1; buf = 11 ∷ 0 ∷ 0 ∷ 10 ∷ 0 ∷ [] }

abbrev script : List Op
script = reads 1 ∷ writes (7 ∷ 8 ∷ []) ∷ reads 9 ∷ []

wrapped-IsValid : IsValid wrapped
wrapped-IsValid = omega arith

wrapped-run : run wrapped script ≡ some ((10 ∷ []) ∷ (11 ∷ 7 ∷ 8 ∷ []) ∷ [])
unfolding run read_ring_buffer write_ring_buffer ring_buffer_used ring_buffer_free copy_to
wrapped-run = refl

-- Two bytes are stored, so two more do not fit beside the gap byte.
overfull_write : write_ring_buffer wrapped (7 ∷ 8 ∷ []) 2 ≡ none
unfolding write_ring_buffer ring_buffer_used ring_buffer_free
overfull_write = refl

alloc_ring_buffer-IsValid_example : IsValid (alloc_ring_buffer 65535)
alloc_ring_buffer-IsValid_example = alloc_ring_buffer-IsValid 65535 (omega arith)

used-add-free_example : ring_buffer_used wrapped + ring_buffer_free wrapped + 1 ≡ 4
used-add-free_example = used-add-free wrapped-IsValid

read-IsValid_example : IsValid (read_ring_buffer wrapped 1).2
read-IsValid_example = read-IsValid 1 wrapped-IsValid

write-IsValid_example :
    IsValid (record { size = 4; head = 3; tail = 2; buf = 11 ∷ 9 ∷ 0 ∷ 10 ∷ 0 ∷ [] })
unfolding write_ring_buffer ring_buffer_used ring_buffer_free copy_to
write-IsValid_example = write-IsValid {r = wrapped} (9 ∷ []) 1 wrapped-IsValid refl

run_refines_example : run wrapped script ≡ run_queue 4 (contents wrapped) script
run_refines_example = run_refines script wrapped wrapped-IsValid

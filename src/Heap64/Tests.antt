-- ===== src/Heap64/Tests.antt =====
-- Examples of the kernel heap of src/vm64.c, with two blocks in use.
use aj.Common.{
  ℕ, ◌+◌, ◌-◌, ◌^◌, ◌≤◌, ◌≡◌, ◌⊎◌, ◌≢◌, true, false, none, some, refl, arith, ◌==◌, if◌then◌else◌,
}
use aj.Heap64.{Heap, heap_vma, header, heap64_init, round_up, carve, first_fit, kmalloc64, kfree64}
use aj.Heap64.FirstFit.{live, fits}
use aj.Heap64.Release.{Without}
use aj.Heap64.Run.{Run, start, granted, Run-disjoint}
use aj.Heap64.Spec.{
  IsHeap, Granted, heap_end, heap64_init-IsHeap, kmalloc64-Granted, kfree64-Without,
  kfree64-kmalloc64, kmalloc64_wraps,
}

abbrev one_block : Heap
one_block = (kmalloc64 heap64_init 100).0

abbrev two_blocks : Heap
two_blocks = (kmalloc64 one_block 40).0

abbrev first_pointer : ℕ
first_pointer = heap_vma + 32

abbrev second_pointer : ℕ
second_pointer = heap_vma + 176

second_address : (kmalloc64 one_block 40).1 ≡ second_pointer
unfolding kmalloc64 first_fit carve heap64_init
second_address = refl

first_address : (kmalloc64 heap64_init 100).1 ≡ first_pointer
unfolding kmalloc64 first_fit carve heap64_init
first_address = refl

first_given : (kmalloc64 heap64_init 100).1 ≢ 0
first_given z = let e = first_address in omega (arith, z, e)

second_given : (kmalloc64 one_block 40).1 ≢ 0
second_given z = let e = second_address in omega (arith, z, e)

first_live : live two_blocks first_pointer ≡ some 112
unfolding live kmalloc64 first_fit carve heap64_init
first_live = refl

kmalloc64-Granted_example :
    IsHeap one_block
    × (((fits (round_up 100) heap64_init ≡ false) × (kmalloc64 heap64_init 100 ≡ (heap64_init, 0)))
        ⊎ ((fits (round_up 100) heap64_init ≡ true)
            × ((sz : ℕ) × (100 ≤ sz)
                × Granted heap64_init one_block (kmalloc64 heap64_init 100).1 sz)))
kmalloc64-Granted_example = kmalloc64-Granted heap64_init-IsHeap 100 (omega arith)

two_blocks-IsHeap : IsHeap two_blocks
two_blocks-IsHeap =
    (kmalloc64-Granted (kmalloc64-Granted heap64_init-IsHeap 100 (omega arith)).0 40
      (omega arith)).0

first_held : Run one_block (λ q. if q == (kmalloc64 heap64_init 100).1 then some 100 else none)
first_held = granted start 100 (omega arith) first_given

both_held : Run two_blocks (λ q.
    if q == (kmalloc64 one_block 40).1
    then some 40
    else if q == (kmalloc64 heap64_init 100).1
    then some 100
    else none)
both_held = granted first_held 40 (omega arith) second_given

Run-disjoint_example :
    (heap_vma + header ≤ first_pointer)
    × (first_pointer + 100 ≤ second_pointer)
    × (second_pointer + 40 ≤ heap_end)
Run-disjoint_example =
    Run-disjoint first_pointer second_pointer {n = 100} {m = 40} both_held
      (rw (first_address, second_address) refl) (rw (first_address, second_address) refl)
      (omega arith)

kfree64-Without_example :
    (h' : Heap) × (kfree64 two_blocks first_pointer ≡ some h')
    × IsHeap h'
    × Without first_pointer two_blocks h'
kfree64-Without_example = kfree64-Without two_blocks-IsHeap first_pointer 112 first_live

kfree64-kmalloc64_example :
    kfree64 (kmalloc64 two_blocks 64).0 (kmalloc64 two_blocks 64).1 ≡ some two_blocks
kfree64-kmalloc64_example = kfree64-kmalloc64 two_blocks-IsHeap 64

kmalloc64_wraps_example : kmalloc64 two_blocks (2 ^ 64 - 3) ≡ kmalloc64 two_blocks 0
kmalloc64_wraps_example = kmalloc64_wraps two_blocks (2 ^ 64 - 3) (omega arith) (omega arith)

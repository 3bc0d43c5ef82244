-- ===== src/Ring/Uninitialised.antt =====
-- RingBuffer.hpp as it is: its constructor leaves the member `Capacity` uninitialised.
use qt_chatting.Prelude.{
  ℕ, zero, suc, ◌+◌, ◌-◌, ◌%◌, ◌^◌, ◌<◌, bit_and, ◌≡◌, ◌≢◌, ◌∙◌, ap, true, false, none, some, List,
  [], ◌∷◌, arith, length, length-replicate, length-set, get_elem?, set, get_elem?-set_self,
  replicate, ◌==◌, ==_iff,
}
use qt_chatting.Ring.{
  Ring, mask, next_index, new, enqueue, dequeue, is_empty, empty_node, full_node,
}
use qt_chatting.Ring.Mask.{bit_and_low}
use qt_chatting.Ring.Queue.{Represents, get_elem?-lt, get_elem?-ge}
use qt_chatting.Ring.Runs.{Op, put, get, replies}

zeroed_next : (c t : ℕ) → c ≡ 0 → t < 2 ^ 63 → next_index c t ≡ t + 1
zeroed_next c t e h =
    let ones : mask c ≡ 2 ^ 64 - 1 = omega arith in
    ap (bit_and ((t + 1) % 2 ^ 64)) ones ∙ bit_and_low 64 ((t + 1) % 2 ^ 64) ∙ omega arith

module _ {ℓ} {T : Type ℓ} where
  buffer-new :
      (garbage n : ℕ) (r : Ring T) → new garbage n ≡ some r → r.buffer ≡ replicate n empty_node
  unfolding new
  buffer-new garbage n r e = ground arith

  -- Where the memory of the member Capacity held anything but the requested size, the new ring is
  -- not a well-formed empty ring.
  pub new-not_Represents :
      (garbage n : ℕ) (r : Ring T) → garbage ≢ n → new garbage n ≡ some r → ¬ Represents r []
  unfolding new
  new-not_Represents garbage n r differ e h =
      let sized = h.sized in
      ground (
        arith,
        ap {B = ℕ} length (buffer-new garbage n r e),
        length-replicate n (empty_node {T = T}),
      )

  -- `put` and `get` in turn, `n` times, and one more `put`.
  pub cycles : T → ℕ → List (Op T)
  cycles x zero = put x ∷ []
  cycles x (suc n) = put x ∷ get ∷ cycles x n

  -- A ring that hands an item out was not empty.
  pub is_empty-dequeue :
      (p q : Ring T) (x : T) → dequeue none p ≡ some (true, some x, q) → is_empty p ≡ false
  unfolding dequeue is_empty
  is_empty-dequeue p q x e = ground arith

  -- Zeroed memory gave the capacity 0; the ring is empty, and `k` places are left before the end.
  pub record IsZeroed (k : ℕ) (r : Ring T) : Type ℓ where
    pub zero_capacity : r.capacity ≡ 0
    pub none_held : r.head ≡ r.tail
    pub left : length r.buffer ≡ r.tail + k
    pub bounded : length r.buffer < 2 ^ 63

  pub zeroed_past_end : (x : T) (r : Ring T) → IsZeroed 0 r → enqueue (some x) r ≡ none
  unfolding enqueue
  zeroed_past_end x r z =
      let same = z.none_held in
      let l = z.left in
      let b = z.bounded in
      let next = zeroed_next r.capacity r.tail z.zero_capacity (omega arith) in
      let moved : (next_index r.capacity r.tail == r.head) ≡ false = ground arith in
      rw (moved, get_elem?-ge r.buffer r.tail (omega arith))

  -- One `put` and one `get` move both indices on by one.
  pub IsZeroed-cycle :
      (x : T) (k : ℕ) (r : Ring T)
      → IsZeroed (suc k) r
      → (p q : Ring T) × (enqueue (some x) r ≡ some (true, none, p))
        × (dequeue none p ≡ some (true, some x, q))
        × IsZeroed k q
  unfolding enqueue dequeue
  IsZeroed-cycle x k r z =
      let same = z.none_held in
      let l = z.left in
      let b = z.bounded in
      let cap = z.zero_capacity in
      let t = r.tail in
      let next = zeroed_next r.capacity t cap (omega arith) in
      let next_head : next_index r.capacity r.head ≡ t + 1 =
        zeroed_next r.capacity r.head cap (omega arith) ∙ omega arith in
      let moved : (next_index r.capacity t == r.head) ≡ false = ground arith in
      let held : (r.head == next_index r.capacity t) ≡ false = ground arith in
      let (slot, found) = get_elem?-lt r.buffer t (omega arith) in
      let written = set r.buffer t (full_node (some x)) in
      let there : get_elem? written r.head ≡ some (full_node (some x)) =
        rw same (get_elem?-set_self r.buffer t (full_node (some x)) (omega arith)) in
      (
        record r { buffer = written; tail = next_index r.capacity t },
        record {
          buffer = set written r.head empty_node;
          capacity = r.capacity;
          head = next_index r.capacity r.head;
          tail = next_index r.capacity t;
        },
        rw (moved, found),
        rw (held, there),
        record {
          zero_capacity = cap;
          none_held = next_head ∙ omega arith;
          left = ground (
            arith,
            length-set written r.head empty_node,
            length-set r.buffer t (full_node (some x)),
          );
          bounded = ground (
            arith,
            length-set written r.head empty_node,
            length-set r.buffer t (full_node (some x)),
          );
        },
      )

  pub IsZeroed-is_empty : (k : ℕ) (r : Ring T) → IsZeroed k r → is_empty r ≡ true
  unfolding is_empty
  IsZeroed-is_empty k r z = (==_iff r.head r.tail).1 z.none_held

  zeroed_cycles : (x : T) (k : ℕ) (r : Ring T) → IsZeroed k r → replies (cycles x k) r ≡ none
  unfolding replies cycles
  zeroed_cycles x zero r z = rw (zeroed_past_end x r z, replies)
  zeroed_cycles x (suc k) r z =
      let (p, q, puts, gets, z') = IsZeroed-cycle x k r z in
      rw (puts, replies, gets, zeroed_cycles x k q z')

  pub new-IsZeroed : (n : ℕ) (r : Ring T) → n < 2 ^ 63 → new 0 n ≡ some r → IsZeroed n r
  unfolding new
  new-IsZeroed n r small e =
      let b : length r.buffer ≡ n =
        ap length (buffer-new 0 n r e) ∙ length-replicate n empty_node in
      record {
        zero_capacity = ground arith;
        none_held = ground arith;
        left = ground arith;
        bounded = omega arith;
      }

  -- Where the memory of the member Capacity held zero and the size n is below 2 ^ 63, an enqueue
  -- and a dequeue in turn, n times, and one more enqueue leave the bounds of the buffer.
  pub new-zeroed_overrun :
      (n : ℕ) (r : Ring T) (x : T) → n < 2 ^ 63 → new 0 n ≡ some r → replies (cycles x n) r ≡ none
  new-zeroed_overrun n r x small e = zeroed_cycles x n r (new-IsZeroed n r small e)

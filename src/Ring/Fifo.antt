-- ===== src/Ring/Fifo.antt =====
-- Each operation of RingBuffer.hpp against a queue of at most Capacity - 1 items.
use native.Mathlib.Nat.{mod_self}
use qt_chatting.Prelude
use qt_chatting.Prelude.{
  ℕ, suc, ◌+◌, ◌-◌, ◌^◌, ◌<◌, ◌≡◌, refl, ap, ◌∙◌, ◌⊎◌, inl, inr, Bool, true, false, Option, none,
  some, List, [], ◌∷◌, ◌++◌, arith, length, replicate, length-append, length-replicate, length-set,
  ◌==◌, eq-cases, ltb, if◌then◌else◌, bit_and, ==_iff,
}
use qt_chatting.Ring.{
  Ring, Call, mask, empty_node, full_node, new, enqueue, dequeue, is_empty, next_index,
}
use qt_chatting.Ring.Mask.{wrap, next_index-wrap, bit_and_low, one-le-two-pow}
use qt_chatting.Ring.Queue.{Represents, get_elem?-lt, Filled-set, Filled-push}

-- What `enqueue` has to do with the item `x` on a ring that holds `xs`: take it in behind the
-- others, or, with Capacity - 1 items, refuse it and leave it and the ring as they are.
abbrev pub Enqueued {ℓ} : {T : Type ℓ} → Ring T → List T → T → Call T → Type ℓ
Enqueued {T} r xs x out =
    ((length xs + 1 < r.capacity)
      × (q : Ring T) × (out ≡ some (true, none, q))
      × Represents q (xs ++ x ∷ [])
      × (q.capacity ≡ r.capacity))
    ⊎ ((length xs + 1 ≡ r.capacity) × (out ≡ some (false, some x, r)))

-- What `dequeue` has to do: hand out the oldest item, or fail on an empty ring.
abbrev pub Dequeued {ℓ} : {T : Type ℓ} → Ring T → List T → Call T → Type ℓ
Dequeued r [] out = out ≡ some (false, none, r)
Dequeued {T} r (x ∷ xs) out =
    (q : Ring T) × (out ≡ some (true, some x, q)) × Represents q xs × (q.capacity ≡ r.capacity)

module _ {ℓ} {T : Type ℓ} where
  -- On a well-formed ring enqueue takes an item in behind the others where fewer than capacity - 1
  -- are held, and otherwise returns false with the item and the ring as they were.
  pub enqueue_lem :
      (r : Ring T) (xs : List T) (x : T) → Represents r xs → Enqueued r xs x (enqueue (some x) r)
  unfolding enqueue
  enqueue_lem r xs x h =
      let c = r.capacity in
      let hi = h.head_in in
      let sz = h.sized in
      let rm = h.room in
      let at : r.tail ≡ wrap c (r.head + length xs) = h.tail_at in
      let inside : r.tail < c = ground arith in
      let (slot, found) = get_elem?-lt r.buffer r.tail (omega arith) in
      let next : next_index c r.tail ≡ wrap c (r.tail + 1) =
        next_index-wrap h.power c r.tail h.power_of_two h.in_word inside in
      elim (eq-cases (next_index c r.tail) r.head) [
        | inl (same, t) ↦ inr (ground arith, rw t)
        | inr (differ, t) ↦ inl (
          ground arith,
          record r {
            buffer = Prelude.set r.buffer r.tail (full_node (some x));
            tail = next_index c r.tail;
          },
          rw (t, found),
          record {
            power = h.power;
            power_of_two = h.power_of_two;
            in_word = h.in_word;
            sized = length-set r.buffer r.tail (full_node (some x)) ∙ sz;
            head_in = hi;
            room = ground (arith, length-append xs (x ∷ []));
            tail_at = ground (arith, length-append xs (x ∷ []));
            filled = rw at (Filled-push r.buffer c r.head x xs hi rm (omega arith) h.filled);
          },
          refl,
        )
      ]

  -- On a well-formed ring dequeue into a null pointer hands out the oldest item and leaves the
  -- others in order, and on an empty ring returns false and changes nothing.
  pub dequeue_lem : (r : Ring T) (xs : List T) → Represents r xs → Dequeued r xs (dequeue none r)
  unfolding dequeue
  dequeue_lem r [] h = let hi = h.head_in in let at = h.tail_at in ground arith
  dequeue_lem r (x ∷ xs) h =
      let c = r.capacity in
      let hi = h.head_in in
      let rm = h.room in
      let at : r.tail ≡ wrap c (r.head + suc (length xs)) = h.tail_at in
      let (first, others) = h.filled in
      let next : next_index c r.head ≡ wrap c (r.head + 1) =
        next_index-wrap h.power c r.head h.power_of_two h.in_word hi in
      let busy : (r.head == r.tail) ≡ false = ground arith in
      (
        record r { buffer = Prelude.set r.buffer r.head empty_node; head = next_index c r.head },
        rw (busy, first),
        record {
          power = h.power;
          power_of_two = h.power_of_two;
          in_word = h.in_word;
          sized = length-set r.buffer r.head empty_node ∙ h.sized;
          head_in = ground arith;
          room = omega arith;
          tail_at = ground arith;
          filled = rw next (
              Filled-set r.buffer c (wrap c (r.head + 1)) r.head empty_node xs (ground arith) hi
                (ground arith) others);
        },
        refl,
      )

  -- On a well-formed ring isEmpty tells whether the number of items held is zero.
  pub is_empty_lem : (r : Ring T) (xs : List T) → Represents r xs → is_empty r ≡ (length xs == 0)
  unfolding is_empty
  is_empty_lem r xs h = let hi = h.head_in in let rm = h.room in let at = h.tail_at in ground arith

  -- Where the member Capacity holds the requested size, a power of two below 2 ^ 64, the
  -- constructor's assertion holds and the new ring is well formed and empty.
  pub new-Represents :
      (k n : ℕ)
      → n ≡ 2 ^ k
      → n < 2 ^ 64
      → (r : Ring T) × (new n n ≡ some r) × Represents r [] × (r.capacity ≡ n)
  unfolding new
  new-Represents k n e small =
      let shrunk : mask n ≡ 2 ^ k - 1 = omega (arith, one-le-two-pow k) in
      let low : bit_and n (mask n) ≡ 0 =
        ap (bit_and n) shrunk ∙ bit_and_low k n ∙ rw (← e) (mod_self n) in
      let passes : (bit_and n (mask n) == 0) ≡ true = (==_iff _ _).1 low in
      (
        record { buffer = replicate n empty_node; capacity = n; head = 0; tail = 0 },
        rw passes,
        record {
          power = k;
          power_of_two = e;
          in_word = small;
          sized = length-replicate n empty_node;
          head_in = omega (arith, one-le-two-pow k);
          room = omega (arith, one-le-two-pow k);
          tail_at = ground (arith, one-le-two-pow k);
          filled = tt;
        },
        refl,
      )

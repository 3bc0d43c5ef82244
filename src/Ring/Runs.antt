-- ===== src/Ring/Runs.antt =====
-- Any sequence of calls on the ring of RingBuffer.hpp, against a bounded queue.
use qt_chatting.Prelude.{
  ℕ, ◌+◌, ◌≡◌, refl, inl, inr, Bool, true, false, Option, none, some, List, [], ◌∷◌, ◌++◌, arith,
  length, ltb, if◌then◌else◌, ◌∙◌,
}
use qt_chatting.Ring.{Ring, Call, enqueue, dequeue}
use qt_chatting.Ring.Queue.{Represents}
use qt_chatting.Ring.Fifo.{enqueue_lem, dequeue_lem}

pub data Op {ℓ} (T : Type ℓ) : Type ℓ where
  put : T → Op T
  get : Op T

-- What the caller of one call sees: its result and its argument afterwards.
abbrev pub Reply {ℓ} : Type ℓ → Type ℓ
Reply T = Bool × Option T

module _ {ℓ} {T : Type ℓ} where
  abbrev pub perform : Op T → Ring T → Call T
  perform (put x) r = enqueue (some x) r
  perform get r = dequeue none r

  abbrev cons_reply : Bool → Option T → Option (List (Reply T)) → Option (List (Reply T))
  cons_reply b d none = none
  cons_reply b d (some rs) = some ((b, d) ∷ rs)

  -- The replies of the ring; `none` if a call leaves the buffer's bounds.
  unfoldable pub replies : List (Op T) → Ring T → Option (List (Reply T))
  replies [] r = some []
  replies (op ∷ ops) r = elim (perform op r) [
    | none ↦ none
    | some (b, d, q) ↦ cons_reply b d (replies ops q)
  ]

  -- The replies of a queue with room for `n` items.
  pub expected : ℕ → List (Op T) → List T → List (Reply T)
  expected n [] xs = []
  expected n (put x ∷ ops) xs =
      if ltb (length xs) n
      then (true, none) ∷ expected n ops (xs ++ x ∷ [])
      else (false, some x) ∷ expected n ops xs
  expected n (get ∷ ops) [] = (false, none) ∷ expected n ops []
  expected n (get ∷ ops) (x ∷ xs) = (true, some x) ∷ expected n ops xs

  -- On a well-formed ring of capacity n + 1 every sequence of calls of enqueue and dequeue stays
  -- inside the buffer and gets the replies that a first-in first-out queue of at most n items
  -- gives.
  pub replies-eq-expected :
      (ops : List (Op T)) (n : ℕ) (r : Ring T) (xs : List T)
      → Represents r xs
      → r.capacity ≡ n + 1
      → replies ops r ≡ some (expected n ops xs)
  unfolding replies expected
  replies-eq-expected [] n r xs h e = refl
  replies-eq-expected (put x ∷ ops) n r xs h e = elim (enqueue_lem r xs x h) [
    | inl (fits, q, out, h', c) ↦
        let below : ltb (length xs) n ≡ true = ground arith in
        let ih = replies-eq-expected ops n q (xs ++ x ∷ []) h' (c ∙ e) in
        rw (out, replies, ih, below)
    | inr (full, out) ↦
        let above : ltb (length xs) n ≡ false = ground arith in
        let ih = replies-eq-expected ops n r xs h e in rw (out, replies, ih, above)
  ]
  replies-eq-expected (get ∷ ops) n r [] h e =
      rw (dequeue_lem r [] h, replies, replies-eq-expected ops n r [] h e)
  replies-eq-expected (get ∷ ops) n r (x ∷ xs) h e =
      let (q, out, h', c) = dequeue_lem r (x ∷ xs) h in
      rw (out, replies, replies-eq-expected ops n q xs h' (c ∙ e))

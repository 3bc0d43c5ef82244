-- ===== src/Ring/Queue.antt =====
-- The ring buffer of RingBuffer.hpp as a bounded first-in first-out queue.
use qt_chatting.Prelude.{
  ℕ, suc, ◌+◌, ◌^◌, ◌≤◌, ◌<◌, ◌≡◌, refl, ◌⊎◌, none, some, List, [], ◌∷◌, ◌++◌, arith, ◌∙◌, length,
  get_elem?, set, get_elem?-set_self, get_elem?-set_ne,
}
use qt_chatting.Ring.{Node, Ring, full_node}
use qt_chatting.Ring.Mask.{wrap}

module _ {ℓ} {T : Type ℓ} where
  -- From place `i` on, round the ring, stand the items of the list.
  abbrev pub Filled : List (Node T) → ℕ → ℕ → List T → Type ℓ
  Filled buffer c i [] = Unit
  Filled buffer c i (x ∷ xs) =
      (get_elem? buffer i ≡ some (full_node (some x))) × Filled buffer c (wrap c (i + 1)) xs

  -- A ring that is well formed, and the items that it holds, oldest first.
  pub record Represents (r : Ring T) (xs : List T) : Type ℓ where
    pub power : ℕ
    pub power_of_two : r.capacity ≡ 2 ^ power
    pub in_word : r.capacity < 2 ^ 64
    pub sized : length r.buffer ≡ r.capacity
    pub head_in : r.head < r.capacity
    pub room : length xs < r.capacity
    pub tail_at : r.tail ≡ wrap r.capacity (r.head + length xs)
    pub filled : Filled r.buffer r.capacity r.head xs

module _ {ℓ} {T : Type ℓ} where
  pub get_elem?-lt : (xs : List T) (i : ℕ) → i < length xs → (x : T) × (get_elem? xs i ≡ some x)
  get_elem?-lt [] i h = absurd (omega arith)
  get_elem?-lt (x ∷ xs) ℕ.zero h = (x, refl)
  get_elem?-lt (x ∷ xs) (suc i) h = get_elem?-lt xs i (omega arith)

  pub get_elem?-ge : (xs : List T) (i : ℕ) → length xs ≤ i → get_elem? xs i ≡ none
  get_elem?-ge [] i h = refl
  get_elem?-ge (x ∷ xs) ℕ.zero h = absurd (omega arith)
  get_elem?-ge (x ∷ xs) (suc i) h = get_elem?-ge xs i (omega arith)

  -- A write at a place that the items leave free, and the item written there.
  pub Filled-set :
      (buffer : List (Node T)) (c i j : ℕ) (n : Node T) (xs : List T)
      → i < c
      → j < c
      → ((j < i) × (i + length xs ≤ j + c)) ⊎ (i + length xs ≤ j)
      → Filled buffer c i xs
      → Filled (set buffer j n) c i xs
  Filled-set buffer c i j n [] hi hj free f = tt
  Filled-set buffer c i j n (x ∷ xs) hi hj free (f, fs) = (
    get_elem?-set_ne buffer j i n (ground arith) ∙ f,
    Filled-set buffer c (wrap c (i + 1)) j n xs (ground arith) hj (ground arith) fs,
  )

  pub Filled-push :
      (buffer : List (Node T)) (c i : ℕ) (x : T) (xs : List T)
      → i < c
      → length xs < c
      → c ≡ length buffer
      → Filled buffer c i xs
      → Filled (set buffer (wrap c (i + length xs)) (full_node (some x))) c i (xs ++ x ∷ [])
  Filled-push buffer c i x [] hi h sized f =
      let here : wrap c (i + 0) ≡ i = ground arith in
      (rw here (get_elem?-set_self buffer i (full_node (some x)) (omega arith)), tt)
  Filled-push buffer c i x (y ∷ xs) hi h sized (f, fs) =
      let j = wrap c (i + suc (length xs)) in
      let same : wrap c (wrap c (i + 1) + length xs) ≡ j = ground arith in
      (
        get_elem?-set_ne buffer j i (full_node (some x)) (ground arith) ∙ f,
        rw same at
            (Filled-push buffer c (wrap c (i + 1)) x xs (ground arith) (omega arith) sized fs),
      )

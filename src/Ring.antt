-- ===== src/Ring.antt =====
-- server/gate_server/include/RingBuffer.hpp, called by one thread at a time (RpcConnectionPool calls
-- it under its mutex): then each compare-exchange succeeds at once, and a call is one step.
pub mod Mask
pub mod Queue
pub mod Fifo
pub mod Runs
pub mod Uninitialised
use qt_chatting.Prelude.{
  ℕ, ◌+◌, ◌-◌, ◌%◌, ◌^◌, bit_and, Bool, true, false, Option, none, some, List, ◌==◌, if◌then◌else◌,
  get_elem?, set, replicate,
}

pub record Node {ℓ} (T : Type ℓ) : Type ℓ where
  pub payload : Option T
  pub flag : Bool

pub record Ring {ℓ} (T : Type ℓ) : Type ℓ where
  pub buffer : List (Node T)
  pub capacity : ℕ
  pub head : ℕ
  pub tail : ℕ

-- capacity - 1, in size_t
abbrev pub mask : ℕ → ℕ
mask c = (c + 2 ^ 64 - 1) % 2 ^ 64

-- (i + 1) & (Capacity - 1)
abbrev pub next_index : ℕ → ℕ → ℕ
next_index c i = bit_and ((i + 1) % 2 ^ 64) (mask c)

-- What a call leaves: its result, the argument after it, and the ring. `none` stands for an
-- access of `buffer_` out of bounds.
abbrev pub Call {ℓ} : Type ℓ → Type ℓ
Call T = Option (Bool × Option T × Ring T)

module _ {ℓ} {T : Type ℓ} where
  abbrev pub empty_node : Node T
  empty_node = record { payload = none; flag = false }

  abbrev pub full_node : Option T → Node T
  full_node d = record { payload = d; flag = true }

  -- The constructor's parameter hides the member `Capacity`, so the member keeps the
  -- indeterminate value `garbage` that its memory held. `none` is the failed assertion.
  unfoldable pub new : ℕ → ℕ → Option (Ring T)
  new garbage n =
      if bit_and n (mask n) == 0
      then some (record { buffer = replicate n empty_node; capacity = garbage; head = 0; tail = 0 })
      else none

  store_at : Option T → Ring T → ℕ → Option (Node T) → Call T
  store_at d r next none = none
  store_at d r next (some slot) =
      some (true, none, record r { buffer = set r.buffer r.tail (full_node d); tail = next })

  unfoldable pub enqueue : Option T → Ring T → Call T
  unfolding store_at
  enqueue d r =
      let next = next_index r.capacity r.tail in
      if next == r.head then some (false, d, r) else store_at d r next (get_elem? r.buffer r.tail)

  take_from : Ring T → Option (Node T) → Call T
  take_from r none = none
  take_from r (some slot) =
      if slot.flag
      then some (
        true,
        slot.payload,
        record r { buffer = set r.buffer r.head empty_node; head = next_index r.capacity r.head },
      )
      else some (false, none, r)

  unfoldable pub dequeue : Option T → Ring T → Call T
  unfolding take_from
  dequeue (some d) r = some (false, some d, r)
  dequeue none r =
      if r.head == r.tail then some (false, none, r) else take_from r (get_elem? r.buffer r.head)

  unfoldable pub is_empty : Ring T → Bool
  is_empty r = r.head == r.tail

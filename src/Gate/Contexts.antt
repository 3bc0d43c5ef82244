-- ===== src/Gate/Contexts.antt =====
-- server/gate_server/src/IOcontextPool.cpp: the I/O contexts are handed out in turn. A context is its
-- index in `contexts_`; the threads that run them are Boost.Asio's.
pub mod Threads
use qt_chatting.Prelude.{
  ℕ, zero, suc, ◌+◌, ◌%◌, ◌<◌, ◌≡◌, refl, ◌∙◌, ap, Option, none, some, ltb, if◌then◌else◌, iterate,
  arith,
}

pub record IOcontextPool : Type 0 where
  pub size : ℕ
  pub next_iocontext : ℕ

-- The index handed out is `none` where `contexts_[current]` is out of bounds.
pub get_iocontext : IOcontextPool → Option ℕ × IOcontextPool
get_iocontext p =
    let current = p.next_iocontext in
    (
      if ltb current p.size then some current else none,
      record p { next_iocontext = if ltb current 4 then current + 1 else 0 },
    )

-- The pool when one more call has been made.
pub after_one : IOcontextPool → IOcontextPool
unfolding get_iocontext
after_one p = (get_iocontext p).1

pub after_one-get : (p : IOcontextPool) → (get_iocontext p).1 ≡ after_one p
unfolding after_one
after_one-get p = refl

iterate-after_one :
    (k size i : ℕ)
    → i < 5
    → iterate after_one k (record { size = size; next_iocontext = i })
      ≡ record { size = size; next_iocontext = (i + k) % 5 }
unfolding after_one get_iocontext
iterate-after_one zero size i h =
    ap (λ (j : ℕ). record { size = size; next_iocontext = j }) (omega arith)
iterate-after_one (suc k) size i h =
    let j = if ltb i 4 then i + 1 else 0 in
    let inside : j < 5 = ground arith in
    let same : (j + k) % 5 ≡ (i + suc k) % 5 = ground arith in
    iterate-after_one k size j inside
    ∙ ap (λ (j : ℕ). record { size = size; next_iocontext = j }) same

-- After k calls on a new pool, the next call of getIOcontext hands out the context at k modulo 5,
-- where that is below the size of the pool, and is out of bounds otherwise.
pub get_iocontext-iterate :
    (k size : ℕ)
    → (get_iocontext (iterate after_one k (record { size = size; next_iocontext = 0 }))).0
      ≡ (if ltb (k % 5) size then some (k % 5) else none)
unfolding get_iocontext
get_iocontext-iterate k size =
    let from_zero : (0 + k) % 5 ≡ k % 5 = omega arith in
    rw (iterate-after_one k size 0 (omega arith), from_zero)

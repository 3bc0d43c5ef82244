-- ===== src/Gate/Contexts/Threads.antt =====
-- server/gate_server/src/IOcontextPool.cpp: the constructor and `stop`, on the state of each context,
-- its work guard and its thread.
use qt_chatting.Prelude.{
  ℕ, zero, suc, ◌<◌, ◌≡◌, refl, arith, Bool, true, false, List, [], ◌∷◌, Exec, Outcome, returned,
  threw, replicate, map,
}

-- Per context: does its work guard hold it, is it stopped, and can its thread be joined.
pub record Threads : Type 0 where
  pub works : List Bool
  pub stopped : List Bool
  pub joinable : List Bool

-- The constructor.
pub new_threads : ℕ → Threads
new_threads size = record {
  works = replicate size true;
  stopped = replicate size false;
  joinable = replicate size true;
}

-- thread.join() throws where the thread cannot be joined; the others are then not reached.
join_next : Outcome (Unit {0}) × List Bool → Outcome (Unit {0}) × List Bool
join_next (r, ts) = (r, false ∷ ts)

pub join_all : List Bool → Outcome (Unit {0}) × List Bool
unfolding join_next
join_all [] = (returned tt, [])
join_all (true ∷ ts) = join_next (join_all ts)
join_all (false ∷ ts) = (threw "Invalid argument", false ∷ ts)

pub stop : Exec Threads (Unit {0})
unfolding join_all
stop t =
    let (r, ts) = join_all t.joinable in
    (
      r,
      record {
        works = map (λ b. false) t.works;
        stopped = map (λ b. true) t.stopped;
        joinable = ts;
      },
    )

map-replicate : (b c : Bool) (n : ℕ) → map (λ x. c) (replicate n b) ≡ replicate n c
map-replicate b c zero = refl
map-replicate b c (suc n) = rw (map-replicate b c n) refl

join_all-replicate : (n : ℕ) → join_all (replicate n true) ≡ (returned tt, replicate n false)
unfolding join_all join_next
join_all-replicate zero = refl
join_all-replicate (suc n) = rw (join_all-replicate n) refl

-- What is left when all contexts are stopped.
abbrev pub all_stopped : ℕ → Threads
all_stopped size = record {
  works = replicate size false;
  stopped = replicate size true;
  joinable = replicate size false;
}

pub stop-stops : (size : ℕ) → stop (new_threads size) ≡ (returned tt, all_stopped size)
unfolding stop new_threads
stop-stops size =
    rw (join_all-replicate size, map-replicate true false size, map-replicate false true size) refl

again :
    (size : ℕ) → stop (all_stopped (suc size)) ≡ (threw "Invalid argument", all_stopped (suc size))
unfolding stop join_all
again size = rw (map-replicate false false size, map-replicate true true size) refl

-- On a new pool of one or more contexts stop returns, with every work guard reset, every context
-- stopped and every thread joined, and when it is called again, as the destructor does, it throws.
pub stop-again :
    (size : ℕ)
    → 0 < size
    → (stop (new_threads size) ≡ (returned tt, all_stopped size))
      × (stop (all_stopped size) ≡ (threw "Invalid argument", all_stopped size))
stop-again zero more = let none_left : 0 < 0 = more in ground arith
stop-again (suc size) more = (stop-stops (suc size), again size)

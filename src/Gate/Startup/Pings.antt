-- ===== src/Gate/Startup/Pings.antt =====
-- tryConnectRedis: how often Redis is asked, and what is answered.
use qt_chatting.Prelude.{
  ℕ, zero, suc, ◌<◌, ◌≡◌, refl, ◌⊎◌, inl, inr, arith, Bool, true, false, String, Outcome, returned,
  threw, IsOver, iterate, subst,
}
use qt_chatting.Gate.Outside.{Outside, Gate}
use qt_chatting.Gate.Logic.{ping_loop, try_connect_redis}

module _ (o : Outside) where
  abbrev pub pinged : o.World → o.World
  pinged w = (o.redis.ping w).1

  abbrev pub Fails : o.World → ℕ → Type 0
  Fails w j = (e : String) × ((o.redis.ping (iterate pinged j w)).0 ≡ threw e)

  -- One of n pings returns, the first after k that throw; or all n throw.
  abbrev pub Pings : ℕ → Gate o → Outcome Bool × Gate o → Type 0
  Pings n g out =
      ((k : ℕ) × (k < n)
        × ((j : ℕ) → j < k → Fails g.world j)
        × ((o.redis.ping (iterate pinged k g.world)).0 ≡ returned tt)
        × (out ≡ (returned true, record g { world = iterate pinged (suc k) g.world })))
      ⊎ (((j : ℕ) → j < n → Fails g.world j)
          × (out ≡ (returned false, record g { world = iterate pinged n g.world })))

  abbrev next_gate : Gate o → Gate o
  next_gate g = record g { world = pinged g.world }

  all_fail :
      (n : ℕ) (w : o.World) (s : String)
      → (o.redis.ping w).0 ≡ threw s
      → ((j : ℕ) → j < n → Fails (pinged w) j)
      → (j : ℕ) → j < suc n
      → Fails w j
  all_fail n w s e f zero h = (s, e)
  all_fail n w s e f (suc j) h = f j (omega arith)

  asked_again :
      (n : ℕ) (g : Gate o) (s : String)
      → (o.redis.ping g.world).0 ≡ threw s
      → (out : Outcome Bool × Gate o) → Pings n (next_gate g) out
      → Pings (suc n) g out
  asked_again n g s e out (inl (k, below, before, answers, same)) =
      inl (suc k, omega arith, all_fail k g.world s e before, answers, same)
  asked_again n g s e out (inr (before, same)) = inr (all_fail n g.world s e before, same)

  ping_loop-Pings :
      ((w : o.World) → IsOver (o.redis.ping w).0)
      → (n : ℕ) (g : Gate o) → Pings n g (ping_loop o n g)
  unfolding ping_loop
  ping_loop-Pings over zero g = inr (λ j h. let none_left : j < 0 = h in ground arith, refl)
  ping_loop-Pings over (suc n) g =
      elim (o.redis.ping g.world).0
          as (λ r. (o.redis.ping g.world).0 ≡ r → Pings (suc n) g (ping_loop o (suc n) g)) [
            | returned u ↦ λ e.
                inl (0, omega arith, λ j h. let none_left : j < 0 = h in ground arith, e, rw e refl)
            | threw s ↦ λ e. rw e (asked_again n g s e _ (ping_loop-Pings over n (next_gate g)))
            | Outcome.blocked ↦ λ e. elim (subst IsOver e (over g.world)) [ ]
            | Outcome.undefined ↦ λ e. elim (subst IsOver e (over g.world)) [ ]
          ]
        refl

  -- Where every ping returns or throws, tryConnectRedis pings Redis until a ping returns, five
  -- times at most, and tells whether one did.
  pub try_connect_redis-Pings :
      ((w : o.World) → IsOver (o.redis.ping w).0) → (g : Gate o) → Pings 5 g (try_connect_redis o g)
  unfolding try_connect_redis
  try_connect_redis-Pings over g = ping_loop-Pings over 5 g

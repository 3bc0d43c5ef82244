-- ===== src/Client/Countdown.antt =====
-- The minute in which a widget's send button is locked, for any widget whose every second is a
-- step of the countdown.
use qt_chatting.Prelude.{ℕ, zero, suc, ◌+◌, ◌≤◌, ◌≡◌, arith, pos, true, false, iterate, subst}
use qt_chatting.Client.Qt.{Panel}

-- The timer runs with n seconds to go, and the send button is locked.
pub record Counting (n : ℕ) (p : Panel) : Type 0 where
  pub left : p.remain_time ≡ pos n
  pub runs : p.timer_runs ≡ true
  pub locked : p.send_enabled ≡ false

pub record Stopped (p : Panel) : Type 0 where
  pub stands : p.timer_runs ≡ false
  pub unlocked : p.send_enabled ≡ true

module _ {W : Type 0} (panel : W → Panel) (second : W → W)
    (second-Counting : (n : ℕ) (w : W)
      → Counting (suc (suc n)) (panel w)
      → Counting (suc n) (panel (second w)))
    (second-last : (w : W) → Counting 1 (panel w) → Stopped (panel (second w)))
    (second-Stopped : (w : W) → Stopped (panel w) → Stopped (panel (second w))) where
  pub iterate-Stopped : (k : ℕ) (w : W) → Stopped (panel w) → Stopped (panel (iterate second k w))
  iterate-Stopped zero w h = h
  iterate-Stopped (suc k) w h = iterate-Stopped k (second w) (second-Stopped w h)

  pub iterate-Counting :
      (k n m : ℕ) (w : W)
      → m ≡ suc n + k
      → Counting m (panel w)
      → Counting (suc n) (panel (iterate second k w))
  iterate-Counting zero n m w e h = subst (λ j. Counting j (panel w)) (omega arith) h
  iterate-Counting (suc k) n m w e h =
      let more : m ≡ suc (suc (n + k)) = omega arith in
      iterate-Counting k n (suc (n + k)) (second w) (omega arith)
        (second-Counting (n + k) w (subst (λ j. Counting j (panel w)) more h))

  pub iterate-over :
      (n k m : ℕ) (w : W)
      → m ≡ suc n + k
      → Counting (suc n) (panel w)
      → Stopped (panel (iterate second m w))
  iterate-over n k zero w e h = let none_left : 1 ≤ 0 = omega arith in ground arith
  iterate-over zero k (suc m) w e h = iterate-Stopped m (second w) (second-last w h)
  iterate-over (suc n) k (suc m) w e h =
      iterate-over n k m (second w) (omega arith) (second-Counting n w h)

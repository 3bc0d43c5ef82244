-- ===== src/Client/Events.antt =====
-- The event loop of a widget with a form, a send button, a confirm button and a countdown, as
-- RegisterWidget::bind and ResetWidget::bind connect them to the slots.
use qt_chatting.Prelude.{
  ℕ, suc, ◌-◌, ◌<◌, ◌≤◌, ◌≡◌, arith, ◌⊎◌, inl, inr, ℤ, pos, String, Bool, true, false, Bool-cases,
  Option, none, some, List, [], ◌∷◌, if◌then◌else◌, iterate,
}
use qt_chatting.Client.Qt.{ReqId, id_get_varify_code, ClientErrorCode, Panel, Post}
use qt_chatting.Client.Countdown.{Counting, Stopped, iterate-Stopped, iterate-over}

-- The user types into the form or clicks a button, HttpMgr signals a reply, a second passes.
pub data Event (Form : Type 0) : Type 0 where
  typed : Form → Event Form
  send_clicked confirm_clicked second_passed : Event Form
  finished : ReqId → String → ClientErrorCode → Event Form

-- A widget: its panel and its slots. The slot on a reply is `none` where it throws.
pub record Widget (W Form : Type 0) : Type 0 where
  pub panel : W → Panel
  pub fill : Form → W → W
  pub send : W → W
  pub confirm : W → W
  pub finish : ReqId → String → ClientErrorCode → W → Option W
  pub second : W → W

module _ {W Form : Type 0} (x : Widget W Form) where
  -- A button that is disabled does not emit `clicked`.
  unfoldable pub happen : Event Form → W → Option W
  happen (typed f) w = some (x.fill f w)
  happen send_clicked w = some (if (x.panel w).send_enabled then x.send w else w)
  happen confirm_clicked w = some (if (x.panel w).confirm_enabled then x.confirm w else w)
  happen second_passed w = some (x.second w)
  happen (finished id res err) w = x.finish id res err w

  unfoldable pub run_next : (W → Option W) → Option W → Option W
  run_next f none = none
  run_next f (some w) = f w

  unfoldable pub run : List (Event Form) → W → Option W
  unfolding happen run_next
  run [] w = some w
  run (e ∷ es) w = run_next (run es) (happen e w)

-- The timer stands and the send button can be pressed, or it runs, at most a minute is left, and
-- the button is locked.
abbrev pub Clock : ℤ → Bool → Bool → Type 0
Clock left runs enabled =
    ((runs ≡ false) × (enabled ≡ true))
    ⊎ ((n : ℕ) × (left ≡ pos (suc n)) × (runs ≡ true) × (enabled ≡ false) × (n < 60))

-- Requests for a code only.
abbrev pub Asks : List Post → Type 0
Asks [] = Unit
Asks (r ∷ rs) = (r.req_id ≡ id_get_varify_code) × Asks rs

-- The clock is right, and while the confirm button is disabled, only codes have been asked for.
abbrev pub IsSound : Panel → Type 0
IsSound p =
    Clock p.remain_time p.timer_runs p.send_enabled × (p.confirm_enabled ≡ false → Asks p.posted)

abbrev pub If : {W : Type 0} → (W → Type 0) → Option W → Type 0
If P none = Unit
If P (some w) = P w

abbrev pub IsSoundIf : {W : Type 0} → (W → Panel) → Option W → Type 0
IsSoundIf panel = If (λ w. IsSound (panel w))

pub record Keeps (W Form : Type 0) (x : Widget W Form) : Type 0 where
  pub fill_keeps : (f : Form) (w : W) → IsSound (x.panel w) → IsSound (x.panel (x.fill f w))
  pub send_keeps : (w : W) → IsSound (x.panel w) → IsSound (x.panel (x.send w))
  pub confirm_keeps :
      (w : W)
      → (x.panel w).confirm_enabled ≡ true
      → IsSound (x.panel w)
      → IsSound (x.panel (x.confirm w))
  pub finish_keeps :
      (id : ReqId) (res : String) (err : ClientErrorCode) (w : W)
      → IsSound (x.panel w)
      → IsSoundIf x.panel (x.finish id res err w)
  pub second_keeps : (w : W) → IsSound (x.panel w) → IsSound (x.panel (x.second w))

module _ {W Form : Type 0} (x : Widget W Form) (k : Keeps W Form x) where
  pub happen-IsSound :
      (e : Event Form) (w : W) → IsSound (x.panel w) → IsSoundIf x.panel (happen x e w)
  unfolding happen
  happen-IsSound (typed f) w h = k.fill_keeps f w h
  happen-IsSound send_clicked w h = elim (Bool-cases (x.panel w).send_enabled) [
    | inl t ↦ rw t (k.send_keeps w h)
    | inr t ↦ rw t h
  ]
  happen-IsSound confirm_clicked w h = elim (Bool-cases (x.panel w).confirm_enabled) [
    | inl t ↦ rw t (k.confirm_keeps w t h)
    | inr t ↦ rw t h
  ]
  happen-IsSound second_passed w h = k.second_keeps w h
  happen-IsSound (finished id res err) w h = k.finish_keeps id res err w h

  run_next-IsSound :
      (f : W → Option W)
      → ((w : W) → IsSound (x.panel w) → IsSoundIf x.panel (f w))
      → (o : Option W) → IsSoundIf x.panel o
      → IsSoundIf x.panel (run_next x f o)
  unfolding run_next
  run_next-IsSound f k none h = tt
  run_next-IsSound f k (some w) h = k w h

  pub run-IsSound :
      (es : List (Event Form)) (w : W) → IsSound (x.panel w) → IsSoundIf x.panel (run x es w)
  unfolding run
  run-IsSound [] w h = h
  run-IsSound (e ∷ es) w h =
      run_next-IsSound (run x es) (run-IsSound es) (happen x e w) (happen-IsSound e w h)

  module _
      (second-Counting : (n : ℕ) (w : W)
        → Counting (suc (suc n)) (x.panel w)
        → Counting (suc n) (x.panel (x.second w)))
      (second-last : (w : W) → Counting 1 (x.panel w) → Stopped (x.panel (x.second w)))
      (second-Stopped : (w : W) → Stopped (x.panel w) → Stopped (x.panel (x.second w))) where
    pub minute-Stopped :
        (k : ℕ) (w : W) → 60 ≤ k → IsSound (x.panel w) → Stopped (x.panel (iterate x.second k w))
    minute-Stopped k w late h = elim h.0 [
      | inl s ↦
          iterate-Stopped x.panel x.second second-Counting second-last second-Stopped k w
            (record { stands = s.0; unlocked = s.1 })
      | inr s ↦
          let below = s.4 in
          iterate-over x.panel x.second second-Counting second-last second-Stopped s.0 (k - suc s.0)
            k w (omega arith) (record { left = s.1; runs = s.2; locked = s.3 })
    ]

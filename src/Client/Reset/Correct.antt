-- ===== src/Client/Reset/Correct.antt =====
-- What the slots of the window for a new password do.
use Prim.Native.String
use qt_chatting.Prelude.{
  ℕ, suc, ◌+◌, ◌-◌, ◌≤◌, ◌≡◌, refl, ◌⊎◌, inl, inr, true, false, String, str_eq, Bool-cases,
  str_differ, eq_iff, ◌≢◌, iterate, [], ◌∷◌, pos, arith, int_eq, not, ◌||◌, ltb,
}
use qt_chatting.Protocol.{resetpwd_mod}
use qt_chatting.Client.Qt.{Qt, Post, id_reset_pwd}
use qt_chatting.Client.Countdown.{Counting, Stopped, iterate-Counting, iterate-over}
use qt_chatting.Client.Reset.{ResetWidget, slot_confirm, on_code_sent, second, slot_update_button}

-- A form that may be sent: an address of the right shape, a code, and a password of 8 to 16
-- characters.
abbrev pub Complete : Qt → ResetWidget → Type 0
Complete q w =
    (w.email ≢ "")
    × (w.code ≢ "")
    × (q.matches_email w.email ≡ true)
    × (8 ≤ q.length w.pwd)
    × (q.length w.pwd ≤ 16)

abbrev pub reset_post : String → ResetWidget → Post
reset_post prefix w = record {
  url = String.◌++◌ prefix "/reset_passwd";
  json = ("email", w.email) ∷ ("reset_code", w.code) ∷ ("passwd", w.pwd) ∷ [];
  req_id = id_reset_pwd;
  module_of = resetpwd_mod;
}

abbrev pub Submits : Qt → String → ResetWidget → ResetWidget → Type 0
Submits q prefix w out =
    (Complete q w × (out.posted ≡ reset_post prefix w ∷ w.posted))
    ⊎ (¬ (Complete q w) × (out.posted ≡ w.posted) × ((w.email ≡ "") ⊎ (out.tip_is_ok ≡ false)))

-- slotConfirm posts one request to /reset_passwd with the form's fields if the form is complete,
-- and otherwise posts nothing, and shows a failure unless the email is empty. A complete form has
-- an email of the right shape, a code, and a password of 8 to 16 characters.
pub slot_confirm-Submits :
    (q : Qt) (prefix : String) (w : ResetWidget) → Submits q prefix w (slot_confirm q prefix w)
unfolding slot_confirm
slot_confirm-Submits q prefix w =
    let same : (s t : String) → str_eq s t ≡ true → s ≡ t = λ s t. (eq_iff s t).0 in
    elim (Bool-cases (str_eq w.email "")) [
      | inl t ↦ rw t (inr (λ c. c.0 (same _ _ t), refl, inl (same _ _ t)))
      | inr a ↦ rw a (elim (Bool-cases (str_eq w.code "")) [
        | inl t ↦ rw t (inr (λ c. c.1 (same _ _ t), refl, inr refl))
        | inr b ↦ rw b (elim (Bool-cases (not (q.matches_email w.email))) [
          | inl t ↦ rw t (inr (λ c. let u = c.2 in ground arith, refl, inr refl))
          | inr c ↦ rw c (elim (Bool-cases (ltb (q.length w.pwd) 8 || ltb 16 (q.length w.pwd))) [
            | inl t ↦ rw t (inr (λ c. let u = c.3 in let v = c.4 in ground arith, refl, inr refl))
            | inr d ↦ rw d (
                inl (
                  (str_differ _ _ a, str_differ _ _ b, ground arith, ground arith, ground arith),
                  refl,
                ))
          ])
        ])
      ])
    ]

module _ (q : Qt) (prefix : String) where
  -- A reply to the request for a code whose error is neither 1006 nor 1001 nor 1005 enables the
  -- confirm button of the reset window and starts the countdown with 59 seconds to go.
  pub on_code_sent-unlisted :
      (json : q.Object) (w : ResetWidget)
      → int_eq (q.to_int json "error") (pos 1006) ≡ false
      → int_eq (q.to_int json "error") (pos 1001) ≡ false
      → int_eq (q.to_int json "error") (pos 1005) ≡ false
      → (on_code_sent q prefix json w).confirm_enabled ≡ true
        × Counting 59 (on_code_sent q prefix json w).panel
  unfolding on_code_sent slot_update_button
  on_code_sent-unlisted json w a b c = (
    rw (a, b, c) refl,
    record { left = rw (a, b, c) refl; runs = rw (a, b, c) refl; locked = rw (a, b, c) refl },
  )

  pub second-Counting :
      (n : ℕ) (w : ResetWidget)
      → Counting (suc (suc n)) w.panel
      → Counting (suc n) (second q prefix w).panel
  unfolding second slot_update_button
  second-Counting n w h =
      let l = h.left in
      let t = h.runs in record { left = rw (t, l); runs = rw (t, l); locked = rw (t, l) h.locked }

  pub second-last : (w : ResetWidget) → Counting 1 w.panel → Stopped (second q prefix w).panel
  unfolding second slot_update_button
  second-last w h =
      let l = h.left in let t = h.runs in record { stands = rw (t, l); unlocked = rw (t, l) }

  pub second-Stopped : (w : ResetWidget) → Stopped w.panel → Stopped (second q prefix w).panel
  unfolding second
  second-Stopped w h = let t = h.stands in record { stands = rw t; unlocked = rw t h.unlocked }

  pub countdown-locked :
      (w : ResetWidget) (k n : ℕ)
      → Counting 59 w.panel
      → 59 ≡ suc n + k
      → Counting (suc n) (iterate (second q prefix) k w).panel
  countdown-locked w k n h sum =
      iterate-Counting ResetWidget.panel (second q prefix) second-Counting second-last
        second-Stopped k n 59 w sum h

  pub countdown-over :
      (w : ResetWidget) (k : ℕ)
      → Counting 59 w.panel
      → 59 ≤ k
      → Stopped (iterate (second q prefix) k w).panel
  countdown-over w k h late =
      iterate-over ResetWidget.panel (second q prefix) second-Counting second-last second-Stopped 58
        (k - 59) k w (omega arith) h

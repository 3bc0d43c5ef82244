-- ===== src/Client/Register/Correct.antt =====
-- What the slots of the registration window do, against a description of a complete form.
use Prim.Native.String
use qt_chatting.Prelude.{
  ℕ, suc, ◌+◌, ◌-◌, ◌≤◌, ◌≡◌, refl, some, ◌⊎◌, inl, inr, true, false, Bool-cases, String, str_eq,
  iterate, Bool-cases, str_differ, eq_iff, ◌≢◌, ap, ◌∙◌, [], ◌∷◌, pos, arith, not, ◌||◌, ltb,
}
use qt_chatting.Protocol.{register_mod}
use qt_chatting.Client.Qt.{Qt, Post, id_reg_user, id_get_varify_code, success, object}
use qt_chatting.Client.Countdown.{Counting, Stopped, iterate-Counting, iterate-over}
use qt_chatting.Client.Register.{
  RegisterWidget, slot_confirm_reg, on_code_sent, second, slot_update_button_text, slot_reg_finish,
  handle_document, call_handler,
}

-- A form that may be sent: the passwords agree and have 8 to 16 characters, the user name has the
-- shape that is asked for, and neither the address nor the code is empty.
abbrev pub Complete : Qt → RegisterWidget → Type 0
Complete q w =
    (w.username ≢ "")
    × (q.matches_username w.username ≡ true)
    × (w.mail ≢ "")
    × (8 ≤ q.length w.password)
    × (q.length w.password ≤ 16)
    × (w.password ≡ w.c_password)
    × (w.code ≢ "")

abbrev pub register_post : String → RegisterWidget → Post
register_post prefix w = record {
  url = String.◌++◌ prefix "/user_register";
  json =
      ("username", w.username)
      ∷ ("email", w.mail)
      ∷ ("passwd", w.password)
      ∷ ("reg_varifycode", w.code)
      ∷ [];
  req_id = id_reg_user;
  module_of = register_mod;
}

abbrev pub Submits : Qt → String → RegisterWidget → RegisterWidget → Type 0
Submits q prefix w out =
    (Complete q w × (out.posted ≡ register_post prefix w ∷ w.posted))
    ⊎ (¬ (Complete q w) × (out.posted ≡ w.posted) × (out.tip_is_ok ≡ false))

-- Where the empty text has length zero, slotConfirmReg posts one request to /user_register with the
-- form's fields if the form is complete, and otherwise posts nothing and shows a failure. A
-- complete form has a user name of the right shape, an email, a code, and two equal passwords of 8
-- to 16 characters.
pub slot_confirm_reg-Submits :
    (q : Qt) (prefix : String) (w : RegisterWidget)
    → q.length "" ≡ 0
    → Submits q prefix w (slot_confirm_reg q prefix w)
unfolding slot_confirm_reg
slot_confirm_reg-Submits q prefix w empty =
    let same : (s t : String) → str_eq s t ≡ true → s ≡ t = λ s t. (eq_iff s t).0 in
    elim (Bool-cases (str_eq w.username "")) [
      | inl t ↦ rw t (inr (λ c. c.0 (same _ _ t), refl, refl))
      | inr a ↦ rw a (elim (Bool-cases (not (q.matches_username w.username))) [
        | inl t ↦ rw t (inr (λ c. let u = c.1 in ground arith, refl, refl))
        | inr b ↦ rw b (elim (Bool-cases (str_eq w.mail "")) [
          | inl t ↦ rw t (inr (λ c. c.2 (same _ _ t), refl, refl))
          | inr c ↦ rw c (elim (Bool-cases (str_eq w.password "")) [
            | inl t ↦ rw t (
                inr (
                  λ c. let u = c.3 in let v = ap q.length (same _ _ t) ∙ empty in omega arith,
                  refl,
                  refl,
                ))
            | inr d ↦
                rw d
                  (elim (Bool-cases (ltb (q.length w.password) 8 || ltb 16 (q.length w.password))) [
                    | inl t ↦
                        rw t (inr (λ c. let u = c.3 in let v = c.4 in ground arith, refl, refl))
                    | inr e ↦ rw e (elim (Bool-cases (str_eq w.c_password "")) [
                      | inl t ↦ rw t (
                          inr (
                            λ c.
                                let u = c.3 in
                                let v = ap q.length (c.5 ∙ same _ _ t) ∙ empty in omega arith,
                            refl,
                            refl,
                          ))
                      | inr f ↦ rw f (elim (Bool-cases (not (str_eq w.password w.c_password))) [
                        | inl t ↦
                            rw t (inr (λ c. let v = (eq_iff _ _).1 c.5 in ground arith, refl, refl))
                        | inr g ↦ rw g (elim (Bool-cases (str_eq w.code "")) [
                          | inl t ↦ rw t (inr (λ c. c.6 (same _ _ t), refl, refl))
                          | inr h ↦ rw h (
                              inl (
                                (
                                  str_differ _ _ a,
                                  ground arith,
                                  str_differ _ _ c,
                                  ground arith,
                                  ground arith,
                                  same _ _ (ground arith),
                                  str_differ _ _ h,
                                ),
                                refl,
                              ))
                        ])
                      ])
                    ])
                  ])
          ])
        ])
      ])
    ]

module _ (q : Qt) (prefix : String) where
  pub second-Counting :
      (n : ℕ) (w : RegisterWidget)
      → Counting (suc (suc n)) w.panel
      → Counting (suc n) (second q prefix w).panel
  unfolding second slot_update_button_text
  second-Counting n w h =
      let l = h.left in
      let t = h.runs in record { left = rw (t, l); runs = rw (t, l); locked = rw (t, l) h.locked }

  pub second-last : (w : RegisterWidget) → Counting 1 w.panel → Stopped (second q prefix w).panel
  unfolding second slot_update_button_text
  second-last w h =
      let l = h.left in let t = h.runs in record { stands = rw (t, l); unlocked = rw (t, l) }

  pub second-Stopped : (w : RegisterWidget) → Stopped w.panel → Stopped (second q prefix w).panel
  unfolding second
  second-Stopped w h = let t = h.stands in record { stands = rw t; unlocked = rw t h.unlocked }

  -- When the reply says that the code was sent, the send button of the registration window is
  -- locked and the timer shows n + 1 seconds to go when k seconds have passed, for n + 1 + k = 60.
  pub code_sent-locked :
      (json : q.Object) (w : RegisterWidget) (k n : ℕ)
      → q.to_int json "error" ≡ pos 0
      → 60 ≡ suc n + k
      → Counting (suc n) (iterate (second q prefix) k (on_code_sent q prefix json w)).panel
  unfolding on_code_sent
  code_sent-locked json w k n ok sum =
      iterate-Counting RegisterWidget.panel (second q prefix) second-Counting second-last
        second-Stopped k n 60 _ sum (record { left = rw ok; runs = rw ok; locked = rw ok })

  -- When the reply says that the code was sent, the timer of the registration window has stopped
  -- and its send button can be pressed when 60 seconds or more have passed.
  pub code_sent-over :
      (json : q.Object) (w : RegisterWidget) (k : ℕ)
      → q.to_int json "error" ≡ pos 0
      → 60 ≤ k
      → Stopped (iterate (second q prefix) k (on_code_sent q prefix json w)).panel
  unfolding on_code_sent
  code_sent-over json w k ok late =
      iterate-over RegisterWidget.panel (second q prefix) second-Counting second-last second-Stopped
        59 (k - 60) k _ (omega arith) (record { left = rw ok; runs = rw ok; locked = rw ok })

  pub code_sent-confirm :
      (text : String) (json : q.Object) (w : RegisterWidget)
      → q.from_json text ≡ object json
      → q.to_int json "error" ≡ pos 0
      → (v : RegisterWidget) × (slot_reg_finish q prefix id_get_varify_code text success w ≡ some v)
        × (v.confirm_enabled ≡ true)
  unfolding slot_reg_finish handle_document call_handler on_code_sent
  code_sent-confirm text json w parsed ok =
      (on_code_sent q prefix json w, rw parsed refl, rw ok refl)

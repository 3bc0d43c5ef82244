-- ===== src/Client/Register/Life.antt =====
-- app/src/RegisterWidget.cpp: the constructor, initialize and bind, and what the user can make of
-- the open window.
use qt_chatting.Prelude.{
  subst, ℕ, zero, suc, ◌<◌, ◌≤◌, ◌≡◌, refl, arith, inl, inr, pos, int_eq, String, str_eq, true,
  false, Bool-cases, not, ◌||◌, ltb, Option, some, [], List, iterate,
}
use qt_chatting.Client.Qt.{
  Qt, ReqId, id_get_varify_code, id_reg_user, id_reset_pwd, ClientErrorCode, success, err_network,
  Document, null, no_object, object,
}
use qt_chatting.Client.Countdown.{Stopped}
use qt_chatting.Client.Events.{
  Event, Widget, Keeps, Asks, IsSound, IsSoundIf, run, run-IsSound, minute-Stopped,
}
use qt_chatting.Client.Register.{
  RegisterWidget, slot_get_code, slot_reg_finish, slot_confirm_reg, slot_update_button_text, second,
  on_code_sent, on_registered, call_handler, handle_document,
}
use qt_chatting.Client.Register.Correct.{second-Counting, second-last, second-Stopped}

-- The texts of the form.
pub record Form : Type 0 where
  pub username : String
  pub mail : String
  pub password : String
  pub c_password : String
  pub code : String

abbrev pub filled : Form → RegisterWidget → RegisterWidget
filled f w = record {
  username = f.username;
  mail = f.mail;
  password = f.password;
  c_password = f.c_password;
  code = f.code;
  panel = w.panel;
}

-- The window as the constructor leaves it.
abbrev pub opened : RegisterWidget
opened = record {
  username = "";
  mail = "";
  password = "";
  c_password = "";
  code = "";
  panel = record {
    tip = "";
    tip_is_ok = true;
    confirm_enabled = false;
    send_enabled = true;
    send_text = "发送";
    remain_time = pos 0;
    timer_runs = false;
    posted = [];
  };
}

module _ (q : Qt) (prefix : String) where
  abbrev pub widget : Widget RegisterWidget Form
  widget = record {
    panel = RegisterWidget.panel;
    fill = filled;
    send = slot_get_code q prefix;
    confirm = slot_confirm_reg q prefix;
    finish = slot_reg_finish q prefix;
    second = second q prefix;
  }

  send-IsSound : (w : RegisterWidget) → IsSound w.panel → IsSound (slot_get_code q prefix w).panel
  unfolding slot_get_code
  send-IsSound w h = elim (Bool-cases (q.matches_email w.mail)) [
    | inl t ↦ rw t (h.0, λ e. (refl, h.1 e))
    | inr t ↦ rw t h
  ]

  confirm-IsSound :
      (w : RegisterWidget)
      → w.confirm_enabled ≡ true
      → IsSound w.panel
      → IsSound (slot_confirm_reg q prefix w).panel
  unfolding slot_confirm_reg
  confirm-IsSound w t h = elim (Bool-cases (str_eq w.username "")) [
    | inl t ↦ rw t h
    | inr a8 ↦ rw a8 (elim (Bool-cases (not (q.matches_username w.username))) [
      | inl t ↦ rw t h
      | inr a7 ↦ rw a7 (elim (Bool-cases (str_eq w.mail "")) [
        | inl t ↦ rw t h
        | inr a6 ↦ rw a6 (elim (Bool-cases (str_eq w.password "")) [
          | inl t ↦ rw t h
          | inr a5 ↦
              rw a5
                (elim (Bool-cases (ltb (q.length w.password) 8 || ltb 16 (q.length w.password))) [
                  | inl t ↦ rw t h
                  | inr a4 ↦ rw a4 (elim (Bool-cases (str_eq w.c_password "")) [
                    | inl t ↦ rw t h
                    | inr a3 ↦ rw a3 (elim (Bool-cases (not (str_eq w.password w.c_password))) [
                      | inl t ↦ rw t h
                      | inr a2 ↦ rw a2 (elim (Bool-cases (str_eq w.code "")) [
                        | inl t ↦ rw t h
                        | inr a1 ↦ rw a1 ((h.0, λ e. ground arith))
                      ])
                    ])
                  ])
                ])
        ])
      ])
    ])
  ]

  send_code-IsSound :
      (json : q.Object) (w : RegisterWidget)
      → IsSound w.panel
      → IsSound (on_code_sent q prefix json w).panel
  unfolding on_code_sent
  send_code-IsSound json w h = elim (Bool-cases (not (int_eq (q.to_int json "error") (pos 0)))) [
    | inl t ↦ rw t h
    | inr a1 ↦ rw a1 (inr (59, refl, refl, refl, omega arith), λ e. ground arith)
  ]

  registered-IsSound :
      (json : q.Object) (w : RegisterWidget)
      → IsSound w.panel
      → IsSound (on_registered q prefix json w).panel
  unfolding on_registered
  registered-IsSound json w h = elim (Bool-cases (int_eq (q.to_int json "error") (pos 0))) [
    | inl t ↦ rw t h
    | inr a4 ↦ rw a4 (elim (Bool-cases (int_eq (q.to_int json "error") (pos 1004))) [
      | inl t ↦ rw t h
      | inr a3 ↦ rw a3 (elim (Bool-cases (int_eq (q.to_int json "error") (pos 1003))) [
        | inl t ↦ rw t h
        | inr a2 ↦
            rw a2
              (elim (Bool-cases (
                int_eq (q.to_int json "error") (pos 1001)
                || int_eq (q.to_int json "error") (pos 1002)
                || int_eq (q.to_int json "error") (pos 1005))) [
                  | inl t ↦ rw t h
                  | inr a1 ↦ rw a1 (h)
                ])
      ])
    ])
  ]

  document-IsSound :
      (id : ReqId) (d : Document q.Object) (w : RegisterWidget)
      → IsSound w.panel
      → IsSoundIf RegisterWidget.panel (handle_document q prefix id d w)
  unfolding handle_document call_handler
  document-IsSound id null w h = h
  document-IsSound id no_object w h = h
  document-IsSound id_get_varify_code (object json) w h = send_code-IsSound json w h
  document-IsSound id_reg_user (object json) w h = registered-IsSound json w h
  document-IsSound id_reset_pwd (object json) w h = tt

  finish-IsSound :
      (id : ReqId) (res : String) (err : ClientErrorCode) (w : RegisterWidget)
      → IsSound w.panel
      → IsSoundIf RegisterWidget.panel (slot_reg_finish q prefix id res err w)
  unfolding slot_reg_finish
  finish-IsSound id res err_network w h = h
  finish-IsSound id res success w h = document-IsSound id (q.from_json res) w h

  ticking :
      (n : ℕ) (w : RegisterWidget)
      → w.remain_time ≡ pos (suc n)
      → w.timer_runs ≡ true
      → w.send_enabled ≡ false
      → n < 60
      → (w.confirm_enabled ≡ false → Asks w.posted)
      → IsSound (second q prefix w).panel
  unfolding second slot_update_button_text
  ticking zero w l t s b a = rw (t, l) (inl (refl, refl), a)
  ticking (suc n) w l t s b a = rw (t, l) (inr (n, refl, refl, s, omega arith), a)

  tick-IsSound : (w : RegisterWidget) → IsSound w.panel → IsSound (second q prefix w).panel
  unfolding second slot_update_button_text
  tick-IsSound w h = elim h.0 [
    | inl s ↦ let t = s.0 in rw t (inl (refl, s.1), h.1)
    | inr s ↦ ticking s.0 w s.1 s.2 s.3 s.4 h.1
  ]

  pub keeps : Keeps RegisterWidget Form widget
  keeps = record {
    fill_keeps = λ f w h. h;
    send_keeps = send-IsSound;
    confirm_keeps = confirm-IsSound;
    finish_keeps = finish-IsSound;
    second_keeps = tick-IsSound;
  }

  -- Whatever the user and the network do to the registration window from its opening on: as long as
  -- its confirm button is disabled, it has posted nothing but requests for codes, and its send
  -- button is locked just while the timer runs, with 1 to 60 seconds to go.
  pub register_run-IsSound :
      (es : List (Event Form)) → IsSoundIf RegisterWidget.panel (run widget es opened)
  register_run-IsSound es = run-IsSound widget keeps es opened (inl (refl, refl), λ e. tt)

  run_then-Stopped :
      (k : ℕ) (w : RegisterWidget) (o : Option RegisterWidget)
      → o ≡ some w
      → 60 ≤ k
      → IsSoundIf RegisterWidget.panel o
      → Stopped (iterate (second q prefix) k w).panel
  run_then-Stopped k w o e late h =
      minute-Stopped widget keeps (second-Counting q prefix) (second-last q prefix)
        (second-Stopped q prefix) k w late (subst (IsSoundIf RegisterWidget.panel) e h)

  -- Whatever the user and the network have done to the registration window from its opening on,
  -- when 60 seconds or more have passed with nothing else, its timer stands and its send button can
  -- be pressed.
  pub register_run-Stopped :
      (es : List (Event Form)) (k : ℕ) (w : RegisterWidget)
      → run widget es opened ≡ some w
      → 60 ≤ k
      → Stopped (iterate (second q prefix) k w).panel
  register_run-Stopped es k w e late =
      run_then-Stopped k w (run widget es opened) e late (register_run-IsSound es)

-- ===== src/Client/Reset/Life.antt =====
-- app/src/ResetWidget.cpp: the constructor and bind, and what the user can make of the open window.
use qt_chatting.Prelude.{
  ℕ, zero, suc, ◌<◌, ◌≤◌, ◌≡◌, refl, arith, inl, inr, pos, int_eq, String, str_eq, true, false,
  Bool-cases, not, ◌||◌, ltb, [], List, iterate,
}
use qt_chatting.Client.Qt.{
  Qt, ReqId, id_get_varify_code, id_reg_user, id_reset_pwd, ClientErrorCode, success, err_network,
  Document, null, no_object, object,
}
use qt_chatting.Client.Countdown.{Stopped}
use qt_chatting.Client.Events.{
  Event, Widget, Keeps, Asks, IsSound, IsSoundIf, run, run-IsSound, minute-Stopped,
}
use qt_chatting.Client.Reset.{
  ResetWidget, slot_send_code, slot_reset_finish, slot_confirm, slot_update_button, second,
  on_code_sent, on_reset, call_handler, handle_document,
}
use qt_chatting.Client.Reset.Correct.{second-Counting, second-last, second-Stopped}

-- The texts of the form.
pub record Form : Type 0 where
  pub email : String
  pub code : String
  pub pwd : String

abbrev pub filled : Form → ResetWidget → ResetWidget
filled f w = record { email = f.email; code = f.code; pwd = f.pwd; panel = w.panel }

-- The window as the constructor leaves it.
abbrev pub opened : ResetWidget
opened = record {
  email = "";
  code = "";
  pwd = "";
  panel = record {
    tip = "";
    tip_is_ok = true;
    confirm_enabled = false;
    send_enabled = true;
    send_text = "发送";
    remain_time = pos 0;
    timer_runs = false;
    posted = [];
  };
}

module _ (q : Qt) (prefix : String) where
  abbrev pub widget : Widget ResetWidget Form
  widget = record {
    panel = ResetWidget.panel;
    fill = filled;
    send = slot_send_code q prefix;
    confirm = slot_confirm q prefix;
    finish = slot_reset_finish q prefix;
    second = second q prefix;
  }

  send-IsSound : (w : ResetWidget) → IsSound w.panel → IsSound (slot_send_code q prefix w).panel
  unfolding slot_send_code
  send-IsSound w h = elim (Bool-cases (q.matches_email w.email)) [
    | inl t ↦ rw t (h.0, λ e. (refl, h.1 e))
    | inr t ↦ rw t h
  ]

  confirm-IsSound :
      (w : ResetWidget)
      → w.confirm_enabled ≡ true
      → IsSound w.panel
      → IsSound (slot_confirm q prefix w).panel
  unfolding slot_confirm
  confirm-IsSound w t h = elim (Bool-cases (str_eq w.email "")) [
    | inl t ↦ rw t (h)
    | inr a4 ↦ rw a4 (elim (Bool-cases (str_eq w.code "")) [
      | inl t ↦ rw t (h)
      | inr a3 ↦ rw a3 (elim (Bool-cases (not (q.matches_email w.email))) [
        | inl t ↦ rw t (h)
        | inr a2 ↦ rw a2 (elim (Bool-cases (ltb (q.length w.pwd) 8 || ltb 16 (q.length w.pwd))) [
          | inl t ↦ rw t (h)
          | inr a1 ↦ rw a1 ((h.0, λ e. ground arith))
        ])
      ])
    ])
  ]

  ticking :
      (n : ℕ) (w : ResetWidget)
      → w.remain_time ≡ pos (suc n)
      → w.timer_runs ≡ true
      → w.send_enabled ≡ false
      → n < 60
      → (w.confirm_enabled ≡ false → Asks w.posted)
      → IsSound (second q prefix w).panel
  unfolding second slot_update_button
  ticking zero w l t s b a = rw (t, l) (inl (refl, refl), a)
  ticking (suc n) w l t s b a = rw (t, l) (inr (n, refl, refl, s, omega arith), a)

  tick-IsSound : (w : ResetWidget) → IsSound w.panel → IsSound (second q prefix w).panel
  unfolding second slot_update_button
  tick-IsSound w h = elim h.0 [
    | inl s ↦ let t = s.0 in rw t (inl (refl, s.1), h.1)
    | inr s ↦ ticking s.0 w s.1 s.2 s.3 s.4 h.1
  ]

  send_code-IsSound :
      (json : q.Object) (w : ResetWidget)
      → IsSound w.panel
      → IsSound (on_code_sent q prefix json w).panel
  unfolding on_code_sent slot_update_button
  send_code-IsSound json w h = elim (Bool-cases (int_eq (q.to_int json "error") (pos 1006))) [
    | inl t ↦ rw t (h)
    | inr a3 ↦ rw a3 (elim (Bool-cases (int_eq (q.to_int json "error") (pos 1001))) [
      | inl t ↦ rw t (h)
      | inr a2 ↦ rw a2 (elim (Bool-cases (int_eq (q.to_int json "error") (pos 1005))) [
        | inl t ↦ rw t (h)
        | inr a1 ↦ rw a1 (inr (58, refl, refl, refl, omega arith), λ e. ground arith)
      ])
    ])
  ]

  reset-IsSound :
      (json : q.Object) (w : ResetWidget)
      → IsSound w.panel
      → IsSound (on_reset q prefix json w).panel
  unfolding on_reset
  reset-IsSound json w h = elim (Bool-cases (int_eq (q.to_int json "error") (pos 1006))) [
    | inl t ↦ rw t (h)
    | inr a4 ↦ rw a4 (elim (Bool-cases (int_eq (q.to_int json "error") (pos 0))) [
      | inl t ↦ rw t (h)
      | inr a3 ↦ rw a3 (elim (Bool-cases (int_eq (q.to_int json "error") (pos 1004))) [
        | inl t ↦ rw t (h)
        | inr a2 ↦
            rw a2
              (elim (Bool-cases (
                int_eq (q.to_int json "error") (pos 1005)
                || int_eq (q.to_int json "error") (pos 1001))) [
                  | inl t ↦ rw t (h)
                  | inr a1 ↦ rw a1 (h)
                ])
      ])
    ])
  ]

  document-IsSound :
      (id : ReqId) (d : Document q.Object) (w : ResetWidget)
      → IsSound w.panel
      → IsSoundIf ResetWidget.panel (handle_document q prefix id d w)
  unfolding handle_document call_handler
  document-IsSound id null w h = h
  document-IsSound id no_object w h = h
  document-IsSound id_get_varify_code (object json) w h = send_code-IsSound json w h
  document-IsSound id_reset_pwd (object json) w h = reset-IsSound json w h
  document-IsSound id_reg_user (object json) w h = tt

  finish-IsSound :
      (id : ReqId) (res : String) (err : ClientErrorCode) (w : ResetWidget)
      → IsSound w.panel
      → IsSoundIf ResetWidget.panel (slot_reset_finish q prefix id res err w)
  unfolding slot_reset_finish
  finish-IsSound id res err_network w h = h
  finish-IsSound id res success w h = document-IsSound id (q.from_json res) w h

  pub keeps : Keeps ResetWidget Form widget
  keeps = record {
    fill_keeps = λ f w h. h;
    send_keeps = send-IsSound;
    confirm_keeps = confirm-IsSound;
    finish_keeps = finish-IsSound;
    second_keeps = tick-IsSound;
  }

  pub reset_run-IsSound :
      (es : List (Event Form)) → IsSoundIf ResetWidget.panel (run widget es opened)
  reset_run-IsSound es = run-IsSound widget keeps es opened (inl (refl, refl), λ e. tt)

  pub reset_minute-Stopped :
      (k : ℕ) (w : ResetWidget)
      → 60 ≤ k
      → IsSound w.panel
      → Stopped (iterate (second q prefix) k w).panel
  reset_minute-Stopped =
      minute-Stopped widget keeps (second-Counting q prefix) (second-last q prefix)
        (second-Stopped q prefix)

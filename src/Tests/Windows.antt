-- ===== src/Tests/Windows.antt =====
-- The client's windows at work.
use Prim.Native.String.{len}
use qt_chatting.Prelude.{
  ℕ, ◌+◌, ◌-◌, ◌≡◌, refl, String, true, false, [], ◌∷◌, arith, pos, some, List, str_differ,
}
use qt_chatting.Client.Qt.{Qt, Panel, object, id_get_varify_code, success}
use qt_chatting.Client.Register
use qt_chatting.Client.Register.{
  RegisterWidget, slot_confirm_reg, slot_get_code, slot_reg_finish, handle_document, call_handler,
}
use qt_chatting.Client.Register.Life.{register_run-Stopped}
use qt_chatting.Client.Register.Border.{username_border, short_name-posted}
use qt_chatting.Client.Events.{Event, typed, send_clicked, finished, run, happen, run_next}
use qt_chatting.Client.App.{App, reply_arrives}
use qt_chatting.Client.App.Sound.{
  All, AllSound, Steps, none_yet, then, register_shown, reset_shown, in_register, started,
  Steps-AllSound,
}
use qt_chatting.Client.App.Shared.{reply_arrives-confirm_enabled}
use qt_chatting.Client.Http.{Awaited, post_http_req}
use qt_chatting.Protocol.{register_mod}
use qt_chatting.Client.Register.Correct as RegisterCorrect
use qt_chatting.Client.Register.Correct.{slot_confirm_reg-Submits, register_post}
use qt_chatting.Client.Reset
use qt_chatting.Client.Reset.{ResetWidget, slot_confirm}
use qt_chatting.Client.Reset.Correct as ResetCorrect
use qt_chatting.Client.Reset.Correct.{
  slot_confirm-Submits, on_code_sent-unlisted, countdown-locked, countdown-over,
}
use qt_chatting.Client.Window.{Points, FramelessWindow}

-- An object is its "error" member.
abbrev qt : Qt
qt = record {
  Object = ℕ;
  length = λ s. len s;
  matches_username = λ s. true;
  matches_email = λ s. true;
  from_json = λ s. object 0;
  to_int = λ o key. pos o;
  to_json = λ fields. "{}";
  arg = λ s n. s;
}

abbrev prefix : String
prefix = "http://127.0.0.1:8080"

abbrev panel : Panel
panel = record {
  tip = "";
  tip_is_ok = true;
  confirm_enabled = false;
  send_enabled = true;
  send_text = "";
  remain_time = pos 0;
  timer_runs = false;
  posted = [];
}

abbrev register_form : RegisterWidget
register_form = record {
  username = "ann";
  mail = "ann@example.org";
  password = "password1";
  c_password = "password1";
  code = "4711";
  panel = panel;
}

abbrev reset_form : ResetWidget
reset_form = record { email = "bob@example.org"; code = "4711"; pwd = "password2"; panel = panel }

slot_confirm_reg-Submits_example :
    RegisterCorrect.Submits qt prefix register_form (slot_confirm_reg qt prefix register_form)
slot_confirm_reg-Submits_example = slot_confirm_reg-Submits qt prefix register_form refl

abbrev form : Register.Life.Form
form = record {
  username = "ann";
  mail = "ann@example.org";
  password = "password1";
  c_password = "password1";
  code = "4711";
}

-- The form is filled in, a code is asked for, and the reply says that it was sent.
abbrev asked : List (Event Register.Life.Form)
asked = typed form ∷ send_clicked ∷ finished id_get_varify_code "{}" success ∷ []

abbrev filled_in : RegisterWidget
filled_in = Register.Life.filled form Register.Life.opened

abbrev sent : RegisterWidget
sent = Register.on_code_sent qt prefix 0 (slot_get_code qt prefix filled_in)

ran_asked : run (Register.Life.widget qt prefix) asked Register.Life.opened ≡ some sent
unfolding run happen run_next slot_reg_finish handle_document call_handler
ran_asked = refl

abbrev short_form : RegisterWidget
short_form = record register_form { username = "al" }

short_name-posted_example :
    (username_border qt "al" ≡ "border: 2px solid red")
    × ((slot_confirm_reg qt prefix short_form).posted ≡ register_post prefix short_form ∷ [])
short_name-posted_example =
    short_name-posted qt prefix short_form refl
      (
        str_differ "al" "" refl,
        refl,
        str_differ "ann@example.org" "" refl,
        omega arith,
        omega arith,
        refl,
        str_differ "4711" "" refl,
      )
      (omega arith)

-- Two windows are open, and the form of one is filled in and a code asked for.
abbrev at_work : App
at_work = record {
  register_windows = slot_get_code qt prefix filled_in ∷ [];
  reset_windows = Reset.Life.opened ∷ [];
}

typed_in :
    happen (Register.Life.widget qt prefix) (typed form) Register.Life.opened ≡ some filled_in
unfolding happen
typed_in = refl

clicked :
    happen (Register.Life.widget qt prefix) send_clicked filled_in
    ≡ some (slot_get_code qt prefix filled_in)
unfolding happen
clicked = refl

steps : Steps qt prefix started at_work
steps =
    then _ _
      (then _ _ (then _ _ (then _ _ none_yet register_shown) reset_shown)
        (in_register [] [] Register.Life.opened filled_in (typed form) refl typed_in))
      (in_register [] [] filled_in (slot_get_code qt prefix filled_in) send_clicked refl clicked)

Steps-AllSound_example : AllSound at_work
Steps-AllSound_example = Steps-AllSound qt prefix at_work steps

-- Two registration windows are open, and the code was asked for in the first.
abbrev two_windows : App
two_windows = record {
  register_windows = filled_in ∷ Register.Life.opened ∷ [];
  reset_windows = [];
}

abbrev awaited : Awaited
awaited =
    post_http_req qt "/get_varifycode" (("email", "ann@example.org") ∷ []) id_get_varify_code
      register_mod

awaited_id : awaited.req_id ≡ id_get_varify_code
unfolding post_http_req
awaited_id = refl

awaited_module : awaited.module_of ≡ register_mod
unfolding post_http_req
awaited_module = refl

reply_arrives-confirm_enabled_example :
    (b : App) × (reply_arrives qt prefix awaited false "{}" two_windows ≡ some b)
    × All (λ (w : RegisterWidget). w.confirm_enabled ≡ true) b.register_windows
    × (b.reset_windows ≡ [])
reply_arrives-confirm_enabled_example =
    reply_arrives-confirm_enabled qt prefix awaited "{}" 0 two_windows awaited_id awaited_module
      refl refl

slot_confirm-Submits_example :
    ResetCorrect.Submits qt prefix reset_form (slot_confirm qt prefix reset_form)
slot_confirm-Submits_example = slot_confirm-Submits qt prefix reset_form

abbrev points : Points
points = record { Point = ℕ; add = λ a b. a + b; minus = λ a b. a - b }

abbrev window : FramelessWindow ℕ
window = record { dragging = false; drag_start_pos = 0; window_start_pos = 0; pos = 100 }

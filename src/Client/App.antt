-- ===== src/Client/App.antt =====
-- The open windows of the client: app/src/LoginWidget.cpp opens them, app/src/main.cpp sets the
-- address of the gate server, and HttpMgr signals each reply to all windows of its module.
pub mod Sound
pub mod Shared
pub mod Told
use Prim.Native.String
use qt_chatting.Prelude.{String, Bool, Option, none, some, List, [], ◌∷◌, ◌++◌}
use qt_chatting.Client.Http.{
  Awaited, Signal, sig_reg_mod_finish, sig_reset_mod_finish, on_finished, slot_http_finish,
}
use qt_chatting.Client.Qt.{Qt}
use qt_chatting.Client.Register
use qt_chatting.Client.Register.{RegisterWidget, slot_reg_finish}
use qt_chatting.Client.Reset
use qt_chatting.Client.Reset.{ResetWidget, slot_reset_finish}

-- In the order in which they were opened; a window is never deleted.
pub record App : Type 0 where
  pub register_windows : List RegisterWidget
  pub reset_windows : List ResetWidget

-- gate_url_prefix, of the two settings GateServer/host and GateServer/port
abbrev pub gate_url_prefix : String → String → String
gate_url_prefix host port = String.◌++◌ "http://" (String.◌++◌ host (String.◌++◌ ":" port))

abbrev pub register_widget_show : App → App
register_widget_show a = record a {
  register_windows = a.register_windows ++ Register.Life.opened ∷ [];
}

abbrev pub reset_widget_show : App → App
reset_widget_show a = record a { reset_windows = a.reset_windows ++ Reset.Life.opened ∷ [] }

-- `f` on each window in turn; `none` where one throws.
pub each_next : {W : Type 0} → Option W → Option (List W) → Option (List W)
each_next none ws = none
each_next (some w) none = none
each_next (some w) (some ws) = some (w ∷ ws)

pub each : {W : Type 0} → (W → Option W) → List W → Option (List W)
unfolding each_next
each f [] = some []
each f (w ∷ ws) = each_next (f w) (each f ws)

pub with_register : App → Option (List RegisterWidget) → Option App
with_register a none = none
with_register a (some ws) = some (record a { register_windows = ws })

pub with_reset : App → Option (List ResetWidget) → Option App
with_reset a none = none
with_reset a (some ws) = some (record a { reset_windows = ws })

module _ (q : Qt) (prefix : String) where
  -- sig_reg_mod_finish and sig_reset_mod_finish are connected to every window of their kind.
  pub deliver : Signal → App → Option App
  unfolding each with_register with_reset
  deliver (sig_reg_mod_finish id res err) a =
      with_register a (each (slot_reg_finish q prefix id res err) a.register_windows)
  deliver (sig_reset_mod_finish id res err) a =
      with_reset a (each (slot_reset_finish q prefix id res err) a.reset_windows)

  -- A request has ended: did it fail, and the text of the reply.
  pub reply_arrives : Awaited → Bool → String → App → Option App
  unfolding deliver
  reply_arrives r failed text a = deliver (slot_http_finish (on_finished r failed text)) a

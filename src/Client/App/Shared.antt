-- ===== src/Client/App/Shared.antt =====
-- A reply reaches all windows of its module, not only the one that asked.
use qt_chatting.Prelude.{◌≡◌, refl, String, true, false, Option, some, List, [], ◌∷◌, pos}
use qt_chatting.Protocol.{register_mod}
use qt_chatting.Client.App.{App, each, each_next, with_register, deliver, reply_arrives}
use qt_chatting.Client.App.Sound.{All}
use qt_chatting.Client.Http.{Awaited, on_finished-returned, signal_of-register}
use qt_chatting.Client.Qt.{Qt, id_get_varify_code, success, object}
use qt_chatting.Client.Register.{RegisterWidget, slot_reg_finish}
use qt_chatting.Client.Register.Correct.{code_sent-confirm}

module _ {W : Type 0} (Q : W → Type 0) (f : W → Option W)
    (does : (w : W) → (v : W) × (f w ≡ some v) × Q v) where
  each-some : (ws : List W) → (vs : List W) × (each f ws ≡ some vs) × All Q vs
  unfolding each each_next
  each-some [] = ([], refl, tt)
  each-some (w ∷ ws) =
      let (v, one, p) = does w in
      let (vs, rest, ps) = each-some ws in (v ∷ vs, rw (one, rest) refl, (p, ps))

module _ (q : Qt) (prefix : String) where
  -- When a request for a code that a registration window has posted is answered with error 0, no
  -- window throws, the confirm button is enabled in every registration window that is open, and the
  -- windows for a new password stay as they are.
  pub reply_arrives-confirm_enabled :
      (r : Awaited) (text : String) (json : q.Object) (a : App)
      → r.req_id ≡ id_get_varify_code
      → r.module_of ≡ register_mod
      → q.from_json text ≡ object json
      → q.to_int json "error" ≡ pos 0
      → (b : App) × (reply_arrives q prefix r false text a ≡ some b)
        × All (λ (w : RegisterWidget). w.confirm_enabled ≡ true) b.register_windows
        × (b.reset_windows ≡ a.reset_windows)
  unfolding reply_arrives deliver with_register
  reply_arrives-confirm_enabled r text json a asked mine parsed ok =
      let (ws, ran, enabled) =
        each-some (λ (w : RegisterWidget). w.confirm_enabled ≡ true)
          (slot_reg_finish q prefix id_get_varify_code text success)
          (λ w. code_sent-confirm q prefix text json w parsed ok) a.register_windows in
      (
        record a { register_windows = ws },
        rw (on_finished-returned r text, signal_of-register r.module_of mine, asked, ran) refl,
        enabled,
        refl,
      )

-- ===== src/Client/App/Sound.antt =====
-- Every window that is open keeps its invariant, whatever the user does in any of them and whatever
-- reply arrives.
use qt_chatting.Prelude.{
  ◌≡◌, refl, inl, String, Bool, Option, none, some, List, [], ◌∷◌, ◌++◌, subst,
}
use qt_chatting.Client.App.{
  App, register_widget_show, reset_widget_show, each, each_next, with_register, with_reset, deliver,
  reply_arrives,
}
use qt_chatting.Client.Events.{Event, happen, happen-IsSound, IsSound, IsSoundIf, If, Keeps}
use qt_chatting.Client.Http.{
  Awaited, Signal, sig_reg_mod_finish, sig_reset_mod_finish, on_finished, slot_http_finish,
}
use qt_chatting.Client.Qt.{Qt}
use qt_chatting.Client.Register
use qt_chatting.Client.Register.{
  RegisterWidget, slot_reg_finish, handle_document, call_handler, on_code_sent,
}
use qt_chatting.Client.Reset
use qt_chatting.Client.Reset.{ResetWidget, slot_reset_finish}

abbrev pub All : {W : Type 0} → (W → Type 0) → List W → Type 0
All P [] = Unit
All P (w ∷ ws) = P w × All P ws

abbrev pub AllIf : {W : Type 0} → (W → Type 0) → Option (List W) → Type 0
AllIf P none = Unit
AllIf P (some ws) = All P ws

module _ {W : Type 0} (P : W → Type 0) where
  append-All : (xs ys : List W) → All P xs → All P ys → All P (xs ++ ys)
  append-All [] ys h k = k
  append-All (x ∷ xs) ys h k = (h.0, append-All xs ys h.1 k)

  -- One of them changes.
  changed-All :
      (xs ys : List W) (v w : W) → (P v → P w) → All P (xs ++ v ∷ ys) → All P (xs ++ w ∷ ys)
  changed-All [] ys v w f h = (f h.0, h.1)
  changed-All (x ∷ xs) ys v w f h = (h.0, changed-All xs ys v w f h.1)

module _ {W : Type 0} (P Q : W → Type 0) where
  each_next-All :
      (o : Option W) (os : Option (List W)) → If Q o → AllIf Q os → AllIf Q (each_next o os)
  unfolding each_next
  each_next-All none os h k = tt
  each_next-All (some w) none h k = tt
  each_next-All (some w) (some ws) h k = (h, k)

  each-All :
      (f : W → Option W)
      → ((w : W) → P w → If Q (f w))
      → (ws : List W) → All P ws
      → AllIf Q (each f ws)
  unfolding each
  each-All f step [] h = tt
  each-All f step (w ∷ ws) h = each_next-All (f w) (each f ws) (step w h.0) (each-All f step ws h.1)

pub record AllSound (a : App) : Type 0 where
  pub register_sound : All (λ (w : RegisterWidget). IsSound w.panel) a.register_windows
  pub reset_sound : All (λ (w : ResetWidget). IsSound w.panel) a.reset_windows

-- What can happen to the client: a window is opened, something happens in one, a reply arrives.
pub data Step (q : Qt) (prefix : String) (a : App) : App → Type 0 where
  register_shown : Step q prefix a (register_widget_show a)
  reset_shown : Step q prefix a (reset_widget_show a)
  in_register :
      (xs ys : List RegisterWidget) (v w : RegisterWidget) (e : Event Register.Life.Form)
      → a.register_windows ≡ xs ++ v ∷ ys
      → happen (Register.Life.widget q prefix) e v ≡ some w
      → Step q prefix a (record a { register_windows = xs ++ w ∷ ys })
  in_reset :
      (xs ys : List ResetWidget) (v w : ResetWidget) (e : Event Reset.Life.Form)
      → a.reset_windows ≡ xs ++ v ∷ ys
      → happen (Reset.Life.widget q prefix) e v ≡ some w
      → Step q prefix a (record a { reset_windows = xs ++ w ∷ ys })
  replied :
      (r : Awaited) (failed : Bool) (text : String) (b : App)
      → reply_arrives q prefix r failed text a ≡ some b
      → Step q prefix a b

pub data Steps (q : Qt) (prefix : String) (a : App) : App → Type 0 where
  none_yet : Steps q prefix a a
  then : (b c : App) → Steps q prefix a b → Step q prefix b c → Steps q prefix a c

-- The client before any window but the login window is open.
abbrev pub started : App
started = record { register_windows = []; reset_windows = [] }

module _ (q : Qt) (prefix : String) where
  with_register-AllSound :
      (a : App) (o : Option (List RegisterWidget))
      → AllSound a
      → AllIf (λ w. IsSound w.panel) o
      → If AllSound (with_register a o)
  unfolding with_register
  with_register-AllSound a none h k = tt
  with_register-AllSound a (some ws) h k = record {
    register_sound = k;
    reset_sound = h.reset_sound;
  }

  with_reset-AllSound :
      (a : App) (o : Option (List ResetWidget))
      → AllSound a
      → AllIf (λ w. IsSound w.panel) o
      → If AllSound (with_reset a o)
  unfolding with_reset
  with_reset-AllSound a none h k = tt
  with_reset-AllSound a (some ws) h k = record {
    register_sound = h.register_sound;
    reset_sound = k;
  }

  deliver-AllSound : (s : Signal) (a : App) → AllSound a → If AllSound (deliver q prefix s a)
  unfolding deliver
  deliver-AllSound (sig_reg_mod_finish id res err) a h = with_register-AllSound a _ h (
      each-All (λ w. IsSound w.panel) (λ w. IsSound w.panel) _
        (Keeps.finish_keeps (Register.Life.keeps q prefix) id res err) a.register_windows
        h.register_sound)
  deliver-AllSound (sig_reset_mod_finish id res err) a h = with_reset-AllSound a _ h (
      each-All (λ w. IsSound w.panel) (λ w. IsSound w.panel) _
        (Keeps.finish_keeps (Reset.Life.keeps q prefix) id res err) a.reset_windows h.reset_sound)

  Step-AllSound : (a b : App) → Step q prefix a b → AllSound a → AllSound b
  unfolding reply_arrives
  Step-AllSound a b register_shown h = record {
    register_sound =
        append-All _ a.register_windows _ h.register_sound ((inl (refl, refl), λ e. tt), tt);
    reset_sound = h.reset_sound;
  }
  Step-AllSound a b reset_shown h = record {
    register_sound = h.register_sound;
    reset_sound = append-All _ a.reset_windows _ h.reset_sound ((inl (refl, refl), λ e. tt), tt);
  }
  Step-AllSound a b (in_register xs ys v w e at ran) h = record {
    register_sound =
        changed-All (λ (x : RegisterWidget). IsSound x.panel) xs ys v w
          (λ p.
            subst (IsSoundIf RegisterWidget.panel) ran
              (happen-IsSound _ (Register.Life.keeps q prefix) e v p))
          (subst (All (λ (x : RegisterWidget). IsSound x.panel)) at h.register_sound);
    reset_sound = h.reset_sound;
  }
  Step-AllSound a b (in_reset xs ys v w e at ran) h = record {
    register_sound = h.register_sound;
    reset_sound =
        changed-All (λ (x : ResetWidget). IsSound x.panel) xs ys v w
          (λ p.
            subst (IsSoundIf ResetWidget.panel) ran
              (happen-IsSound _ (Reset.Life.keeps q prefix) e v p))
          (subst (All (λ (x : ResetWidget). IsSound x.panel)) at h.reset_sound);
  }
  Step-AllSound a b (replied r failed text c out) h =
      subst (If AllSound) out (deliver-AllSound (slot_http_finish (on_finished r failed text)) a h)

  -- However many windows are opened, whatever the user does in them and whatever replies arrive, in
  -- each window the send button is locked just while the timer runs, with 1 to 60 seconds to go,
  -- and nothing but requests for codes was posted as long as the confirm button is disabled.
  pub Steps-AllSound : (a : App) → Steps q prefix started a → AllSound a
  Steps-AllSound a none_yet = record { register_sound = tt; reset_sound = tt }
  Steps-AllSound a (then b c before step) = Step-AllSound b a step (Steps-AllSound b before)

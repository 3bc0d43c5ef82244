-- ===== src/Client/Login.antt =====
-- app/src/LoginWidget.cpp: the window that the program starts with, and the style that F6 loads anew.
-- The files, the widgets and the picture's scaling are Qt's: parameters.
use qt_chatting.Prelude.{
  String, Bool, true, false, Option, none, some, List, [], ◌∷◌, ◌≡◌, refl, ap, ◌∙◌, map,
  if◌then◌else◌, if-case,
}
use qt_chatting.Client.Window.Title.{Widgets, FramelessWidget, set_background}

module _ (q : Widgets) (scaled : Option q.Pixmap → Option q.Pixmap) where
  pub record LoginWidget : Type 0 where
    pub main_window : FramelessWidget q
    pub style_sheet : String
    pub photo : Option q.Pixmap
    pub hides_password : Bool

  -- A file that opens has a text.
  pub set_style : Option String → LoginWidget → LoginWidget
  set_style none w = w
  set_style (some sheet) w = record w { style_sheet = sheet }

  -- The window as Qt's constructors and setFixedSize leave it.
  abbrev pub before : FramelessWidget q → LoginWidget
  before m = record {
    main_window = record m { width = 330; height = 448 };
    style_sheet = "";
    photo = none;
    hides_password = false;
  }

  -- `resource` is what opens under a path.
  pub initialize : (String → Option String) → LoginWidget → LoginWidget
  unfolding set_style
  initialize resource w =
      let styled = set_style (resource ":/style/assets/LoginWidget.qss") w in
      record styled {
        photo = scaled (q.load ":/image/assets/photo.png");
        main_window = set_background q ":image/assets/background.jpg" styled.main_window;
        hides_password = true;
      }

  pub new_login : (String → Option String) → FramelessWidget q → LoginWidget
  unfolding initialize
  new_login resource m = initialize resource (before m)

  -- A key is F6 or not; the file may be another one at each press.
  pub record Key : Type 0 where
    pub is_f6 : Bool
    pub file : String → Option String

  pub key_press_event : Key → LoginWidget → LoginWidget
  unfolding set_style
  key_press_event k w = if k.is_f6 then set_style (k.file "../assets/LoginWidget.qss") w else w

  pub press : List Key → LoginWidget → LoginWidget
  unfolding key_press_event
  press [] w = w
  press (k ∷ keys) w = press keys (key_press_event k w)

  -- What a press loads.
  abbrev pub loaded : Key → Option String
  loaded k = if k.is_f6 then k.file "../assets/LoginWidget.qss" else none

  abbrev pub last_loaded : String → List (Option String) → String
  last_loaded sheet [] = sheet
  last_loaded sheet (none ∷ rest) = last_loaded sheet rest
  last_loaded sheet (some next ∷ rest) = last_loaded next rest

  key_press_event-style : (k : Key) (w : LoginWidget) → key_press_event k w ≡ set_style (loaded k) w
  unfolding key_press_event set_style
  key_press_event-style k w =
      if-case (λ v. v ≡ set_style (loaded k) w) k.is_f6 (λ f. rw f refl) (λ f. rw f refl)

  set_style-press :
      (o : Option String) (keys : List Key) (w : LoginWidget)
      → ((v : LoginWidget)
          → press keys v ≡ record v { style_sheet = last_loaded v.style_sheet (map loaded keys) })
      → press keys (set_style o w)
        ≡ record w { style_sheet = last_loaded w.style_sheet (o ∷ map loaded keys) }
  unfolding set_style
  set_style-press none keys w rest = rest w
  set_style-press (some sheet) keys w rest = rest (record w { style_sheet = sheet })

  -- Whatever keys are pressed in the login window, its style sheet is the text of the file that was
  -- there at the last press of F6 at which it opened, and the one before where there was none, and
  -- nothing else of the window changes.
  pub press-style_sheet :
      (keys : List Key) (w : LoginWidget)
      → press keys w ≡ record w { style_sheet = last_loaded w.style_sheet (map loaded keys) }
  unfolding press
  press-style_sheet [] w = refl
  press-style_sheet (k ∷ keys) w =
      ap (press keys) (key_press_event-style k w)
      ∙ set_style-press (loaded k) keys w (press-style_sheet keys)

-- ===== src/Client/Window/Title.antt =====
-- app/widgets/FramelessWindow.cpp: the inner widget of a window, with its title, its background and
-- its button to close. QLabel, QPixmap and QSize are Qt's: parameters.
use qt_chatting.Prelude.{
  ℕ, ◌+◌, String, Bool, true, false, Option, none, some, List, [], ◌∷◌, ◌≡◌, refl,
}

-- QPixmap and QLabel; `load` is none where the file holds no picture, which leaves a null pixmap.
pub record Widgets : Type 1 where
  pub Pixmap : Type 0
  pub Label : Type 0
  pub new_label : Label
  pub set_text : String → Label → Label
  pub set_pixmap : Pixmap → Label → Label
  pub load : String → Option Pixmap

-- "Setting the text clears any previous content", and so does setting the pixmap.
pub record Clears (q : Widgets) : Type 0 where
  pub text : q.Label → String
  pub pixmap : q.Label → Option q.Pixmap
  pub set_text_lem : (s : String) (l : q.Label) → text (q.set_text s l) ≡ s
  pub set_text_clears : (s : String) (l : q.Label) → pixmap (q.set_text s l) ≡ none
  pub set_pixmap_lem : (p : q.Pixmap) (l : q.Label) → pixmap (q.set_pixmap p l) ≡ some p
  pub set_pixmap_clears : (p : q.Pixmap) (l : q.Label) → text (q.set_pixmap p l) ≡ ""

-- What paintEvent draws behind the widget's content.
pub data Backdrop (Pixmap : Type 0) : Type 0 where
  white : Backdrop Pixmap
  expanded : Pixmap → Backdrop Pixmap

module _ (q : Widgets) where
  pub record FramelessWidget : Type 0 where
    pub title_label : q.Label
    pub background : Option q.Pixmap
    pub width : ℕ
    pub height : ℕ
    pub is_visible : Bool

  -- The window around it: 2 pixels of margin on each side.
  pub record Frame : Type 0 where
    pub main_window : FramelessWidget
    pub minimum_width : ℕ
    pub minimum_height : ℕ
    pub is_shown : Bool

  -- The widget as its constructor leaves it, with the size that Qt gave it.
  abbrev pub initial : ℕ → ℕ → FramelessWidget
  initial width height = record {
    title_label = q.new_label;
    background = none;
    width = width;
    height = height;
    is_visible = true;
  }

  pub new_frame : FramelessWidget → Frame
  new_frame m = record {
    main_window = m;
    minimum_width = m.width + 4;
    minimum_height = m.height + 4;
    is_shown = false;
  }

  -- The three overloads of setTitleLabel.
  pub data Title : Type 0 where
    picture : q.Pixmap → Title
    picture_and_title : q.Pixmap → String → Title
    title : String → Title

  pub set_title_label : Title → FramelessWidget → FramelessWidget
  set_title_label (picture p) w = record w { title_label = q.set_pixmap p w.title_label }
  set_title_label (picture_and_title p s) w = record w {
    title_label = q.set_text s (q.set_pixmap p w.title_label);
  }
  set_title_label (title s) w = record w { title_label = q.set_text s w.title_label }

  pub set_background : String → FramelessWidget → FramelessWidget
  set_background path w = record w { background = q.load path }

  pub paint_event : FramelessWidget → Backdrop q.Pixmap
  paint_event w = elim w.background [ none ↦ white | some p ↦ expanded p ]

  -- closeRequested closes the window, and then the widget closes.
  pub close_button_clicked : Frame → Frame
  close_button_clicked f =
      let requested = record f { is_shown = false } in
      record requested { main_window = record f.main_window { is_visible = false } }

  pub set_titles : List Title → FramelessWidget → FramelessWidget
  unfolding set_title_label
  set_titles [] w = w
  set_titles (t ∷ rest) w = set_titles rest (set_title_label t w)

  module _ (c : Clears q) where
    -- The text and the picture that a label is left with.
    abbrev pub shown : Title → String × Option q.Pixmap
    shown (picture p) = ("", some p)
    shown (picture_and_title p s) = (s, none)
    shown (title s) = (s, none)

    abbrev pub last_of : Title → List Title → Title
    last_of t [] = t
    last_of t (u ∷ rest) = last_of u rest

    set_title_label-shown :
        (t : Title) (w : FramelessWidget)
        → let l = (set_title_label t w).title_label in (c.text l, c.pixmap l) ≡ shown t
    unfolding set_title_label
    set_title_label-shown (picture p) w =
        rw (c.set_pixmap_clears p w.title_label, c.set_pixmap_lem p w.title_label) refl
    set_title_label-shown (picture_and_title p s) w =
        rw
          (
            c.set_text_lem s (q.set_pixmap p w.title_label),
            c.set_text_clears s (q.set_pixmap p w.title_label),
          )
          refl
    set_title_label-shown (title s) w =
        rw (c.set_text_lem s w.title_label, c.set_text_clears s w.title_label) refl

    -- Where a label shows either a text or a picture, as Qt's does, it shows after any calls of
    -- setTitleLabel what the last of them was given last: its title, or its picture where it had no
    -- title.
    pub set_titles-shown :
        (t : Title) (rest : List Title) (w : FramelessWidget)
        → let l = (set_titles (t ∷ rest) w).title_label in
          (c.text l, c.pixmap l) ≡ shown (last_of t rest)
    unfolding set_titles
    set_titles-shown t [] w = set_title_label-shown t w
    set_titles-shown t (u ∷ rest) w = set_titles-shown u rest (set_title_label t w)

-- ===== src/Client/Window.antt =====
-- app/widgets/FramelessWindow.cpp: a window without a frame is dragged by the mouse. Positions
-- and their arithmetic are Qt's QPoint: a parameter.
pub mod Title
use qt_chatting.Prelude.{Bool, true, false, if◌then◌else◌, ◌≡◌, refl, List, [], ◌∷◌}

-- QPoint's arithmetic.
pub record Points : Type 1 where
  pub Point : Type 0
  pub add : Point → Point → Point
  pub minus : Point → Point → Point

pub record FramelessWindow (Point : Type 0) : Type 0 where
  pub dragging : Bool
  pub drag_start_pos : Point
  pub window_start_pos : Point
  pub pos : Point

module _ (p : Points) where
  -- `left` says whether the button is the left one, `at` is globalPosition().
  pub mouse_press_event : Bool → p.Point → FramelessWindow p.Point → FramelessWindow p.Point
  mouse_press_event left at w =
      if left
      then record w { dragging = true; drag_start_pos = at; window_start_pos = w.pos }
      else w

  pub mouse_move_event : p.Point → FramelessWindow p.Point → FramelessWindow p.Point
  mouse_move_event at w =
      if w.dragging
      then record w { pos = p.add w.window_start_pos (p.minus at w.drag_start_pos) }
      else w

  pub mouse_release_event : Bool → FramelessWindow p.Point → FramelessWindow p.Point
  mouse_release_event left w = if left then record w { dragging = false } else w

  pub moves : List p.Point → FramelessWindow p.Point → FramelessWindow p.Point
  unfolding mouse_move_event
  moves [] w = w
  moves (at ∷ rest) w = moves rest (mouse_move_event at w)

  abbrev pub last_of : p.Point → List p.Point → p.Point
  last_of at [] = at
  last_of at (next ∷ rest) = last_of next rest

  moves-pos :
      (from origin now at : p.Point) (path : List p.Point)
      → (moves (at ∷ path) (record {
        dragging = true;
        drag_start_pos = from;
        window_start_pos = origin;
        pos = now;
      })).pos
        ≡ p.add origin (p.minus (last_of at path) from)
  unfolding moves mouse_move_event
  moves-pos from origin now at [] = refl
  moves-pos from origin now at (next ∷ path) =
      moves-pos from origin (p.add origin (p.minus at from)) next path

  -- After a press of the left button, any moves and a release, the window stands at its old
  -- position plus the difference of the last position of the pointer and the position of the press.
  pub drag-pos :
      (from at : p.Point) (path : List p.Point) (w : FramelessWindow p.Point)
      → (mouse_release_event true (moves (at ∷ path) (mouse_press_event true from w))).pos
        ≡ p.add w.pos (p.minus (last_of at path) from)
  unfolding mouse_press_event mouse_release_event
  drag-pos from at path w = moves-pos from w.pos w.pos at path

-- ===== src/Client/Register/Border.antt =====
-- app/src/RegisterWidget.cpp: the borders that bind gives to the line edits as their texts change.
use qt_chatting.Prelude.{
  ◌<◌, ◌≡◌, refl, arith, inl, inr, String, Bool, false, ◌&&◌, leb, ◌∷◌, if◌then◌else◌,
}
use qt_chatting.Client.Qt.{Qt}
use qt_chatting.Client.Register.{RegisterWidget, slot_confirm_reg}
use qt_chatting.Client.Register.Correct.{Complete, register_post, slot_confirm_reg-Submits}

-- The style sheets that textChanged gives to the two line edits.
abbrev border : Bool → String
border is_valid = if is_valid then "border: 2px solid black" else "border: 2px solid red"

module _ (q : Qt) where
  pub username_border : String → String
  username_border text =
      border (q.matches_username text && leb (q.length text) 10 && leb 3 (q.length text))

  pub mail_border : String → String
  mail_border text = border (q.matches_email text)

module _ (q : Qt) (prefix : String) where
  -- Where the empty text has length zero, a complete form whose user name has fewer than three
  -- characters is posted, though the border of the user name is red.
  pub short_name-posted :
      (w : RegisterWidget)
      → q.length "" ≡ 0
      → Complete q w
      → q.length w.username < 3
      → (username_border q w.username ≡ "border: 2px solid red")
        × ((slot_confirm_reg q prefix w).posted ≡ register_post prefix w ∷ w.posted)
  unfolding username_border
  short_name-posted w empty c short =
      let red : (q.matches_username w.username
            && leb (q.length w.username) 10
            && leb 3 (q.length w.username))
          ≡ false =
        ground arith in
      (
        rw red refl,
        elim (slot_confirm_reg-Submits q prefix w empty) [ inl s ↦ s.1 | inr s ↦ elim (s.0 c) [ ] ],
      )

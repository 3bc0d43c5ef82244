-- ===== src/Tests/Buffer.antt =====
-- The ring buffer at work on four places.
use qt_chatting.Prelude.{ℕ, ◌≡◌, refl, some, List, [], ◌∷◌, replicate, arith}
use qt_chatting.Ring.{Ring, empty_node, full_node}
use qt_chatting.Ring.Queue.{Represents}
use qt_chatting.Ring.Runs.{Op, put, get, replies, expected, replies-eq-expected}

abbrev pub four_places {ℓ} : {T : Type ℓ} → Ring T
four_places = record { buffer = replicate 4 empty_node; capacity = 4; head = 0; tail = 0 }

pub four_places-Represents {ℓ} : {T : Type ℓ} → Represents {T = T} four_places []
four_places-Represents = record {
  power = 2;
  power_of_two = refl;
  in_word = omega arith;
  sized = refl;
  head_in = omega arith;
  room = omega arith;
  tail_at = refl;
  filled = tt;
}

-- One item, at the last place: the next goes to the first.
abbrev wrapped : Ring ℕ
wrapped = record {
  buffer = empty_node ∷ empty_node ∷ empty_node ∷ full_node (some 5) ∷ [];
  capacity = 4;
  head = 3;
  tail = 0;
}

wrapped-Represents : Represents wrapped (5 ∷ [])
wrapped-Represents = record {
  power = 2;
  power_of_two = refl;
  in_word = omega arith;
  sized = refl;
  head_in = omega arith;
  room = omega arith;
  tail_at = refl;
  filled = (refl, tt);
}

abbrev calls : List (Op ℕ)
calls = get ∷ put 1 ∷ put 2 ∷ put 3 ∷ get ∷ put 4 ∷ get ∷ []

replies-eq-expected_example : replies calls wrapped ≡ some (expected 3 calls (5 ∷ []))
replies-eq-expected_example = replies-eq-expected calls 3 wrapped (5 ∷ []) wrapped-Represents refl

-- ===== src/Tests/Network.antt =====
-- A network that cuts the address of the server off.
use Prim.Native.String.{[], ◌∷◌, ◌++◌}
use text.Mathlib.TextLemmas.{nil-append, cons-append}
use qt_chatting.Prelude.{String, ◌≡◌, ◌∙◌, ap}
use qt_chatting.Flow.Network.{Network}

abbrev pub prefix : String
prefix = "http://127.0.0.1:8080"

pub cut : String → String → String
cut [] u = u
cut (c ∷ p) [] = []
cut (c ∷ p) (d ∷ u) = cut p u

pub cut-append : (p t : String) → cut p (p ++ t) ≡ t
unfolding cut
cut-append [] t = nil-append t
cut-append (c ∷ p) t = ap (cut (c ∷ p)) (cons-append c p t) ∙ cut-append p t

abbrev pub network : Network prefix
network = record { path_of = cut prefix; path_lem = cut-append prefix }

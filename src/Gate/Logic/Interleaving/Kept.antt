-- ===== src/Gate/Logic/Interleaving/Kept.antt =====
-- What holds of a request at each of its phases: one that is answered SUCCESS has its account.
use qt_chatting.Prelude.{
  Bool, true, false, String, ◌≡◌, inl, inr, Bool-cases, Option, none, some, List, [], ◌∷◌, ℤ, pos,
  int_eq, Outcome, returned, threw, blocked, undefined, if◌then◌else◌,
}
use qt_chatting.Gate.Logic.{is_code}
use qt_chatting.Gate.Logic.Interleaving.{
  Job, Phase, asking, looking, acting, checking, fetching, changing, answered, asked, looked,
  checked, fetched,
}
use qt_chatting.Gate.Outside.{Outside, Reply, Gate}
use qt_chatting.Sql.Laws
use qt_chatting.Sql.Laws.{User, has_email}
use qt_chatting.Sql.Laws.Unique.{Evolves, Evolves-has_email}

abbrev pub is_success : Option ℤ → Bool
is_success none = false
is_success (some e) = int_eq e (pos 0)

module _ (o : Outside) (l : Laws.Working o.mysql) where
  open o use {json}

  -- A row of the table has the email of the request.
  abbrev pub IsListed : Job o → Gate o → Type 0
  IsListed j g = has_email l.same j.email (l.rows g.world) ≡ true

  abbrev pub ListedIf : Bool → Job o → Gate o → Type 0
  ListedIf true j g = IsListed j g
  ListedIf false j g = Unit

  -- What holds of a request: with an answer of SUCCESS, and in a reset whose email was found, its
  -- email is listed.
  abbrev pub Kept : Gate o → Job o → Phase o → Type 0
  Kept g j asking = Unit
  Kept g j looking = Unit
  Kept g j (acting exist) = Unit
  Kept g j checking = Unit
  Kept g j fetching = IsListed j g
  Kept g j changing = IsListed j g
  Kept g j (answered (returned reply)) = ListedIf (is_success reply.error) j g
  Kept g j (answered (threw e)) = Unit
  Kept g j (answered blocked) = Unit
  Kept g j (answered undefined) = Unit

  abbrev pub AllKept : Gate o → List (Job o × Phase o) → Type 0
  AllKept g [] = Unit
  AllKept g ((j, p) ∷ rest) = Kept g j p × AllKept g rest

  ListedIf-listed : (c : Bool) (j : Job o) (g : Gate o) → IsListed j g → ListedIf c j g
  ListedIf-listed true j g h = h
  ListedIf-listed false j g h = tt

  pub answered-Kept :
      (r : Outcome (Reply json.Value)) (j : Job o) (g : Gate o)
      → IsListed j g
      → Kept g j (answered r)
  answered-Kept (returned reply) j g h = ListedIf-listed (is_success reply.error) j g h
  answered-Kept (threw e) j g h = tt
  answered-Kept blocked j g h = tt
  answered-Kept undefined j g h = tt

  pub asked-Kept : (r : Outcome (Option String)) (j : Job o) (g : Gate o) → Kept g j (asked o j r)
  unfolding asked
  asked-Kept (returned value) j g = elim (Bool-cases (is_code j.code value)) [
    | inl m ↦ rw m tt
    | inr m ↦ rw m tt
  ]
  asked-Kept (threw e) j g = tt
  asked-Kept blocked j g = tt
  asked-Kept undefined j g = tt

  pub looked-Kept : (r : Outcome ℤ) (j : Job o) (g : Gate o) → Kept g j (looked o r)
  unfolding looked
  looked-Kept (returned exist) j g = tt
  looked-Kept (threw e) j g = tt
  looked-Kept blocked j g = tt
  looked-Kept undefined j g = tt

  pub checked-Kept :
      (known : Bool) (j : Job o) (g : Gate o)
      → has_email l.same j.email (l.rows g.world) ≡ known
      → Kept g j (checked o (returned (if known then pos 1 else pos 0)))
  unfolding checked
  checked-Kept true j g h = h
  checked-Kept false j g h = tt

  pub fetched-Kept :
      (r : Outcome Bool) (j : Job o) (g : Gate o) → IsListed j g → Kept g j (fetched o r)
  unfolding fetched
  fetched-Kept (returned true) j g h = h
  fetched-Kept (returned false) j g h = tt
  fetched-Kept (threw e) j g h = tt
  fetched-Kept blocked j g h = tt
  fetched-Kept undefined j g h = tt

  ListedIf-later :
      (c : Bool) (g h : Gate o) (j : Job o)
      → Evolves l.same (l.rows g.world) (l.rows h.world)
      → ListedIf c j g
      → ListedIf c j h
  ListedIf-later true g h j ev k = Evolves-has_email l.same j.email _ _ ev k
  ListedIf-later false g h j ev k = tt

  pub Kept-later :
      (g h : Gate o)
      → Evolves l.same (l.rows g.world) (l.rows h.world)
      → (j : Job o) (p : Phase o) → Kept g j p
      → Kept h j p
  Kept-later g h ev j asking k = tt
  Kept-later g h ev j looking k = tt
  Kept-later g h ev j (acting exist) k = tt
  Kept-later g h ev j checking k = tt
  Kept-later g h ev j fetching k = Evolves-has_email l.same j.email _ _ ev k
  Kept-later g h ev j changing k = Evolves-has_email l.same j.email _ _ ev k
  Kept-later g h ev j (answered (returned reply)) k =
      ListedIf-later (is_success reply.error) g h j ev k
  Kept-later g h ev j (answered (threw e)) k = tt
  Kept-later g h ev j (answered blocked) k = tt
  Kept-later g h ev j (answered undefined) k = tt

  pub AllKept-later :
      (g h : Gate o)
      → Evolves l.same (l.rows g.world) (l.rows h.world)
      → (jobs : List (Job o × Phase o)) → AllKept g jobs
      → AllKept h jobs
  AllKept-later g h ev [] ks = tt
  AllKept-later g h ev ((j, p) ∷ rest) (k, ks) =
      (Kept-later g h ev j p k, AllKept-later g h ev rest ks)

-- ===== src/Rpc/Threads.antt =====
-- Several threads on one RpcConnectionPool: any interleaving of its two methods.
use qt_chatting.Prelude.{
  ℕ, suc, ◌≡◌, ◌∙◌, ap, subst, subst₂, sym, inl, inr, some, List, [], ◌∷◌, ◌++◌, arith, length,
  length-append, returned,
}
use qt_chatting.Rpc.{Grpc, Rpc, get_connection, release_connection}
use qt_chatting.Rpc.Bounds.{Holds, get_connection-Acquired, release_connection-Holds}

module _ {World : Type 0} (g : Grpc World) where
  -- The pool, and the stubs that the threads hold at the moment.
  pub record Shared : Type 0 where
    pub rpc : Rpc g
    pub lent : List g.Stub

  -- A thread gets a stub, a thread gives one back, or something else goes on in the world. A call
  -- that waits makes no step.
  pub data Step (c d : Shared) : Type 0 where
    acquires :
        (x : g.Stub)
        → get_connection g c.rpc ≡ (returned (some x), d.rpc)
        → d.lent ≡ x ∷ c.lent
        → Step c d
    releases :
        (x : g.Stub) (before after : List g.Stub)
        → c.lent ≡ before ++ x ∷ after
        → release_connection g (some x) c.rpc ≡ (returned tt, d.rpc)
        → d.lent ≡ before ++ after
        → Step c d
    serves : (w : World) → d ≡ record c { rpc = record c.rpc { world = w } } → Step c d

  pub data Reach (c : Shared) : Shared → Type 0 where
    here : Reach c c
    next : {d e : Shared} → Reach c d → Step d e → Reach c e

  max_size-get_connection : (s : Rpc g) → (get_connection g s).1.max_size ≡ s.max_size
  unfolding get_connection
  max_size-get_connection s = ground arith

  max_size-release_connection :
      (s : Rpc g) (x : g.Stub) → (release_connection g (some x) s).1.max_size ≡ s.max_size
  unfolding release_connection
  max_size-release_connection s x = ground arith

  -- The pool and its `max`, with as many stubs lent as the threads hold.
  pub record IsSound (max : ℕ) (c : Shared) : Type 0 where
    pub stored : List g.Stub
    pub holds : Holds c.rpc.pool stored (length c.lent)
    pub limit : c.rpc.max_size ≡ max

  acquires-IsSound :
      (max : ℕ) (c d : Shared) (x : g.Stub)
      → get_connection g c.rpc ≡ (returned (some x), d.rpc)
      → d.lent ≡ x ∷ c.lent
      → (stored : List g.Stub) → Holds c.rpc.pool stored (length c.lent)
      → c.rpc.max_size ≡ max
      → IsSound max d
  acquires-IsSound max c d x e l [] h m = elim (get_connection-Acquired g c.rpc [] _ h) [
    | inl (below, t, out, h', w) ↦
        let same : t ≡ d.rpc = ap (λ r. r.1) (sym out ∙ e) in
        record {
          stored = [];
          holds = subst₂ (λ (r : Rpc g) n. Holds r.pool [] n) same (ap length (sym l)) h';
          limit = ap (λ r. r.1.max_size) (sym e) ∙ max_size-get_connection c.rpc ∙ m;
        }
    | inr (full, out) ↦ absurd (cc)
  ]
  acquires-IsSound max c d x e l (y ∷ rest) h m =
      let (t, out, h', w) = get_connection-Acquired g c.rpc (y ∷ rest) _ h in
      let same : t ≡ d.rpc = ap (λ r. r.1) (sym out ∙ e) in
      record {
        stored = rest;
        holds = subst₂ (λ (r : Rpc g) n. Holds r.pool rest n) same (ap length (sym l)) h';
        limit = ap (λ r. r.1.max_size) (sym e) ∙ max_size-get_connection c.rpc ∙ m;
      }

  Step-IsSound : {max : ℕ} {c d : Shared} → Step c d → IsSound max c → IsSound max d
  Step-IsSound {max} {c} {d} (acquires x e l) v =
      acquires-IsSound max c d x e l v.stored v.holds v.limit
  Step-IsSound {max} {c} {d} (releases x before after split e l) v =
      let n = length (before ++ after) in
      let count : length c.lent ≡ suc n =
        ap length split
        ∙ omega (arith, length-append before (x ∷ after), length-append before after) in
      let (t, out, h', w) =
        release_connection-Holds g c.rpc v.stored n x
          (subst (Holds c.rpc.pool v.stored) count v.holds) in
      let same : t ≡ d.rpc = ap (λ r. r.1) (sym out ∙ e) in
      record {
        stored = v.stored ++ x ∷ [];
        holds =
            subst₂ (λ (r : Rpc g) k. Holds r.pool (v.stored ++ x ∷ []) k) same (ap length (sym l))
              h';
        limit = ap (λ r. r.1.max_size) (sym e) ∙ max_size-release_connection c.rpc x ∙ v.limit;
      }
  Step-IsSound {max} {c} {d} (serves w e) v =
      rw e (record { stored = v.stored; holds = v.holds; limit = v.limit })

  -- However the threads that get stubs and give them back interleave, a sound pool stays sound: the
  -- stubs stored and the stubs lent are as many as were created, and at most max_size_.
  pub Reach-IsSound : {max : ℕ} {c d : Shared} → IsSound max c → Reach c d → IsSound max d
  Reach-IsSound v here = v
  Reach-IsSound v (next r s) = Step-IsSound s (Reach-IsSound v r)

-- ===== src/Gate/Connection/Life.antt =====
-- HttpConnection.cpp from `start` to the end of a connection: which of its asynchronous operations are
-- pending, and what happens when one of them completes. Each pending operation holds a shared_ptr to
-- the connection, and so does a handler that has begun; the connection is destroyed, and its socket
-- closed, when none is pending and no handler runs.
use qt_chatting.Prelude.{
  ℕ, suc, ◌+◌, ◌*◌, ◌≤◌, ◌<◌, ◌≡◌, refl, ap, ◌∙◌, ◌⊎◌, inl, inr, Bool, true, false, List, [],
  length, ltb, arith, Bool-cases, ◌||◌, IsOver, returned, threw, blocked, undefined,
}
use qt_chatting.Gate.Outside.{Outside, Gate}
use qt_chatting.Gate.Connection.{
  Request, Response, HttpConnection, Session, close, on_read, on_write, on_deadline,
}
use qt_chatting.Gate.Connection.Written.{AddsOne, on_read-written}

module _ (o : Outside) where
  open o use {json}

  -- The operations that are pending: async_read, async_write, and async_wait if the timer waits. And
  -- whether the handler of the read has begun and not ended, since it waits on a condition variable
  -- or its behaviour is undefined; the program has no other handler that can.
  pub record Life : Type 0 where
    pub session : Session o
    pub open session use *
    pub reading : Bool
    pub handling : Bool
    pub writing : Bool

  -- `start` on a connection that has been accepted.
  abbrev pub start : Gate o → Request → Response → Life
  start g request response = record {
    session = record {
      gate = g;
      connection = record {
        request = request;
        response = response;
        written = [];
        is_waiting = false;
        is_open = true;
        send_is_shut = false;
      };
    };
    reading = true;
    handling = false;
    writing = false;
  }

  abbrev with_connection : HttpConnection → Session o → Session o
  with_connection c s = record s { connection = c }

  -- When the handler of the read has ended.
  abbrev after_read : Bool → Life → Life
  after_read ec c = record {
    session = (on_read o ec c.session).1;
    reading = false;
    handling = false;
    writing = ltb (length c.written) (length (on_read o ec c.session).1.written);
  }

  -- What the connection itself does: an operation completes, with error codes that the system
  -- chooses, or it is destroyed. A handler that waits has ended as soon as the state that other
  -- threads leave lets it end, and one with undefined behaviour never has.
  pub data Own (c d : Life) : Type 0 where
    reading_done :
        (ec : Bool)
        → c.reading ≡ true
        → IsOver (on_read o ec c.session).0
        → d ≡ after_read ec c
        → Own c d
    reading_begun :
        c.reading ≡ true
        → ¬ IsOver (on_read o false c.session).0
        → d ≡ record c { reading = false; handling = true }
        → Own c d
    handling_done :
        c.handling ≡ true → IsOver (on_read o false c.session).0 → d ≡ after_read false c → Own c d
    writing_done :
        (ec shutdown_ec : Bool)
        → c.writing ≡ true
        → d ≡ record c {
          session = with_connection (on_write o ec shutdown_ec c.connection) c.session;
          writing = false;
        }
        → Own c d
    deadline_over :
        c.is_waiting ≡ true
        → d ≡ record c { session = with_connection (on_deadline o c.connection) c.session }
        → Own c d
    destroyed :
        c.reading ≡ false
        → c.handling ≡ false
        → c.writing ≡ false
        → c.is_waiting ≡ false
        → c.is_open ≡ true
        → d ≡ record c {
          session = with_connection (record c.connection { is_open = false }) c.session;
        }
        → Own c d

  -- Other connections change the state of the server in between.
  pub data Run (c : Life) : ℕ → Life → Type 0 where
    here : Run c 0 c
    own : {n : ℕ} {d e : Life} → Run c n d → Own d e → Run c (suc n) e
    other :
        {n : ℕ} {d e : Life}
        → Run c n d
        → (g : Gate o) → e ≡ record d { session = record d.session { gate = g } }
        → Run c n e

  abbrev one_if : Bool → ℕ
  one_if true = 1
  one_if false = 0

  -- How many steps of its own a connection has left at most.
  abbrev pub steps_left : Life → ℕ
  steps_left c =
      5 * one_if c.reading
      + 4 * one_if c.handling
      + one_if c.writing
      + one_if c.is_waiting
      + one_if c.is_open

  abbrev busy : Life → Bool
  busy c = c.reading || c.handling

  -- Until its request has been handled nothing has been written and nothing else is pending; it
  -- writes at most one response.
  pub record IsSound (c : Life) : Type 0 where
    pub at_first : busy c ≡ true → c.written ≡ []
    pub alone : busy c ≡ true → (c.writing ≡ false) × (c.is_waiting ≡ false)
    pub at_most_one : length c.written ≤ 1

  one_if-le : (b : Bool) → one_if b ≤ 1
  one_if-le true = omega arith
  one_if-le false = omega arith

  length-AddsOne :
      (before after : List Response) → AddsOne before after → length after ≤ length before + 1
  length-AddsOne before after (inl e) = rw e (omega arith)
  length-AddsOne before after (inr (r, e)) = rw e (omega arith)

  on_write-written : (ec sc : Bool) (c : HttpConnection) → (on_write o ec sc c).written ≡ c.written
  unfolding on_write close
  on_write-written ec sc c = ground arith

  on_write-waiting :
      (ec sc : Bool) (c : HttpConnection)
      → (one_if (on_write o ec sc c).is_waiting ≤ one_if c.is_waiting)
        × (one_if (on_write o ec sc c).is_open ≤ one_if c.is_open)
  unfolding on_write close
  on_write-waiting true sc c = (omega arith, omega arith)
  on_write-waiting false true c = (omega arith, omega arith)
  on_write-waiting false false c = elim (Bool-cases c.is_waiting) [
    | inl w ↦ rw w (omega arith, omega arith)
    | inr w ↦ rw w (omega arith, omega arith)
  ]

  after_read-IsSound : (ec : Bool) (c d : Life) → d ≡ after_read ec c → c.written ≡ [] → IsSound d
  after_read-IsSound ec c d e first = rw e (record {
    at_first = λ f. absurd (cc);
    alone = λ f. absurd (cc);
    at_most_one =
        omega (arith, length-AddsOne _ _ (on_read-written o ec c.session), ap {B = ℕ} length first);
  })

  Own-IsSound : (c d : Life) → Own c d → IsSound c → IsSound d
  unfolding on_deadline close
  Own-IsSound c d (reading_done ec now over e) v =
      after_read-IsSound ec c d e (v.at_first (rw now refl))
  Own-IsSound c d (reading_begun now stuck e) v = rw e (record {
    at_first = λ f. v.at_first (rw now refl);
    alone = λ f. v.alone (rw now refl);
    at_most_one = v.at_most_one;
  })
  Own-IsSound c d (handling_done now over e) v =
      after_read-IsSound false c d e (v.at_first (ground arith))
  Own-IsSound c d (writing_done ec sc now e) v = rw e (record {
    at_first = λ f. on_write-written ec sc c.connection ∙ v.at_first f;
    alone = λ f. let (idle, w) = v.alone f in cc (now, idle);
    at_most_one = rw (on_write-written ec sc c.connection) v.at_most_one;
  })
  Own-IsSound c d (deadline_over now e) v =
      let kept : (on_deadline o c.connection).written ≡ c.written = rw now in
      rw e (record {
        at_first = λ f. kept ∙ v.at_first f;
        alone = λ f. let (idle, w) = v.alone f in cc (now, w);
        at_most_one = rw kept v.at_most_one;
      })
  Own-IsSound c d (destroyed a k b f g e) v =
      rw e (record { at_first = v.at_first; alone = v.alone; at_most_one = v.at_most_one })

  after_read-steps_left : (ec : Bool) (c : Life) → steps_left (after_read ec c) ≤ 3
  after_read-steps_left ec c = omega (
    arith,
    one_if-le (ltb (length c.written) (length (on_read o ec c.session).1.written)),
    one_if-le (on_read o ec c.session).1.is_waiting,
    one_if-le (on_read o ec c.session).1.is_open,
  )

  Own-steps_left : (c d : Life) → Own c d → IsSound c → steps_left d < steps_left c
  unfolding on_deadline close
  Own-steps_left c d (reading_done ec now over e) v =
      rw (e, now) (omega (arith, after_read-steps_left ec c))
  Own-steps_left c d (reading_begun now stuck e) v =
      rw (e, now) (omega (arith, one_if-le c.handling))
  Own-steps_left c d (handling_done now over e) v =
      rw (e, now) (omega (arith, after_read-steps_left false c))
  Own-steps_left c d (writing_done ec sc now e) v =
      let (w, x) = on_write-waiting ec sc c.connection in rw (e, now) (omega arith)
  Own-steps_left c d (deadline_over now e) v = rw (e, now) (omega arith)
  Own-steps_left c d (destroyed a k b f g e) v = rw (e, g) (omega arith)

  other-IsSound :
      (c d : Life) (g : Gate o)
      → d ≡ record c { session = record c.session { gate = g } }
      → IsSound c
      → IsSound d
  other-IsSound c d g e v =
      rw e (record { at_first = v.at_first; alone = v.alone; at_most_one = v.at_most_one })

  start-IsSound :
      (g : Gate o) (request : Request) (response : Response) → IsSound (start g request response)
  start-IsSound g request response = record {
    at_first = λ _. refl;
    alone = λ _. (refl, refl);
    at_most_one = omega arith;
  }

  Run-IsSound : (c : Life) (n : ℕ) (d : Life) → IsSound c → Run c n d → IsSound d
  Run-IsSound c n d v here = v
  Run-IsSound c (suc n) d v (own {d = e} r s) = Own-IsSound e d s (Run-IsSound c n e v r)
  Run-IsSound c n d v (other {d = e} r g q) = other-IsSound e d g q (Run-IsSound c n e v r)

  Run-steps_left :
      (c : Life) (n : ℕ) (d : Life) → IsSound c → Run c n d → n + steps_left d ≤ steps_left c
  Run-steps_left c n d v here = omega arith
  Run-steps_left c (suc n) d v (own {d = e} r s) =
      omega (arith, Run-steps_left c n e v r, Own-steps_left e d s (Run-IsSound c n e v r))
  Run-steps_left c n d v (other {d = e} r g q) = rw q (Run-steps_left c n e v r)

  idle_steps_on :
      (c : Life) → c.is_open ≡ true → c.reading ≡ false → c.handling ≡ false → (d : Life) × Own c d
  idle_steps_on c open_ r k = elim (Bool-cases c.writing) [
    | inl w ↦ (_, Own.writing_done false false w refl)
    | inr w ↦ elim (Bool-cases c.is_waiting) [
      | inl t ↦ (_, Own.deadline_over t refl)
      | inr t ↦ (_, Own.destroyed r k w t open_ refl)
    ]
  ]

  -- A read that fails closes the socket and waits for nothing.
  pub on_read-IsOver : (s : Session o) → IsOver (on_read o true s).0
  unfolding on_read
  on_read-IsOver s = tt

  IsOver-cases : (s : Session o) → IsOver (on_read o false s).0 ⊎ ¬ IsOver (on_read o false s).0
  IsOver-cases s = elim (on_read o false s).0 as (λ r. IsOver r ⊎ ¬ IsOver r) [
    | returned a ↦ inl tt
    | threw e ↦ inl tt
    | blocked ↦ inr (λ h. h)
    | undefined ↦ inr (λ h. h)
  ]

  -- The handler of the read has begun, and in the state as it is it does not end.
  abbrev pub Hangs : Life → Type 0
  Hangs c = (c.handling ≡ true) × ¬ IsOver (on_read o false c.session).0

  -- A connection that is still open has a step to make, or its handler hangs.
  steps_on : (c : Life) → c.is_open ≡ true → Hangs c ⊎ ((d : Life) × Own c d)
  steps_on c open_ = elim (IsOver-cases c.session) [
    | inl over ↦ elim (Bool-cases c.reading) [
      | inl r ↦ inr (_, Own.reading_done false r over refl)
      | inr r ↦ elim (Bool-cases c.handling) [
        | inl k ↦ inr (_, Own.handling_done k over refl)
        | inr k ↦ inr (idle_steps_on c open_ r k)
      ]
    ]
    | inr stuck ↦ elim (Bool-cases c.reading) [
      | inl r ↦ inr (_, Own.reading_begun r stuck refl)
      | inr r ↦ elim (Bool-cases c.handling) [
        | inl k ↦ inl (k, stuck)
        | inr k ↦ inr (idle_steps_on c open_ r k)
      ]
    ]
  ]

  -- Whatever its operations end in and whatever other connections do in between, a connection
  -- writes at most one response and takes at most six steps of its own; and until its socket is
  -- closed it has another step to take, or the handler of its read has begun and in the state as it
  -- is waits on a condition variable or is undefined.
  pub Run-bounds :
      (g : Gate o) (request : Request) (response : Response) (n : ℕ) (d : Life)
      → Run (start g request response) n d
      → (length d.written ≤ 1) × (n ≤ 6) × ((d.is_open ≡ false) ⊎ Hangs d ⊎ ((e : Life) × Own d e))
  Run-bounds g request response n d r =
      let v = start-IsSound g request response in
      let s = Run-steps_left _ n d v r in
      (
        (Run-IsSound _ n d v r).at_most_one,
        omega (arith, s),
        elim (Bool-cases d.is_open) [ inl o ↦ inr (steps_on d o) | inr c ↦ inl c ],
      )

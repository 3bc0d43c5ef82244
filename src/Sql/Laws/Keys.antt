-- ===== src/Sql/Laws/Keys.antt =====
-- An insert of an email that has a row already: what a table without a unique key on its emails does,
-- and what one with such a key does. The schema is not in the repository, so both are hypotheses.
use qt_chatting.Prelude.{String, true, false, [], ◌∷◌, ◌++◌, ◌≡◌}
use qt_chatting.Sql.Driver.{MySql}
use qt_chatting.Sql.Dao.{insert_query}
use qt_chatting.Sql.Laws
use qt_chatting.Sql.Laws.{User, has_email}

module _ {World : Type 0} (m : MySql World) (l : Laws.Working m) where
  -- Without a key every row is taken.
  pub record TakesAny : Type 0 where
    pub execute_any :
        (st : m.Stmt) (n e h : String) (w : World)
        → l.text st w ≡ insert_query
        → l.params st w ≡ n ∷ e ∷ h ∷ []
        → (v : World) × (m.stmt_execute st w ≡ (false, v))
          × (l.rows v ≡ l.rows w ++ record { name = n; email = e; pwd_hash = h } ∷ [])
          × (m.stmt_affected_rows st v ≡ 1)

  -- With a key the execution fails.
  pub record HasKey : Type 0 where
    pub execute_duplicate :
        (st : m.Stmt) (n e h : String) (w : World)
        → l.text st w ≡ insert_query
        → l.params st w ≡ n ∷ e ∷ h ∷ []
        → has_email l.same e (l.rows w) ≡ true
        → (v : World) × (m.stmt_execute st w ≡ (true, v)) × (l.rows v ≡ l.rows w)

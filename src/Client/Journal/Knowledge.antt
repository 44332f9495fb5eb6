-- ===== src/Client/Journal/Knowledge.antt =====
-- apps/client/src/journal.ts: which Commands the journal knows.
use odyshell.Base.{
  ◌≡◌, ◌≢◌, ◌∙◌, refl, Bool, true, Option, none, some, List, [], ◌∷◌, ◌++◌, String, find, update,
  remove, any, any-update, find-any, arith,
}
use odyshell.Client.Journal.{
  Row, CommandResult, has_id, Reception, received_row, receive, complete, complete_row, durable,
  mark_running, acknowledge, reception, State,
}

abbrev pub row_id : Row → String
row_id r = r.id

abbrev pub IsKnown : String → List Row → Type 0
IsKnown i rows = any (has_id i) rows ≡ true

module _ (i : String) where
  pub update-IsKnown :
      (p : Row → Bool) (f : Row → Row) (rows : List Row)
      → ((r : Row) → (f r).id ≡ r.id)
      → IsKnown i rows
      → IsKnown i (update p f rows)
  update-IsKnown p f rows same h = any-update row_id p f i rows same ∙ h

  pub complete-IsKnown :
      (c : String) (r : CommandResult) (rows : List Row)
      → IsKnown i rows
      → IsKnown i (complete c r rows)
  unfolding complete
  complete-IsKnown c r rows h =
      update-IsKnown (has_id c) (complete_row (durable (find (has_id c) rows) r)) rows (λ x. refl) h

  pub mark_running-IsKnown :
      (c : String) (rows : List Row) → IsKnown i rows → IsKnown i (mark_running c rows)
  unfolding mark_running
  mark_running-IsKnown c rows h =
      update-IsKnown (has_id c) (λ r. record r { state = State.running }) rows (λ x. refl) h

  IsKnown-append : (rows added : List Row) → IsKnown i rows → IsKnown i (rows ++ added)
  unfolding any
  IsKnown-append [] added h = cc
  IsKnown-append (r ∷ rows) added h = ground (arith, IsKnown-append rows added)

  pub receive-IsKnown :
      (c : String) (rows : List Row) → IsKnown i rows → IsKnown i (receive c rows).0
  unfolding receive received_row
  receive-IsKnown c rows h = go (find (has_id c) rows)
    where
      go : (o : Option Row) → IsKnown i (received_row rows c o).0
      go none = IsKnown-append rows _ h
      go (some r) = h

  -- A Command that the journal knows is not new.
  pub receive_known : (rows : List Row) → IsKnown i rows → (receive i rows).1 ≢ Reception.new
  unfolding receive received_row
  receive_known rows h = go (find (has_id i) rows) refl
    where
      old : (s : State) → reception s ≢ Reception.new
      old State.received e = cc
      old State.running e = cc
      old State.completed e = cc

      go : (o : Option Row) → find (has_id i) rows ≡ o → (received_row rows i o).1 ≢ Reception.new
      go none e k = let unknown = find-any (has_id i) rows e in cc
      go (some r) e k = old r.state k

  pub acknowledge-IsKnown :
      (c : String) (rows : List Row) → c ≢ i → IsKnown i rows → IsKnown i (acknowledge c rows)
  unfolding acknowledge any remove
  acknowledge-IsKnown c [] other h = cc
  acknowledge-IsKnown c (r ∷ rows) other h = ground (arith, acknowledge-IsKnown c rows other)

-- ===== src/Client/Journal/Truncation.antt =====
-- apps/client/src/journal.ts: what the journal says of a Command's output.
use odyshell.Base.{
  Bool, true, false, not, ◌&&◌, Option, none, some, List, [], ◌∷◌, ◌++◌, String, ◌≡◌, ◌≢◌, refl,
  inl, inr, arith, find, update, remove, any, All, All-update, All-remove, All-find, All-update_one,
  has_key, HasUniqueKeys, update-HasUniqueKeys, update_none, find-any, find-test, if◌then◌else◌,
  Option-cases,
}
use odyshell.Client.Journal.{
  State, Row, CommandResult, received, running, is_completed, is_recoverable, has_id, recover_row,
  recover_interrupted, receive, mark_running, mark_output_unconfirmed, complete, complete_row,
  durable, mark_output_truncated, truncate_found, found_result, acknowledge,
}

abbrev pub row_id : Row → String
row_id r = r.id

abbrev pub Says : Option CommandResult → State → Bool → Type 0
Says none state lost = is_completed state ≡ false
Says (some r) state lost = r.output_truncated ≡ lost

-- A row's result tells whether output was lost as the row itself does, and a completed row has one.
abbrev pub IsFaithful : Row → Type 0
IsFaithful r = Says r.result r.state r.output_truncated

-- The rows have different ids, and each is faithful.
abbrev pub IsSound : List Row → Type 0
IsSound rows = HasUniqueKeys row_id rows × All IsFaithful rows

any-append :
    (j : String) (xs : List Row) (r : Row)
    → any (has_key row_id j) xs ≡ false
    → j ≢ r.id
    → any (has_key row_id j) (xs ++ (r ∷ [])) ≡ false
unfolding any
any-append j [] r h other = ground arith
any-append j (x ∷ xs) r h other = ground (arith, any-append j xs r)

append_new :
    (r : Row) (xs : List Row)
    → any (has_key row_id r.id) xs ≡ false
    → IsFaithful r
    → IsSound xs
    → IsSound (xs ++ (r ∷ []))
unfolding any
append_new r [] fresh faithful h = ((refl, tt), (faithful, tt))
append_new r (x ∷ xs) fresh faithful ((unique, uniques), (one, more)) =
    let rest = append_new r xs (ground arith) faithful (uniques, more) in
    ((any-append x.id xs r unique (ground arith), rest.0), (one, rest.1))

pub receive-IsSound : (i : String) (rows : List Row) → IsSound rows → IsSound (receive i rows).0
unfolding receive
receive-IsSound i rows h = elim (Option-cases (find (has_id i) rows)) [
  | inl missing ↦
      rw (missing, receive)
        (append_new
          (record {
            id = i;
            state = received;
            result = none;
            output_truncated = false;
            output_unconfirmed = false;
          })
          rows (find-any (has_id i) rows missing) refl h)
  | inr (r, at_r) ↦ rw (at_r, receive) h
]

-- An update that keeps ids, and keeps each row that it changes faithful.
updated :
    (p : Row → Bool) (f : Row → Row) (rows : List Row)
    → ((r : Row) → (f r).id ≡ r.id)
    → ((r : Row) → IsFaithful r → IsFaithful (f r))
    → IsSound rows
    → IsSound (update p f rows)
updated p f rows same keeps h = (
  update-HasUniqueKeys row_id p f rows same h.0,
  All-update IsFaithful p f rows (λ r at_r. keeps r) h.1,
)

running-IsFaithful : (r : Row) → IsFaithful r → IsFaithful (record r { state = running })
running-IsFaithful r h = ground arith

truncated-Says :
    (o : Option CommandResult) (state : State) (lost : Bool)
    → Says o state lost
    → Says (truncate_found o) state true
truncated-Says none state lost h = h
truncated-Says (some r) state lost h = ground arith

-- The result that is written is the one that was found.
truncate_row : Option Row → Row → Row
truncate_row o r = record r {
  result = truncate_found (found_result o);
  output_truncated = true;
  output_unconfirmed = false;
}

truncate_keeps :
    (i : String) (o : Option Row) (rows : List Row)
    → find (has_id i) rows ≡ o
    → IsSound rows
    → IsSound (update (has_id i) (truncate_row o) rows)
unfolding truncate_row
truncate_keeps i none rows e h =
    rw (update_none (has_id i) (truncate_row none) rows (find-any (has_id i) rows e)) h
truncate_keeps i (some c) rows e h =
    let is_c : has_id i c ≡ true = find-test (has_id i) rows c e in
    (
      update-HasUniqueKeys row_id (has_id i) (truncate_row (some c)) rows (λ r. refl) h.0,
      All-update_one row_id IsFaithful (has_id i) (has_id i) (truncate_row (some c)) rows c h.0 e
          (λ r at_i. ground arith)
          (truncated-Says c.result c.state c.output_truncated
            (All-find IsFaithful (has_id i) rows c h.1 e))
          h.1,
    )

pub mark_output_truncated-IsSound :
    (i : String) (rows : List Row) → IsSound rows → IsSound (mark_output_truncated i rows)
unfolding mark_output_truncated truncate_row
mark_output_truncated-IsSound i rows h = truncate_keeps i (find (has_id i) rows) rows refl h

any-remove :
    (i : String) (p : Row → Bool) (rows : List Row)
    → any (has_key row_id i) rows ≡ false
    → any (has_key row_id i) (remove p rows) ≡ false
unfolding any remove
any-remove i p [] h = refl
any-remove i p (r ∷ rs) h = ground (arith, any-remove i p rs)

remove-HasUniqueKeys :
    (p : Row → Bool) (rows : List Row)
    → HasUniqueKeys row_id rows
    → HasUniqueKeys row_id (remove p rows)
unfolding remove
remove-HasUniqueKeys p [] h = tt
remove-HasUniqueKeys p (r ∷ rs) h =
    ground (arith, any-remove r.id p rs h.0, remove-HasUniqueKeys p rs h.1)

any-recover :
    (i : String) (rows : List Row)
    → any (has_key row_id i) (recover_interrupted rows).0 ≡ any (has_key row_id i) rows
unfolding any recover_interrupted recover_row
any-recover i [] = refl
any-recover i (r ∷ rs) = ground (arith, any-recover i rs)

recover-IsFaithful :
    (r : Row) → IsFaithful r → IsFaithful (if is_recoverable r then recover_row r else r)
unfolding recover_row
recover-IsFaithful r h = ground arith

recover_unique : (r : Row) → row_id (if is_recoverable r then recover_row r else r) ≡ r.id
unfolding recover_row
recover_unique r = ground arith

pub recover_interrupted-IsSound :
    (rows : List Row) → IsSound rows → IsSound (recover_interrupted rows).0
unfolding recover_interrupted
recover_interrupted-IsSound [] h = h
recover_interrupted-IsSound (r ∷ rs) ((unique, uniques), (one, more)) =
    let rest = recover_interrupted-IsSound rs (uniques, more) in
    (
      (rw (recover_unique r, any-recover r.id rs) unique, rest.0),
      (recover-IsFaithful r one, rest.1),
    )

-- What the Client does to its journal.
pub data Entry : Type 0 where
  restarts : Entry
  receives starts doubts truncates acknowledged : (command_id : String) → Entry
  completes : (command_id : String) → CommandResult → Entry

unfoldable pub enter : Entry → List Row → List Row
enter restarts rows = (recover_interrupted rows).0
enter (receives i) rows = (receive i rows).0
enter (starts i) rows = mark_running i rows
enter (doubts i) rows = mark_output_unconfirmed i rows
enter (truncates i) rows = mark_output_truncated i rows
enter (acknowledged i) rows = acknowledge i rows
enter (completes i result) rows = complete i result rows

unfoldable pub journal : List Entry → List Row → List Row
journal [] rows = rows
journal (e ∷ rest) rows = journal rest (enter e rows)

enter-IsSound : (e : Entry) (rows : List Row) → IsSound rows → IsSound (enter e rows)
unfolding enter mark_running mark_output_unconfirmed acknowledge complete
enter-IsSound restarts rows h = recover_interrupted-IsSound rows h
enter-IsSound (receives i) rows h = receive-IsSound i rows h
enter-IsSound (starts i) rows h =
    updated (has_id i) (λ r. record r { state = running }) rows (λ r. refl) running-IsFaithful h
enter-IsSound (doubts i) rows h =
    updated (λ r. has_id i r && not r.output_truncated)
      (λ r. record r { output_unconfirmed = true }) rows (λ r. refl) (λ r faithful. faithful) h
enter-IsSound (truncates i) rows h = mark_output_truncated-IsSound i rows h
enter-IsSound (acknowledged i) rows h =
    let p : Row → Bool = λ r. has_id i r && is_completed r.state in
    (remove-HasUniqueKeys p rows h.0, All-remove IsFaithful p rows h.1)
enter-IsSound (completes i result) rows h =
    updated (has_id i) (complete_row (durable (find (has_id i) rows) result)) rows (λ r. refl)
      (λ r faithful. refl) h

-- Whatever the Client does to its journal, its rows keep different ids, every completed Command has
-- its result, and a result tells that output was lost exactly if its row does. The journal starts
-- empty, or as any journal of which this holds.
pub journal-IsSound :
    (entries : List Entry) (rows : List Row) → IsSound rows → IsSound (journal entries rows)
unfolding journal
journal-IsSound [] rows h = h
journal-IsSound (e ∷ rest) rows h = journal-IsSound rest (enter e rows) (enter-IsSound e rows h)

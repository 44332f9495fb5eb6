-- ===== src/Client/Journal/Loss.antt =====
-- apps/client/src/journal.ts: output that was lost stays lost in the Client's report.
use odyshell.Base.{
  true, not, ◌&&◌, some, List, [], ◌∷◌, ◌++◌, String, ◌≡◌, ◌≢◌, refl, inl, inr, arith, find, remove,
  All, Follows, Follows-refl, Follows-trans, Follows-update, All-find, find-test, if◌then◌else◌,
  Bool-cases, Option-cases,
}
use odyshell.Client.Journal.{
  Row, CommandResult, running, is_completed, is_recoverable, has_id, recover_row,
  recover_interrupted, receive, received_row, mark_running, mark_output_unconfirmed, complete,
  complete_row, durable, mark_output_truncated, acknowledge, result,
}
use odyshell.Client.Journal.Truncation.{
  Entry, restarts, receives, starts, doubts, truncates, acknowledged, completes, enter, journal,
  IsSound, IsFaithful, journal-IsSound,
}

abbrev Loses : Row → Row → Type 0
Loses a b = a.output_truncated ≡ true → b.output_truncated ≡ true

-- The row of the id, if there is one, is still there, and has not forgotten that output was lost.
abbrev Remembers : String → List Row → List Row → Type 0
Remembers i = Follows Loses (has_id i)

recover_one : (r : Row) → Loses r (if is_recoverable r then recover_row r else r)
unfolding recover_row
recover_one r lost = ground arith

recover_id :
    (i : String) (r : Row) → has_id i (if is_recoverable r then recover_row r else r) ≡ has_id i r
unfolding recover_row
recover_id i r = ground arith

recover-Remembers : (i : String) (rows : List Row) → Remembers i rows (recover_interrupted rows).0
unfolding find recover_interrupted
recover-Remembers i [] x e = cc
recover-Remembers i (r ∷ rs) x e = elim (Bool-cases (has_id i r)) [
  | inl here ↦
      let same : r ≡ x = ground arith in
      (
        (if is_recoverable r then recover_row r else r),
        rw (recover_id i r, here) refl,
        rw (← same) (recover_one r),
      )
  | inr there ↦
      let (y, at_y, lost) = recover-Remembers i rs x (rw (there, find) at e) in
      (y, rw (recover_id i r, there) at_y, lost)
]

find-append :
    (i : String) (rows more : List Row) (x : Row)
    → find (has_id i) rows ≡ some x
    → find (has_id i) (rows ++ more) ≡ some x
unfolding find
find-append i [] more x e = cc
find-append i (r ∷ rs) more x e = ground (arith, find-append i rs more x)

receive-Remembers : (i j : String) (rows : List Row) → Remembers i rows (receive j rows).0
unfolding receive received_row
receive-Remembers i j rows x e = elim (Option-cases (find (has_id j) rows)) [
  | inl missing ↦ rw (missing, receive) (x, find-append i rows _ x e, (λ lost. lost))
  | inr (r, at_r) ↦ rw (at_r, receive) (x, e, (λ lost. lost))
]

complete-Remembers :
    (i j : String) (outcome : CommandResult) (rows : List Row)
    → Remembers i rows (complete j outcome rows)
unfolding complete
complete-Remembers i j outcome rows =
    Follows-update Loses (has_id i) (has_id j)
      (complete_row (durable (find (has_id j) rows) outcome)) rows (λ r lost. lost) (λ r. refl)
      (λ r at_r is_j lost.
        let is_i : has_id i r ≡ true = find-test (has_id i) rows r at_r in
        let one : i ≡ j = ground arith in
        let at_j : find (has_id j) rows ≡ some r = rw (← one) at_r in rw at_j (kept r lost))
  where
    kept :
        (r : Row) → r.output_truncated ≡ true → (durable (some r) outcome).output_truncated ≡ true
    kept r lost = ground arith

acknowledge-Remembers :
    (i j : String) (rows : List Row) → i ≢ j → Remembers i rows (acknowledge j rows)
unfolding acknowledge find remove
acknowledge-Remembers i j rows other x e = (x, left rows e, (λ lost. lost))
  where
    left :
        (rows : List Row)
        → find (has_id i) rows ≡ some x
        → find (has_id i) (remove (λ r. has_id j r && is_completed r.state) rows) ≡ some x
    left [] e = cc
    left (r ∷ rs) e = ground (arith, left rs)

abbrev pub Spares : String → Entry → Type 0
Spares i (acknowledged j) = i ≢ j
Spares i _ = Unit

enter-Remembers :
    (i : String) (e : Entry) (rows : List Row) → Spares i e → Remembers i rows (enter e rows)
unfolding enter mark_running mark_output_unconfirmed mark_output_truncated
enter-Remembers i restarts rows s = recover-Remembers i rows
enter-Remembers i (receives j) rows s = receive-Remembers i j rows
enter-Remembers i (starts j) rows s =
    Follows-update Loses (has_id i) (has_id j) (λ r. record r { state = running }) rows
      (λ r lost. lost) (λ r. refl) (λ r at_r is_j lost. lost)
enter-Remembers i (doubts j) rows s =
    Follows-update Loses (has_id i) (λ r. has_id j r && not r.output_truncated)
      (λ r. record r { output_unconfirmed = true }) rows (λ r lost. lost) (λ r. refl)
      (λ r at_r is_j lost. lost)
enter-Remembers i (truncates j) rows s =
    Follows-update Loses (has_id i) (has_id j) _ rows (λ r lost. lost) (λ r. refl)
      (λ r at_r is_j lost. refl)
enter-Remembers i (acknowledged j) rows s = acknowledge-Remembers i j rows s
enter-Remembers i (completes j outcome) rows s = complete-Remembers i j outcome rows

journal-Remembers :
    (i : String) (entries : List Entry) (rows : List Row)
    → All (Spares i) entries
    → Remembers i rows (journal entries rows)
unfolding journal
journal-Remembers i [] rows s = Follows-refl Loses (has_id i) (λ r lost. lost) rows
journal-Remembers i (e ∷ rest) rows s =
    Follows-trans Loses (has_id i) (λ a b c f g lost. g (f lost)) rows (enter e rows) _
      (enter-Remembers i e rows s.0) (journal-Remembers i rest (enter e rows) s.1)

-- Once the journal has noted that output of a Command was lost, every result that it gives for that
-- Command says so, whatever the Client does, until the Server has acknowledged the Command. The
-- journal starts sound.
pub journal-output_truncated :
    (i : String) (entries : List Entry) (rows : List Row) (r : Row) (found : CommandResult)
    → IsSound rows
    → All (Spares i) entries
    → find (has_id i) rows ≡ some r
    → r.output_truncated ≡ true
    → result i (journal entries rows) ≡ some found
    → found.output_truncated ≡ true
unfolding result
journal-output_truncated i entries rows r found sound s at_r lost e =
    let (later, at_later, still) = journal-Remembers i entries rows s r at_r in
    let faithful =
      All-find IsFaithful (has_id i) (journal entries rows) later
        (journal-IsSound entries rows sound).1 at_later in
    said later (still lost) faithful (rw at_later at e)
  where
    said :
        (later : Row)
        → later.output_truncated ≡ true
        → IsFaithful later
        → later.result ≡ some found
        → found.output_truncated ≡ true
    said later lost faithful e = ground arith

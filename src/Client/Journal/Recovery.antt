-- ===== src/Client/Journal/Recovery.antt =====
-- apps/client/src/journal.ts: a Client that starts again.
use odyshell.Base.{true, false, List, [], ◌∷◌, ◌≡◌, refl, arith, All, is_some, if◌then◌else◌}
use odyshell.Client.Journal.{
  Row, completed, is_completed, is_recoverable, recover_row, recover_interrupted,
}

-- A row that nothing is left to be recovered of.
abbrev pub IsSettled : Row → Type 0
IsSettled r = (r.state ≡ completed) × (r.output_unconfirmed ≡ false) × (is_some r.result ≡ true)

-- A completed row has a result.
abbrev pub HasResult : Row → Type 0
HasResult r = is_completed r.state ≡ true → is_some r.result ≡ true

recover_one : (r : Row) → HasResult r → IsSettled (if is_recoverable r then recover_row r else r)
unfolding recover_row
recover_one r h = ground arith

settled_stays : (r : Row) → IsSettled r → is_recoverable r ≡ false
settled_stays r h = ground arith

-- After a restart every Command of the journal is completed with a result, and no output is
-- unconfirmed, if each row that was completed already had its result.
pub recover_interrupted-IsSettled :
    (rows : List Row) → All HasResult rows → All IsSettled (recover_interrupted rows).0
unfolding recover_interrupted
recover_interrupted-IsSettled [] h = tt
recover_interrupted-IsSettled (r ∷ rs) h = (recover_one r h.0, recover_interrupted-IsSettled rs h.1)

settled_recover : (rows : List Row) → All IsSettled rows → recover_interrupted rows ≡ (rows, 0)
unfolding recover_interrupted
settled_recover [] h = refl
settled_recover (r ∷ rs) h =
    let calm = settled_stays r h.0 in let rest = settled_recover rs h.1 in ground arith

-- A second restart finds nothing to recover and leaves the journal as it is, if before the first each
-- row that was completed had its result.
pub recover_interrupted_twice :
    (rows : List Row)
    → All HasResult rows
    → let (later, interrupted) = recover_interrupted rows in recover_interrupted later ≡ (later, 0)
recover_interrupted_twice rows h =
    settled_recover (recover_interrupted rows).0 (recover_interrupted-IsSettled rows h)

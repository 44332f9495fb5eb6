-- ===== src/Client/Journal.antt =====
-- apps/client/src/journal.ts: the class `CommandJournal`. Its table is the list of its rows in the order
-- of their rowids, a result is kept as it is instead of as its JSON text, and `updated_at` is written
-- and never read, and left out.
pub mod Recovery
pub mod Truncation
pub mod Loss
pub mod Knowledge
use odyshell.Base.{
  ℕ, suc, ◌+◌, Bool, true, false, not, ◌&&◌, ◌||◌, Option, none, some, List, [], ◌∷◌, ◌++◌, String,
  ◌==◌, if◌then◌else◌, find, update, remove,
}
use odyshell.Protocol.Session.{CompletedStatus, ℤ}

pub record CommandResult : Type 0 where
  pub status : CompletedStatus
  pub exit_code : Option ℤ
  pub error : Option String
  pub output_truncated : Bool

abbrev or_error : Option String → String → String
or_error none e = e
or_error (some e) d = e

abbrev pub truncated_result : CommandResult → CommandResult
truncated_result r = if r.output_truncated then r else record r {
  error = some (or_error r.error "Command output is incomplete");
  output_truncated = true;
}

pub data State : Type 0 where
  received running completed : State

pub record Row : Type 0 where
  pub id : String
  pub state : State
  pub result : Option CommandResult
  pub output_truncated : Bool
  pub output_unconfirmed : Bool

abbrev pub has_id : String → Row → Bool
has_id i r = r.id == i

abbrev pub is_completed : State → Bool
is_completed completed = true
is_completed _ = false

abbrev pub is_recoverable : Row → Bool
is_recoverable r = not (is_completed r.state) || r.output_unconfirmed

abbrev pub unknown_result : Bool → CommandResult
unknown_result incomplete = record {
  status = CompletedStatus.execution_unknown;
  exit_code = none;
  error = some "Client restarted before it could prove the Command outcome";
  output_truncated = incomplete;
}

recovered_result : State → Option CommandResult → Bool → CommandResult
recovered_result completed (some r) incomplete = if incomplete then truncated_result r else r
recovered_result completed none incomplete = unknown_result incomplete
recovered_result received result incomplete = unknown_result incomplete
recovered_result running result incomplete = unknown_result incomplete

recover_row : Row → Row
unfolding recovered_result
recover_row r =
    let result = recovered_result r.state r.result (r.output_truncated || r.output_unconfirmed) in
    record r {
      state = completed;
      result = some result;
      output_truncated = result.output_truncated;
      output_unconfirmed = false;
    }

-- `recoverInterrupted`: the rows afterwards, and how many had not been completed.
unfoldable pub recover_interrupted : List Row → List Row × ℕ
unfolding recover_row
recover_interrupted [] = ([], 0)
recover_interrupted (r ∷ rs) =
    let (rest, interrupted) = recover_interrupted rs in
    (
      (if is_recoverable r then recover_row r else r) ∷ rest,
      (if is_completed r.state then interrupted else suc interrupted),
    )

pub data Reception : Type 0 where
  new running completed : Reception

abbrev reception : State → Reception
reception completed = Reception.completed
reception _ = Reception.running

received_row : List Row → String → Option Row → List Row × Reception
received_row rows i none =
    let row : Row = record {
      id = i;
      state = received;
      result = none;
      output_truncated = false;
      output_unconfirmed = false;
    } in
    (rows ++ (row ∷ []), new)
received_row rows i (some r) = (rows, reception r.state)

unfoldable pub receive : String → List Row → List Row × Reception
unfolding received_row
receive i rows = received_row rows i (find (has_id i) rows)

unfoldable pub mark_running : String → List Row → List Row
mark_running i rows = update (has_id i) (λ r. record r { state = running }) rows

unfoldable pub mark_output_unconfirmed : String → List Row → List Row
mark_output_unconfirmed i rows =
    update (λ r. has_id i r && not r.output_truncated) (λ r. record r { output_unconfirmed = true })
      rows

abbrev pub durable : Option Row → CommandResult → CommandResult
durable none result = result
durable (some r) result = if r.output_truncated then truncated_result result else result

abbrev pub complete_row : CommandResult → Row → Row
complete_row result r = record r {
  state = completed;
  result = some result;
  output_truncated = result.output_truncated;
}

unfoldable pub complete : String → CommandResult → List Row → List Row
complete i result rows =
    update (has_id i) (complete_row (durable (find (has_id i) rows) result)) rows

abbrev pub truncate_found : Option CommandResult → Option CommandResult
truncate_found none = none
truncate_found (some r) = some (truncated_result r)

abbrev found_result : Option Row → Option CommandResult
found_result none = none
found_result (some r) = r.result

-- Without a row the update finds none either.
unfoldable pub mark_output_truncated : String → List Row → List Row
mark_output_truncated i rows =
    let result = truncate_found (found_result (find (has_id i) rows)) in
    update (has_id i)
      (λ r. record r { result = result; output_truncated = true; output_unconfirmed = false }) rows

unfoldable pub result : String → List Row → Option CommandResult
result i rows = found_result (find (has_id i) rows)

unfoldable pub results_for_reconciliation : List Row → List (String × CommandResult)
results_for_reconciliation [] = []
results_for_reconciliation (r ∷ rs) =
    let rest = results_for_reconciliation rs in
    elim r.result [
      | none ↦ rest
      | some found ↦ if is_completed r.state then (r.id, found) ∷ rest else rest
    ]

unfoldable pub acknowledge : String → List Row → List Row
acknowledge i rows = remove (λ r. has_id i r && is_completed r.state) rows

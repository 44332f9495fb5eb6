-- ===== src/Client/Tests.antt =====
-- The journal on concrete inputs.
use odyshell.Base.{
  true, false, none, some, List, [], ◌∷◌, ◌≡◌, refl, find, any, All, string_discrete, update,
}
use odyshell.Protocol.Session.{CompletedStatus, pos}
use odyshell.Client.Journal.{
  Row, CommandResult, running, recover_interrupted, result, receive, complete, mark_running,
}
use odyshell.Client.Journal.Recovery.{
  IsSettled, recover_interrupted-IsSettled, recover_interrupted_twice,
}
use odyshell.Client.Journal.Truncation.{
  Entry, receives, starts, completes, restarts, journal, enter, IsSound, journal-IsSound,
}
use odyshell.Client.Journal.Loss.{journal-output_truncated}

abbrev lost_row : Row
lost_row = record {
  id = "c1";
  state = running;
  result = none;
  output_truncated = true;
  output_unconfirmed = false;
}

abbrev doubtful_row : Row
doubtful_row = record {
  id = "c2";
  state = running;
  result = none;
  output_truncated = false;
  output_unconfirmed = true;
}

abbrev rows : List Row
rows = lost_row ∷ doubtful_row ∷ []

abbrev success : CommandResult
success = record {
  status = CompletedStatus.succeeded;
  exit_code = some (pos 0);
  error = none;
  output_truncated = false;
}

abbrev incomplete : CommandResult
incomplete = record success { error = some "Command output is incomplete"; output_truncated = true }

abbrev entries : List Entry
entries = receives "c3" ∷ starts "c3" ∷ completes "c1" success ∷ restarts ∷ []

rows-IsSound : IsSound rows
unfolding any string_discrete
rows-IsSound = ((refl, (refl, tt)), (refl, (refl, tt)))

journal-IsSound_example : IsSound (journal entries rows)
journal-IsSound_example = journal-IsSound entries rows rows-IsSound

journal-output_truncated_example : incomplete.output_truncated ≡ true
unfolding find string_discrete result journal enter receive complete mark_running
    recover_interrupted update
journal-output_truncated_example =
    journal-output_truncated "c1" entries rows lost_row incomplete rows-IsSound
      (tt, (tt, (tt, (tt, tt)))) refl refl refl

recover_interrupted-IsSettled_example : All IsSettled (recover_interrupted rows).0
recover_interrupted-IsSettled_example =
    recover_interrupted-IsSettled rows ((λ done. cc), ((λ done. cc), tt))

recover_interrupted_twice_example :
    (let (later, interrupted) = recover_interrupted rows in recover_interrupted later ≡ (later, 0))
recover_interrupted_twice_example =
    recover_interrupted_twice rows ((λ done. cc), ((λ done. cc), tt))

-- ===== src/Server/Store/Reports/Repetition.antt =====
-- apps/server/src/session-database.ts: output that a Machine reports twice.
use odyshell.Base.{
  ℕ, ◌+◌, Bool, true, false, Option, none, some, ◌≡◌, refl, inl, inr, Bool-cases, find, any, ltb,
  length, arith,
}
use odyshell.Protocol.Session.{default_command_output_bytes}
use odyshell.Server.Store.{Store, CommandRow}
use odyshell.Server.Store.Reports.{OutputReport, add_output, add_command_output}
use odyshell.Server.Store.Reports.Effects.{
  is_repeated, with_output, output_row, add_command_output_rule,
}

with_output-is_repeated :
    (input : OutputReport) (now : ℕ) (st : Store)
    → is_repeated input (with_output input now st) ≡ true
unfolding any
with_output-is_repeated input now st = ground arith

add_output-is_repeated :
    (input : OutputReport) (now : ℕ) (st : Store) (o : Option CommandRow)
    → (add_output input now o st).1 ≡ true
    → is_repeated input (add_output input now o st).0 ≡ true
unfolding add_output
add_output-is_repeated input now st none e = cc
add_output-is_repeated input now st (some c) e =
    elim (Bool-cases
      (ltb default_command_output_bytes (c.stdout_bytes + c.stderr_bytes + length input.bytes))) [
        | inl over ↦ let no : false ≡ true = rw (over, add_output) at e in cc
        | inr fits ↦ elim (Bool-cases (is_repeated input st)) [
          | inl old ↦ rw (fits, old, add_output) old
          | inr new ↦ rw (fits, new, add_output) (with_output-is_repeated input now st)
        ]
      ]

-- A report of output that was taken changes nothing when it comes again: no chunk is stored twice, and
-- no byte is counted twice.
pub add_command_output_twice :
    (input : OutputReport) (now later : ℕ) (st : Store)
    → (add_command_output input now st).1 ≡ true
    → let stored = (add_command_output input now st).0 in
      (add_command_output input later stored).0 ≡ stored
unfolding add_command_output
add_command_output_twice input now later st e =
    let stored = (add_command_output input now st).0 in
    let held = add_output-is_repeated input now st (find (output_row input) st.commands) e in
    add_command_output_rule (λ st'. st' ≡ stored) input later stored refl
      (λ c at_c fits new. absurd (is_repeated input stored) held new)
  where
    absurd : {A : Type 0} (b : Bool) → b ≡ true → b ≡ false → A
    absurd b h k = cc

-- ===== src/Client/Emission.antt =====
-- apps/client/src/index.ts: `emit`, which cuts a Command's output into messages.
use odyshell.Base.{
  ℕ, zero, suc, ◌+◌, ◌-◌, ◌≤◌, ◌<◌, ◌≡◌, ◌⊎◌, refl, inl, inr, Bool, true, false, not, ◌||◌, List,
  [], ◌∷◌, if◌then◌else◌, ltb, eqb, length, arith,
}
use odyshell.Base.Arrays.{take}
use odyshell.Protocol.Messages.{OutputStream, command_output}
use odyshell.Client.Link.{Link, has, deliver}
use odyshell.Client.Authority.{RunningCommand}
use odyshell.Client.Commands.{chunk_bytes, rest_after, truncate_command, emit_loop, emit}

-- The first bytes and those after them are all the bytes.
length-rest_after :
    (n : ℕ) (bytes : List ℕ) → length (take n bytes) + length (rest_after n bytes) ≡ length bytes
unfolding rest_after
length-rest_after zero [] = omega arith
length-rest_after zero (x ∷ bytes) = omega arith
length-rest_after (suc n) [] = omega arith
length-rest_after (suc n) (x ∷ bytes) = omega (arith, length-rest_after n bytes)

take_some : (n : ℕ) (bytes : List ℕ) → 0 < length bytes → 0 < n → 0 < length (take n bytes)
take_some n [] some_byte h = some_byte
take_some zero (x ∷ bytes) some_byte h = absurd (omega arith)
take_some (suc n) (x ∷ bytes) some_byte h = omega arith

take_most :
    (n : ℕ) (bytes : List ℕ) → (length (take n bytes) ≤ n) × (length (take n bytes) ≤ length bytes)
take_most n [] = (omega arith, omega arith)
take_most zero (x ∷ bytes) = (omega arith, omega arith)
take_most (suc n) (x ∷ bytes) =
    let (few, some_bytes) = take_most n bytes in (omega arith, omega arith)

take_all : (n : ℕ) (bytes : List ℕ) → length bytes ≤ n → length (take n bytes) ≡ length bytes
take_all n [] h = refl
take_all zero (x ∷ bytes) h = absurd (omega arith)
take_all (suc n) (x ∷ bytes) h = let rest = take_all n bytes (omega arith) in omega arith

-- At most `size` bytes more were counted; and all of them, unless output was lost.
abbrev pub Counts : RunningCommand → (size : ℕ) → (whole : Bool) → RunningCommand × Link → Type 0
Counts r size whole (s, l) =
    (s.output_bytes ≤ r.output_bytes + size)
    × ((s.output_truncated ≡ true) ⊎ ((s.output_bytes ≡ r.output_bytes + size) × (whole ≡ true)))

-- What holds of both branches of a test.
branch :
    (P : RunningCommand × Link → Type 0) (test : Bool) (x y : RunningCommand × Link)
    → (test ≡ true → P x)
    → (test ≡ false → P y)
    → P (if test then x else y)
branch P true x y h k = h refl
branch P false x y h k = k refl

truncate_command-Counts :
    (r : RunningCommand) (size : ℕ) (whole : Bool) (l : Link)
    → Counts r size whole (truncate_command r l)
truncate_command-Counts r size whole l =
    branch (Counts r size whole) r.output_truncated (r, l) _ (λ known. (omega arith, inl known))
      (λ fresh. (omega arith, inl refl))

-- The bytes of a message and those of the rest.
further :
    (r next : RunningCommand) (now rest size : ℕ) (whole : Bool) (s : RunningCommand × Link)
    → next.output_bytes ≡ r.output_bytes + now
    → now + rest ≡ size
    → Counts next rest whole s
    → Counts r size whole s
further r next now rest size whole s counted parts (within, inl lost) = (omega arith, inl lost)
further r next now rest size whole s counted parts (within, inr (all, e)) =
    (omega arith, inr (omega arith, e))

emit_loop-Counts :
    (k : ℕ) (stream : OutputStream) (accepted : List ℕ) (cut : Bool) (r : RunningCommand) (l : Link)
    → length accepted < k
    → Counts r (length accepted) (not cut) (emit_loop k stream accepted cut (r, l))
unfolding emit_loop
emit_loop-Counts zero stream accepted cut r l few = absurd (omega arith)
emit_loop-Counts (suc k) stream accepted cut r l few =
    let chunk = take chunk_bytes accepted in
    let message = command_output r.command_id r.sequence stream chunk in
    let next : RunningCommand = record r {
      sequence = r.sequence + 1;
      output_bytes = r.output_bytes + length chunk;
    } in
    let parts = length-rest_after chunk_bytes accepted in
    branch (Counts r (length accepted) (not cut)) (eqb (length accepted) 0) _ _
      (λ done.
        branch (Counts r (length accepted) (not cut)) cut _ _
          (λ over. truncate_command-Counts r (length accepted) (not cut) l)
          (λ whole. (omega arith, inr (ground arith, ground arith))))
      (λ some_left.
        branch (Counts r (length accepted) (not cut)) (deliver message l).1 _ _
          (λ delivered.
            let some_byte = take_some chunk_bytes accepted (ground arith) (omega arith) in
            further r next (length chunk) (length (rest_after chunk_bytes accepted))
              (length accepted) (not cut)
              (emit_loop k stream (rest_after chunk_bytes accepted) cut
                (next, (deliver message l).0))
              refl parts
              (emit_loop-Counts k stream (rest_after chunk_bytes accepted) cut next
                (deliver message l).0 (omega arith)))
          (λ lost. truncate_command-Counts r (length accepted) (not cut) (deliver message l).0))

-- The limit is kept, and what is not counted is noted.
abbrev Emitted : RunningCommand → (size : ℕ) → RunningCommand × Link → Type 0
Emitted r size (s, l) =
    (s.output_bytes ≤ r.maximum_output_bytes)
    × ((s.output_truncated ≡ true) ⊎ (s.output_bytes ≡ r.output_bytes + size))

looped-Emitted :
    (r : RunningCommand) (bytes : List ℕ) (s : RunningCommand × Link)
    → let remaining = r.maximum_output_bytes - r.output_bytes in
      r.output_bytes ≤ r.maximum_output_bytes
      → Counts r (length (take remaining bytes)) (not (ltb remaining (length bytes))) s
      → Emitted r (length bytes) s
looped-Emitted r bytes s within (more, inl lost) =
    let (few, some_bytes) = take_most (r.maximum_output_bytes - r.output_bytes) bytes in
    (omega arith, inl lost)
looped-Emitted r bytes s within (more, inr (all, whole)) =
    let (few, some_bytes) = take_most (r.maximum_output_bytes - r.output_bytes) bytes in
    let every = take_all (r.maximum_output_bytes - r.output_bytes) bytes (ground arith) in
    (omega arith, inr (omega arith))

-- Of output that a Command hands on, no more is counted than its limit leaves room for; and all of it is
-- counted, and fits, unless the Command is noted to have lost output. The Command starts within its
-- limit.
pub emit-Counts :
    (stream : OutputStream) (bytes : List ℕ) (r : RunningCommand) (l : Link)
    → r.output_bytes ≤ r.maximum_output_bytes
    → let later = (emit stream bytes (r, l)).0 in
      (later.output_bytes ≤ r.maximum_output_bytes)
      × ((later.output_truncated ≡ true) ⊎ (later.output_bytes ≡ r.output_bytes + length bytes))
unfolding emit
emit-Counts stream bytes r l within =
    let known = r.output_truncated || has r.command_id l.output_truncated_commands in
    let marked : RunningCommand = record r { output_truncated = known } in
    let remaining = r.maximum_output_bytes - r.output_bytes in
    let (few, some_bytes) = take_most remaining bytes in
    branch (Emitted r (length bytes)) known _ _ (λ lost. (within, inl lost))
      (λ going.
        branch (Emitted r (length bytes)) (eqb remaining 0) _ _
          (λ full.
            branch (Emitted r (length bytes)) known _ _ (λ lost. (within, inl lost))
              (λ fresh. (within, inl refl)))
          (λ room.
            looped-Emitted r bytes
              (emit_loop (length bytes + 1) stream (take remaining bytes)
                (ltb remaining (length bytes)) (marked, l))
              within
              (emit_loop-Counts (length bytes + 1) stream (take remaining bytes)
                (ltb remaining (length bytes)) marked l (omega arith))))

-- ===== src/Client/Deadlines.antt =====
-- apps/client/src/index.ts: `adjustedSessionDeadline` and `commandTimeoutMilliseconds`. Times are
-- milliseconds since the epoch; the invalid date has no value here.
use odyshell.Base.{
  ℕ, ◌+◌, ◌-◌, ◌*◌, ◌≤◌, ◌≡◌, ◌||◌, Option, none, some, if◌then◌else◌, ltb, eqb, min, arith,
}

-- `MAX_CLIENT_CLOCK_SKEW_MILLISECONDS`
abbrev pub max_client_clock_skew : ℕ
max_client_clock_skew = 30000

abbrev distance : ℕ → ℕ → ℕ
distance a b = (a - b) + (b - a)

-- `none` is the error that the clock is outside the allowed skew. A deadline before the epoch, like the 0
-- that stands for it, is over.
unfoldable pub adjusted_session_deadline :
    (expires_at : ℕ) (server_time : Option ℕ) (local_now : ℕ) → Option ℕ
adjusted_session_deadline expires_at none local_now = some (local_now + expires_at - local_now)
adjusted_session_deadline expires_at (some server_now) local_now =
    if ltb max_client_clock_skew (distance local_now server_now)
    then none
    else some (local_now + expires_at - server_now)

unfoldable pub command_timeout_milliseconds :
    (requested_seconds local_maximum_seconds session_expires_at now : ℕ) → ℕ
command_timeout_milliseconds requested_seconds local_maximum_seconds session_expires_at now =
    if eqb requested_seconds 0
      || (eqb local_maximum_seconds 0 || ltb local_maximum_seconds requested_seconds)
    then 0
    else min (requested_seconds * 1000) (session_expires_at - now)

-- A deadline that is accepted leaves the Client just the time that the Server's clock leaves, and, if
-- the Session has not expired, it is at most half a minute from the time the Server named.
pub adjusted_session_deadline_span :
    (expires_at server_now local_now deadline : ℕ)
    → adjusted_session_deadline expires_at (some server_now) local_now ≡ some deadline
    → server_now ≤ expires_at
    → (deadline - local_now ≡ expires_at - server_now)
      × (deadline ≤ expires_at + max_client_clock_skew)
      × (expires_at ≤ deadline + max_client_clock_skew)
unfolding adjusted_session_deadline
adjusted_session_deadline_span expires_at server_now local_now deadline h alive =
    (ground arith, ground arith, ground arith)

-- A Command's timeout ends no later than its Session, and is no longer than was asked and than Local
-- Policy lets it be.
pub command_timeout_milliseconds_bounds :
    (requested local_maximum expires_at now : ℕ)
    → let timeout = command_timeout_milliseconds requested local_maximum expires_at now in
      (timeout ≤ expires_at - now) × (timeout ≤ requested * 1000) × (timeout ≤ local_maximum * 1000)
unfolding command_timeout_milliseconds
command_timeout_milliseconds_bounds requested local_maximum expires_at now =
    (ground arith, ground arith, ground arith)

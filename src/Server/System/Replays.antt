-- ===== src/Server/System/Replays.antt =====
-- apps/server/src/sessions.ts: a request for a Session that is sent again, over the Server's history.
use odyshell.Base.{Bool, String, ◌≡◌, Follows}
use odyshell.Protocol.Session.{Session}
use odyshell.Server.Store.{Store, SessionRow}
use odyshell.Server.Store.Sessions.{idempotency_key}
use odyshell.Server.Service.World.{World}
use odyshell.Server.Service.SessionRequests.Effects.{creation as session_creation}

-- What a replay goes by.
record IsSameRequest (a b : SessionRow) : Type 0 where
  same_id : b.id ≡ a.id
  same_organization : b.organization_id ≡ a.organization_id
  same_agent : b.agent_id ≡ a.agent_id
  same_key : b.idempotency_key_hash ≡ a.idempotency_key_hash
  same_fingerprint : b.request_fingerprint ≡ a.request_fingerprint

abbrev KeepsIdentity : (Session → Session) → Type 0
KeepsIdentity f =
    (s : Session)
    → ((f s).id ≡ s.id)
      × ((f s).organization_id ≡ s.organization_id)
      × ((f s).agent_id ≡ s.agent_id)

module _ (organization_id agent_id key_hash : String) where
  abbrev asks : SessionRow → Bool
  asks = idempotency_key organization_id agent_id key_hash

  -- The row that the key finds is found later too.
  abbrev Finds : Store → Store → Type 0
  Finds st later = Follows IsSameRequest asks st.sessions later.sessions

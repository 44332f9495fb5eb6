-- ===== src/Server/Store/Lifecycle.antt =====
-- The life of a Session: how its status may change, and what of it never changes.
pub mod Methods
pub mod Revocation
pub mod UniqueIds
use odyshell.Base.{
  ℕ, Bool, true, false, not, ◌&&◌, Option, none, some, List, [], ◌∷◌, String, ◌≡◌, refl, ◌∙◌, arith,
  ◌==◌, find, update, any, Follows, Follows-refl, Follows-trans, Follows-cons, Follows-update,
}
use odyshell.Protocol.Session.{
  SessionStatus, Session, pending_approval, opening, active, completed, cancellation_requested,
  cancelled, revoked, expired, failed,
}
use odyshell.Server.Store.{SessionRow, change, is_finished}

-- Where a Session may get to from a status, in any number of steps.
abbrev pub can_become : SessionStatus → SessionStatus → Bool
can_become pending_approval t = true
can_become opening pending_approval = false
can_become opening t = true
can_become active pending_approval = false
can_become active opening = false
can_become active failed = false
can_become active t = true
can_become cancellation_requested cancellation_requested = true
can_become cancellation_requested completed = true
can_become cancellation_requested cancelled = true
can_become cancellation_requested expired = true
can_become cancellation_requested t = false
can_become completed completed = true
can_become completed t = false
can_become cancelled cancelled = true
can_become cancelled t = false
can_become revoked revoked = true
can_become revoked t = false
can_become expired expired = true
can_become expired t = false
can_become failed failed = true
can_become failed t = false

can_become_refl : (s : SessionStatus) → can_become s s ≡ true
can_become_refl s = ground arith

can_become_trans :
    (s t u : SessionStatus) → can_become s t ≡ true → can_become t u ≡ true → can_become s u ≡ true
can_become_trans s t u h k = ground arith

-- A later state of a Session: a status that it may have got to, under the same authority.
pub record Advances (a b : SessionRow) : Type 0 where
  pub becomes : can_become a.status b.status ≡ true
  pub same_id : b.id ≡ a.id
  pub same_organization : b.organization_id ≡ a.organization_id
  pub same_agent : b.agent_id ≡ a.agent_id
  pub same_machine : b.machine_id ≡ a.machine_id
  pub same_profile : b.client_profile_id ≡ a.client_profile_id
  pub same_user : b.operating_system_user ≡ a.operating_system_user
  pub same_commands : b.max_concurrent_commands ≡ a.max_concurrent_commands
  pub same_creation : b.created_at ≡ a.created_at
  pub same_key : b.idempotency_key_hash ≡ a.idempotency_key_hash
  pub same_fingerprint : b.request_fingerprint ≡ a.request_fingerprint

pub Advances-refl : (a : SessionRow) → Advances a a
Advances-refl a = ground (arith, can_become_refl a.status)

pub Advances-trans : (a b c : SessionRow) → Advances a b → Advances b c → Advances a c
Advances-trans a b c f g = ground (arith, can_become_trans a.status b.status c.status)

abbrev pub has_id : String → SessionRow → Bool
has_id i r = r.id == i

-- The Session of the id, if there is one, is there in a later state.
abbrev pub Continues : String → List SessionRow → List SessionRow → Type 0
Continues i = Follows Advances (has_id i)

module _ (i : String) where
  pub Continues-refl : (xs : List SessionRow) → Continues i xs xs
  Continues-refl = Follows-refl Advances (has_id i) Advances-refl

  pub Continues-trans :
      (xs ys zs : List SessionRow) → Continues i xs ys → Continues i ys zs → Continues i xs zs
  Continues-trans = Follows-trans Advances (has_id i) Advances-trans

  pub Continues-update :
      (p : SessionRow → Bool) (f : Session → Session) (xs : List SessionRow)
      → ((r : SessionRow) → find (has_id i) xs ≡ some r → p r ≡ true → Advances r (change f r))
      → ((r : SessionRow) → (f r.session).id ≡ r.id)
      → Continues i xs (update p (change f) xs)
  Continues-update p f xs moves same =
      Follows-update Advances (has_id i) p (change f) xs Advances-refl (λ r. rw (same r) refl) moves

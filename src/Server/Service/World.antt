-- ===== src/Server/Service/World.antt =====
-- The state that a method of `SessionService` works on, and its effects: what it stores, what it
-- sends to Machines, and the errors that it throws.
use odyshell.Base.{Bool, true, false, List, String}
use odyshell.Protocol.Messages.{ServerMessage}
use odyshell.Server.Store.{Store, AuditEvent, log}

-- `sent` holds each message with its Machine, the newest first.
pub record World : Type 0 where
  pub store : Store
  pub sent : List (String × ServerMessage)

-- `SessionClientUnavailableError`, the error of a Command that finds its Machine gone, the
-- database's error for a missing Session, and the errors of an output report that is refused and of
-- a Machine that another Organization owns; and the error of an audit that fails.
pub data Failure : Type 0 where
  client_unavailable command_undelivered missing_session output_refused : Failure
  foreign_machine audit_failed : Failure

pub data Reply (A : Type 0) : Type 0 where
  returned : A → Reply A
  thrown : Failure → Reply A

abbrev pub M : Type 0 → Type 0
M A = World → World × Reply A

abbrev pub pure : {A : Type 0} → A → M A
pure a w = (w, returned a)

abbrev pub throw : {A : Type 0} → Failure → M A
throw e w = (w, thrown e)

abbrev pub after : {A B : Type 0} → (A → M B) → World × Reply A → World × Reply B
after f (w, returned a) = f a w
after f (w, thrown e) = (w, thrown e)

infixl 5 ◌>>=◌ ◌>>◌
abbrev pub ◌>>=◌ : {A B : Type 0} → M A → (A → M B) → M B
◌>>=◌ m f w = after f (m w)

abbrev pub ◌>>◌ : {B : Type 0} → M (Unit {0}) → M B → M B
m >> k = m >>= λ _. k

abbrev pub query : {A : Type 0} → (Store → A) → M A
query f w = (w, returned (f w.store))

-- A method of the database.
abbrev pub on_store : {A : Type 0} → (Store → Store × A) → M A
on_store f w = let (st, a) = f w.store in (record w { store = st }, returned a)

abbrev pub audit_reply : Bool → Reply (Unit {0})
audit_reply true = returned tt
audit_reply false = thrown audit_failed

-- The event is appended after the row is stored, and fails by itself.
abbrev pub audit : AuditEvent → M (Unit {0})
audit event w = (record w { store = log event w.store }, audit_reply w.store.audit_open)

abbrev pub when : Bool → M (Unit {0}) → M (Unit {0})
when true m = m
when false m = pure tt

-- A step that leaves the database with `P`, and what follows it.
pub after_rule {ℓ} :
    (P : Store → Type ℓ) {A B : Type 0} (f : A → M B) (r : World × Reply A)
    → P r.0.store
    → ((a : A) (w : World) → P w.store → P (f a w).0.store)
    → P (after f r).0.store
after_rule P f (w, returned a) h k = k a w h
after_rule P f (w, thrown e) h k = h

pub when_rule {ℓ} :
    (P : Store → Type ℓ) (b : Bool) (m : M (Unit {0})) (w : World)
    → P w.store
    → P (m w).0.store
    → P (when b m w).0.store
when_rule P true m w h k = k
when_rule P false m w h k = h

-- What follows an audit is run where it worked.
pub audit_rule {ℓ} :
    (P : Store → Type ℓ) {B : Type 0} (event : AuditEvent) (f : Unit {0} → M B) (w : World)
    → P (log event w.store)
    → P (f tt (record w { store = log event w.store })).0.store
    → P (after f (audit event w)).0.store
audit_rule P event f w h k = go w.store.audit_open
  where
    go : (b : Bool) → P (after f (record w { store = log event w.store }, audit_reply b)).0.store
    go true = k
    go false = h

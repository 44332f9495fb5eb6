-- ===== src/Server/Control/Scoped.antt =====
-- apps/server/src/control.ts: the class `ScopedRateLimiter`.
use odyshell.Base.{
  ℕ, ◌-◌, ◌≡◌, ◌⊎◌, ◌∙◌, refl, ap, sym, inl, inr, Bool, true, false, not, ◌&&◌, List, [], ◌∷◌,
  String, if◌then◌else◌, leb, remove, find, arith, Bool-cases,
}
use odyshell.Base.Runs.{Run, ok, ◌>>=◌, Returns, returns, Returns-bind, Returns-if}
use odyshell.Server.Control.Concurrency.{user_key}
use odyshell.Server.Control.Rate.{
  FixedWindow, Window, window_key, max_safe_integer, is_observable, can_allow_prepared, can_allow,
  consume,
}
use odyshell.Server.Control.Rate.Pruning.{IsConsistent, is_expired}
use odyshell.Server.Control.Rate.Reference.{
  Table, forget, live, counted, admit, allow-Agrees, prepare-Pruned, prepare-unseen,
}

pub record ScopedRateLimiter : Type 0 where
  pub organizations : FixedWindow
  pub users : FixedWindow

-- `||` asks the Organization's limiter only if the user's has room.
unfoldable pub scoped_allow :
    String → String → ℕ → ScopedRateLimiter → Run (ScopedRateLimiter × Bool)
scoped_allow organization_id user_id now s =
    let key = user_key organization_id user_id in
    can_allow key now s.users >>= λ (users, user_has_room).
    if not user_has_room
    then ok (record s { users = users }, false)
    else can_allow organization_id now s.organizations >>= λ (organizations, has_room).
        if not has_room
        then ok (record { organizations = organizations; users = users }, false)
        else consume key now users >>= λ counted_users.
            consume organization_id now organizations >>= λ counted_organizations.
            ok (record { organizations = counted_organizations; users = counted_users }, true)

-- Without the windows that are over, if the clock's reading can be used.
abbrev pub seen : ℕ → Table → Table
seen now t =
    if leb now max_safe_integer && leb now (max_safe_integer - t.window_milliseconds)
    then live now t
    else t

remove_again : (p : Window → Bool) (ws : List Window) → remove p (remove p ws) ≡ remove p ws
unfolding remove
remove_again p [] = refl
remove_again p (w ∷ ws) = ground (arith, remove_again p ws)

admit-seen : (key : String) (now : ℕ) (t : Table) → admit key now (seen now t) ≡ admit key now t
unfolding admit
admit-seen key now t =
    elim (Bool-cases
      (leb now max_safe_integer && leb now (max_safe_integer - t.window_milliseconds))) [
        | inl e ↦ rw (e, admit, remove_again (is_expired now) t.windows, e) refl
        | inr e ↦ rw (e, admit, e) refl
      ]

-- `canAllow` answers what `allow` would, and counts nothing.
abbrev Foretold : String → ℕ → FixedWindow → FixedWindow × Bool → Type 0
Foretold key now l (r, b) =
    IsConsistent r × (forget r ≡ seen now (forget l)) × (b ≡ (admit key now (forget l)).1)

answered-counted :
    (key : String) (now : ℕ) (r : FixedWindow)
    → can_allow_prepared key r ≡ (counted key now (forget r) (find (window_key key) r.windows)).1
unfolding can_allow_prepared
answered-counted key now r = ground arith

seen_observable :
    (key : String) (now : ℕ) (l : FixedWindow)
    → is_observable now l ≡ true
    → let t = live now (forget l) in
      (seen now (forget l) ≡ t)
      × (admit key now (forget l) ≡ counted key now t (find (window_key key) t.windows))
unfolding is_observable admit
seen_observable key now l e = (rw (e, is_observable) refl, rw (e, is_observable, admit) refl)

seen_unobservable :
    (key : String) (now : ℕ) (l : FixedWindow)
    → is_observable now l ≡ false
    → (seen now (forget l) ≡ forget l) × (admit key now (forget l) ≡ (forget l, false))
unfolding is_observable admit
seen_unobservable key now l e = (rw (e, is_observable) refl, rw (e, is_observable, admit) refl)

can_allow-Foretold :
    (key : String) (now : ℕ) (l : FixedWindow)
    → IsConsistent l
    → Returns (Foretold key now l) (can_allow key now l)
unfolding can_allow
can_allow-Foretold key now l h = elim (Bool-cases (is_observable now l)) [
  | inl observable ↦ Returns-bind (prepare-Pruned now l h observable) λ (r, o) (p, at_now).
      let same : forget r ≡ live now (forget l) = rw p.1 refl in
      let (kept, admitted) = seen_observable key now l observable in
      let answer : can_allow_prepared key r ≡ (admit key now (forget l)).1 =
        answered-counted key now r
        ∙ ap (λ t. (counted key now t (find (window_key key) t.windows)).1) same
        ∙ ap (λ a. a.1) (sym admitted) in
      rw at_now (returns (p.0, same ∙ sym kept, answer))
  | inr unseen ↦
      let (kept, admitted) = seen_unobservable key now l unseen in
      rw (prepare-unseen now l unseen) (returns (h, sym kept, ap (λ a. a.1) (sym admitted)))
]

-- `consume` after that counts what `allow` would have counted.
abbrev Consumed : String → ℕ → FixedWindow → FixedWindow → Type 0
Consumed key now l r = IsConsistent r × (forget r ≡ (admit key now (forget l)).0)

consume-Consumed :
    (key : String) (now : ℕ) (l r : FixedWindow)
    → IsConsistent r
    → forget r ≡ seen now (forget l)
    → Returns (Consumed key now l) (consume key now r)
unfolding consume
consume-Consumed key now l r h same =
    Returns-bind (allow-Agrees key now r h) λ (q, b) (consistent, table, answer).
      let again : admit key now (forget r) ≡ admit key now (forget l) =
        ap (admit key now) same ∙ admit-seen key now (forget l) in
      returns (consistent, table ∙ ap (λ a. a.0) again)

-- What a request does to both tables: it counts in both, or in neither.
pub record Decided (o u : String) (now : ℕ) (s r : ScopedRateLimiter) (allowed : Bool)
    : Type 0 where
  pub consistent : IsConsistent r.organizations × IsConsistent r.users
  pub both :
      allowed
      ≡ (admit (user_key o u) now (forget s.users)).1 && (admit o now (forget s.organizations)).1
  pub counted_in_both :
      allowed ≡ true
      → (forget r.users ≡ (admit (user_key o u) now (forget s.users)).0)
        × (forget r.organizations ≡ (admit o now (forget s.organizations)).0)
  pub counted_in_neither :
      allowed ≡ false
      → (forget r.users ≡ seen now (forget s.users))
        × ((forget r.organizations ≡ forget s.organizations)
            ⊎ (forget r.organizations ≡ seen now (forget s.organizations)))

-- A request of a user of an Organization is let through exactly where the reference table of the user
-- and that of the Organization would both let it through; it is then counted in both. One that is
-- refused is counted in neither: at most the windows that are over are dropped.
pub scoped_allow-Decided :
    (o u : String) (now : ℕ) (s : ScopedRateLimiter)
    → IsConsistent s.organizations
    → IsConsistent s.users
    → Returns (λ (r, allowed). Decided o u now s r allowed) (scoped_allow o u now s)
unfolding scoped_allow
scoped_allow-Decided o u now s ho hu =
    let key = user_key o u in
    Returns-bind (can_allow-Foretold key now s.users hu) λ (users, user_ok) (hu', same_u, answer_u).
      Returns-if (not user_ok)
        (λ refused. returns (record {
          consistent = (ho, hu');
          both = ground arith;
          counted_in_both = λ e. cc;
          counted_in_neither = λ e. (same_u, inl refl);
        }))
        (λ passed.
          Returns-bind (can_allow-Foretold o now s.organizations ho)
            λ (organizations, ok_o) (ho', same_o, answer_o).
              Returns-if (not ok_o)
                (λ refused. returns (record {
                  consistent = (ho', hu');
                  both = ground arith;
                  counted_in_both = λ e. cc;
                  counted_in_neither = λ e. (same_u, inr same_o);
                }))
                (λ room.
                  Returns-bind (consume-Consumed key now s.users users hu' same_u)
                    λ users' (hu'', u').
                      Returns-bind (consume-Consumed o now s.organizations organizations ho' same_o)
                        λ organizations' (ho'', o'). returns (record {
                          consistent = (ho'', hu'');
                          both = ground arith;
                          counted_in_both = λ e. (u', o');
                          counted_in_neither = λ e. cc;
                        })))

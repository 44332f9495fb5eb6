-- ===== src/Server/Control/Rate/Reference.antt =====
-- apps/server/src/control.ts: `FixedWindowRateLimiter` without its heap: a table of windows, from which
-- every request first drops those that are over. The limiter gives the same answers.
use mathlib.Core.Path.{subst}
use odyshell.Base.{
  ℕ, ◌+◌, ◌-◌, ◌≤◌, ◌≡◌, refl, ap, inl, inr, Bool, true, false, ◌&&◌, Option, none, some, List, [],
  ◌∷◌, String, arith, if◌then◌else◌, ltb, leb, length, find, update, remove, any, find-any,
  update-HasUniqueKeys, Bool-cases, Option-cases,
}
use odyshell.Base.Arrays.{count}
use odyshell.Base.Runs.{Run, ok, ◌>>=◌, Returns, returns, Returns-bind}
use odyshell.Server.Control.Rate.{
  Window, Expiration, FixedWindow, fixed_window, is_positive_safe, window_key, max_safe_integer,
  prepare, is_observable, can_allow_prepared, consume_prepared, allow, count_on, consume_observed,
}
use odyshell.Server.Control.Rate.Sifting.{add_expiration-Added}
use odyshell.Server.Control.Rate.Pruning.{
  is_window, is_entry, is_expired, name, IsConsistent, Pruned, prune_expired-Pruned,
}

pub record Table : Type 0 where
  pub limit : ℕ
  pub window_milliseconds : ℕ
  pub max_tracked_keys : ℕ
  pub windows : List Window

abbrev pub forget : FixedWindow → Table
forget l = record {
  limit = l.limit;
  window_milliseconds = l.window_milliseconds;
  max_tracked_keys = l.max_tracked_keys;
  windows = l.windows;
}

abbrev pub live : ℕ → Table → Table
live now t = record t { windows = remove (is_expired now) t.windows }

-- One more request in the window of its key, or the first of a new one.
abbrev pub counted : String → ℕ → Table → Option Window → Table × Bool
counted key now t (some current) =
    if ltb current.count t.limit
    then (
      record t {
        windows = update (window_key key) (λ w. record w { count = w.count + 1 }) t.windows;
      },
      true,
    )
    else (t, false)
counted key now t none =
    if ltb (length t.windows) t.max_tracked_keys
    then (
      record t {
        windows =
            record { key = key; count = 1; resets_at = now + t.window_milliseconds } ∷ t.windows;
      },
      true,
    )
    else (t, false)

unfoldable pub admit : String → ℕ → Table → Table × Bool
admit key now t =
    if leb now max_safe_integer && leb now (max_safe_integer - t.window_milliseconds)
    then counted key now (live now t) (find (window_key key) (live now t).windows)
    else (t, false)

abbrev pub Agrees : Table × Bool → FixedWindow × Bool → Type 0
Agrees (t, b) (l, c) = IsConsistent l × (forget l ≡ t) × (c ≡ b)

-- A key without a window gets one, and its entry.
count_on_new :
    (key : String) (now : ℕ) (l : FixedWindow)
    → IsConsistent l
    → any (window_key key) l.windows ≡ false
    → Returns
        (λ r.
          IsConsistent r
          × (r.windows
              ≡ record { key = key; count = 1; resets_at = now + l.window_milliseconds }
                ∷ l.windows)
          × (r ≡ record l { windows = r.windows; expirations = r.expirations }))
        (count_on key now l none)
unfolding count
count_on_new key now l h fresh =
    let e : Expiration = record { key = key; resets_at = now + l.window_milliseconds } in
    Returns-bind (add_expiration-Added l.expirations e h.heap) λ b s. returns (
      record {
        heap = s.0;
        unique = (fresh, h.unique);
        matched = λ k t. let before = h.matched k t in let more = s.1 (is_entry k t) in omega arith;
      },
      refl,
      refl,
    )

count-update :
    (key k : String) (t : ℕ) (ws : List Window)
    → count (is_window k t) (update (window_key key) (λ w. record w { count = w.count + 1 }) ws)
      ≡ count (is_window k t) ws
unfolding count update
count-update key k t [] = refl
count-update key k t (w ∷ ws) = ground (arith, count-update key k t ws)

count_on_held :
    (key : String) (now : ℕ) (l : FixedWindow) (w : Window)
    → IsConsistent l
    → Returns
        (λ r.
          IsConsistent r
          × (r ≡ record l {
            windows = update (window_key key) (λ w. record w { count = w.count + 1 }) l.windows;
          }))
        (count_on key now l (some w))
count_on_held key now l w h = returns (
  record {
    heap = h.heap;
    unique =
        update-HasUniqueKeys name (window_key key) (λ w. record w { count = w.count + 1 }) l.windows
          (λ x. refl) h.unique;
    matched = λ k t.
        let same = count-update key k t l.windows in let before = h.matched k t in omega arith;
  },
  refl,
)

consume_observed-Agrees :
    (key : String) (now : ℕ) (l : FixedWindow)
    → IsConsistent l
    → Returns
        (Agrees (counted key now (forget l) (find (window_key key) l.windows)))
        (consume_observed key (l, some now))
unfolding can_allow_prepared consume_prepared
consume_observed-Agrees key now l h = elim (Option-cases (find (window_key key) l.windows)) [
  | inl e ↦
      rw (e, can_allow_prepared, consume_prepared)
        (elim (Bool-cases (ltb (length l.windows) l.max_tracked_keys)) [
          | inl room ↦ rw room (
              Returns-bind (count_on_new key now l h (find-any (window_key key) l.windows e))
                λ r s. returns (s.0, rw (s.2, s.1) refl, refl))
          | inr full ↦ rw full (returns (h, refl, refl))
        ])
  | inr (w, e) ↦
      rw (e, can_allow_prepared, consume_prepared)
        (elim (Bool-cases (ltb w.count l.limit)) [
          | inl room ↦
              rw room
                (Returns-bind (count_on_held key now l w h) λ r s. returns (s.0, rw s.1 refl, refl))
          | inr full ↦ rw full (returns (h, refl, refl))
        ])
]

pub prepare-Pruned :
    (now : ℕ) (l : FixedWindow)
    → IsConsistent l
    → is_observable now l ≡ true
    → Returns (λ (r, seen). Pruned now l r × (seen ≡ some now)) (prepare now l)
unfolding prepare
prepare-Pruned now l h seen =
    rw (seen, prepare) (Returns-bind (prune_expired-Pruned now l h) λ r p. returns (p, refl))

pub prepare-unseen :
    (now : ℕ) (l : FixedWindow) → is_observable now l ≡ false → prepare now l ≡ ok (l, none)
unfolding prepare
prepare-unseen now l unseen = rw (unseen, prepare) refl

pub allow-Agrees :
    (key : String) (now : ℕ) (l : FixedWindow)
    → IsConsistent l
    → Returns (Agrees (admit key now (forget l))) (allow key now l)
unfolding allow admit is_observable
allow-Agrees key now l h = elim (Bool-cases (is_observable now l)) [
  | inl seen ↦
      rw (seen, admit, is_observable)
        (Returns-bind (prepare-Pruned now l h seen) λ (r, o) (p, at_now).
          let same : forget r ≡ live now (forget l) = rw p.1 refl in
          rw at_now (
            subst
              (λ t.
                Returns (Agrees (counted key now t (find (window_key key) t.windows)))
                  (consume_observed key (r, some now)))
              same (consume_observed-Agrees key now r p.0)))
  | inr unseen ↦
      rw (unseen, admit, is_observable, prepare-unseen now l unseen) (returns (h, refl, refl))
]

-- A request for a key at a time.
abbrev pub Ask : Type 0
Ask = String × ℕ

-- The answers to a sequence of requests.
unfoldable pub answers : List Ask → FixedWindow → Run (List Bool)
answers [] l = ok []
answers ((key, now) ∷ asks) l =
    allow key now l >>= λ (next, allowed). answers asks next >>= λ rest. ok (allowed ∷ rest)

unfoldable pub reference_answers : List Ask → Table → List Bool
reference_answers [] t = []
reference_answers ((key, now) ∷ asks) t =
    (admit key now t).1 ∷ reference_answers asks (admit key now t).0

pub answers-Agree :
    (asks : List Ask) (l : FixedWindow)
    → IsConsistent l
    → Returns (λ given. given ≡ reference_answers asks (forget l)) (answers asks l)
unfolding answers reference_answers
answers-Agree [] l h = returns refl
answers-Agree ((key, now) ∷ asks) l h = Returns-bind (allow-Agrees key now l h) λ (next, allowed) s.
    Returns-bind (answers-Agree asks next s.0) λ rest e. returns (rw (s.2, e, s.1) refl)

abbrev pub table : ℕ → ℕ → ℕ → Table
table limit window max_keys = record {
  limit = limit;
  window_milliseconds = window;
  max_tracked_keys = max_keys;
  windows = [];
}

pub fixed_window-forget :
    (limit window max_keys : ℕ) (l : FixedWindow)
    → fixed_window limit window max_keys ≡ some l
    → (forget l ≡ table limit window max_keys) × (l.expirations ≡ [])
unfolding fixed_window
fixed_window-forget limit window max_keys l e = ground arith

pub fixed_window-positive :
    (limit window max_keys : ℕ) (l : FixedWindow)
    → fixed_window limit window max_keys ≡ some l
    → 1 ≤ limit
unfolding fixed_window is_positive_safe
fixed_window-positive limit window max_keys l e = ground arith

empty-IsConsistent : (l : FixedWindow) → l.expirations ≡ [] → l.windows ≡ [] → IsConsistent l
unfolding count
empty-IsConsistent l no_entry no_window = record {
  heap = rw no_entry (λ c p q. absurd (omega arith));
  unique = rw no_window tt;
  matched = λ k t. rw (no_entry, no_window) refl;
}

pub fixed_window-IsConsistent :
    (limit window max_keys : ℕ) (l : FixedWindow)
    → fixed_window limit window max_keys ≡ some l
    → IsConsistent l
fixed_window-IsConsistent limit window max_keys l e =
    let (same, no_entry) = fixed_window-forget limit window max_keys l e in
    empty-IsConsistent l no_entry (ap (λ t. t.windows) same)

-- A limiter that the constructor made answers every sequence of requests, without an error and in
-- finitely many rounds of its heap's loops, just as the table of windows does that has no heap.
pub answers-eq-reference_answers :
    (limit window max_keys : ℕ) (l : FixedWindow) (asks : List Ask)
    → fixed_window limit window max_keys ≡ some l
    → answers asks l ≡ ok (reference_answers asks (table limit window max_keys))
answers-eq-reference_answers limit window max_keys l asks e =
    let (same, no_entry) = fixed_window-forget limit window max_keys l e in
    Returns-ok
      (rw same at (answers-Agree asks l (fixed_window-IsConsistent limit window max_keys l e)))
  where
    Returns-ok : {r : Run (List Bool)} {b : List Bool} → Returns (λ given. given ≡ b) r → r ≡ ok b
    Returns-ok (returns p) = ap ok p

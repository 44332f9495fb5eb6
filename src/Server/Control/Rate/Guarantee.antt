-- ===== src/Server/Control/Rate/Guarantee.antt =====
-- apps/server/src/control.ts: what `FixedWindowRateLimiter` guarantees from its construction on.
use odyshell.Base.{ℕ, ◌+◌, ◌≤◌, ◌≡◌, some, List, [], ◌∷◌, String, ap}
use odyshell.Base.Runs.{Run, ok, ◌>>=◌, Returns, returns, Returns-bind, Returns-map}
use odyshell.Server.Control.Rate.{FixedWindow, fixed_window, allow}
use odyshell.Server.Control.Rate.Pruning.{IsConsistent}
use odyshell.Server.Control.Rate.Reference.{
  Ask, forget, admit, answers, answers-Agree, allow-Agrees, fixed_window-forget,
  fixed_window-positive, fixed_window-IsConsistent,
}
use odyshell.Server.Control.Rate.Bounds.{granted, IsSound, IsDuring, admit-Sane, grants_bounded}

-- The limiter after a sequence of requests.
unfoldable pub asked : List Ask → FixedWindow → Run FixedWindow
asked [] l = ok l
asked ((key, now) ∷ asks) l = allow key now l >>= λ (next, allowed). asked asks next

-- The limits are those of the constructor, and the table behind the limiter is sound.
record IsLimiter (limit window : ℕ) (l : FixedWindow) : Type 0 where
  consistent : IsConsistent l
  sound : IsSound (forget l)
  same_limit : l.limit ≡ limit
  same_window : l.window_milliseconds ≡ window

allow-IsLimiter :
    (limit window : ℕ) (key : String) (now : ℕ) (l : FixedWindow)
    → IsLimiter limit window l
    → Returns (λ (r, b). IsLimiter limit window r) (allow key now l)
allow-IsLimiter limit window key now l h =
    Returns-map (allow-Agrees key now l h.consistent) λ (r, b) (consistent, same, answer).
      let (sound, kept_limit, kept_window) = admit-Sane key now (forget l) h.sound in
      let same_limit = h.same_limit in
      let same_window = h.same_window in
      let at_limit : r.limit ≡ (admit key now (forget l)).0.limit = ap (λ t. t.limit) same in
      let at_window : r.window_milliseconds ≡ (admit key now (forget l)).0.window_milliseconds =
        ap (λ t. t.window_milliseconds) same in
      record { consistent = consistent; sound = rw same sound; same_limit = cc; same_window = cc }

asked-IsLimiter :
    (limit window : ℕ) (asks : List Ask) (l : FixedWindow)
    → IsLimiter limit window l
    → Returns (IsLimiter limit window) (asked asks l)
unfolding asked
asked-IsLimiter limit window [] l h = returns h
asked-IsLimiter limit window ((key, now) ∷ asks) l h =
    Returns-bind (allow-IsLimiter limit window key now l h)
      λ (next, allowed) s. asked-IsLimiter limit window asks next s

fixed_window-IsLimiter :
    (limit window max_keys : ℕ) (l : FixedWindow)
    → fixed_window limit window max_keys ≡ some l
    → IsLimiter limit window l
fixed_window-IsLimiter limit window max_keys l e =
    let (same, no_entry) = fixed_window-forget limit window max_keys l e in
    record {
      consistent = fixed_window-IsConsistent limit window max_keys l e;
      sound = rw same (record {
        positive = fixed_window-positive limit window max_keys l e;
        unique = tt;
        limited = tt;
      });
      same_limit = ap (λ t. t.limit) same;
      same_window = ap (λ t. t.window_milliseconds) same;
    }

-- Whatever was asked before of a limiter that the constructor made, of the requests of one key that
-- come within any span of the window's length, at most twice the limit are let through. The limiter
-- answers them all.
pub granted-IsBounded :
    (limit window max_keys : ℕ) (l : FixedWindow) (key : String) (start : ℕ)
    (before asks : List Ask)
    → fixed_window limit window max_keys ≡ some l
    → IsDuring key start window asks
    → Returns
        (λ later. Returns (λ given. granted key asks given ≤ limit + limit) (answers asks later))
        (asked before l)
granted-IsBounded limit window max_keys l key start before asks e during =
    Returns-map
      (asked-IsLimiter limit window before l (fixed_window-IsLimiter limit window max_keys l e))
      λ later h. Returns-map (answers-Agree asks later h.consistent) λ given same.
        rw (same, ← h.same_limit)
          (grants_bounded key start asks (forget later) h.sound (rw h.same_window during))

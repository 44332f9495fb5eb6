-- ===== src/Server/Control/Rate/Counting.antt =====
-- apps/server/src/control.ts: what one request does to the window of a key.
use odyshell.Base.{
  ℕ, ◌+◌, ◌≡◌, ◌≢◌, ◌⊎◌, refl, inl, inr, Bool, true, false, ◌&&◌, Option, none, some, List, [], ◌∷◌,
  String, ◌==◌, ==_refl, arith, if◌then◌else◌, ltb, length, find, update, remove, any-find,
  HasUniqueKeys, Bool-cases, string_discrete,
}
use odyshell.Server.Control.Rate.{Window, window_key}
use odyshell.Server.Control.Rate.Pruning.{is_expired, name}
use odyshell.Server.Control.Rate.Reference.{Table, counted}

pub find_live :
    (key : String) (now : ℕ) (ws : List Window) (w : Window)
    → find (window_key key) ws ≡ some w
    → is_expired now w ≡ false
    → find (window_key key) (remove (is_expired now) ws) ≡ some w
unfolding find remove
find_live key now [] w e l = cc
find_live key now (v ∷ ws) w e l = ground (arith, find_live key now ws w)

pub find_absent :
    (key : String) (now : ℕ) (ws : List Window)
    → find (window_key key) ws ≡ none
    → find (window_key key) (remove (is_expired now) ws) ≡ none
unfolding find remove
find_absent key now [] e = refl
find_absent key now (v ∷ ws) e = ground (arith, find_absent key now ws)

find-update_other :
    (key k : String) (ws : List Window)
    → k ≢ key
    → find (window_key key) (update (window_key k) (λ w. record w { count = w.count + 1 }) ws)
      ≡ find (window_key key) ws
unfolding find update
find-update_other key k [] other = refl
find-update_other key k (w ∷ ws) other = ground (arith, find-update_other key k ws other)

find-update_same :
    (key : String) (ws : List Window) (w : Window)
    → find (window_key key) ws ≡ some w
    → find (window_key key) (update (window_key key) (λ w. record w { count = w.count + 1 }) ws)
      ≡ some (record w { count = w.count + 1 })
unfolding find update
find-update_same key [] w e = cc
find-update_same key (v ∷ ws) w e = ground (arith, find-update_same key ws w)

-- A request for another key leaves the windows of this one as they are.
counted_other :
    (key k : String) (now : ℕ) (t : Table) (o : Option Window)
    → k ≢ key
    → find (window_key key) (counted k now t o).0.windows ≡ find (window_key key) t.windows
unfolding find
counted_other key k now t none other = ground arith
counted_other key k now t (some w) other =
    let same = find-update_other key k t.windows other in ground arith

pub find-expired :
    (key : String) (now : ℕ) (ws : List Window) (w : Window)
    → HasUniqueKeys name ws
    → find (window_key key) ws ≡ some w
    → is_expired now w ≡ true
    → find (window_key key) (remove (is_expired now) ws) ≡ none
unfolding find remove
find-expired key now [] w unique e over = cc
find-expired key now (v ∷ ws) w unique e over = elim (Bool-cases (v.key == key)) [
  | inl here ↦
      let same : v.key ≡ key = ground arith in
      let this : v ≡ w = ground arith in
      let none_left = any-find (window_key key) ws (rw (← same) unique.0) in
      rw (this, over, remove) (find_absent key now ws none_left)
  | inr there ↦ ground (arith, find-expired key now ws w unique.1 (rw (there, find) at e) over)
]

abbrev pub hit : String → String → Bool → ℕ
hit key k b = if (k == key) && b then 1 else 0

-- The key's window goes on, with one request more if that was let through.
abbrev pub GoesOn : String → String → Window → Table × Bool → Type 0
GoesOn key k w (t, b) =
    (v : Window) × (find (window_key key) t.windows ≡ some v)
    × (v.resets_at ≡ w.resets_at)
    × (v.count ≡ w.count + hit key k b)

-- The key stays without a window, or it gets one with a first request.
abbrev pub Starts : String → String → ℕ → Table × Bool → Type 0
Starts key k resets_at (t, b) =
    ((find (window_key key) t.windows ≡ none) × (hit key k b ≡ 0))
    ⊎ ((v : Window) × (find (window_key key) t.windows ≡ some v)
        × (v.resets_at ≡ resets_at)
        × (v.count ≡ 1)
        × (hit key k b ≡ 1))

pub counted_held :
    (key k : String) (now : ℕ) (t : Table) (w : Window)
    → find (window_key key) t.windows ≡ some w
    → GoesOn key k w (counted k now t (find (window_key k) t.windows))
unfolding find
counted_held key k now t w e = elim (string_discrete k key) [
  | yes same ↦
      rw (same, e)
        (elim (Bool-cases (ltb w.count t.limit)) [
          | inl room ↦
              rw (room, ==_refl key)
                (record w { count = w.count + 1 }, find-update_same key t.windows w e, refl, refl)
          | inr full ↦ rw (full, ==_refl key) (w, e, refl, omega arith)
        ])
  | no other ↦
      let kept = counted_other key k now t (find (window_key k) t.windows) other in
      (w, rw kept e, refl, ground arith)
]

pub counted_absent :
    (key k : String) (now : ℕ) (t : Table)
    → find (window_key key) t.windows ≡ none
    → Starts key k (now + t.window_milliseconds) (counted k now t (find (window_key k) t.windows))
unfolding find
counted_absent key k now t e = elim (string_discrete k key) [
  | yes same ↦
      rw (same, e)
        (elim (Bool-cases (ltb (length t.windows) t.max_tracked_keys)) [
          | inl room ↦
              rw (room, ==_refl key)
                (inr (
                  record { key = key; count = 1; resets_at = now + t.window_milliseconds },
                  ground arith,
                  refl,
                  refl,
                  refl,
                ))
          | inr full ↦ rw (full, ==_refl key) (inl (e, refl))
        ])
  | no other ↦
      let kept = counted_other key k now t (find (window_key k) t.windows) other in
      inl (rw kept e, ground arith)
]

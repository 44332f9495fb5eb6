-- ===== src/Server/Control/Rate/Pruning.antt =====
-- apps/server/src/control.ts: `pruneExpired` against the windows, of which every one has just one entry
-- in the heap of expirations.
use odyshell.Base.{
  ℕ, zero, suc, ◌+◌, ◌≤◌, ◌<◌, ◌≡◌, refl, inl, inr, Bool, true, false, ◌&&◌, some, List, [], ◌∷◌,
  String, ◌==◌, ==_refl, arith, if◌then◌else◌, ltb, leb, eqb, length, find, find-test, remove, any,
  HasUniqueKeys, remove-HasUniqueKeys, Bool-cases,
}
use odyshell.Base.Arrays
use odyshell.Base.Arrays.{count, length-count}
use odyshell.Base.Runs.{Returns, returns, Returns-bind, Returns-map, Returns-if}
use odyshell.Server.Control.Rate.{
  Window, Expiration, expiration_inhabited, FixedWindow, window_key, drop_window, prune_loop,
  prune_expired,
}
use odyshell.Server.Control.Rate.Holes.{time, IsHeap}
use odyshell.Server.Control.Rate.Sifting.{one_if, remove_next_expiration-Removed, root_least}

abbrev pub is_entry : String → ℕ → Expiration → Bool
is_entry k t e = e.key == k && eqb e.resets_at t

abbrev pub is_window : String → ℕ → Window → Bool
is_window k t w = w.key == k && eqb w.resets_at t

abbrev pub is_expired : ℕ → Window → Bool
is_expired now w = leb w.resets_at now

abbrev pub name : Window → String
name w = w.key

-- Every window has one entry in the heap, and every entry a window.
abbrev pub IsMatched : List Expiration → List Window → Type 0
IsMatched a ws = (k : String) (t : ℕ) → count (is_entry k t) a ≡ count (is_window k t) ws

pub record IsConsistent (l : FixedWindow) : Type 0 where
  pub heap : IsHeap l.expirations
  pub unique : HasUniqueKeys name l.windows
  pub matched : IsMatched l.expirations l.windows

pub count_unknown :
    (k : String) (t : ℕ) (ws : List Window)
    → any (window_key k) ws ≡ false
    → count (is_window k t) ws ≡ 0
unfolding any count
count_unknown k t [] h = refl
count_unknown k t (w ∷ ws) h = ground (arith, count_unknown k t ws)

-- Where a window of this key and time is, a look-up finds it.
find_counted :
    (k : String) (t : ℕ) (ws : List Window)
    → HasUniqueKeys name ws
    → 0 < count (is_window k t) ws
    → (w : Window) × (find (window_key k) ws ≡ some w) × (w.resets_at ≡ t)
unfolding find count
find_counted k t [] unique h = absurd (omega arith)
find_counted k t (w ∷ ws) unique h = elim (Bool-cases (w.key == k)) [
  | inl here ↦
      let same : w.key ≡ k = ground arith in
      let others = count_unknown k t ws (rw (← same) unique.0) in
      (w, rw (here, find) refl, ground (arith, others))
  | inr there ↦
      let (v, found, at_t) = find_counted k t ws unique.1 (ground arith) in
      (v, rw (there, find) found, at_t)
]

remove_unknown :
    (k : String) (ws : List Window) → any (window_key k) ws ≡ false → remove (window_key k) ws ≡ ws
unfolding any remove
remove_unknown k [] h = refl
remove_unknown k (w ∷ ws) h = ground (arith, remove_unknown k ws)

count-remove :
    (k j : String) (t : ℕ) (ws : List Window) (w : Window)
    → HasUniqueKeys name ws
    → find (window_key k) ws ≡ some w
    → count (is_window j t) ws
      ≡ count (is_window j t) (remove (window_key k) ws) + (if is_window j t w then 1 else 0)
unfolding find count remove
count-remove k j t [] w unique h = cc
count-remove k j t (v ∷ ws) w unique h = elim (Bool-cases (v.key == k)) [
  | inl here ↦
      let same : v.key ≡ k = ground arith in
      let others = remove_unknown k ws (rw (← same) unique.0) in
      let this : v ≡ w = ground arith in rw (here, remove, others, this) (omega arith)
  | inr there ↦
      let rest = count-remove k j t ws w unique.1 (rw (there, find) at h) in
      rw (there, remove) (omega arith)
]

remove-remove :
    (k : String) (now : ℕ) (ws : List Window) (w : Window)
    → HasUniqueKeys name ws
    → find (window_key k) ws ≡ some w
    → is_expired now w ≡ true
    → remove (is_expired now) (remove (window_key k) ws) ≡ remove (is_expired now) ws
unfolding find remove
remove-remove k now [] w unique h e = refl
remove-remove k now (v ∷ ws) w unique h e = elim (Bool-cases (v.key == k)) [
  | inl here ↦
      let same : v.key ≡ k = ground arith in
      let others = remove_unknown k ws (rw (← same) unique.0) in
      let this : v ≡ w = ground arith in rw (here, remove, others, this, e) refl
  | inr there ↦
      let rest = remove-remove k now ws w unique.1 (rw (there, find) at h) e in
      rw (there, remove, rest) refl
]

remove_none_expired :
    (now : ℕ) (ws : List Window)
    → ((k : String) (t : ℕ) → t ≤ now → count (is_window k t) ws ≡ 0)
    → remove (is_expired now) ws ≡ ws
unfolding count remove
remove_none_expired now [] h = refl
remove_none_expired now (w ∷ ws) h =
    let here = h w.key w.resets_at in
    let rest = remove_none_expired now ws (λ k t e. let all = h k t e in omega arith) in
    ground (arith, ==_refl w.key)

count_none :
    (p : Expiration → Bool) (a : List Expiration)
    → ((i : ℕ) → i < length a → p (Arrays.get! a i) ≡ false)
    → count p a ≡ 0
unfolding count Arrays.get!
count_none p [] h = refl
count_none p (e ∷ a) h =
    let here = h 0 (omega arith) in
    let rest = count_none p a (λ i q. h (suc i) (omega arith)) in ground arith

-- The windows of `l` but those that are over at `now`, with a heap that matches them.
abbrev pub Pruned : ℕ → FixedWindow → FixedWindow → Type 0
Pruned now l r =
    IsConsistent r
    × (r ≡ record l { windows = remove (is_expired now) l.windows; expirations = r.expirations })

-- Where the root is due later, nothing is over.
settled_Pruned :
    (now : ℕ) (l : FixedWindow)
    → IsConsistent l
    → ((i : ℕ) → i < length l.expirations → now < time l.expirations i)
    → Pruned now l l
settled_Pruned now l h later = (h, rw same refl)
  where
    none_due : (k : String) (t : ℕ) → t ≤ now → count (is_window k t) l.windows ≡ 0
    none_due k t due =
        let matched = h.matched k t in
        let none_left =
          count_none (is_entry k t) l.expirations (λ i q. let after = later i q in ground arith) in
        omega arith

    same : remove (is_expired now) l.windows ≡ l.windows
    same = remove_none_expired now l.windows none_due

-- The root and its window go together.
taken_Pruned :
    (now : ℕ) (l : FixedWindow) (e : Expiration) (rest : List Expiration)
    → IsConsistent l
    → e.resets_at ≤ now
    → IsHeap rest
    → ((p : Expiration → Bool) → count p l.expirations ≡ count p rest + one_if p e)
    → let dropped = drop_window e l.windows (find (window_key e.key) l.windows) in
      IsConsistent (record l { windows = dropped; expirations = rest })
      × (remove (is_expired now) dropped ≡ remove (is_expired now) l.windows)
taken_Pruned now l e rest h due heap counted =
    let (w, found, at_time) = find_counted e.key e.resets_at l.windows h.unique held in
    let current : eqb w.resets_at e.resets_at ≡ true = ground arith in
    let named : w.key ≡ e.key = key_found w found in
    rw (found, current)
      (
        record {
          heap = heap;
          unique = remove-HasUniqueKeys name (window_key e.key) l.windows h.unique;
          matched = λ k t.
              let before = h.matched k t in
              let without = count-remove e.key k t l.windows w h.unique found in
              let one = counted (is_entry k t) in
              let same : is_window k t w ≡ is_entry k t e = rw (named, at_time) refl in
              let without' = rw same at without in omega arith;
        },
        remove-remove e.key now l.windows w h.unique found (ground arith),
      )
  where
    held : 0 < count (is_window e.key e.resets_at) l.windows
    held =
        let before = h.matched e.key e.resets_at in
        let one = counted (is_entry e.key e.resets_at) in ground (arith, ==_refl e.key)

    key_found : (w : Window) → find (window_key e.key) l.windows ≡ some w → w.key ≡ e.key
    key_found w found = let passed = find-test (window_key e.key) l.windows w found in ground arith

prune_loop-Pruned :
    (k now : ℕ) (l : FixedWindow)
    → length l.expirations < k
    → IsConsistent l
    → Returns (Pruned now l) (prune_loop k now l)
unfolding prune_loop
prune_loop-Pruned zero now l f h = absurd (omega arith)
prune_loop-Pruned (suc k) now l f h = elim (Bool-cases (eqb (length l.expirations) 0)) [
  | inl nothing ↦
      rw (Arrays.get_elem?-none l.expirations 0 (ground arith), prune_loop)
        (returns (settled_Pruned now l h (λ i q. absurd (ground arith))))
  | inr something ↦
      let inside : 0 < length l.expirations = ground arith in
      rw (Arrays.get_elem?-get! l.expirations 0 inside, prune_loop)
        (Returns-if (ltb now (time l.expirations 0))
          (λ later. returns (
            settled_Pruned now l h
              (λ i q. let root = root_least l.expirations i h.heap q in ground arith)))
          (λ due.
            Returns-bind (remove_next_expiration-Removed l.expirations h.heap inside) λ (o, rest) s.
              let e = Arrays.get! l.expirations 0 in
              let one = s.2 (λ x. true) in
              let before = length-count l.expirations in
              let after = length-count rest in
              let (kept, same) = taken_Pruned now l e rest h (ground arith) s.1 s.2 in
              let dropped = drop_window e l.windows (find (window_key e.key) l.windows) in
              let next = record l { windows = dropped; expirations = rest } in
              rw s.0 (
                Returns-map (prune_loop-Pruned k now next (omega arith) kept)
                  λ r p. (p.0, rw (← same) p.1))))
]

pub prune_expired-Pruned :
    (now : ℕ) (l : FixedWindow) → IsConsistent l → Returns (Pruned now l) (prune_expired now l)
unfolding prune_expired
prune_expired-Pruned now l h = prune_loop-Pruned (length l.expirations + 1) now l (omega arith) h

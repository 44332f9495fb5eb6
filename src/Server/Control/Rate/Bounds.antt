-- ===== src/Server/Control/Rate/Bounds.antt =====
-- apps/server/src/control.ts: how many requests of one key `FixedWindowRateLimiter` lets through.
use odyshell.Base.{
  ℕ, ◌+◌, ◌≤◌, ◌<◌, ◌≡◌, ◌⊎◌, refl, inl, inr, Bool, true, false, ◌&&◌, Option, none, some, List, [],
  ◌∷◌, String, ◌==◌, arith, if◌then◌else◌, ltb, length, find, find-any, find-test, All, All-remove,
  All-find, HasUniqueKeys, All-update_one, remove-HasUniqueKeys, update-HasUniqueKeys, Bool-cases,
  Option-cases,
}
use odyshell.Server.Control.Rate.{Window, window_key}
use odyshell.Server.Control.Rate.Pruning.{is_expired, name}
use odyshell.Server.Control.Rate.Reference.{
  Table, Ask, live, counted, admit, answers, reference_answers,
}
use odyshell.Server.Control.Rate.Counting.{
  find_live, find_absent, find-expired, hit, GoesOn, Starts, counted_held, counted_absent,
}

-- How many of the requests for the key were let through.
unfoldable pub granted : String → List Ask → List Bool → ℕ
granted key [] answers = 0
granted key (ask ∷ asks) [] = 0
granted key ((k, now) ∷ asks) (b ∷ answers) =
    (if (k == key) && b then 1 else 0) + granted key asks answers

abbrev pub grants : String → List Ask → Table → ℕ
grants key asks t = granted key asks (reference_answers asks t)

-- No window has counted more than the limit, and a key has one window.
pub record IsSound (t : Table) : Type 0 where
  pub positive : 1 ≤ t.limit
  pub unique : HasUniqueKeys name t.windows
  pub limited : All (λ w. w.count ≤ t.limit) t.windows

abbrev pub Sane : Table → Table → Type 0
Sane t u = IsSound u × (u.limit ≡ t.limit) × (u.window_milliseconds ≡ t.window_milliseconds)

counted-Sane :
    (k : String) (now : ℕ) (t : Table)
    → IsSound t
    → Sane t (counted k now t (find (window_key k) t.windows)).0
counted-Sane k now t h = go (find (window_key k) t.windows) refl
  where
    go : (o : Option Window) → find (window_key k) t.windows ≡ o → Sane t (counted k now t o).0
    go none e = elim (Bool-cases (ltb (length t.windows) t.max_tracked_keys)) [
      | inl room ↦ rw room (
        record {
          positive = h.positive;
          unique = (find-any (window_key k) t.windows e, h.unique);
          limited = (h.positive, h.limited);
        },
        refl,
        refl,
      )
      | inr full ↦ rw full (h, refl, refl)
    ]
    go (some w) e = elim (Bool-cases (ltb w.count t.limit)) [
      | inl room ↦ rw room (
        record {
          positive = h.positive;
          unique =
              update-HasUniqueKeys name (window_key k) (λ w. record w { count = w.count + 1 })
                t.windows (λ x. refl) h.unique;
          limited =
              All-update_one name (λ w. w.count ≤ t.limit) (window_key k) (window_key k)
                (λ w. record w { count = w.count + 1 }) t.windows w h.unique e
                (λ x is_k. let held = find-test (window_key k) t.windows w e in ground arith)
                (ground arith) h.limited;
        },
        refl,
        refl,
      )
      | inr full ↦ rw full (h, refl, refl)
    ]

admit_cases :
    (k : String) (now : ℕ) (t : Table)
    → (admit k now t ≡ (t, false))
      ⊎ (admit k now t ≡ counted k now (live now t) (find (window_key k) (live now t).windows))
unfolding admit
admit_cases k now t = ground arith

live-IsSound : (now : ℕ) (t : Table) → IsSound t → IsSound (live now t)
live-IsSound now t h = record {
  positive = h.positive;
  unique = remove-HasUniqueKeys name (is_expired now) t.windows h.unique;
  limited = All-remove (λ w. w.count ≤ t.limit) (is_expired now) t.windows h.limited;
}

pub admit-Sane : (k : String) (now : ℕ) (t : Table) → IsSound t → Sane t (admit k now t).0
admit-Sane k now t h = elim (admit_cases k now t) [
  | inl e ↦ rw e (h, refl, refl)
  | inr e ↦ rw e (counted-Sane k now (live now t) (live-IsSound now t h))
]

admit-GoesOn :
    (key k : String) (now : ℕ) (t : Table) (w : Window)
    → find (window_key key) t.windows ≡ some w
    → now < w.resets_at
    → GoesOn key k w (admit k now t)
admit-GoesOn key k now t w e later = elim (admit_cases k now t) [
  | inl same ↦ rw same (w, e, refl, ground arith)
  | inr same ↦
      rw same
        (counted_held key k now (live now t) w (find_live key now t.windows w e (ground arith)))
]

admit-Starts :
    (key k : String) (now : ℕ) (t : Table)
    → find (window_key key) t.windows ≡ none
    → Starts key k (now + t.window_milliseconds) (admit k now t)
admit-Starts key k now t e = elim (admit_cases k now t) [
  | inl same ↦ rw same (inl (e, ground arith))
  | inr same ↦ rw same (counted_absent key k now (live now t) (find_absent key now t.windows e))
]

-- A window that is over stays only where the clock's reading cannot be used.
admit_over :
    (key k : String) (now : ℕ) (t : Table) (w : Window)
    → IsSound t
    → find (window_key key) t.windows ≡ some w
    → is_expired now w ≡ true
    → GoesOn key k w (admit k now t) ⊎ Starts key k (now + t.window_milliseconds) (admit k now t)
admit_over key k now t w h e over = elim (admit_cases k now t) [
  | inl same ↦ inl (rw same (w, e, refl, ground arith))
  | inr same ↦ inr (
      rw same
        (counted_absent key k now (live now t) (find-expired key now t.windows w h.unique e over)))
]

-- Until a window is over its key has the rest of the limit.
grants_current :
    (key : String) (asks : List Ask) (t : Table) (w : Window)
    → IsSound t
    → find (window_key key) t.windows ≡ some w
    → All (λ (k, now). now < w.resets_at) asks
    → grants key asks t + w.count ≤ t.limit
unfolding granted reference_answers
grants_current key [] t w h e all =
    let within = All-find (λ w. w.count ≤ t.limit) (window_key key) t.windows w h.limited e in
    omega arith
grants_current key ((k, now) ∷ asks) t w h e (first, all) =
    let (v, found, same_end, more) = admit-GoesOn key k now t w e first in
    let (sound, same_limit, same_length) = admit-Sane k now t h in
    let rest = grants_current key asks (admit k now t).0 v sound found (rw same_end all) in
    omega arith

module _ (key : String) (start : ℕ) where
  -- All requests come less than a window's length after `start`.
  abbrev pub IsDuring : ℕ → List Ask → Type 0
  IsDuring length = All (λ (k, now). (start ≤ now) × (now < start + length))

  IsDuring-later :
      (length resets_at : ℕ) (asks : List Ask)
      → start + length ≤ resets_at
      → IsDuring length asks
      → All (λ (k, now). now < resets_at) asks
  IsDuring-later length resets_at [] h all = tt
  IsDuring-later length resets_at ((k, now) ∷ asks) h ((from, to), all) =
      (omega arith, IsDuring-later length resets_at asks h all)

  -- The new window outlives all these requests.
  grants_started :
      (asks : List Ask) (k : String) (now : ℕ) (t : Table) (r : Table × Bool)
      → IsSound r.0
      → start ≤ now
      → IsDuring t.window_milliseconds asks
      → Starts key k (now + t.window_milliseconds) r
      → (find (window_key key) r.0.windows ≡ none → grants key asks r.0 ≤ r.0.limit)
      → grants key asks r.0 + hit key k r.1 ≤ r.0.limit
  grants_started asks k now t r h from all (inl (e, missed)) still =
      let rest = still e in omega arith
  grants_started asks k now t r h from all (inr (v, found, end, one, counted_one)) still =
      let all' = IsDuring-later t.window_milliseconds v.resets_at asks (omega arith) all in
      let rest = grants_current key asks r.0 v h found all' in omega arith

  grants_new :
      (asks : List Ask) (t : Table)
      → IsSound t
      → find (window_key key) t.windows ≡ none
      → IsDuring t.window_milliseconds asks
      → grants key asks t ≤ t.limit
  unfolding granted reference_answers
  grants_new [] t h e all = omega arith
  grants_new ((k, now) ∷ asks) t h e ((from, to), all) =
      let (sound, same_limit, same_length) = admit-Sane k now t h in
      let rest =
        grants_started asks k now t (admit k now t) sound from all (admit-Starts key k now t e)
          (λ e'. grants_new asks (admit k now t).0 sound e' (rw same_length all)) in
      omega arith

  -- What is left of the window there is, and one window more.
  grants_any :
      (asks : List Ask) (t : Table) (w : Window)
      → IsSound t
      → find (window_key key) t.windows ≡ some w
      → IsDuring t.window_milliseconds asks
      → grants key asks t + w.count ≤ t.limit + t.limit
  unfolding granted reference_answers
  grants_any [] t w h e all =
      let within = All-find (λ w. w.count ≤ t.limit) (window_key key) t.windows w h.limited e in
      omega arith
  grants_any ((k, now) ∷ asks) t w h e ((from, to), all) =
      let (sound, same_limit, same_length) = admit-Sane k now t h in
      let within = All-find (λ w. w.count ≤ t.limit) (window_key key) t.windows w h.limited e in
      let all' : IsDuring (admit k now t).0.window_milliseconds asks = rw same_length all in
      let on : GoesOn key k w (admit k now t)
          → grants key ((k, now) ∷ asks) t + w.count ≤ t.limit + t.limit =
        λ (v, found, same_end, more).
          let rest = grants_any asks (admit k now t).0 v sound found all' in omega arith in
      elim (Bool-cases (is_expired now w)) [
        | inr later ↦ on (admit-GoesOn key k now t w e (ground arith))
        | inl over ↦ elim (admit_over key k now t w h e over) [
          | inl goes_on ↦ on goes_on
          | inr starts ↦
              let rest =
                grants_started asks k now t (admit k now t) sound from all starts
                  (λ e'. grants_new asks (admit k now t).0 sound e' all') in
              omega arith
        ]
      ]

  pub grants_bounded :
      (asks : List Ask) (t : Table)
      → IsSound t
      → IsDuring t.window_milliseconds asks
      → grants key asks t ≤ t.limit + t.limit
  grants_bounded asks t h all = elim (Option-cases (find (window_key key) t.windows)) [
    | inl e ↦ let new = grants_new asks t h e all in omega arith
    | inr (w, e) ↦ let any_count = grants_any asks t w h e all in omega arith
  ]

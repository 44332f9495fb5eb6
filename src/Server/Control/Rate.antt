-- ===== src/Server/Control/Rate.antt =====
-- apps/server/src/control.ts: the class `FixedWindowRateLimiter`. Its `Map` of windows is the list of
-- the entries, its array of expirations a list read and written at indices. A heap operation runs on
-- fuel, one unit for each round of its loop; reading past the array's end is a `TypeError`. The clock
-- and the limits are natural numbers, so the tests for fractions and negative numbers have no branch.
pub mod Holes
pub mod Sifting
pub mod Pruning
pub mod Reference
pub mod Counting
pub mod Bounds
pub mod Guarantee
use odyshell.Base.{
  ℕ, zero, suc, ◌+◌, ◌-◌, ◌*◌, ◌/◌, ◌≡◌, Bool, true, false, ◌&&◌, ◌||◌, Option, none, some, List,
  [], ◌∷◌, ◌++◌, String, ◌==◌, if◌then◌else◌, ltb, leb, eqb, length, find, update, remove,
}
use odyshell.Base.Arrays
use odyshell.Base.Arrays.{Inhabited}
use odyshell.Base.Runs.{Run, ok, type_error, out_of_fuel, ◌>>=◌, or_type_error}

pub record Window : Type 0 where
  pub key : String
  pub count : ℕ
  pub resets_at : ℕ

pub record Expiration : Type 0 where
  pub key : String
  pub resets_at : ℕ

instance pub expiration_inhabited : Inhabited Expiration
expiration_inhabited = record { default = record { key = ""; resets_at = 0 } }

pub record FixedWindow : Type 0 where
  pub limit : ℕ
  pub window_milliseconds : ℕ
  pub max_tracked_keys : ℕ
  pub windows : List Window
  pub expirations : List Expiration

-- `Number.MAX_SAFE_INTEGER`
abbrev pub max_safe_integer : ℕ
max_safe_integer = 9007199254740991

unfoldable pub is_positive_safe : ℕ → Bool
is_positive_safe n = leb 1 n && leb n max_safe_integer

-- The constructor: `none` is a `RangeError`.
unfoldable pub fixed_window : (limit window_milliseconds max_tracked_keys : ℕ) → Option FixedWindow
unfolding is_positive_safe
fixed_window limit window_milliseconds max_tracked_keys =
    if is_positive_safe limit
      && (is_positive_safe window_milliseconds && is_positive_safe max_tracked_keys)
    then some (record {
      limit = limit;
      window_milliseconds = window_milliseconds;
      max_tracked_keys = max_tracked_keys;
      windows = [];
      expirations = [];
    })
    else none

abbrev pub window_key : String → Window → Bool
window_key k w = w.key == k

abbrev pub tracked_key_count : FixedWindow → ℕ
tracked_key_count l = length l.windows

unfoldable pub load : List Expiration → ℕ → Run Expiration
load a i = or_type_error (Arrays.get_elem? a i)

abbrev pub parent : ℕ → ℕ
parent c = (c - 1) / 2

-- The loop of `addExpiration` and the write after it: `i` is the hole.
unfoldable pub sift_up : ℕ → List Expiration → ℕ → Expiration → Run (List Expiration)
sift_up zero a i e = out_of_fuel
sift_up (suc k) a i e =
    let rise = load a (parent i) >>= λ above.
    if leb above.resets_at e.resets_at
    then ok (Arrays.set a i e)
    else sift_up k (Arrays.set a i above) (parent i) e in
    if ltb 0 i then rise else ok (Arrays.set a i e)

unfoldable pub add_expiration : Expiration → List Expiration → Run (List Expiration)
add_expiration e a = sift_up (length a + 1) (a ++ e ∷ []) (length a) e

-- `&&` reads the right child only if it exists.
unfoldable pub smaller_child : List Expiration → ℕ → Run ℕ
smaller_child a i =
    let left = i * 2 + 1 in
    let right = left + 1 in
    if ltb right (length a)
    then (do
      on_right ← load a right
      on_left ← load a left
      ok (if ltb on_right.resets_at on_left.resets_at then right else left))
    else ok left

-- The loop of `removeNextExpiration` and the write after it.
unfoldable pub sift_down : ℕ → List Expiration → ℕ → Expiration → Run (List Expiration)
sift_down zero a i last = out_of_fuel
sift_down (suc k) a i last =
    let sink = smaller_child a i >>= λ child. load a child >>= λ below.
    if leb last.resets_at below.resets_at
    then ok (Arrays.set a i last)
    else sift_down k (Arrays.set a i below) child last in
    if leb (length a) (i * 2 + 1) then ok (Arrays.set a i last) else sink

abbrev pub removed :
    Option Expiration
    → Option Expiration
    → List Expiration
    → Run (Option Expiration × List Expiration)
removed (some first) (some last) [] = ok (some first, [])
removed (some first) (some last) (x ∷ xs) = do
  b ← sift_down (length (x ∷ xs) + 1) (x ∷ xs) 0 last
  ok (some first, b)
removed first last rest = ok (first, rest)

unfoldable pub remove_next_expiration : List Expiration → Run (Option Expiration × List Expiration)
remove_next_expiration a =
    let n = length a - 1 in removed (Arrays.get_elem? a 0) (Arrays.get_elem? a n) (Arrays.take n a)

-- Deletes the window of the expiration, if that is still the key's window.
abbrev pub drop_window : Expiration → List Window → Option Window → List Window
drop_window expired windows none = windows
drop_window expired windows (some current) =
    if eqb current.resets_at expired.resets_at
    then remove (window_key expired.key) windows
    else windows

-- What the loop does with the expiration it took off.
abbrev pub after_removal :
    (FixedWindow → Run FixedWindow)
    → FixedWindow
    → Option Expiration × List Expiration
    → Run FixedWindow
after_removal again l (none, rest) = ok (record l { expirations = rest })
after_removal again l (some expired, rest) = again (record l {
  windows = drop_window expired l.windows (find (window_key expired.key) l.windows);
  expirations = rest;
})

unfoldable pub prune_loop : ℕ → ℕ → FixedWindow → Run FixedWindow
prune_loop zero now l = out_of_fuel
prune_loop (suc k) now l = elim (Arrays.get_elem? l.expirations 0) [
  | none ↦ ok l
  | some next ↦
      if ltb now next.resets_at
      then ok l
      else remove_next_expiration l.expirations >>= after_removal (prune_loop k now) l
]

unfoldable pub prune_expired : ℕ → FixedWindow → Run FixedWindow
prune_expired now l = prune_loop (length l.expirations + 1) now l

-- Whether `prepare` answers with a time.
unfoldable pub is_observable : ℕ → FixedWindow → Bool
is_observable now l = leb now max_safe_integer && leb now (max_safe_integer - l.window_milliseconds)

unfoldable pub prepare : ℕ → FixedWindow → Run (FixedWindow × Option ℕ)
prepare now l =
    if is_observable now l
    then (do pruned ← prune_expired now l; ok (pruned, some now))
    else ok (l, none)

abbrev pub may_count : FixedWindow → Option Window → Bool
may_count l (some current) = ltb current.count l.limit
may_count l none = ltb (length l.windows) l.max_tracked_keys

unfoldable pub can_allow_prepared : String → FixedWindow → Bool
can_allow_prepared key l = may_count l (find (window_key key) l.windows)

abbrev pub count_on : String → ℕ → FixedWindow → Option Window → Run FixedWindow
count_on key now l none = do
  expirations ←
      add_expiration (record { key = key; resets_at = now + l.window_milliseconds }) l.expirations
  ok (record l {
    windows = record { key = key; count = 1; resets_at = now + l.window_milliseconds } ∷ l.windows;
    expirations = expirations;
  })
count_on key now l (some current) = ok (record l {
  windows = update (window_key key) (λ w. record w { count = w.count + 1 }) l.windows;
})

unfoldable pub consume_prepared : String → ℕ → FixedWindow → Run FixedWindow
consume_prepared key now l = count_on key now l (find (window_key key) l.windows)

abbrev pub consume_observed : String → FixedWindow × Option ℕ → Run (FixedWindow × Bool)
consume_observed key (l, none) = ok (l, false)
consume_observed key (l, some observed_at) =
    if can_allow_prepared key l
    then (do counted ← consume_prepared key observed_at l; ok (counted, true))
    else ok (l, false)

unfoldable pub allow : String → ℕ → FixedWindow → Run (FixedWindow × Bool)
allow key now l = prepare now l >>= consume_observed key

abbrev pub answer_prepared : String → FixedWindow × Option ℕ → Run (FixedWindow × Bool)
answer_prepared key (l, none) = ok (l, false)
answer_prepared key (l, some observed_at) = ok (l, can_allow_prepared key l)

unfoldable pub can_allow : String → ℕ → FixedWindow → Run (FixedWindow × Bool)
can_allow key now l = prepare now l >>= answer_prepared key

unfoldable pub consume : String → ℕ → FixedWindow → Run FixedWindow
consume key now l = do (counted, allowed) ← allow key now l; ok counted

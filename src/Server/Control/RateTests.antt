-- ===== src/Server/Control/RateTests.antt =====
-- The rate limiters on concrete inputs.
use odyshell.Base.{
  ◌+◌, ◌≤◌, ◌≡◌, refl, some, true, false, List, [], ◌∷◌, arith, find, remove, update,
  string_discrete,
}
use odyshell.Base.Arrays.{count}
use odyshell.Base.Runs.{ok, Returns}
use odyshell.Server.Control.Rate.{
  FixedWindow, fixed_window, allow, is_positive_safe, load, sift_up, sift_down, smaller_child,
  add_expiration, remove_next_expiration, prune_loop, prune_expired, prepare, is_observable,
  can_allow_prepared, consume_prepared,
}
use odyshell.Server.Control.Rate.Pruning.{IsConsistent}
use odyshell.Server.Control.Rate.Reference.{
  Ask, answers, reference_answers, table, answers-eq-reference_answers,
}
use odyshell.Server.Control.Rate.Bounds.{granted}
use odyshell.Server.Control.Rate.Guarantee.{asked, granted-IsBounded}
use odyshell.Server.Control.Scoped.{ScopedRateLimiter, scoped_allow, Decided, scoped_allow-Decided}

abbrev limiter : FixedWindow
limiter = record {
  limit = 2;
  window_milliseconds = 10;
  max_tracked_keys = 2;
  windows = [];
  expirations = [];
}

made : fixed_window 2 10 2 ≡ some limiter
unfolding fixed_window is_positive_safe
made = refl

-- Two keys fill the table; the second waits for the first window to end.
abbrev asks : List Ask
asks = ("a", 1) ∷ ("b", 3) ∷ ("a", 5) ∷ ("a", 6) ∷ ("c", 10) ∷ ("c", 11) ∷ ("a", 12) ∷ []

answered : answers asks limiter ≡ ok (true ∷ true ∷ true ∷ false ∷ false ∷ true ∷ false ∷ [])
unfolding answers allow prepare is_observable prune_expired prune_loop remove_next_expiration
    sift_down smaller_child can_allow_prepared consume_prepared add_expiration sift_up find update
    remove string_discrete load
answered = refl

answers-eq-reference_answers_example :
    answers asks limiter ≡ ok (reference_answers asks (table 2 10 2))
answers-eq-reference_answers_example = answers-eq-reference_answers 2 10 2 limiter asks made

granted-IsBounded_example :
    Returns
      (λ later.
        Returns
          (λ given. granted "a" (("a", 9) ∷ ("a", 12) ∷ []) given ≤ 2 + 2)
          (answers (("a", 9) ∷ ("a", 12) ∷ []) later))
      (asked asks limiter)
granted-IsBounded_example =
    granted-IsBounded 2 10 2 limiter "a" 5 asks (("a", 9) ∷ ("a", 12) ∷ []) made
      ((omega arith, omega arith), ((omega arith, omega arith), tt))

abbrev scoped : ScopedRateLimiter
scoped = record { organizations = limiter; users = limiter }

limiter-IsConsistent : IsConsistent limiter
unfolding count
limiter-IsConsistent = record {
  heap = λ c p q. absurd (omega arith);
  unique = tt;
  matched = λ k t. refl;
}

scoped_allow-Decided_example :
    Returns
      (λ (r, allowed). Decided "org" "u1" 4 scoped r allowed)
      (scoped_allow "org" "u1" 4 scoped)
scoped_allow-Decided_example =
    scoped_allow-Decided "org" "u1" 4 scoped limiter-IsConsistent limiter-IsConsistent

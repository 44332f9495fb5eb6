-- ===== src/Server/Control/Replay.antt =====
-- apps/server/src/control.ts: the class `ControlLiveTokenReplayGuard`. Its `Map` is the list of its
-- entries; the digest of a token is a parameter.
use odyshell.Base.{
  ℕ, ◌<◌, ◌≡◌, refl, Bool, true, false, ◌&&◌, List, [], ◌∷◌, String, ◌==◌, ==_refl, if◌then◌else◌,
  leb, remove, any, arith, All,
}

pub record UsedToken : Type 0 where
  pub digest : String
  pub expires_at : ℕ

abbrev used_up : ℕ → UsedToken → Bool
used_up now u = leb u.expires_at now

abbrev is_token : String → UsedToken → Bool
is_token d u = u.digest == d

-- A token is in the guard's map up to a time.
abbrev pub IsUsedUntil : String → ℕ → List UsedToken → Type 0
IsUsedUntil d until used = any (λ u. u.digest == d && leb until u.expires_at) used ≡ true

pub record Use : Type 0 where
  pub token : String
  pub expires_at : ℕ
  pub now : ℕ

module _ (digest_of : String → String) where
  unfoldable pub consume_token : Use → List UsedToken → List UsedToken × Bool
  consume_token u used =
      let left = remove (used_up u.now) used in
      let digest = digest_of u.token in
      if any (is_token digest) left
      then (left, false)
      else (record { digest = digest; expires_at = u.expires_at } ∷ left, true)

  unfoldable pub consume_tokens : List Use → List UsedToken → List UsedToken
  consume_tokens [] used = used
  consume_tokens (u ∷ us) used = consume_tokens us (consume_token u used).0

  remove_used :
      (d : String) (until now : ℕ) (used : List UsedToken)
      → now < until
      → IsUsedUntil d until used
      → IsUsedUntil d until (remove (used_up now) used)
  unfolding any remove
  remove_used d until now [] before h = cc
  remove_used d until now (u ∷ used) before h = ground (arith, remove_used d until now used before)

  IsUsedUntil-any :
      (d : String) (until : ℕ) (used : List UsedToken)
      → IsUsedUntil d until used
      → any (is_token d) used ≡ true
  unfolding any
  IsUsedUntil-any d until [] h = cc
  IsUsedUntil-any d until (u ∷ used) h = ground (arith, IsUsedUntil-any d until used)

  consume_token-IsUsedUntil :
      (d : String) (until : ℕ) (u : Use) (used : List UsedToken)
      → u.now < until
      → IsUsedUntil d until used
      → IsUsedUntil d until (consume_token u used).0
  unfolding consume_token any
  consume_token-IsUsedUntil d until u used before h =
      let kept = remove_used d until u.now used before h in ground (arith, kept)

  consume_tokens-IsUsedUntil :
      (d : String) (until : ℕ) (us : List Use) (used : List UsedToken)
      → All (λ u. u.now < until) us
      → IsUsedUntil d until used
      → IsUsedUntil d until (consume_tokens us used)
  unfolding consume_tokens
  consume_tokens-IsUsedUntil d until [] used before h = h
  consume_tokens-IsUsedUntil d until (u ∷ us) used (first, before) h =
      consume_tokens-IsUsedUntil d until us (consume_token u used).0 before
        (consume_token-IsUsedUntil d until u used first h)

  consumed-IsUsedUntil :
      (u : Use) (used : List UsedToken)
      → (consume_token u used).1 ≡ true
      → IsUsedUntil (digest_of u.token) u.expires_at (consume_token u used).0
  unfolding consume_token any
  consumed-IsUsedUntil u used h = ground (arith, ==_refl (digest_of u.token))

  -- A token that was let in once is refused at every later use before its expiry, whatever other
  -- tokens are used in between, and whatever expiry the later use names.
  pub consume_token_once :
      (first again : Use) (between : List Use) (used : List UsedToken)
      → (consume_token first used).1 ≡ true
      → All (λ other. other.now < first.expires_at) between
      → again.token ≡ first.token
      → again.now < first.expires_at
      → (consume_token again (consume_tokens between (consume_token first used).0)).1 ≡ false
  unfolding consume_token
  consume_token_once first again between used accepted before same at =
      let later = consume_tokens between (consume_token first used).0 in
      let held =
        consume_tokens-IsUsedUntil (digest_of first.token) first.expires_at between
          (consume_token first used).0 before (consumed-IsUsedUntil first used accepted) in
      let kept = remove_used (digest_of first.token) first.expires_at again.now later at held in
      let found =
        IsUsedUntil-any (digest_of first.token) first.expires_at (remove (used_up again.now) later)
          kept in
      rw (same, found, consume_token) refl

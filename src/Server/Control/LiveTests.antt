-- ===== src/Server/Control/LiveTests.antt =====
-- The tokens of live connections on concrete inputs, with a coding that shifts each byte.
use odyshell.Base.{
  ℕ, ◌+◌, ◌-◌, ◌≤◌, ◌<◌, ◌≡◌, ◌≢◌, refl, Option, some, false, List, [], ◌∷◌, ◌++◌, String, arith,
  length, All, any, remove,
}
use odyshell.Base.Chars
use odyshell.Server.Control.LiveTokens.{
  LiveClaims, IsCoding, create_live_token, verify_live_token, verify_live_token_authentic,
  live_token_prefix, dot, signature_of, verify_live_token-create_live_token,
}
use odyshell.Server.Control.Replay.{Use, consume_token, consume_tokens, consume_token_once}

abbrev shift_up : List ℕ → List ℕ
shift_up [] = []
shift_up (x ∷ xs) = (x + 100) ∷ shift_up xs

abbrev shift_down : List ℕ → List ℕ
shift_down [] = []
shift_down (x ∷ xs) = (x - 100) ∷ shift_down xs

abbrev digest : List ℕ → List ℕ → List ℕ
digest secret payload = 1 ∷ secret

abbrev claims : LiveClaims
claims = record { organization_id = "org"; user_id = "u1"; nonce = "n"; expires_at = 60005 }

abbrev json : LiveClaims → List ℕ
json c = 7 ∷ []

abbrev parse : List ℕ → Option LiveClaims
parse bytes = some claims

shift_up-plain : (bytes : List ℕ) → All (λ x. x ≢ dot) (shift_up bytes)
shift_up-plain [] = tt
shift_up-plain (x ∷ xs) = (omega arith, shift_up-plain xs)

shift_down-shift_up : (bytes : List ℕ) → shift_down (shift_up bytes) ≡ bytes
shift_down-shift_up [] = refl
shift_down-shift_up (x ∷ xs) =
    let here : x + 100 - 100 ≡ x = omega arith in rw (here, shift_down-shift_up xs) refl

shift_up-some : (bytes : List ℕ) → 1 ≤ length bytes → 1 ≤ length (shift_up bytes)
shift_up-some [] h = h
shift_up-some (x ∷ xs) h = omega arith

coding : IsCoding digest shift_up shift_down json parse
coding = record {
  no_dot = shift_up-plain;
  decoded = shift_down-shift_up;
  not_empty = shift_up-some;
  digest = λ secret payload. omega arith;
}

abbrev token : List ℕ
token = create_live_token digest shift_up shift_down json parse (9 ∷ []) "org" "u1" "n" 5 90000

verify_live_token-create_live_token_example :
    verify_live_token digest shift_up shift_down json parse (9 ∷ []) token 60004 ≡ some claims
unfolding create_live_token
verify_live_token-create_live_token_example =
    verify_live_token-create_live_token digest shift_up shift_down json parse (9 ∷ []) "org" "u1"
      "n" 5 90000 60004 coding (omega arith) refl (omega arith) (omega arith)

verify_live_token_authentic_example :
    (payload : List ℕ) × (token
      ≡ live_token_prefix
        ++ payload
        ++ dot ∷ signature_of digest shift_up shift_down json parse (9 ∷ []) payload)
    × (parse (shift_down payload) ≡ some claims)
    × (60004 < claims.expires_at)
unfolding create_live_token verify_live_token Chars.split Chars.drop Chars.starts_with Chars.equals
verify_live_token_authentic_example =
    verify_live_token_authentic digest shift_up shift_down json parse (9 ∷ []) token 60004 claims
      refl

abbrev hashed : String → String
hashed token = token

abbrev first : Use
first = record { token = "t1"; expires_at = 50; now = 10 }

abbrev other : Use
other = record { token = "t2"; expires_at = 30; now = 40 }

abbrev again : Use
again = record { token = "t1"; expires_at = 90; now = 49 }

consume_token_once_example :
    (consume_token hashed again
      (consume_tokens hashed (other ∷ []) (consume_token hashed first []).0)).1
    ≡ false
unfolding consume_token remove any
consume_token_once_example =
    consume_token_once hashed first again (other ∷ []) [] refl (omega arith, tt) refl (omega arith)

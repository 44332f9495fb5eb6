-- ===== src/Server/Control/LiveTokens.antt =====
-- apps/server/src/control.ts: the signed tokens that open a live connection of the web application, and
-- `ControlLiveTokenReplayGuard`. Texts and buffers are lists of code units and of bytes. The HMAC, the
-- base64url coding and the claims' JSON are parameters, as is the hash of a token.
use odyshell.Base.{
  ℕ, ◌+◌, ◌≤◌, ◌<◌, ◌≡◌, ◌≢◌, ◌∙◌, refl, ap, sym, true, false, not, ◌||◌, Option, none, some, List,
  [], ◌∷◌, ◌++◌, String, if◌then◌else◌, ltb, eqb, min, max, length, All, arith,
}
use odyshell.Base.Chars

pub record LiveClaims : Type 0 where
  pub organization_id : String
  pub user_id : String
  pub nonce : String
  pub expires_at : ℕ

-- `ods_live_`
abbrev pub live_token_prefix : List ℕ
live_token_prefix = 111 ∷ 100 ∷ 115 ∷ 95 ∷ 108 ∷ 105 ∷ 118 ∷ 101 ∷ 95 ∷ []

abbrev pub max_live_token_length : ℕ
max_live_token_length = 2048

-- `.`
abbrev pub dot : ℕ
dot = 46

abbrev pub live_until : LiveClaims → ℕ → Option LiveClaims
live_until claims now = if ltb now claims.expires_at then some claims else none

abbrev unexpired : ℕ → Option LiveClaims → Option LiveClaims
unexpired now none = none
unexpired now (some claims) = live_until claims now

unexpired_alive :
    (now : ℕ) (o : Option LiveClaims) (claims : LiveClaims)
    → unexpired now o ≡ some claims
    → (o ≡ some claims) × (now < claims.expires_at)
unexpired_alive now none claims h = cc
unexpired_alive now (some c) claims h =
    let same : c ≡ claims = ground arith in (rw same refl, ground arith)

module _ (hmac : List ℕ → List ℕ → List ℕ) (to_base64url from_base64url : List ℕ → List ℕ)
    (to_json : LiveClaims → List ℕ) (parse_claims : List ℕ → Option LiveClaims) where
  abbrev pub signature_of : List ℕ → List ℕ → List ℕ
  signature_of secret payload = to_base64url (hmac secret payload)

  -- The nonce is the random part of the claims.
  unfoldable pub create_live_token :
      (secret : List ℕ) (organization_id user_id nonce : String) (now lifetime_milliseconds : ℕ)
      → List ℕ
  create_live_token secret organization_id user_id nonce now lifetime_milliseconds =
      let payload = to_base64url (
        to_json (record {
          organization_id = organization_id;
          user_id = user_id;
          nonce = nonce;
          expires_at = now + max 1000 (min lifetime_milliseconds 60000);
        })) in
      live_token_prefix ++ payload ++ dot ∷ signature_of secret payload

  abbrev pub check_parts : List ℕ → ℕ → List (List ℕ) → Option LiveClaims
  check_parts secret now (payload ∷ signature ∷ []) =
      let expected = hmac secret payload in
      let provided = from_base64url signature in
      if eqb (length payload) 0 || eqb (length signature) 0
      then none
      else if not (Chars.equals (to_base64url provided) signature)
      then none
      else if not (eqb (length provided) (length expected)) || not (Chars.equals provided expected)
      then none
      else unexpired now (parse_claims (from_base64url payload))
  check_parts secret now parts = none

  unfoldable pub verify_live_token : (secret token : List ℕ) (now : ℕ) → Option LiveClaims
  verify_live_token secret token now =
      if ltb max_live_token_length (length token) || not (Chars.starts_with live_token_prefix token)
      then none
      else check_parts secret now (Chars.split dot (Chars.drop (length live_token_prefix) token))

  check_parts_authentic :
      (secret : List ℕ) (now : ℕ) (parts : List (List ℕ)) (claims : LiveClaims)
      → check_parts secret now parts ≡ some claims
      → (payload : List ℕ) × (parts ≡ payload ∷ signature_of secret payload ∷ [])
        × (parse_claims (from_base64url payload) ≡ some claims)
        × (now < claims.expires_at)
  check_parts_authentic secret now (payload ∷ signature ∷ []) claims h =
      let expected = hmac secret payload in
      let provided = from_base64url signature in
      let spelled : Chars.equals (to_base64url provided) signature ≡ true = ground arith in
      let signed : Chars.equals provided expected ≡ true = ground arith in
      let checked : unexpired now (parse_claims (from_base64url payload)) ≡ some claims =
        ground arith in
      let (parsed, alive) =
        unexpired_alive now (parse_claims (from_base64url payload)) claims checked in
      let same : signature ≡ signature_of secret payload =
        sym (Chars.equals_eq (to_base64url provided) signature spelled)
        ∙ ap to_base64url (Chars.equals_eq provided expected signed) in
      (payload, ap (λ t. payload ∷ t ∷ []) same, parsed, alive)
  check_parts_authentic secret now [] claims h = cc
  check_parts_authentic secret now (_ ∷ []) claims h = cc
  check_parts_authentic secret now (_ ∷ _ ∷ _ ∷ _) claims h = cc

  -- A token that is accepted is the prefix, a payload, a dot and the signature of that payload under the
  -- secret; the claims are the payload's, and they have not expired.
  pub verify_live_token_authentic :
      (secret token : List ℕ) (now : ℕ) (claims : LiveClaims)
      → verify_live_token secret token now ≡ some claims
      → (payload : List ℕ) × (token
          ≡ live_token_prefix ++ payload ++ dot ∷ signature_of secret payload)
        × (parse_claims (from_base64url payload) ≡ some claims)
        × (now < claims.expires_at)
  unfolding verify_live_token
  verify_live_token_authentic secret token now claims h =
      let rest = Chars.drop (length live_token_prefix) token in
      let within : Chars.starts_with live_token_prefix token ≡ true = ground arith in
      let checked : check_parts secret now (Chars.split dot rest) ≡ some claims = ground arith in
      let (payload, parts, parsed, alive) =
        check_parts_authentic secret now (Chars.split dot rest) claims checked in
      (
        payload,
        Chars.starts_with-drop live_token_prefix token within
            ∙ ap (λ r. live_token_prefix ++ r)
                (sym (Chars.join-split dot rest) ∙ ap (Chars.join dot) parts),
        parsed,
        alive,
      )

  -- What base64url and an HMAC are documented to do.
  pub record IsCoding : Type 0 where
    pub no_dot : (bytes : List ℕ) → All (λ x. x ≢ dot) (to_base64url bytes)
    pub decoded : (bytes : List ℕ) → from_base64url (to_base64url bytes) ≡ bytes
    pub not_empty : (bytes : List ℕ) → 1 ≤ length bytes → 1 ≤ length (to_base64url bytes)
    pub digest : (secret payload : List ℕ) → 1 ≤ length (hmac secret payload)

  check_parts-created :
      (secret payload : List ℕ) (now : ℕ) (claims : LiveClaims)
      → IsCoding
      → 1 ≤ length payload
      → parse_claims (from_base64url payload) ≡ some claims
      → now < claims.expires_at
      → check_parts secret now (payload ∷ signature_of secret payload ∷ []) ≡ some claims
  check_parts-created secret payload now claims coding some_text parsed alive =
      let digest = hmac secret payload in
      let signature = to_base64url digest in
      let signed = coding.not_empty digest (coding.digest secret payload) in
      let back = coding.decoded digest in
      let same = Chars.equals_refl signature in
      let alike = Chars.equals_refl digest in rw (back, parsed) (ground arith)

  verify_live_token-signed :
      (secret payload : List ℕ) (now : ℕ) (claims : LiveClaims)
      → IsCoding
      → All (λ x. x ≢ dot) payload
      → 1 ≤ length payload
      → parse_claims (from_base64url payload) ≡ some claims
      → length (live_token_prefix ++ payload ++ dot ∷ signature_of secret payload)
        ≤ max_live_token_length
      → now < claims.expires_at
      → verify_live_token secret
          (live_token_prefix ++ payload ++ dot ∷ signature_of secret payload)
          now
        ≡ some claims
  unfolding verify_live_token
  verify_live_token-signed secret payload now claims coding plain some_text parsed short alive =
      let signature = signature_of secret payload in
      let rest = payload ++ dot ∷ signature in
      let parts : Chars.split dot rest ≡ payload ∷ signature ∷ [] =
        Chars.split-append dot payload signature plain
        ∙ ap (λ q. payload ∷ q)
            (Chars.split-part dot signature (coding.no_dot (hmac secret payload))) in
      let dropped = Chars.drop-append live_token_prefix rest in
      let begins = Chars.starts_with-append live_token_prefix rest in
      let checked = check_parts-created secret payload now claims coding some_text parsed alive in
      let fits : ltb max_live_token_length (length (live_token_prefix ++ rest)) ≡ false =
        ground arith in
      rw (fits, begins, verify_live_token) (rw dropped (rw parts checked))

  -- A token that was created is verified under the same secret, as the claims it was created for, at
  -- any time before it expires; it lives from one second to one minute. That it is not longer than 2048
  -- code units, and that the schema accepts these claims, is assumed.
  pub verify_live_token-create_live_token :
      (secret : List ℕ) (organization_id user_id nonce : String) (now lifetime later : ℕ)
      → let claims : LiveClaims = record {
        organization_id = organization_id;
        user_id = user_id;
        nonce = nonce;
        expires_at = now + max 1000 (min lifetime 60000);
      } in
        let token = create_live_token secret organization_id user_id nonce now lifetime in
        IsCoding
        → 1 ≤ length (to_json claims)
        → parse_claims (to_json claims) ≡ some claims
        → length token ≤ max_live_token_length
        → later < claims.expires_at
        → verify_live_token secret token later ≡ some claims
  unfolding create_live_token verify_live_token
  verify_live_token-create_live_token secret o u n now lifetime later coding some_json parsed short
        alive =
      let claims : LiveClaims = record {
        organization_id = o;
        user_id = u;
        nonce = n;
        expires_at = now + max 1000 (min lifetime 60000);
      } in
      let payload = to_base64url (to_json claims) in
      verify_live_token-signed secret payload later claims coding (coding.no_dot (to_json claims))
        (coding.not_empty (to_json claims) some_json)
        (ap parse_claims (coding.decoded (to_json claims)) ∙ parsed) short alive

-- ===== src/Gateway/Sessions.antt =====
-- The session of the gateway client, and the scopes that it resolves.
use memapp.Prelude.{
  ℕ, String, ◌<◌, ◌≡◌, refl, sym, ap, ◌∙◌, true, false, ◌&&◌, Option, none, some, List, arith, leb,
}
use memapp.Prelude.Texts.{◌<>◌}
use memapp.Prelude.Result.{
  ok, gateway_error, value_error, ◌>>=◌, both_returned, ok-inj, unless_err, if_returned,
}
use memapp.Permissions.{Scope}
use memapp.Connectors.Json.{Json, Fields}
use memapp.Connectors.Json.Reading.{item, get_or, truthy}
use memapp.Graphs.Checked.{authorize, introspected, is_given, no_token}
use memapp.Gateway.{
  Response, Http, GatewayClient, unwrap, token_or_raise, owner_session, text_or_null, two, bearer,
  headers, post, open_session, adopt_session, introspect_scope, seal_encrypt, grant_scope,
  SealedContent,
}

-- What the gateway was asked of a token
abbrev pub token_body : String → Json
token_body grant_token =
    Json.object (Fields.field "grant_token" (Json.text grant_token) Fields.no_fields)

-- The gateway answered for this token, below the error codes, that the grant is active, with this scope.
pub record IsActive (http : Http) (grant_token : String) (scope : Scope) : Type 0 where
  pub response : Response
  pub answered : http.post "/memory/scope/introspect" (token_body grant_token) none ≡ ok response
  pub no_error : response.status_code < 400
  pub body : Json
  pub decoded : response.json ≡ ok body
  pub active : Json
  pub stated : get_or body "active" Json.null ≡ ok active
  pub is_active : truthy http.nonzero active ≡ true
  pub granted : (item body "scope" >>= http.read_scope) ≡ ok scope

unwrap-ok :
    (response : Response) (body : Json)
    → unwrap response ≡ ok body
    → (response.status_code < 400) × (response.json ≡ ok body)
unfolding unwrap
unwrap-ok response body h =
    let (below, decoded) =
      unless_err (leb 400 response.status_code) response.json gateway_error h in
    (ground arith, decoded)

module _ (http : Http) (client : GatewayClient) where
  pub introspect_scope-IsActive :
      (grant_token : String) (scope : Scope)
      → introspect_scope http client grant_token ≡ ok scope
      → IsActive http grant_token scope
  unfolding introspect_scope post headers
  introspect_scope-IsActive grant_token scope h =
      let (body, (e1, h1)) =
        both_returned
          (http.post "/memory/scope/introspect" (token_body grant_token) none >>= unwrap) _ h in
      let (response, (e2, unwrapped)) =
        both_returned (http.post "/memory/scope/introspect" (token_body grant_token) none) _ e1 in
      let (active, (e3, h3)) = both_returned (get_or body "active" Json.null) _ h1 in
      let (is_active, granted) =
        if_returned (truthy http.nonzero active) (item body "scope" >>= http.read_scope)
          gateway_error h3 in
      let (below, decoded) = unwrap-ok response body unwrapped in
      record {
        response = response;
        answered = e2;
        no_error = below;
        body = body;
        decoded = decoded;
        active = active;
        stated = e3;
        is_active = is_active;
        granted = granted;
      }

  introspected-IsActive :
      (o : Option String) (scope : Scope)
      → introspected (introspect_scope http client) o ≡ ok scope
      → (grant_token : String) × ((o ≡ some grant_token) × IsActive http grant_token scope)
  introspected-IsActive none scope h = absurd cc
  introspected-IsActive (some t) scope h = (t, (refl, introspect_scope-IsActive t scope h))

  -- If a reading graph authorises a scope, then a grant token was given, and the gateway answered for it,
  -- with a status below 400, that the grant is active and covers that scope.
  pub authorize-IsActive :
      (supplied : Option Scope) (o : Option String) (scope : Scope)
      → authorize (introspect_scope http client) supplied o ≡ ok scope
      → (grant_token : String) × ((o ≡ some grant_token) × IsActive http grant_token scope)
  unfolding authorize
  authorize-IsActive supplied o scope h =
      let (given, rest) =
        unless_err (is_given supplied && no_token o) (introspected (introspect_scope http client) o)
          value_error h in
      introspected-IsActive o scope rest

-- A request with this header, or none, that the gateway answered below the error codes
pub record IsSent (http : Http) (path : String) (body : Json) (header : Option String)
    : Type 0 where
  pub response : Response
  pub answered : http.post path body header ≡ ok response
  pub no_error : response.status_code < 400

abbrev pub bearing : String → Option String
bearing session_token = some ("Bearer " <> session_token)

-- The body of a request to seal a plaintext
abbrev pub seal_body : Http → List ℕ → Json
seal_body http plaintext =
    two "owner_id" (Json.text "") "plaintext_b64" (Json.text (http.b64encode plaintext))

-- The body of a request for a grant
abbrev pub grant_body : Http → Scope → String → Json
grant_body http scope ttl_secs =
    two "scope" (http.dump_scope scope) "ttl_secs" (Json.number ttl_secs)

module _ (http : Http) where
  answered-IsSent :
      (path : String) (body : Json) (header : Option String) (v : Json)
      → (http.post path body header >>= unwrap) ≡ ok v
      → IsSent http path body header
  answered-IsSent path body header v h =
      let (response, (e, unwrapped)) = both_returned (http.post path body header) unwrap h in
      record { response = response; answered = e; no_error = (unwrap-ok response v unwrapped).0 }

  post-IsSent :
      (client : GatewayClient) (path : String) (body : Json) (t : String) (v : Json)
      → client.session_token ≡ Json.text t
      → post http client path body true ≡ ok v
      → IsSent http path body (bearing t)
  unfolding post headers owner_session
  post-IsSent client path body t v same h =
      let (header, (e, rest)) = both_returned (headers http client true) _ h in
      let carried : headers http client true ≡ ok (bearing t) =
        ap (λ token. token_or_raise token >>= (λ j. ok (bearer http client j))) same in
      let header_is : header ≡ bearing t = ok-inj (sym e ∙ carried) in
      rw header_is at (answered-IsSent path body header v rest)

  seal_encrypt-IsSent :
      (client : GatewayClient) (plaintext : List ℕ) (t : String) (sealed : SealedContent)
      → client.session_token ≡ Json.text t
      → seal_encrypt http client plaintext ≡ ok sealed
      → IsSent http "/memory/seal/encrypt" (seal_body http plaintext) (bearing t)
  unfolding seal_encrypt
  seal_encrypt-IsSent client plaintext t sealed same h =
      let (v, (e, rest)) =
        both_returned (post http client "/memory/seal/encrypt" (seal_body http plaintext) true) _
          h in
      post-IsSent client "/memory/seal/encrypt" (seal_body http plaintext) t v same e

  grant_scope-IsSent :
      (client : GatewayClient) (scope : Scope) (ttl_secs t : String) (granted : Json)
      → client.session_token ≡ Json.text t
      → grant_scope http client scope ttl_secs ≡ ok granted
      → IsSent http "/memory/scope/grant" (grant_body http scope ttl_secs) (bearing t)
  unfolding grant_scope
  grant_scope-IsSent client scope ttl_secs t granted same h =
      let (v, (e, rest)) =
        both_returned (post http client "/memory/scope/grant" (grant_body http scope ttl_secs) true)
          _ h in
      post-IsSent client "/memory/scope/grant" (grant_body http scope ttl_secs) t v same e

  opened-token :
      (client opened : GatewayClient) (google_token github_token : Option String) (body : Json)
      (t : String)
      → open_session http client google_token github_token ≡ ok (body, opened)
      → item body "session_token" ≡ ok (Json.text t)
      → opened.session_token ≡ Json.text t
  unfolding open_session
  opened-token client opened google_token github_token body t h stated =
      let (b, (e1, h1)) =
        both_returned
          (post http client "/auth/session"
            (two "google_token" (text_or_null google_token) "github_token"
              (text_or_null github_token))
            false)
          _ h in
      let (token, (e2, last)) = both_returned (item b "session_token") _ h1 in
      let pair = ok-inj last in
      let same_body : b ≡ body = ap (λ p. p.0) pair in
      let same_token : token ≡ opened.session_token = ap (λ p. p.1.session_token) pair in
      sym same_token ∙ ok-inj (sym e2 ∙ ap (λ v. item v "session_token") same_body ∙ stated)

  -- If a session is opened with a token that is a text, and sealing and granting through it return, then
  -- both requests went to the gateway with that token in their header and were answered below the error
  -- codes; and if sealing returns once another session is adopted, its request carried that one's token.
  pub open_session-IsSent :
      (client opened : GatewayClient) (google_token github_token : Option String) (body : Json)
      (t other : String) (plaintext : List ℕ) (sealed resealed : SealedContent) (scope : Scope)
      (ttl_secs : String) (granted : Json)
      → open_session http client google_token github_token ≡ ok (body, opened)
      → item body "session_token" ≡ ok (Json.text t)
      → seal_encrypt http opened plaintext ≡ ok sealed
      → grant_scope http opened scope ttl_secs ≡ ok granted
      → seal_encrypt http (adopt_session other opened) plaintext ≡ ok resealed
      → IsSent http "/memory/seal/encrypt" (seal_body http plaintext) (bearing t)
        × (IsSent http "/memory/scope/grant" (grant_body http scope ttl_secs) (bearing t)
            × IsSent http "/memory/seal/encrypt" (seal_body http plaintext) (bearing other))
  unfolding adopt_session
  open_session-IsSent client opened google_token github_token body t other plaintext sealed resealed
        scope ttl_secs granted h stated done given again =
      let same = opened-token client opened google_token github_token body t h stated in
      (
        seal_encrypt-IsSent opened plaintext t sealed same done,
        (
          grant_scope-IsSent opened scope ttl_secs t granted same given,
          seal_encrypt-IsSent (adopt_session other opened) plaintext other resealed refl again,
        ),
      )

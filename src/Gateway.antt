-- ===== src/Gateway.antt =====
-- gateway_client.py. `Http` is what the client takes of httpx and of Python's library: a response to a
-- request, where none comes an exception, `str`, base64, and the two directions of the scope's model.
pub mod Sessions
use Prim.Native.Char.{code}
use Prim.Native.String
use memapp.Prelude.{
  ℕ, zero, suc, String, ◌+◌, ◌-◌, ◌*◌, ◌/◌, ◌%◌, ◌≤◌, ◌<◌, ◌≡◌, ◌≢◌, refl, sym, ap, ◌∙◌, ◌↔◌, ◌⊎◌,
  inl, inr, Bool, true, false, not, ◌&&◌, ◌||◌, Option, none, some, List, [], ◌∷◌, ◌++◌, map, Memᴰ,
  arith, ◌==◌, eq_iff, ltb, leb, eqb, if◌then◌else◌, Bool-cases, if_true, if_false, Option-cases,
  and_true, leb→le, ltb→lt, length, is_empty, any, all, keep, first, head?, last?, take, drop, All,
  gather, keep_some, cons_some, contains, unique, distinct, length-append, length-take-le,
  length-keep-le, length-keep-add, All-append, All-keep, keep-All, length-map, map-All,
  is_empty-map, Among, Among-append_left, Among-append_right, All-Among, Among-All, All-weaken,
  append-All, gather-All,
}
use memapp.Prelude.Texts.{◌<>◌, is_blank}
use memapp.Prelude.Result.{Result, ok, err, value_error, gateway_error, ◌>>=◌}
use memapp.Permissions.{Scope}
use memapp.Schema.{EncryptedContentRef}
use memapp.Connectors.Json.{Json, Items, Fields}
use memapp.Connectors.Json.Reading.{item, get_or, text_or, text_of, truthy}

pub record Response : Type 0 where
  pub status_code : ℕ
  pub json : Result Json

pub record Http : Type 0 where
  pub get : String → Result Response
  pub post : String → Json → Option String → Result Response
  pub str_of : Json → String
  pub nonzero : String → Bool
  pub b64encode : List ℕ → String
  pub b64decode : String → Result (List ℕ)
  pub dump_scope : Scope → Json
  pub read_scope : Json → Result Scope

-- The session token is what the gateway gave; `null` stands for `None`.
pub record GatewayClient : Type 0 where
  pub base_url : String
  pub session_token : Json

pub record SealedContent : Type 0 where
  pub ciphertext : List ℕ
  pub ref : EncryptedContentRef
  pub attestation : Json

-- `base_url.rstrip("/")`
abbrev pub strip_slashes : String → String
strip_slashes String.[] = ""
strip_slashes (String.◌∷◌ c s) =
    let rest = strip_slashes s in
    if eqb (code c) b'/' && is_blank rest then "" else String.◌∷◌ c rest

abbrev pub new_client : String → GatewayClient
new_client base_url = record { base_url = strip_slashes base_url; session_token = Json.null }

-- `_unwrap`
unfoldable pub unwrap : Response → Result Json
unwrap response = if leb 400 response.status_code then err gateway_error else response.json

unfoldable pub adopt_session : String → GatewayClient → GatewayClient
adopt_session session_token client = record client { session_token = Json.text session_token }

-- A session token that is not `None`
abbrev pub token_or_raise : Json → Result Json
token_or_raise Json.null = err gateway_error
token_or_raise (Json.text s) = ok (Json.text s)
token_or_raise (Json.flag b) = ok (Json.flag b)
token_or_raise (Json.number n) = ok (Json.number n)
token_or_raise (Json.array a) = ok (Json.array a)
token_or_raise (Json.object o) = ok (Json.object o)

unfoldable pub owner_session : GatewayClient → Result Json
owner_session client = token_or_raise client.session_token

abbrev pub text_or_null : Option String → Json
text_or_null none = Json.null
text_or_null (some s) = Json.text s

abbrev pub two : String → Json → String → Json → Json
two j v k w = Json.object (Fields.field j v (Fields.field k w Fields.no_fields))

abbrev pub byte_ref : String → String → List ℕ → EncryptedContentRef
byte_ref key_id scheme ciphertext = record {
  key_id = key_id;
  scheme = scheme;
  blob_id = none;
  byte_len = length ciphertext;
}

module _ (http : Http) (client : GatewayClient) where
  abbrev pub bearer : Json → Option String
  bearer (Json.text s) = some ("Bearer " <> s)
  bearer Json.null = some ("Bearer " <> http.str_of Json.null)
  bearer (Json.flag b) = some ("Bearer " <> http.str_of (Json.flag b))
  bearer (Json.number n) = some ("Bearer " <> http.str_of (Json.number n))
  bearer (Json.array a) = some ("Bearer " <> http.str_of (Json.array a))
  bearer (Json.object o) = some ("Bearer " <> http.str_of (Json.object o))

  -- The header `Authorization`, if there is to be one
  unfoldable pub headers : Bool → Result (Option String)
  unfolding owner_session
  headers auth = if auth then (owner_session client >>= (λ token. ok (bearer token))) else ok none

  unfoldable pub get : String → Result Json
  get path = http.get path >>= unwrap

  unfoldable pub post : String → Json → Bool → Result Json
  unfolding headers
  post path json auth = do
    header ← headers auth
    response ← http.post path json header
    unwrap response

  unfoldable pub health : Result Json
  health = get "/health"

  unfoldable pub open_session : Option String → Option String → Result (Json × GatewayClient)
  unfolding post
  open_session google_token github_token = do
    body ←
        post "/auth/session"
          (two "google_token" (text_or_null google_token) "github_token"
            (text_or_null github_token))
          false
    token ← item body "session_token"
    ok (body, record client { session_token = token })

  unfoldable pub seal_encrypt : List ℕ → Result SealedContent
  unfolding post
  seal_encrypt plaintext = do
    body ←
        post "/memory/seal/encrypt"
          (two "owner_id" (Json.text "") "plaintext_b64" (Json.text (http.b64encode plaintext)))
          true
    encoded ← item body "ciphertext_b64" >>= text_of
    ciphertext ← http.b64decode encoded
    key_id ← item body "key_id"
    scheme ← item body "scheme"
    key_text ← text_or (err value_error) ok key_id
    scheme_text ← text_or (err value_error) ok scheme
    attestation ← item body "attestation"
    ok (record {
      ciphertext = ciphertext;
      ref = byte_ref key_text scheme_text ciphertext;
      attestation = attestation;
    })

  -- `ttl_secs` is the literal of a number.
  unfoldable pub grant_scope : Scope → String → Result Json
  unfolding post
  grant_scope scope ttl_secs = do
    body ←
        post "/memory/scope/grant"
          (two "scope" (http.dump_scope scope) "ttl_secs" (Json.number ttl_secs)) true
    item body "grant_token"

  abbrev pub active_scope : Json → Json → Result Scope
  active_scope body active =
      if truthy http.nonzero active
      then (item body "scope" >>= http.read_scope)
      else err gateway_error

  unfoldable pub introspect_scope : String → Result Scope
  unfolding post
  introspect_scope grant_token = do
    body ←
        post "/memory/scope/introspect"
          (Json.object (Fields.field "grant_token" (Json.text grant_token) Fields.no_fields)) false
    active ← get_or body "active" Json.null
    active_scope body active

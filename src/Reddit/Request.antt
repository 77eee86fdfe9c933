-- ===== src/Reddit/Request.antt =====
-- internal/reddit/request.go: requests and the options that build them.
use apollo_backend.Prelude.{
  ℕ, Bool, true, false, ◌&&◌, Option, none, some, List, [], ◌∷◌, ◌++◌, if◌then◌else◌,
}
use apollo_backend.Str.{Str, lit, str_eq, is_empty, has_prefix}
use apollo_backend.Errors.{Error}
use apollo_backend.Exec.{Values, HttpRequest, form}

pub record Request : Type 0 where
  pub body : Values
  pub query : Values
  pub method : Str
  pub token : Str
  pub url : Str
  pub auth : Str
  pub user_agent : Str
  pub tags : List Str
  pub empty_response_bytes : ℕ
  pub retry : Bool

abbrev pub RequestOption : Type 0
RequestOption = Request → Request

-- url.Values.Set
unfoldable pub set : Str → Str → Values → Values
set key val [] = (key, val) ∷ []
set key val ((k, v) ∷ rest) =
    let others = (k, v) ∷ set key val rest in if str_eq k key then (key, val) ∷ rest else others

unfoldable pub with_tags : List Str → RequestOption
with_tags tags req = record req { tags = tags }

unfoldable pub with_method : Str → RequestOption
with_method method req = record req { method = method }

unfoldable pub with_url : Str → RequestOption
with_url url req = record req { url = url }

-- `encode` is base64.StdEncoding.
unfoldable pub with_basic_auth : (encode : Str → Str) → (user password : Str) → RequestOption
with_basic_auth encode user password req = record req { auth = encode (user ++ b':' ∷ password) }

unfoldable pub with_user_agent : Str → RequestOption
with_user_agent ua req = record req { user_agent = ua }

unfoldable pub with_token : Str → RequestOption
with_token token req = record req { token = token }

unfoldable pub with_body : Str → Str → RequestOption
unfolding set
with_body key val req = record req { body = set key val req.body }

unfoldable pub with_query : Str → Str → RequestOption
unfolding set is_empty
with_query key val req = if is_empty val then req else record req { query = set key val req.query }

unfoldable pub with_empty_response_bytes : ℕ → RequestOption
with_empty_response_bytes n req = record req { empty_response_bytes = n }

unfoldable pub with_retry : Bool → RequestOption
with_retry retry req = record req { retry = retry }

abbrev pub blank_request : Request
blank_request = record {
  body = [];
  query = [];
  method = lit "GET";
  token = [];
  url = [];
  auth = [];
  user_agent = [];
  tags = [];
  empty_response_bytes = 0;
  retry = true;
}

unfoldable pub apply : List RequestOption → Request → Request
apply [] req = req
apply (opt ∷ opts) req = apply opts (opt req)

unfoldable pub new_request : List RequestOption → Request
unfolding apply set has_prefix
new_request opts =
    let req = apply opts blank_request in
    if has_prefix req.url (lit "https://oauth.reddit.com/")
    then record req { query = set (lit "raw_json") (lit "1") req.query }
    else req

abbrev pub default_user_agent : Str
default_user_agent = lit "apollo-backend-selfhost/0.1"

abbrev has_values : Values → Bool
has_values [] = false
has_values (v ∷ vs) = true

unfoldable pub headers_of : Request → Values
unfolding is_empty
headers_of r =
    (lit "Accept", lit "application/json")
    ∷ (lit "User-Agent", if is_empty r.user_agent then default_user_agent else r.user_agent)
    ∷ ((if str_eq r.method (lit "POST") && has_values r.body
          then (lit "Content-Type", lit "application/x-www-form-urlencoded") ∷ []
          else [])
        ++ ((if is_empty r.token then [] else (lit "Authorization", lit "Bearer " ++ r.token) ∷ [])
            ++ (if is_empty r.auth
                then []
                else (lit "Authorization", lit "Basic " ++ r.auth) ∷ [])))

-- `invalid` is http.NewRequestWithContext's check. Where it fails there is no request, and setting
-- its query panics.
unfoldable pub http_request : (invalid : Str → Option Error) → Request → Option HttpRequest
unfolding headers_of
http_request invalid r = elim (invalid r.url) [
  | some e ↦ none
  | none ↦ some (record {
    method = r.method;
    url = r.url;
    query = r.query;
    headers = headers_of r;
    body = form r.body;
  })
]

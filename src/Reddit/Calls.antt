-- ===== src/Reddit/Calls.antt =====
-- internal/reddit/client.go: the calls for users, subreddits, threads and the account itself, which
-- are a GET with the account's token and differ in the URL, the options and the response.
use apollo_backend.Prelude.{Option, none, some, List, [], ◌∷◌, ◌++◌, ◌==◌, if◌then◌else◌}
use apollo_backend.Str.{Str, lit}
use apollo_backend.Errors.{
  Error, oauth_revoked, subreddit_is_private, subreddit_is_quarantined, subreddit_not_found,
  server_error, Result, ok, err,
}
use apollo_backend.Exec.{Exec, Env, pure, panic, ◌>>=◌}
use apollo_backend.Reddit.Types.{
  Parser, ListingResponse, MeResponse, ThreadResponse, SubredditResponse, UserResponse,
  empty_listing_response, new_listing_response, new_me_response, new_thread_response,
  new_subreddit_response, new_user_response,
}
use apollo_backend.Reddit.Request.{
  Request, RequestOption, new_request, with_tags, with_method, with_url, with_query, with_token,
  with_empty_response_bytes,
}
use apollo_backend.Reddit.Client.{Transport, AuthenticatedClient, default_error_map, request}

abbrev pub oauth_url : Str
oauth_url = lit "https://oauth.reddit.com"

unfoldable pub get_request : AuthenticatedClient → Str → List RequestOption → Request
unfolding new_request with_method with_token with_url
get_request rac url opts =
    new_request (opts ++ with_method (lit "GET") ∷ with_token rac.access_token ∷ with_url url ∷ [])

unfoldable pub user_posts_request : AuthenticatedClient → Str → List RequestOption → Request
unfolding get_request
user_posts_request rac user opts =
    get_request rac (oauth_url ++ (lit "/u/" ++ (user ++ lit "/submitted"))) opts

unfoldable pub user_about_request : AuthenticatedClient → Str → Request
unfolding get_request
user_about_request rac user =
    get_request rac (oauth_url ++ (lit "/u/" ++ (user ++ lit "/about"))) []

unfoldable pub subreddit_about_request : AuthenticatedClient → Str → Request
unfolding get_request
subreddit_about_request rac subreddit =
    get_request rac (oauth_url ++ (lit "/r/" ++ (subreddit ++ lit "/about"))) []

unfoldable pub subreddit_posts_request :
    AuthenticatedClient → (subreddit sort : Str) → List RequestOption → Request
unfolding get_request
subreddit_posts_request rac subreddit sort opts =
    get_request rac (oauth_url ++ (lit "/r/" ++ (subreddit ++ b'/' ∷ sort))) opts

unfoldable pub unread_request : AuthenticatedClient → List RequestOption → Request
unfolding new_request with_tags with_method with_url with_token with_empty_response_bytes
unread_request rac opts = new_request (
    opts
    ++ with_tags (lit "url:/api/v1/message/unread" ∷ [])
      ∷ with_method (lit "GET")
      ∷ with_token rac.access_token
      ∷ with_url (oauth_url ++ lit "/message/unread")
      ∷ with_empty_response_bytes 122
      ∷ [])

unfoldable pub me_request : AuthenticatedClient → Request
unfolding new_request with_tags with_method with_url with_token
me_request rac = new_request (
    with_tags (lit "url:/api/v1/me" ∷ [])
    ∷ with_method (lit "GET")
    ∷ with_token rac.access_token
    ∷ with_url (oauth_url ++ lit "/api/v1/me")
    ∷ [])

unfoldable pub comments_request : AuthenticatedClient → (subreddit thread_id : Str) → Request
unfolding new_request with_tags with_method with_url with_token with_query
comments_request rac subreddit thread_id = new_request (
    with_tags (lit "url:/comments" ∷ [])
    ∷ with_method (lit "GET")
    ∷ with_token rac.access_token
    ∷ with_url (
        oauth_url
        ++ (lit "/r/" ++ (subreddit ++ (lit "/comments/" ++ (thread_id ++ lit "/.json")))))
    ∷ with_query (lit "sort") (lit "new")
    ∷ with_query (lit "limit") (lit "100")
    ∷ with_query (lit "depth") (lit "1")
    ∷ [])

-- What an error of the reply stands for; the error map has turned a 404 into its own error before.
unfoldable pub about_error : Error → Error
about_error oauth_revoked = subreddit_is_private
about_error (server_error status body) =
    if status == 404 then subreddit_not_found else server_error status body
about_error e = e

unfoldable pub about_result : Result SubredditResponse → Result SubredditResponse
unfolding about_error
about_result (err e) = err (about_error e)
about_result (ok sr) = if sr.quarantined then err subreddit_is_quarantined else ok sr

-- A handler that indexes a list out of range panics.
unfoldable pub checked : {A : Type 0} → Result (Option A) → Exec (Result A)
checked (err e) = pure (err e)
checked (ok none) = panic
checked (ok (some a)) = pure (ok a)

module _ (env : Env) (t : Transport) (p : Parser) where
  unfoldable pub user_posts :
      AuthenticatedClient → Str → List RequestOption → Exec (Result ListingResponse)
  unfolding request user_posts_request new_listing_response default_error_map
  user_posts rac user opts =
      request env t p rac default_error_map (user_posts_request rac user opts)
        (new_listing_response p) none

  unfoldable pub user_about : AuthenticatedClient → Str → Exec (Result UserResponse)
  unfolding request user_about_request new_user_response default_error_map
  user_about rac user =
      request env t p rac default_error_map (user_about_request rac user) (new_user_response p) none

  unfoldable pub subreddit_about : AuthenticatedClient → Str → Exec (Result SubredditResponse)
  unfolding request subreddit_about_request new_subreddit_response default_error_map about_result
  subreddit_about rac subreddit = do
    srr ←
        request env t p rac default_error_map (subreddit_about_request rac subreddit)
          (new_subreddit_response p) none
    pure (about_result srr)

  unfoldable pub subreddit_posts :
      AuthenticatedClient
      → (subreddit sort : Str) → List RequestOption
      → Exec (Result ListingResponse)
  unfolding request subreddit_posts_request new_listing_response default_error_map
  subreddit_posts rac subreddit sort opts =
      request env t p rac default_error_map (subreddit_posts_request rac subreddit sort opts)
        (new_listing_response p) none

  unfoldable pub subreddit_hot :
      AuthenticatedClient → Str → List RequestOption → Exec (Result ListingResponse)
  unfolding subreddit_posts
  subreddit_hot rac subreddit opts = subreddit_posts rac subreddit (lit "hot") opts

  unfoldable pub subreddit_top :
      AuthenticatedClient → Str → List RequestOption → Exec (Result ListingResponse)
  unfolding subreddit_posts
  subreddit_top rac subreddit opts = subreddit_posts rac subreddit (lit "top") opts

  unfoldable pub subreddit_new :
      AuthenticatedClient → Str → List RequestOption → Exec (Result ListingResponse)
  unfolding subreddit_posts
  subreddit_new rac subreddit opts = subreddit_posts rac subreddit (lit "new") opts

  unfoldable pub message_unread :
      AuthenticatedClient → List RequestOption → Exec (Result ListingResponse)
  unfolding request unread_request new_listing_response default_error_map
  message_unread rac opts =
      request env t p rac default_error_map (unread_request rac opts) (new_listing_response p)
        (some empty_listing_response)

  unfoldable pub me : AuthenticatedClient → Exec (Result MeResponse)
  unfolding request me_request new_me_response default_error_map
  me rac = request env t p rac default_error_map (me_request rac) (new_me_response p) none

  unfoldable pub top_level_comments :
      AuthenticatedClient → (subreddit thread_id : Str) → Exec (Result ThreadResponse)
  unfolding request comments_request new_thread_response default_error_map checked
  top_level_comments rac subreddit thread_id =
      request env t p rac default_error_map (comments_request rac subreddit thread_id)
        (new_thread_response p) none
      >>= checked

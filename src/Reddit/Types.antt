-- ===== src/Reddit/Types.antt =====
-- internal/reddit/types.go: the responses. `Parser` is fastjson: what ParseBytes gives, with the
-- getters, which give a zero value for what is missing or of another type, also on no value.
use apollo_backend.Prelude.{
  ℕ, ◌*◌, Bool, ◌||◌, Option, none, some, List, [], ◌∷◌, ◌++◌, map, length,
}
use apollo_backend.Prelude.Int.{ℤ}
use apollo_backend.Str.{Str, lit, str_eq}
use apollo_backend.Errors.{Result}
use apollo_backend.Domain.Durations.{Time, second}

pub record Parser : Type 1 where
  pub Value : Type 0
  pub parse : Str → Result Value
  -- `val.Get(key)`; a missing value has zero values in it
  pub get : Str → Value → Value
  pub string_at : Str → Value → Str
  pub int_at : Str → Value → ℕ
  pub score_at : Str → Value → ℤ
  -- `int64(val.GetFloat64(key))`, for times
  pub unix_at : Str → Value → ℕ
  pub bool_at : Str → Value → Bool
  pub array_at : Str → Value → List Value
  pub elements : Value → List Value

pub record RefreshTokenResponse : Type 0 where
  pub access_token : Str
  pub refresh_token : Str
  pub expiry : Time

pub record MeResponse : Type 0 where
  pub id : Str
  pub name : Str

pub record Thing : Type 0 where
  pub kind : Str
  pub id : Str
  pub type : Str
  pub author : Str
  pub subject : Str
  pub body : Str
  pub created_at : Time
  pub context : Str
  pub parent_id : Str
  pub link_title : Str
  pub destination : Str
  pub subreddit : Str
  pub subreddit_type : Str
  pub score : ℤ
  pub self_text : Str
  pub title : Str
  pub url : Str
  pub flair : Str
  pub thumbnail : Str
  pub over18 : Bool
  pub num_comments : ℕ

unfoldable pub full_name : Thing → Str
full_name t = t.kind ++ b'_' ∷ t.id

unfoldable pub is_deleted : Thing → Bool
unfolding str_eq
is_deleted t = str_eq t.author (lit "[deleted]")

-- `count` is the number of children.
pub record ListingResponse : Type 0 where
  pub count : ℕ
  pub children : List Thing
  pub after : Str
  pub before : Str

abbrev pub empty_listing_response : ListingResponse
empty_listing_response = record { count = 0; children = []; after = []; before = [] }

pub record ThreadResponse : Type 0 where
  pub post : Thing
  pub children : List Thing

pub record SubredditResponse : Type 0 where
  pub kind : Str
  pub id : Str
  pub name : Str
  pub quarantined : Bool
  pub public : Bool

pub record UserResponse : Type 0 where
  pub kind : Str
  pub id : Str
  pub name : Str
  pub accept_followers : Bool

unfoldable pub but_last {ℓ} : {A : Type ℓ} → List A → List A
but_last [] = []
but_last (x ∷ []) = []
but_last (x ∷ y ∷ ys) = x ∷ but_last (y ∷ ys)

module _ (p : Parser) where
  unfoldable pub new_refresh_token_response : p.Value → RefreshTokenResponse
  new_refresh_token_response val = record {
    access_token = p.string_at (lit "access_token") val;
    refresh_token = p.string_at (lit "refresh_token") val;
    expiry = p.int_at (lit "expires_in") val * second;
  }

  unfoldable pub new_me_response : p.Value → MeResponse
  new_me_response val = record {
    id = p.string_at (lit "id") val;
    name = p.string_at (lit "name") val;
  }

  unfoldable pub new_thing : p.Value → Thing
  new_thing val =
      let data_ = p.get (lit "data") val in
      record {
        kind = p.string_at (lit "kind") val;
        id = p.string_at (lit "id") data_;
        type = p.string_at (lit "type") data_;
        author = p.string_at (lit "author") data_;
        subject = p.string_at (lit "subject") data_;
        body = p.string_at (lit "body") data_;
        created_at = p.unix_at (lit "created_utc") data_ * second;
        context = p.string_at (lit "context") data_;
        parent_id = p.string_at (lit "parent_id") data_;
        link_title = p.string_at (lit "link_title") data_;
        destination = p.string_at (lit "dest") data_;
        subreddit = p.string_at (lit "subreddit") data_;
        subreddit_type = p.string_at (lit "subreddit_type") data_;
        score = p.score_at (lit "score") data_;
        self_text = p.string_at (lit "selftext") data_;
        title = p.string_at (lit "title") data_;
        url = p.string_at (lit "url") data_;
        flair = p.string_at (lit "link_flair_text") data_;
        thumbnail = p.string_at (lit "thumbnail") data_;
        over18 = p.bool_at (lit "over_18") data_;
        num_comments = p.int_at (lit "num_comments") data_;
      }

  unfoldable pub new_listing_response : p.Value → ListingResponse
  unfolding new_thing
  new_listing_response val =
      let data_ = p.get (lit "data") val in
      let children = p.array_at (lit "children") data_ in
      record {
        count = length children;
        children = map new_thing children;
        after = p.string_at (lit "after") data_;
        before = p.string_at (lit "before") data_;
      }

  abbrev children_of : p.Value → List p.Value
  children_of listing = p.array_at (lit "children") (p.get (lit "data") listing)

  -- An index out of range panics.
  unfoldable pub new_thread_response : p.Value → Option ThreadResponse
  unfolding new_thing but_last
  new_thread_response val = elim (p.elements val) [
    | [] ↦ none
    | posts ∷ rest ↦ elim (children_of posts) [
      | [] ↦ none
      | post ∷ others ↦ elim rest [
        | [] ↦ none
        | comments ∷ more ↦ some (record {
          post = new_thing post;
          children = map new_thing (but_last (children_of comments));
        })
      ]
    ]
  ]

  unfoldable pub new_subreddit_response : p.Value → SubredditResponse
  new_subreddit_response val =
      let data_ = p.get (lit "data") val in
      let sr_type = p.string_at (lit "subreddit_type") data_ in
      record {
        kind = p.string_at (lit "kind") val;
        id = p.string_at (lit "id") data_;
        name = p.string_at (lit "display_name") data_;
        quarantined = p.bool_at (lit "quarantine") data_;
        public =
            str_eq sr_type (lit "public")
            || str_eq sr_type (lit "restricted")
            || str_eq sr_type (lit "archived");
      }

  unfoldable pub new_user_response : p.Value → UserResponse
  new_user_response val =
      let data_ = p.get (lit "data") val in
      record {
        kind = p.string_at (lit "kind") val;
        id = p.string_at (lit "id") data_;
        name = p.string_at (lit "name") data_;
        accept_followers = p.bool_at (lit "accept_followers") data_;
      }

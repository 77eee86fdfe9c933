-- ===== src/Api/Watchers/Requests.antt =====
-- internal/api/watcher.go: the requests, and the watchers and items that they ask for.
use apollo_backend.Prelude.{
  ℕ, Bool, not, ◌&&◌, ◌||◌, Option, none, some, List, [], ◌∷◌, if◌then◌else◌,
}
use apollo_backend.Prelude.Int.{ℤ}
use apollo_backend.Str.{Str, lit, str_eq, to_lower}
use apollo_backend.Errors.{Error, other, Result, ok, err}
use apollo_backend.Domain.{
  Account, Device, Subreddit, Watcher, subreddit_watcher, trending_watcher, watcher_type_string,
}
use apollo_backend.Domain.Validation.{Rules}
use apollo_backend.Domain.Durations.{Time}
use apollo_backend.Worker.Watching.{zero_account, zero_device}

pub record WatcherCriteria : Type 0 where
  pub author : Str
  pub subreddit : Str
  pub upvotes : ℤ
  pub keyword : Str
  pub flair : Str
  pub domain : Str

pub record CreateWatcherRequest : Type 0 where
  pub type : Str
  pub user : Str
  pub subreddit : Str
  pub label : Str
  pub criteria : WatcherCriteria

abbrev pub is_type : Str → CreateWatcherRequest → Bool
is_type typ cwr = str_eq cwr.type typ

abbrev pub names_subreddit : CreateWatcherRequest → Bool
names_subreddit cwr = is_type (lit "subreddit") cwr || is_type (lit "trending") cwr

-- createWatcherRequest.Validate
unfoldable pub validate_request : Rules → CreateWatcherRequest → Bool
unfolding str_eq
validate_request v cwr =
    v.required cwr.type
    && (not (is_type (lit "user") cwr) || v.required cwr.user)
    && (not (names_subreddit cwr) || v.required cwr.subreddit)

abbrev pub no_account : Error
no_account = other (lit "cannot create watchers without account")

abbrev pub not_associated : Error
not_associated = other (lit "account not associated with device")

abbrev pub followers_disabled : Error
followers_disabled = other (lit "user has followers disabled")

abbrev pub unknown_type : Error
unknown_type = other (lit "unknown watcher type")

abbrev pub not_a_number : Error
not_a_number = other (lit "invalid syntax")

abbrev pub wrong_device : Error
wrong_device = other (lit "wrong device for watcher")

-- The last account of the device with the number at Reddit.
unfoldable pub last_account : Str → List Account → Option Account
unfolding str_eq
last_account rid [] = none
last_account rid (acc ∷ accs) = elim (last_account rid accs) [
  | some a ↦ some a
  | none ↦ if str_eq acc.account_id rid then some acc else none
]

-- The watcher of the request, without what Reddit and the tables give; its type is set later.
unfoldable pub requested_watcher : CreateWatcherRequest → Device → Account → Watcher
unfolding to_lower
requested_watcher cwr dev account = record {
  id = 0;
  created_at = 0;
  last_notified_at = 0;
  label = cwr.label;
  device_id = dev.id;
  account_id = account.id;
  type = subreddit_watcher;
  watchee_id = 0;
  watchee_label = [];
  author = to_lower cwr.criteria.author;
  subreddit = to_lower cwr.criteria.subreddit;
  upvotes = cwr.criteria.upvotes;
  keyword = to_lower cwr.criteria.keyword;
  flair = to_lower cwr.criteria.flair;
  domain = to_lower cwr.criteria.domain;
  hits = 0;
  device = zero_device;
  account = zero_account;
}

-- The second switch on the type.
unfoldable pub typed : CreateWatcherRequest → Watcher → Watcher
unfolding str_eq
typed cwr w =
    if is_type (lit "trending") cwr
    then record w { label = lit "trending"; type = trending_watcher }
    else record w { type = subreddit_watcher }

unfoldable pub edited_watcher : CreateWatcherRequest → Watcher → Watcher
unfolding to_lower
edited_watcher ewr w = record w {
  label = ewr.label;
  author = to_lower ewr.user;
  subreddit = to_lower ewr.subreddit;
  upvotes = ewr.criteria.upvotes;
  keyword = to_lower ewr.criteria.keyword;
  flair = to_lower ewr.criteria.flair;
  domain = to_lower ewr.criteria.domain;
}

pub record WatcherItem : Type 0 where
  pub id : ℕ
  pub created_at : Time
  pub type : Str
  pub label : Str
  pub source_label : Str
  pub upvotes : ℤ
  pub keyword : Str
  pub flair : Str
  pub domain : Str
  pub hits : ℕ
  pub author : Str

unfoldable pub watcher_item : Watcher → WatcherItem
unfolding watcher_type_string
watcher_item w = record {
  id = w.id;
  created_at = w.created_at;
  type = watcher_type_string w.type;
  label = w.label;
  source_label = w.watchee_label;
  upvotes = w.upvotes;
  keyword = w.keyword;
  flair = w.flair;
  domain = w.domain;
  hits = w.hits;
  author = w.author;
}

abbrev pub number_or_zero : Result Subreddit → ℕ
number_or_zero (ok sr) = sr.id
number_or_zero (err e) = 0

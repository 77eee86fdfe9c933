-- ===== src/Domain/Keywords.antt =====
-- Watcher.KeywordMatches of internal/domain/watcher.go.
use apollo_backend.Prelude.{ℕ, Bool, true, ◌||◌, ◌==◌, if◌then◌else◌, all}
use apollo_backend.Str.{Str, is_empty, to_lower, contains, fields}
use apollo_backend.Domain.Types.{Watcher}

abbrev pub is_separator : ℕ → Bool
is_separator r = r == b'+' || r == b','

unfoldable pub keyword_matches : Watcher → Str → Bool
unfolding is_empty
keyword_matches w haystack =
    if is_empty w.keyword
    then true
    else all (contains (to_lower haystack)) (fields is_separator w.keyword)

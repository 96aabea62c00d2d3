-- ===== src/Tests/Origins.antt =====
-- The origin of a checkout, in two of its spellings.
use symaira_corekit.Base.{◌≡◌, refl, Option, some, List, Text, str, list_beq}
use symaira_corekit.Json.{text}
use symaira_corekit.Trust.{assert_origin, repository_slug_from_remote}
use symaira_corekit.Trust.Origin.{IsOrigin, assert_origin-IsOrigin}

abbrev remote : Text
remote = str "git@github.com:team/app.git"

abbrev answer : List Text → Option Text
answer command = some remote

web_slug :
    repository_slug_from_remote (str "https://github.com/team/app/?tab=a#b ")
    ≡ some (str "team/app")
unfolding repository_slug_from_remote
web_slug = refl

own_origin : assert_origin answer (text (str "team/app")) ≡ some remote
unfolding assert_origin list_beq
own_origin = refl

assert_origin_example : IsOrigin answer (text (str "team/app")) remote
assert_origin_example = assert_origin-IsOrigin answer (text (str "team/app")) remote own_origin

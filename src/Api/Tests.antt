-- ===== src/Api/Tests.antt =====
-- The theorems on frontend/seer/src/lib/api.ts at a concrete server: the world is the log of the
-- requests, newest first, and a JSON body is null or an object with a message.
use seer.Common.{◌≡◌, ◌↔◌, String, List, [], ◌∷◌, Option, none, some, Bool, true, false}
use seer.Common.Int.{ℤ, pos}
use seer.Definitions.Accounts.{UserPreferences}
use seer.Definitions.Comments.{InteractComment}
use seer.Api.{
  Backend, Response, Request, Method, get, post, patch, delete, success, failure, resolved,
}
use seer.Api.Effects.{likes, SendsOnce, perform-SendsOnce}
use seer.Api.Validation.{preferences, ask, query_of, IsVouched, ask-eq-resolved_iff}

abbrev prefs : UserPreferences
prefs = record { hidden = true; receive_marketing_emails = false }

-- Every read is granted but for those of the user, and every deletion is refused.
abbrev respond : Bool → Method → Response (Option String)
respond c get = record { ok = c; status = pos 200; json = some (some "prefs") }
respond c post = record { ok = true; status = pos 201; json = some none }
respond c patch = record { ok = true; status = pos 204; json = none }
respond c delete = record { ok = false; status = pos 404; json = some (some "No such like") }

abbrev server : Backend ℤ
server = record {
  World = List Request;
  Json = Option String;
  api_base_url = "http://localhost";
  fetch = λ req w. (some (respond req.credentials req.method), req ∷ w);
  wait = λ w. w;
  stringify = λ p. "{}";
  to_string = λ ps. "";
  number_to_string = λ i. "1";
  is_null = λ j. is_none j;
  message = λ j. j;
  errors = λ j. none;
  parse_user = λ j. success none;
  parse_profile = λ j. failure;
  parse_sessions = λ j. success [];
  parse_preferences = λ j. success prefs;
  parse_markets = λ j. failure;
  parse_market = λ j. failure;
  parse_categories = λ j. success [];
  parse_balance = λ j. failure;
  parse_bets = λ j. failure;
  parse_comments = λ j. failure;
}
  where
    is_none : Option String → Bool
    is_none none = true
    is_none (some s) = false

abbrev like : InteractComment
like = record { comment_id = pos 7 }

perform-SendsOnce_example : SendsOnce server (likes like) []
perform-SendsOnce_example = perform-SendsOnce server (likes like) []

ask-eq-resolved_iff_example :
    ((ask server preferences []).0 ≡ resolved prefs)
    ↔ IsVouched server preferences prefs (server.fetch (query_of server preferences) []).0
ask-eq-resolved_iff_example = ask-eq-resolved_iff server preferences [] prefs

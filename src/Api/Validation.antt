-- ===== src/Api/Validation.antt =====
-- What the functions of frontend/seer/src/lib/api.ts that read let through: validated data only.
use Prim.Native.String.{◌++◌}
use seer.Common.{
  String, ◌≡◌, ◌↔◌, refl, sym, ap, ◌∙◌, List, Option, some, Bool, true, false, if◌then◌else◌,
}
use seer.Definitions.{MarketView, Category, Balance, Currency}
use seer.Definitions.Accounts.{Session, UserProfile, UserPreferences}
use seer.Definitions.Searches.{
  MarketSearch, MarketSearchRes, UserBetSearch, UserBetsRes, CommentSearch, CommentsRes,
}
use seer.Api.Settling.{settle-eq-resolved_iff, validated-eq-resolved}
use seer.Api.{
  Backend, Response, Request, Exception, Settled, resolved, rejected, Parsed, success, get, Call,
  asking, stated_or, said_or, validated, reader,
}
use seer.Api.Accounts.{
  get_sessions, get_user_preferences, get_balance, get_user_profile, currency_name,
}
use seer.Api.Markets.{
  search_market, get_featured_categories, get_market_by_id, get_user_bets, market_params,
  bet_params,
}
use seer.Api.Comments.{get_comments, comment_params, held_back}

-- The functions that read, but for getUser.
pub data Query : Type 0 where
  sessions : Bool → Query
  preferences : Query
  balance : Currency → Query
  profile : String → Query
  markets : MarketSearch → Query
  categories : Query
  market : String → Query
  bets : UserBetSearch → Query
  comments : CommentSearch → Query

module _ {D : Type 0} (B : Backend D) where
  open B use {World, Json}

  abbrev pub Answer : Query → Type 0
  Answer (sessions shown) = List Session
  Answer (preferences) = UserPreferences
  Answer (balance c) = Balance D
  Answer (profile name) = UserProfile D
  Answer (markets s) = MarketSearchRes D
  Answer (categories) = List Category
  Answer (market id) = MarketView D
  Answer (bets s) = UserBetsRes D
  Answer (comments s) = CommentsRes D

  abbrev pub ask : (q : Query) → Call B (Answer q)
  ask (sessions shown) = get_sessions B shown
  ask (preferences) = get_user_preferences B
  ask (balance c) = get_balance B c
  ask (profile name) = get_user_profile B name
  ask (markets s) = search_market B s
  ask (categories) = get_featured_categories B
  ask (market id) = get_market_by_id B id
  ask (bets s) = get_user_bets B s
  ask (comments s) = get_comments B s

  -- The request of each, its exceptions, its schema and its complaint.
  abbrev pub query_of : Query → Request
  query_of (sessions shown) =
      asking B get (if shown then "/auth/sessions?showInactive=true" else "/auth/sessions") true
  query_of (preferences) = asking B get "/user/prefs" true
  query_of (balance c) = asking B get ("/user/balance/" ++ currency_name c) true
  query_of (profile name) = asking B get ("/user/profile/" ++ name) false
  query_of (markets s) = asking B get ("/market/search?" ++ B.to_string (market_params B s)) true
  query_of (categories) = record (asking B get "/market/categories/featured" false) {
    force_cache = true;
  }
  query_of (market id) = asking B get ("/market/search/" ++ id) false
  query_of (bets s) = asking B get ("/my/bets?" ++ B.to_string (bet_params B s)) true
  query_of (comments s) = asking B get ("/comments?" ++ B.to_string (comment_params B s)) true

  abbrev pub schema_of : (q : Query) → Json → Parsed (Answer q)
  schema_of (sessions shown) = B.parse_sessions
  schema_of (preferences) = B.parse_preferences
  schema_of (balance c) = B.parse_balance
  schema_of (profile name) = B.parse_profile
  schema_of (markets s) = B.parse_markets
  schema_of (categories) = B.parse_categories
  schema_of (market id) = B.parse_market
  schema_of (bets s) = B.parse_bets
  schema_of (comments s) = B.parse_comments

  abbrev pub denial_of : Query → Json → Exception
  denial_of (sessions shown) = said_or B "Failed to fetch sessions"
  denial_of (preferences) = stated_or B "Failed to fetch user preferences"
  denial_of (balance c) = stated_or B "Failed to fetch balance"
  denial_of (profile name) = said_or B "Failed to fetch user profile"
  denial_of (markets s) = stated_or B "Failed to search markets"
  denial_of (categories) = stated_or B "Failed to fetch categories"
  denial_of (market id) = stated_or B "Failed to fetch market"
  denial_of (bets s) = stated_or B "Failed to fetch user bets"
  denial_of (comments s) = stated_or B "Failed to fetch comments"

  abbrev pub complaint_of : Query → String
  complaint_of (sessions shown) = "Invalid session data"
  complaint_of (preferences) = "Invalid preferences data"
  complaint_of (balance c) = "Invalid balance data"
  complaint_of (profile name) = "Invalid user profile data"
  complaint_of (markets s) = "Invalid market search data"
  complaint_of (categories) = "Invalid categories data"
  complaint_of (market id) = "Invalid market data"
  complaint_of (bets s) = "Invalid user bets data"
  complaint_of (comments s) = "Invalid comments data"

  held_back-outcome : {A : Type 0} (p : Settled A × World) → (held_back B p).0 ≡ p.0
  held_back-outcome (resolved a, w) = refl
  held_back-outcome (rejected e, w) = refl

  ask-outcome :
      (q : Query) (w : World)
      → (ask q w).0 ≡ (reader B (query_of q) (denial_of q) (schema_of q) (complaint_of q) w).0
  unfolding get_sessions get_user_preferences get_balance get_user_profile search_market
      get_featured_categories get_market_by_id get_user_bets get_comments
  ask-outcome (sessions shown) w = refl
  ask-outcome (preferences) w = refl
  ask-outcome (balance c) w = refl
  ask-outcome (profile name) w = refl
  ask-outcome (markets s) w = refl
  ask-outcome (categories) w = refl
  ask-outcome (market id) w = refl
  ask-outcome (bets s) w = refl
  ask-outcome (comments s) w = held_back-outcome (
      reader B (query_of (comments s)) (denial_of (comments s)) B.parse_comments
        (complaint_of (comments s)) w)

  -- The answer is ok, its body is JSON, and the schema takes it as `a`.
  abbrev pub IsVouched : (q : Query) → Answer q → Option (Response Json) → Type 0
  IsVouched q a answer =
      (r : Response Json) × (body : Json) × (answer ≡ some r)
      × (r.ok ≡ true)
      × (r.json ≡ some body)
      × (schema_of q body ≡ success a)

  -- A function that reads returns a value exactly if the answer to its request is ok and has a body that
  -- its schema takes as that value.
  pub ask-eq-resolved_iff :
      (q : Query) (w : World) (a : Answer q)
      → ((ask q w).0 ≡ resolved a) ↔ IsVouched q a (B.fetch (query_of q) w).0
  unfolding reader
  ask-eq-resolved_iff q w a =
      let iff =
        settle-eq-resolved_iff B (denial_of q)
          (λ body. validated B (complaint_of q) (schema_of q body)) a (B.fetch (query_of q) w).0 in
      (
        λ h.
            (let (r, body, i, j, k, v) = iff.0 (sym (ask-outcome q w) ∙ h) in
              (r, body, i, j, k, validated-eq-resolved B (complaint_of q) (schema_of q body) v)),
        λ (r, body, i, j, k, v).
            ask-outcome q w ∙ iff.1 (r, body, i, j, k, ap (validated B (complaint_of q)) v),
      )

-- ===== src/Api.antt =====
-- frontend/seer/src/lib/api.ts: the calls of the server. The parts that all of them share stand here,
-- the functions themselves in the children. What the browser and zod do is a parameter.
pub mod Accounts
pub mod Markets
pub mod Comments
pub mod Settling
pub mod Visitors
pub mod Effects
pub mod Validation
mod Tests
use text.Mathlib.Text.{◌==◌}
use Prim.Native.String.{◌++◌}
use seer.Common.{String, ◌≡◌, List, Option, none, some, Bool, true, false, not, if◌then◌else◌}
use seer.Common.Int.{ℤ}
use seer.Definitions.{PlaceBet, CashoutBet, MarketView, Category, Balance, Currency}
use seer.Definitions.Accounts.{
  User, UserProfile, Session, UserPreferences, RegisterFormValues, LoginFormValues,
  ProfileCompletionFormValues, ChangePasswordPayload, SetPasswordPayload, UpdateUserPreferences,
}
use seer.Definitions.Comments.{PostComment, InteractComment}
use seer.Definitions.Searches.{MarketSearchRes, UserBetsRes, CommentsRes}

pub record FieldError : Type 0 where
  pub field : String
  pub message : String

-- `APIError`; a missing property is `none`.
pub record ApiError : Type 0 where
  pub message : Option String
  pub errors : Option (List FieldError)

-- What a call throws: an `APIError`, an `Error` of the module's own with its message, or what `fetch`,
-- `json()`, a schema or the property of a `null` threw.
pub data Exception : Type 0 where
  api_error : ApiError → Exception
  invalid : String → Exception
  raised : Exception

-- How a call's promise settles.
pub data Settled (A : Type 0) : Type 0 where
  resolved : A → Settled A
  rejected : Exception → Settled A

-- What the commands resolve to.
pub data Null : Type 0 where
  null : Null

-- The result of `safeParse`; a transform may throw.
pub data Parsed (A : Type 0) : Type 0 where
  success : A → Parsed A
  failure : Parsed A
  threw : Parsed A

pub data Method : Type 0 where
  get post patch delete : Method

pub record Request : Type 0 where
  pub method : Method
  pub url : String
  pub json_type : Bool  -- the header `Content-Type: application/json`
  pub cookie : Option String  -- the header `Cookie`
  pub credentials : Bool  -- `credentials: "include"`
  pub force_cache : Bool
  pub body : Option String

-- What the functions hand to `JSON.stringify`.
pub data Payload (D : Type 0) : Type 0 where
  register_form : RegisterFormValues → Payload D
  login_form : LoginFormValues → Payload D
  profile_form : ProfileCompletionFormValues → Payload D
  change_password_form : ChangePasswordPayload → Payload D
  set_password_form : SetPasswordPayload → Payload D
  preferences : UpdateUserPreferences → Payload D
  placed_bet : PlaceBet D → Payload D
  cashed_out_bet : CashoutBet D → Payload D
  comment : PostComment → Payload D
  interaction : InteractComment → Payload D

-- A response: `json` is what `json()` resolves to, if it does.
pub record Response (Json : Type 0) : Type 0 where
  pub ok : Bool
  pub status : ℤ
  pub json : Option Json

-- The environment of the module, over the Decimals D.
pub record Backend (D : Type 0) : Type 1 where
  pub World : Type 0
  pub Json : Type 0
  pub api_base_url : String
  pub fetch : Request → World → Option (Response Json) × World
  pub wait : World → World  -- the pause of half a second
  pub stringify : Payload D → String
  pub to_string : List (String × String) → String  -- `URLSearchParams.toString`
  pub number_to_string : ℤ → String
  pub is_null : Json → Bool
  pub message : Json → Option String
  pub errors : Json → Option (List FieldError)
  pub parse_user : Json → Parsed (Option (User D))
  pub parse_profile : Json → Parsed (UserProfile D)
  pub parse_sessions : Json → Parsed (List Session)
  pub parse_preferences : Json → Parsed UserPreferences
  pub parse_markets : Json → Parsed (MarketSearchRes D)
  pub parse_market : Json → Parsed (MarketView D)
  pub parse_categories : Json → Parsed (List Category)
  pub parse_balance : Json → Parsed (Balance D)
  pub parse_bets : Json → Parsed (UserBetsRes D)
  pub parse_comments : Json → Parsed (CommentsRes D)

-- `m || d`, and the truth of an optional string.
abbrev pub or_default : Option String → String → String
or_default none d = d
or_default (some m) d = if m == "" then d else m

abbrev pub truthy : Option String → Option String
truthy none = none
truthy (some s) = if s == "" then none else some s

module _ {D : Type 0} (B : Backend D) where
  open B use {World, Json}

  abbrev pub Call : Type 0 → Type 0
  Call A = World → Settled A × World

  -- A request for JSON with a JSON body, and one with no body.
  abbrev pub sending : Method → String → Payload D → Request
  sending m path payload = record {
    method = m;
    url = B.api_base_url ++ path;
    json_type = true;
    cookie = none;
    credentials = true;
    force_cache = false;
    body = some (B.stringify payload);
  }

  abbrev pub asking : Method → String → Bool → Request
  asking m path with_credentials = record {
    method = m;
    url = B.api_base_url ++ path;
    json_type = false;
    cookie = none;
    credentials = with_credentials;
    force_cache = false;
    body = none;
  }

  -- `{ message: data.message, errors: data.errors }`, with a default, and without the errors.
  abbrev pub stated : Json → Exception
  stated body =
      if B.is_null body
      then raised
      else api_error (record { message = B.message body; errors = B.errors body })

  abbrev pub stated_or : String → Json → Exception
  stated_or d body =
      if B.is_null body
      then raised
      else api_error
          (record { message = some (or_default (B.message body) d); errors = B.errors body })

  abbrev pub said_or : String → Json → Exception
  said_or d body =
      if B.is_null body
      then raised
      else api_error (record { message = some (or_default (B.message body) d); errors = none })

  -- What becomes of an answer whose body is read first.
  abbrev pub read_body : {A : Type 0} → (Json → Settled A) → Option Json → Settled A
  read_body k none = rejected raised
  read_body k (some body) = k body

  abbrev pub settle : {A : Type 0} → (Bool → Json → Settled A) → Option (Response Json) → Settled A
  settle k none = rejected raised
  settle k (some r) = read_body (k r.ok) r.json

  abbrev pub verdict :
      {A : Type 0} → (Json → Exception) → (Json → Settled A) → Bool → Json → Settled A
  verdict refusal accept is_ok body = if not is_ok then rejected (refusal body) else accept body

  -- `safeParse`, and the `Error` on its failure.
  abbrev pub validated : {A : Type 0} → String → Parsed A → Settled A
  validated complaint (success a) = resolved a
  validated complaint failure = rejected (invalid complaint)
  validated complaint threw = rejected raised

  -- fetch, json(), the check of `response.ok`, `return null`.
  unfoldable pub command : Request → (Json → Exception) → Call Null
  command req refusal w =
      let (answer, w') = B.fetch req w in
      (settle (verdict refusal (λ body. resolved null)) answer, w')

  -- fetch, json(), the check of `response.ok`, the schema.
  unfoldable pub reader :
      {A : Type 0} → Request → (Json → Exception) → (Json → Parsed A) → String → Call A
  reader req refusal parse complaint w =
      let (answer, w') = B.fetch req w in
      (settle (verdict refusal (λ body. validated complaint (parse body))) answer, w')

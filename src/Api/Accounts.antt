-- ===== src/Api/Accounts.antt =====
-- frontend/seer/src/lib/api.ts: the functions of accounts, sessions, preferences and the balance.
use Prim.Native.String.{◌++◌}
use seer.Common.{String, List, Option, none, some, Bool, true, false, not, if◌then◌else◌}
use seer.Common.Int.{ℤ, pos, eqb_ℤ}
use seer.Definitions.{Balance, Currency, usdt}
use seer.Definitions.Accounts.{
  User, UserProfile, Session, UserPreferences, RegisterFormValues, LoginFormValues,
  ProfileCompletionFormValues, ChangePasswordPayload, SetPasswordPayload, UpdateUserPreferences,
}
use seer.Api.{
  Backend, Response, Request, Settled, resolved, rejected, raised, Null, null, post, patch, get,
  register_form, login_form, profile_form, change_password_form, set_password_form, preferences,
  truthy, Call, sending, asking, stated, stated_or, said_or, settle, verdict, validated, command,
  reader,
}

abbrev pub currency_name : Currency → String
currency_name usdt = "USDT"

module _ {D : Type 0} (B : Backend D) where
  open B use {Json}

  unfoldable pub register : RegisterFormValues → Call B Null
  register form_data =
      command B (sending B post "/auth/register" (register_form form_data)) (stated B)

  unfoldable pub login : LoginFormValues → Call B Null
  login form_data = command B (sending B post "/auth/login" (login_form form_data)) (stated B)

  unfoldable pub complete_profile : ProfileCompletionFormValues → Call B Null
  complete_profile form_data =
      command B (sending B post "/auth/complete-profile" (profile_form form_data)) (stated B)

  unfoldable pub change_password : ChangePasswordPayload → Call B Null
  change_password form_data =
      command B (sending B patch "/auth/password/change" (change_password_form form_data))
        (stated B)

  unfoldable pub set_password : SetPasswordPayload → Call B Null
  set_password form_data =
      command B (sending B post "/auth/password/set" (set_password_form form_data)) (stated B)

  unfoldable pub update_user_preferences : UpdateUserPreferences → Call B Null
  update_user_preferences prefs =
      command B (sending B patch "/user/prefs" (preferences prefs))
        (stated_or B "Failed to update preferences")

  -- The body is read in either case, and is the result.
  unfoldable pub logout : Call B Json
  logout w =
      let (answer, w') = B.fetch (asking B post "/auth/logout" true) w in
      (settle B (verdict B (said_or B "Logout failed") resolved) answer, w')

  -- The body is read only if the response is not ok.
  abbrev pub revoked : Option (Response Json) → Settled Null
  revoked none = rejected raised
  revoked (some r) =
      if not r.ok
      then settle B (λ is_ok body. rejected (said_or B "Failed to revoke session" body)) (some r)
      else resolved null

  unfoldable pub revoke_session : String → Call B Null
  revoke_session session_id w =
      let (answer, w') =
        B.fetch (asking B patch ("/auth/sessions/" ++ (session_id ++ "/revoke")) true) w in
      (revoked answer, w')

  -- A visitor without a session is no error: 401 is `null`.
  abbrev pub user_verdict : ℤ → Bool → Json → Settled (Option (User D))
  user_verdict status is_ok body =
      if not is_ok
      then (if eqb_ℤ status (pos 401)
          then resolved none
          else rejected (said_or B "Failed to fetch user" body))
      else validated B "Invalid user data" (B.parse_user body)

  abbrev pub user_of : Option (Response Json) → Settled (Option (User D))
  user_of none = rejected raised
  user_of (some r) = settle B (user_verdict r.status) (some r)

  abbrev pub user_request : Option String → Request
  user_request cookie = record (asking B get "/user/me" true) { cookie = truthy cookie }

  unfoldable pub get_user : Option String → Call B (Option (User D))
  get_user cookie w = let (answer, w') = B.fetch (user_request cookie) w in (user_of answer, w')

  unfoldable pub get_sessions : Bool → Call B (List Session)
  get_sessions show_inactive =
      reader B
        (asking B get
          (if show_inactive then "/auth/sessions?showInactive=true" else "/auth/sessions") true)
        (said_or B "Failed to fetch sessions") B.parse_sessions "Invalid session data"

  unfoldable pub get_user_preferences : Call B UserPreferences
  get_user_preferences =
      reader B (asking B get "/user/prefs" true) (stated_or B "Failed to fetch user preferences")
        B.parse_preferences "Invalid preferences data"

  unfoldable pub get_balance : Currency → Call B (Balance D)
  get_balance currency =
      reader B (asking B get ("/user/balance/" ++ currency_name currency) true)
        (stated_or B "Failed to fetch balance") B.parse_balance "Invalid balance data"

  unfoldable pub get_user_profile : String → Call B (UserProfile D)
  get_user_profile username =
      reader B (asking B get ("/user/profile/" ++ username) false)
        (said_or B "Failed to fetch user profile") B.parse_profile "Invalid user profile data"

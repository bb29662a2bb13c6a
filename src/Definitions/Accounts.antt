-- ===== src/Definitions/Accounts.antt =====
-- frontend/seer/src/lib/definitions.ts: users, sessions, preferences and the forms of the account
-- pages, after validation. D is decimal.js's Decimal; a Date is its time in milliseconds.
use seer.Common.{String, Option, Bool}
use seer.Common.Int.{ℤ}

pub data UserStatus : Type 0 where
  pending_email_verification activated credentials : UserStatus

pub data Provider : Type 0 where
  by_credentials google twitch : Provider

pub record User (D : Type 0) : Type 0 where
  pub id : String
  pub provider_id : Option Provider
  pub has_password : Bool
  pub email : String
  pub username : String
  pub profile_image_url : Option String
  pub total_wagered : D
  pub created_at : ℤ
  pub status : UserStatus

pub record UserProfile (D : Type 0) : Type 0 where
  pub id : String
  pub username : String
  pub profile_image_key : Option String
  pub total_wagered : D
  pub created_at : ℤ

pub record Session : Type 0 where
  pub id : String
  pub last_used_at : ℤ
  pub os : Option String
  pub browser : Option String
  pub device : Option String
  pub ip : Option String
  pub country : Option String
  pub city : Option String
  pub active : Bool
  pub current : Bool

pub record RegisterFormValues : Type 0 where
  pub username : String
  pub email : String
  pub password : String

pub record LoginFormValues : Type 0 where
  pub login : String
  pub password : String

pub record ProfileCompletionFormValues : Type 0 where
  pub username : String

pub record ChangePasswordPayload : Type 0 where
  pub current_password : String
  pub new_password : String

pub record SetPasswordPayload : Type 0 where
  pub password : String

pub record UserPreferences : Type 0 where
  pub hidden : Bool
  pub receive_marketing_emails : Bool

-- Partial<UserPreferences>
pub record UpdateUserPreferences : Type 0 where
  pub hidden : Option Bool
  pub receive_marketing_emails : Option Bool

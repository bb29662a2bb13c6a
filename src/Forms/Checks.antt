-- ===== src/Forms/Checks.antt =====
-- frontend/seer/src/lib/definitions.ts: what the schemas of the account forms accept, and the payloads that
-- ui/profile/SetPasswordModal.tsx and ChangePasswordModal.tsx make of what is accepted. zod's checks of a string are
-- a parameter; `omit` keeps the checks of the fields that stay.
use seer.Common.{
  ℕ, ◌≡◌, ◌≤◌, refl, String, Bool, true, false, ◌&&◌, ◌||◌, and-left, and-right, if◌then◌else◌,
  arith,
}
use seer.Common.Result.{Result, ok, thrown}
use seer.Definitions.Accounts.{
  RegisterFormValues, LoginFormValues, ProfileCompletionFormValues, ChangePasswordPayload,
  SetPasswordPayload,
}

-- `min`, `max`, `regex` with /^[a-z0-9]+$/i, `email`, and `===`.
pub record StringChecks : Type 0 where
  pub at_least : ℕ → String → Bool
  pub at_most : ℕ → String → Bool
  pub is_alphanumeric : String → Bool
  pub is_email : String → Bool
  pub same : String → String → Bool

pub record ChangePasswordFormValues : Type 0 where
  pub current_password : String
  pub new_password : String
  pub confirm_new_password : String

pub record SetPasswordFormValues : Type 0 where
  pub password : String
  pub confirm_password : String

pub data PasswordForm : Type 0 where
  sets : SetPasswordFormValues → PasswordForm
  changes : ChangePasswordFormValues → PasswordForm

abbrev pub new_password_of : PasswordForm → String
new_password_of (sets f) = f.password
new_password_of (changes f) = f.new_password

module _ (Z : StringChecks) where
  open Z use {at_least, at_most, is_alphanumeric, is_email, same}

  abbrev pub username_schema : String → Bool
  username_schema s = at_least 3 s && (at_most 15 s && is_alphanumeric s)

  abbrev pub email_schema : String → Bool
  email_schema s = at_least 1 s && is_email s

  abbrev pub password_schema : String → Bool
  password_schema s = at_least 8 s && at_most 49 s

  unfoldable pub register_schema : RegisterFormValues → Bool
  register_schema r =
      username_schema r.username && (email_schema r.email && password_schema r.password)

  unfoldable pub login_schema : LoginFormValues → Bool
  login_schema l = (email_schema l.login || username_schema l.login) && at_least 1 l.password

  unfoldable pub profile_completion_schema : ProfileCompletionFormValues → Bool
  profile_completion_schema p = username_schema p.username

  abbrev pub new_password_schema : String → Bool
  new_password_schema s = password_schema s && (at_least 8 s && at_most 49 s)

  abbrev pub change_password_payload_schema : ChangePasswordPayload → Bool
  change_password_payload_schema p =
      at_least 1 p.current_password && new_password_schema p.new_password

  unfoldable pub change_password_schema : ChangePasswordFormValues → Bool
  change_password_schema f =
      (at_least 1 f.current_password
        && (new_password_schema f.new_password && at_least 1 f.confirm_new_password))
      && same f.new_password f.confirm_new_password

  unfoldable pub set_password_schema : SetPasswordFormValues → Bool
  set_password_schema f =
      (password_schema f.password && at_least 1 f.confirm_password)
      && same f.password f.confirm_password

  -- `parse` throws what is not accepted.
  abbrev pub parse_set_password : SetPasswordPayload → Result SetPasswordPayload
  parse_set_password p = if password_schema p.password then ok p else thrown

  unfoldable pub submit_set_password : SetPasswordFormValues → Result SetPasswordPayload
  submit_set_password f = parse_set_password (record { password = f.password })

  abbrev pub parse_change_password : ChangePasswordPayload → Result ChangePasswordPayload
  parse_change_password p = if change_password_payload_schema p then ok p else thrown

  unfoldable pub submit_change_password : ChangePasswordFormValues → Result ChangePasswordPayload
  submit_change_password f =
      parse_change_password
        (record { current_password = f.current_password; new_password = f.new_password })

  -- A name with a password, of an account that a form has made or changed, is accepted by the form for signing in.
  abbrev pub CanSignIn : String → String → Type 0
  CanSignIn name password = login_schema (record { login = name; password = password }) ≡ true

  abbrev pub is_accepted : PasswordForm → Bool
  is_accepted (sets f) = set_password_schema f
  is_accepted (changes f) = change_password_schema f

  -- The payload is made, with the form's passwords.
  abbrev pub IsSubmitted : PasswordForm → Type 0
  IsSubmitted (sets f) = submit_set_password f ≡ ok (record { password = f.password })
  IsSubmitted (changes f) =
      submit_change_password f
      ≡ ok (record { current_password = f.current_password; new_password = f.new_password })

  abbrev pub IsRepeated : PasswordForm → Type 0
  IsRepeated (sets f) = same f.password f.confirm_password ≡ true
  IsRepeated (changes f) = same f.new_password f.confirm_new_password ≡ true

  module _
      (longer : (m k : ℕ) (s : String) → m ≤ k → at_least k s ≡ true → at_least m s ≡ true) where
    password_long : (s : String) → password_schema s ≡ true → at_least 1 s ≡ true
    password_long s e = longer 1 8 s (omega arith) (and-left _ _ e)

    sign_in :
        (name password : String)
        → (email_schema name || username_schema name) ≡ true
        → password_schema password ≡ true
        → CanSignIn name password
    unfolding login_schema
    sign_in name password n p = rw (n, password_long password p) refl

    known_name : (a b : Bool) → b ≡ true → (a || b) ≡ true
    known_name true b e = refl
    known_name false b e = e

    known_address : (a b : Bool) → a ≡ true → (a || b) ≡ true
    known_address true b e = refl
    known_address false b e = cc

    -- An account that the form for registering accepts can sign in with its name and with its address.
    pub register-CanSignIn :
        (r : RegisterFormValues)
        → register_schema r ≡ true
        → CanSignIn r.username r.password × CanSignIn r.email r.password
    unfolding register_schema
    register-CanSignIn r e =
        let rest = and-right _ _ e in
        let password = and-right _ _ rest in
        (
          sign_in r.username r.password (known_name (email_schema r.username) _ (and-left _ _ e))
              password,
          sign_in r.email r.password (known_address _ (username_schema r.email) (and-left _ _ rest))
              password,
        )

    submit_set-CanSignIn :
        (name : String) (f : SetPasswordFormValues)
        → (email_schema name || username_schema name) ≡ true
        → set_password_schema f ≡ true
        → IsSubmitted (sets f) × CanSignIn name f.password × IsRepeated (sets f)
    unfolding set_password_schema submit_set_password
    submit_set-CanSignIn name f known e =
        let fields = and-left _ _ e in
        let password = and-left _ _ fields in
        (rw password refl, sign_in name f.password known password, and-right _ _ e)

    submit_change-CanSignIn :
        (name : String) (f : ChangePasswordFormValues)
        → (email_schema name || username_schema name) ≡ true
        → change_password_schema f ≡ true
        → IsSubmitted (changes f) × CanSignIn name f.new_password × IsRepeated (changes f)
    unfolding change_password_schema submit_change_password
    submit_change-CanSignIn name f known e =
        let fields = and-left _ _ e in
        let rest = and-right _ _ fields in
        let new : new_password_schema f.new_password ≡ true = and-left _ _ rest in
        let old : at_least 1 f.current_password ≡ true = and-left _ _ fields in
        (rw (old, new) refl, sign_in name f.new_password known (and-left _ _ new), and-right _ _ e)

    -- Let a form that sets or changes a password be accepted. Then its payload is made without an exception and has the
    -- new password; with that, every name or address that the form for signing in accepts signs in; and it was typed
    -- twice.
    pub submit-CanSignIn :
        (name : String) (f : PasswordForm)
        → (email_schema name || username_schema name) ≡ true
        → is_accepted f ≡ true
        → IsSubmitted f × CanSignIn name (new_password_of f) × IsRepeated f
    submit-CanSignIn name (sets f) known e = submit_set-CanSignIn name f known e
    submit-CanSignIn name (changes f) known e = submit_change-CanSignIn name f known e

-- ===== src/Forms/Tests.antt =====
-- The errors of the forms at concrete refusals.
use Prim.Native.String.{String}
use seer.Common.Result.{ok}
use seer.Common.{ℕ, suc, ◌≤◌, leb, not, str_eq, true, arith, ◌≡◌, refl, some, [], ◌∷◌, insert}
use seer.Api.{ApiError}
use seer.Forms.{show_errors, set_field_errors, login_error}
use seer.Forms.Checks.{
  StringChecks, SetPasswordFormValues, sets, CanSignIn, set_password_schema, submit_set_password,
  submit-CanSignIn,
}

abbrev refusal : ApiError
refusal = record {
  message = some "Refused";
  errors = some (
      record { field = "password"; message = "Wrong" }
      ∷ record { field = "captcha"; message = "Missing" }
      ∷ []);
}

refused_login : login_error refusal [] ≡ ("password", "Wrong") ∷ ("root", "Refused") ∷ []
unfolding login_error show_errors set_field_errors insert
refused_login = refl

abbrev size : String → ℕ
size String.[] = 0
size (String.◌∷◌ c s) = suc (size s)

abbrev checks : StringChecks
checks = record {
  at_least = λ n s. leb n (size s);
  at_most = λ n s. leb (size s) n;
  is_alphanumeric = λ s. not (str_eq s "a@b.c");
  is_email = λ s. str_eq s "a@b.c";
  same = λ a b. str_eq a b;
}

at_least-longer : (m k : ℕ) (s : String) → m ≤ k → leb k (size s) ≡ true → leb m (size s) ≡ true
at_least-longer m k s le e = ground arith

abbrev twice : SetPasswordFormValues
twice = record { password = "swordfish"; confirm_password = "swordfish" }

twice_accepted : set_password_schema checks twice ≡ true
unfolding set_password_schema
twice_accepted = refl

submit-CanSignIn_example :
    (submit_set_password checks twice ≡ ok (record { password = "swordfish" }))
    × CanSignIn checks "anna" "swordfish"
    × (str_eq "swordfish" "swordfish" ≡ true)
submit-CanSignIn_example =
    submit-CanSignIn checks at_least-longer "anna" (sets twice) refl twice_accepted

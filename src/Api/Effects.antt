-- ===== src/Api/Effects.antt =====
-- What the functions of frontend/seer/src/lib/api.ts do to the server, and when the commands return.
use seer.Common.{String, ◌≡◌, refl, sym, ap, ◌∙◌, subst, ◌≢◌, ◌↔◌, Option, some, Bool, true, false}
use seer.Definitions.{PlaceBet, CashoutBet}
use seer.Definitions.Accounts.{
  RegisterFormValues, LoginFormValues, ProfileCompletionFormValues, ChangePasswordPayload,
  SetPasswordPayload, UpdateUserPreferences,
}
use seer.Definitions.Comments.{PostComment, InteractComment}
use seer.Api.Settling.{Accepted, settle-eq-resolved_iff}
use text.Mathlib.Text.{◌==◌}
use seer.Api.{
  Backend, Response, Request, Exception, api_error, resolved, rejected, Null, null, get, post,
  patch, delete, Call, sending, stated, stated_or, settle, verdict, read_body, command,
  register_form, login_form, profile_form, change_password_form, set_password_form, preferences,
  placed_bet, cashed_out_bet, comment, interaction,
}
use seer.Api.Accounts.{
  register, login, complete_profile, change_password, set_password, update_user_preferences,
}
use seer.Api.Markets.{post_bet, cashout_bet}
use seer.Api.Comments.{post_comment, post_like, delete_like, delete_comment, report_comment}

-- The functions that change something and return null.
pub data Command (D : Type 0) : Type 0 where
  registers : RegisterFormValues → Command D
  logs_in : LoginFormValues → Command D
  completes_profile : ProfileCompletionFormValues → Command D
  changes_password : ChangePasswordPayload → Command D
  sets_password : SetPasswordPayload → Command D
  updates_preferences : UpdateUserPreferences → Command D
  bets : PlaceBet D → Command D
  cashes_out : CashoutBet D → Command D
  comments : PostComment → Command D
  likes : InteractComment → Command D
  unlikes : InteractComment → Command D
  deletes : InteractComment → Command D
  reports : InteractComment → Command D

-- A request that changes something: not a GET, with the user's cookies, not answered from a cache, with
-- a body that is declared as JSON.
pub record Changes (req : Request) : Type 0 where
  pub method_eq : req.method ≢ get
  pub credentials_eq : req.credentials ≡ true
  pub force_cache_eq : req.force_cache ≡ false
  pub json_type_eq : req.json_type ≡ true

module _ {D : Type 0} (B : Backend D) where
  open B use {World, Json}

  abbrev pub perform : Command D → Call B Null
  perform (registers f) = register B f
  perform (logs_in f) = login B f
  perform (completes_profile f) = complete_profile B f
  perform (changes_password f) = change_password B f
  perform (sets_password f) = set_password B f
  perform (updates_preferences p) = update_user_preferences B p
  perform (bets b) = post_bet B b
  perform (cashes_out b) = cashout_bet B b
  perform (comments c) = post_comment B c
  perform (likes c) = post_like B c
  perform (unlikes c) = delete_like B c
  perform (deletes c) = delete_comment B c
  perform (reports c) = report_comment B c

  -- The request and the exceptions of each.
  abbrev pub request_of : Command D → Request
  request_of (registers f) = sending B post "/auth/register" (register_form f)
  request_of (logs_in f) = sending B post "/auth/login" (login_form f)
  request_of (completes_profile f) = sending B post "/auth/complete-profile" (profile_form f)
  request_of (changes_password f) = sending B patch "/auth/password/change" (change_password_form f)
  request_of (sets_password f) = sending B post "/auth/password/set" (set_password_form f)
  request_of (updates_preferences p) = sending B patch "/user/prefs" (preferences p)
  request_of (bets b) = sending B post "/market/bet" (placed_bet b)
  request_of (cashes_out b) = sending B post "/market/cashout" (cashed_out_bet b)
  request_of (comments c) = sending B post "/comments" (comment c)
  request_of (likes c) = sending B post "/comments/like" (interaction c)
  request_of (unlikes c) = sending B delete "/comments/like" (interaction c)
  request_of (deletes c) = sending B delete "/comments" (interaction c)
  request_of (reports c) = sending B post "/comments/report" (interaction c)

  abbrev pub refusal_of : Command D → Json → Exception
  refusal_of (registers f) = stated B
  refusal_of (logs_in f) = stated B
  refusal_of (completes_profile f) = stated B
  refusal_of (changes_password f) = stated B
  refusal_of (sets_password f) = stated B
  refusal_of (updates_preferences p) = stated_or B "Failed to update preferences"
  refusal_of (bets b) = stated_or B "Failed to place bet"
  refusal_of (cashes_out b) = stated_or B "Failed to cashout bet"
  refusal_of (comments c) = stated_or B "Failed to post comment"
  refusal_of (likes c) = stated_or B "Failed to post comment"
  refusal_of (unlikes c) = stated_or B "Failed to delete comment"
  refusal_of (deletes c) = stated_or B "Failed to delete comment"
  refusal_of (reports c) = stated_or B "Failed to report comment"

  perform-eq : (c : Command D) (w : World) → perform c w ≡ command B (request_of c) (refusal_of c) w
  unfolding register login complete_profile change_password set_password update_user_preferences
      post_bet cashout_bet post_comment post_like delete_like delete_comment report_comment
  perform-eq (registers f) w = refl
  perform-eq (logs_in f) w = refl
  perform-eq (completes_profile f) w = refl
  perform-eq (changes_password f) w = refl
  perform-eq (sets_password f) w = refl
  perform-eq (updates_preferences p) w = refl
  perform-eq (bets b) w = refl
  perform-eq (cashes_out b) w = refl
  perform-eq (comments c) w = refl
  perform-eq (likes c) w = refl
  perform-eq (unlikes c) w = refl
  perform-eq (deletes c) w = refl
  perform-eq (reports c) w = refl

  sent :
      {req : Request}
      → req.method ≢ get
      → req.credentials ≡ true
      → req.force_cache ≡ false
      → req.json_type ≡ true
      → Changes req
  sent m c f j = record { method_eq = m; credentials_eq = c; force_cache_eq = f; json_type_eq = j }

  request_of-Changes : (c : Command D) → Changes (request_of c)
  request_of-Changes (registers f) = sent (λ e. cc) refl refl refl
  request_of-Changes (logs_in f) = sent (λ e. cc) refl refl refl
  request_of-Changes (completes_profile f) = sent (λ e. cc) refl refl refl
  request_of-Changes (changes_password f) = sent (λ e. cc) refl refl refl
  request_of-Changes (sets_password f) = sent (λ e. cc) refl refl refl
  request_of-Changes (updates_preferences p) = sent (λ e. cc) refl refl refl
  request_of-Changes (bets b) = sent (λ e. cc) refl refl refl
  request_of-Changes (cashes_out b) = sent (λ e. cc) refl refl refl
  request_of-Changes (comments c) = sent (λ e. cc) refl refl refl
  request_of-Changes (likes c) = sent (λ e. cc) refl refl refl
  request_of-Changes (unlikes c) = sent (λ e. cc) refl refl refl
  request_of-Changes (deletes c) = sent (λ e. cc) refl refl refl
  request_of-Changes (reports c) = sent (λ e. cc) refl refl refl

  -- What is known of a command c that runs in the world w: it sends one request, which changes something,
  -- and nothing else; it returns exactly if the answer is ok and its body is JSON.
  pub record SendsOnce (c : Command D) (w : World) : Type 0 where
    pub changes : Changes (request_of c)
    pub world_eq : (perform c w).1 ≡ (B.fetch (request_of c) w).1
    pub returns_iff :
        ((perform c w).0 ≡ resolved null)
        ↔ Accepted B (refusal_of c) (λ body. resolved null) null (B.fetch (request_of c) w).0

  -- For every command in every world, SendsOnce.
  pub perform-SendsOnce : (c : Command D) (w : World) → SendsOnce c w
  unfolding command
  perform-SendsOnce c w = record {
    changes = request_of-Changes c;
    world_eq = ap (λ p. p.1) (perform-eq c w);
    returns_iff =
        subst
          (λ p.
            (p.0 ≡ resolved null)
            ↔ Accepted B (refusal_of c) (λ body. resolved null) null (B.fetch (request_of c) w).0)
          (sym (perform-eq c w))
          (settle-eq-resolved_iff B (refusal_of c) (λ body. resolved null) null
            (B.fetch (request_of c) w).0);
  }

  -- An exception with a message of the server's and its errors.
  refusal_of-eq :
      (c : Command D) (body : Json) (m : String)
      → B.is_null body ≡ false
      → B.message body ≡ some m
      → (m == "") ≡ false
      → refusal_of c body ≡ api_error (record { message = some m; errors = B.errors body })
  refusal_of-eq (registers f) body m n e z = rw (n, e) refl
  refusal_of-eq (logs_in f) body m n e z = rw (n, e) refl
  refusal_of-eq (completes_profile f) body m n e z = rw (n, e) refl
  refusal_of-eq (changes_password f) body m n e z = rw (n, e) refl
  refusal_of-eq (sets_password f) body m n e z = rw (n, e) refl
  refusal_of-eq (updates_preferences p) body m n e z = rw (n, e, z) refl
  refusal_of-eq (bets b) body m n e z = rw (n, e, z) refl
  refusal_of-eq (cashes_out b) body m n e z = rw (n, e, z) refl
  refusal_of-eq (comments c) body m n e z = rw (n, e, z) refl
  refusal_of-eq (likes c) body m n e z = rw (n, e, z) refl
  refusal_of-eq (unlikes c) body m n e z = rw (n, e, z) refl
  refusal_of-eq (deletes c) body m n e z = rw (n, e, z) refl
  refusal_of-eq (reports c) body m n e z = rw (n, e, z) refl

  -- A command whose request the server refuses, with an answer that is not ok and whose body has a
  -- message that is not empty, throws an APIError of that message and of the body's errors.
  pub perform-eq-refused :
      (c : Command D) (w : World) (r : Response Json) (body : Json) (m : String)
      → (B.fetch (request_of c) w).0 ≡ some r
      → r.ok ≡ false
      → r.json ≡ some body
      → B.is_null body ≡ false
      → B.message body ≡ some m
      → (m == "") ≡ false
      → (perform c w).0 ≡ rejected (api_error (record { message = some m; errors = B.errors body }))
  unfolding command
  perform-eq-refused c w r body m f i j n e z =
      ap (λ p. p.0) (perform-eq c w)
      ∙ ap (settle B (verdict B (refusal_of c) (λ b. resolved null))) f
      ∙ refused r.ok r.json i j
      ∙ ap rejected (refusal_of-eq c body m n e z)
    where
      refused :
          (is_ok : Bool) (json : Option Json)
          → is_ok ≡ false
          → json ≡ some body
          → read_body B (verdict B (refusal_of c) (λ b. resolved null) is_ok) json
            ≡ rejected (refusal_of c body)
      refused is_ok json i' j' = rw (i', j') refl

-- ===== src/Api/Visitors.antt =====
-- frontend/seer/src/lib/api.ts: the two functions that do not settle as the others do.
use seer.Common.{
  String, ◌≡◌, ◌↔◌, ◌⊎◌, inl, inr, refl, sym, subst, Option, none, some, Bool, true, false, not,
  if◌then◌else◌, Bool-cases, Option-cases,
}
use seer.Common.Int.{ℤ, pos, eqb_ℤ}
use seer.Api.{
  Backend, Response, resolved, rejected, Null, null, success, read_body, patch, asking, said_or,
}
use seer.Api.Settling.{validated-eq-resolved}
use Prim.Native.String.{◌++◌}
use seer.Api.Accounts.{get_user, user_of, user_verdict, user_request, revoke_session, revoked}

module _ {D : Type 0} (B : Backend D) where
  open B use {World, Json}

  -- The two ways to be nobody: a refusal with 401, and a user that is null.
  abbrev pub IsNobody : (is_ok : Bool) → (status : ℤ) → Json → Type 0
  IsNobody is_ok status body =
      ((is_ok ≡ false) × (eqb_ℤ status (pos 401) ≡ true))
      ⊎ ((is_ok ≡ true) × (B.parse_user body ≡ success none))

  user_verdict-IsNobody :
      (is_ok : Bool) (status : ℤ) (body : Json)
      → user_verdict B status is_ok body ≡ resolved none
      → IsNobody is_ok status body
  user_verdict-IsNobody true status body h =
      inr (refl, validated-eq-resolved B "Invalid user data" (B.parse_user body) h)
  user_verdict-IsNobody false status body h = elim (Bool-cases (eqb_ℤ status (pos 401))) [
    | inl e ↦ inl (refl, e)
    | inr e ↦ (let h' = (rw (e) at h) in cc)
  ]

  verdict_of_nobody :
      (is_ok : Bool) (status : ℤ) (body : Json)
      → IsNobody is_ok status body
      → user_verdict B status is_ok body ≡ resolved none
  verdict_of_nobody is_ok status body (inl (i, e)) = rw (i, e) refl
  verdict_of_nobody is_ok status body (inr (i, e)) = rw (i, e) refl

  user_of-IsNobody :
      (answer : Option (Response Json))
      → user_of B answer ≡ resolved none
      → (r : Response Json) × (body : Json) × (answer ≡ some r)
        × (r.json ≡ some body)
        × IsNobody r.ok r.status body
  user_of-IsNobody none h = cc
  user_of-IsNobody (some r) h = elim (Option-cases r.json) [
    | inl e ↦ cc
    | inr (body, e) ↦ (
      r,
      body,
      refl,
      e,
      user_verdict-IsNobody r.ok r.status body
          (subst (λ o. read_body B (user_verdict B r.status r.ok) o ≡ resolved none) e h),
    )
  ]

  user_of_nobody :
      (answer : Option (Response Json))
      → ((r : Response Json) × (body : Json) × (answer ≡ some r)
          × (r.json ≡ some body)
          × IsNobody r.ok r.status body)
      → user_of B answer ≡ resolved none
  user_of_nobody answer (r, body, e, j, v) =
      subst (λ o. user_of B o ≡ resolved none) (sym e)
        (subst (λ o. read_body B (user_verdict B r.status r.ok) o ≡ resolved none) (sym j)
          (verdict_of_nobody r.ok r.status body v))

  -- getUser returns null exactly if the answer has a JSON body and is a refusal with 401, or is ok with a
  -- user that is validated as null.
  pub get_user-eq-IsNobody_iff :
      (cookie : Option String) (w : World)
      → ((get_user B cookie w).0 ≡ resolved none) ↔ (
          (r : Response Json) × (body : Json) × ((B.fetch (user_request B cookie) w).0 ≡ some r)
          × (r.json ≡ some body)
          × IsNobody r.ok r.status body)
  unfolding get_user
  get_user-eq-IsNobody_iff cookie w = (
    user_of-IsNobody (B.fetch (user_request B cookie) w).0,
    user_of_nobody (B.fetch (user_request B cookie) w).0,
  )

  ok_of_revoked :
      (answer : Option (Response Json))
      → revoked B answer ≡ resolved null
      → (r : Response Json) × (answer ≡ some r) × (r.ok ≡ true)
  ok_of_revoked none h = cc
  ok_of_revoked (some r) h = elim (Bool-cases r.ok) [
    | inl e ↦ (r, refl, e)
    | inr e ↦
        (unrevoked r.json (
          subst
            (λ b.
              (if not b
                then read_body B (λ body. rejected (said_or B "Failed to revoke session" body))
                    r.json
                else resolved null)
              ≡ resolved null)
            e h))
  ]
    where
      unrevoked :
          {T : Type 0} (json : Option Json)
          → read_body B {A = Null}
              (λ body. rejected (said_or B "Failed to revoke session" body))
              json
            ≡ resolved null
          → T
      unrevoked none u = cc
      unrevoked (some body) u = cc

  revoked_of_ok :
      (answer : Option (Response Json))
      → ((r : Response Json) × (answer ≡ some r) × (r.ok ≡ true))
      → revoked B answer ≡ resolved null
  revoked_of_ok answer (r, e, i) =
      subst (λ o. revoked B o ≡ resolved null) (sym e)
        (subst
          (λ b.
            (if not b
              then read_body B (λ body. rejected (said_or B "Failed to revoke session" body)) r.json
              else resolved null)
            ≡ resolved null)
          (sym i) refl)

  -- revokeSession returns exactly if there is an answer and it is ok, whatever its body.
  pub revoke_session-eq-null_iff :
      (session_id : String) (w : World)
      → ((revoke_session B session_id w).0 ≡ resolved null) ↔ (
          (r : Response Json) × ((B.fetch
              (asking B patch ("/auth/sessions/" ++ (session_id ++ "/revoke")) true)
              w).0
            ≡ some r)
          × (r.ok ≡ true))
  unfolding revoke_session
  revoke_session-eq-null_iff session_id w =
      let answer =
        (B.fetch (asking B patch ("/auth/sessions/" ++ (session_id ++ "/revoke")) true) w).0 in
      (ok_of_revoked answer, revoked_of_ok answer)

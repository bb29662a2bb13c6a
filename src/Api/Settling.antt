-- ===== src/Api/Settling.antt =====
-- How the calls of frontend/seer/src/lib/api.ts settle, from the answer.
use seer.Common.{String, ◌≡◌, ◌↔◌, refl, sym, subst, Option, none, some, Bool, true, false}
use seer.Api.{
  Backend, Response, Exception, Settled, resolved, settle, verdict, read_body, validated, Parsed,
  success, failure, threw,
}

module _ {D : Type 0} (B : Backend D) where
  pub validated-eq-resolved :
      {A : Type 0} (complaint : String) (p : Parsed A) {a : A}
      → validated B complaint p ≡ resolved a
      → p ≡ success a
  validated-eq-resolved complaint (success b) h = cc
  validated-eq-resolved complaint failure h = cc
  validated-eq-resolved complaint threw h = cc

module _ {D : Type 0} (B : Backend D) {A : Type 0} (refusal : B.Json → Exception)
    (accept : B.Json → Settled A) (a : A) where
  open B use {Json}

  -- The answer is ok, its body is JSON, and it is accepted as `a`.
  abbrev pub Accepted : Option (Response Json) → Type 0
  Accepted answer =
      (r : Response Json) × (body : Json) × (answer ≡ some r)
      × (r.ok ≡ true)
      × (r.json ≡ some body)
      × (accept body ≡ resolved a)

  read_body-Accepted :
      (is_ok : Bool) (json : Option Json)
      → read_body B (verdict B refusal accept is_ok) json ≡ resolved a
      → (body : Json) × (is_ok ≡ true) × (json ≡ some body) × (accept body ≡ resolved a)
  read_body-Accepted true none h = cc
  read_body-Accepted true (some b) h = (b, refl, refl, h)
  read_body-Accepted false none h = cc
  read_body-Accepted false (some b) h = cc

  read_of_Accepted :
      (is_ok : Bool) (json : Option Json) (body : Json)
      → is_ok ≡ true
      → json ≡ some body
      → accept body ≡ resolved a
      → read_body B (verdict B refusal accept is_ok) json ≡ resolved a
  read_of_Accepted is_ok json body i j e = rw (i, j) e

  settle-Accepted :
      (answer : Option (Response Json))
      → settle B (verdict B refusal accept) answer ≡ resolved a
      → Accepted answer
  settle-Accepted none h = cc
  settle-Accepted (some r) h =
      let (body, i, j, e) = read_body-Accepted r.ok r.json h in (r, body, refl, i, j, e)

  pub settle-eq-resolved_iff :
      (answer : Option (Response Json))
      → (settle B (verdict B refusal accept) answer ≡ resolved a) ↔ Accepted answer
  settle-eq-resolved_iff answer = (
    settle-Accepted answer,
    λ (r, body, e, i, j, k).
        subst (λ o. settle B (verdict B refusal accept) o ≡ resolved a) (sym e)
          (read_of_Accepted r.ok r.json body i j k),
  )

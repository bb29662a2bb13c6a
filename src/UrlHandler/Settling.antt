-- ===== src/UrlHandler/Settling.antt =====
-- frontend/seer/src/app/URLHandler.tsx with lib/hooks/useUpdateSearchParams.ts: the address gets clean, whatever the router
-- skips.
use seer.Common.{
  ℕ, zero, suc, subst, ◌+◌, ◌≤◌, String, ◌≡◌, refl, ap, sym, ◌∙◌, Bool, true, false, Option, none,
  some, List, [], ◌∷◌, ◌++◌, lookup, Bool-cases, inl, inr, All, All-append, length, length-map,
  length-append, arith,
}
use seer.Common.Result.{ok, ◌>>=◌}
use seer.SearchParams.{update_params}
use seer.UrlHandler.{Act, filled, navigations, pushed, go_on, settle_address}
use seer.UrlHandler.Navigations.{
  completes, error_of, most_of, most_navigations, navigations-append, load, load-append,
}
use seer.UrlHandler.Visits.{IsClean, IsKept, IsVisited, handle-IsVisited}

module _ (decode : String → Option String) where
  -- The address gets clean, with no more navigations than the waiting addresses lead to.
  abbrev Settles :
      (ℕ → Bool) → ℕ → (base q : List (String × String)) → List (List (String × String)) → Type 0
  Settles skips fuel base q later =
      (acts : List Act) × (final : List (String × String)) × (settle_address decode skips fuel q
          later
        ≡ ok (acts, final))
      × IsClean decode base final
      × (length (navigations acts) + suc (length later) ≤ load (q ∷ later))

  count-append :
      (a b : List Act)
      → length (navigations (a ++ b)) ≡ length (navigations a) + length (navigations b)
  count-append a b =
      ap length (navigations-append a b) ∙ length-append (navigations a) (navigations b)

  count-pushed :
      (q : List (String × String)) (acts : List Act)
      → length (pushed q acts) ≡ length (navigations acts)
  count-pushed q acts = length-map (λ u. update_params u q) (navigations acts)

  -- The navigations of a visit and of all that follows.
  go_on-Settles :
      (skips : ℕ → Bool) (fuel : ℕ) (base q next : List (String × String))
      (later : List (List (String × String))) (acts : List Act) (others most : ℕ)
      → length (navigations acts) + load (next ∷ later) + others ≤ most + suc (length later)
      → Settles skips fuel base next later
      → (all_acts : List Act) × (final : List (String × String)) × (go_on
            (settle_address decode skips fuel)
            q
            acts
            (next ∷ later)
          ≡ ok (all_acts, final))
        × IsClean decode base final
        × (length (navigations all_acts) + others ≤ most)
  go_on-Settles skips fuel base q next later acts others most bound
        (rest, final, settled, clean, count) =
      (
        acts ++ rest,
        final,
        ap (λ r. r >>= λ rest. ok (acts ++ rest.0, rest.1)) settled,
        clean,
        omega (arith, bound, count, count-append acts rest),
      )

  -- After a visit of the last address, with the addresses that it has pushed.
  last-Settles :
      (skips : ℕ → Bool) (fuel : ℕ) (base q : List (String × String)) (acts : List Act)
      (waiting : List (List (String × String)))
      → pushed q acts ≡ waiting
      → IsVisited decode base q acts
      → ((next : List (String × String)) (later : List (List (String × String)))
          → All (IsKept decode base) (next ∷ later)
          → load (next ∷ later) ≤ most_navigations q
          → Settles skips fuel base next later)
      → (all_acts : List Act) × (final : List (String × String)) × (go_on
            (settle_address decode skips fuel)
            q
            acts
            waiting
          ≡ ok (all_acts, final))
        × IsClean decode base final
        × (length (navigations all_acts) ≤ most_navigations q)
  unfolding load
  last-Settles skips fuel base q acts [] e visit again =
      let none_pushed = ap length e in
      (acts, q, refl, visit.clean e, omega (arith, none_pushed, count-pushed q acts))
  last-Settles skips fuel base q acts (next ∷ later) e visit again =
      let loaded : load (next ∷ later) ≡ most_navigations q = ap load (sym e) ∙ visit.load_eq in
      let as_many = ap length e in
      let (all_acts, final, settled, clean, count) =
        go_on-Settles skips fuel base q next later acts 0 (most_navigations q)
          (omega (arith, loaded, as_many, count-pushed q acts))
          (again next later (subst (All (IsKept decode base)) e visit.kept)
            (omega (arith, loaded))) in
      (all_acts, final, settled, clean, omega (arith, count))

  settle_address-Settles :
      (skips : ℕ → Bool) (fuel : ℕ) (base q : List (String × String))
      (later : List (List (String × String)))
      → IsKept decode base q
      → All (IsKept decode base) later
      → load (q ∷ later) ≤ fuel
      → Settles skips fuel base q later
  unfolding settle_address load
  settle_address-Settles skips zero base q later h hs enough = absurd (omega (arith, enough))
  settle_address-Settles skips (suc fuel) base q [] h hs enough =
      let (acts, handled, visit) = handle-IsVisited decode base q h in
      let (all_acts, final, settled, clean, count) =
        last-Settles skips fuel base q acts (pushed q acts) refl visit (λ next later kept small.
          settle_address-Settles skips fuel base next later kept.0 kept.1
            (omega (arith, enough, small))) in
      (
        all_acts,
        final,
        ap (λ r. r >>= λ acts. go_on (settle_address decode skips fuel) q acts (pushed q acts))
              handled
            ∙ settled,
        clean,
        omega (arith, count),
      )
  settle_address-Settles skips (suc fuel) base q (next ∷ later) h hs enough =
      elim (Bool-cases (skips fuel)) [
        | inl skipped ↦
            let (acts, final, settled, clean, count) =
              settle_address-Settles skips fuel base next later hs.0 hs.1 (omega (arith, enough)) in
            (acts, final, rw skipped settled, clean, omega (arith, count))
        | inr rendered ↦
            let (acts, handled, visit) = handle-IsVisited decode base q h in
            let all_later = later ++ pushed q acts in
            let loaded = load-append later (pushed q acts) in
            let as_many = length-append later (pushed q acts) in
            let (all_acts, final, settled, clean, count) =
              go_on-Settles skips fuel base q next all_later acts (suc (length later))
                (most_navigations q + load (next ∷ later))
                (omega (arith, loaded, as_many, visit.load_eq, count-pushed q acts))
                (settle_address-Settles skips fuel base next all_later hs.0
                  (All-append _ later (pushed q acts) hs.1 visit.kept)
                  (omega (arith, enough, loaded, visit.load_eq))) in
            let step =
              ap
                (λ r. r >>= λ acts.
                  go_on (settle_address decode skips fuel) q acts (next ∷ (later ++ pushed q acts)))
                handled in
            (all_acts, final, rw rendered (step ∙ settled), clean, omega (arith, count))
      ]

  -- Whatever an address asks for and whichever addresses the router skips, if its error can be decoded then the effect
  -- comes to an end with an address that asks for no error and no completion of a profile, and whose other parameters
  -- are as before; until then it navigates at most four times with an error and a completion, at most once with one
  -- of them, and not at all without.
  pub settle_address-IsClean :
      (skips : ℕ → Bool) (params : List (String × String))
      → ((error : String)
          → filled (lookup "error" params) ≡ some error
          → (message : String) × (decode error ≡ some message))
      → (acts : List Act) × (final : List (String × String)) × (settle_address decode skips 6 params
            []
          ≡ ok (acts, final))
        × IsClean decode params final
        × (length (navigations acts) ≤ most_navigations params)
  unfolding load
  settle_address-IsClean skips params decodes =
      let (acts, final, settled, clean, count) =
        settle_address-Settles skips 6 params params []
          (record { decodes = decodes; others_eq = λ j e s. refl }) tt
          (omega (arith, most-le_four (error_of params) (completes params))) in
      (acts, final, settled, clean, omega (arith, count))
    where
      most-le_four : (error : Option String) (c : Bool) → most_of error c ≤ 4
      most-le_four none false = omega arith
      most-le_four none true = omega arith
      most-le_four (some error) false = omega arith
      most-le_four (some error) true = omega arith

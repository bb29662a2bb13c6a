-- ===== src/Live/Charts.antt =====
-- The price charts of frontend/seer/src/app/WsProvider.tsx.
use seer.Common.{
  ℕ, ◌+◌, ◌*◌, ◌/◌, ◌≤◌, ◌<◌, ◌≡◌, ◌⊎◌, inl, inr, refl, ap, List, [], ◌∷◌, ◌++◌, arith, Bool-cases,
}
use seer.Common.Int.{ℤ, pos, eqb_ℤ, eqb_ℤ_iff}
use seer.Definitions.{Timeframe, day, week, month, all_time, PriceChartDataPoint}
use seer.Live.{with_point, bucket_date, bucket_size}

module _ {D : Type 0} (bucket : ℤ) (price : D) where
  -- The points `l'` are those of `l` with the price in the bucket at the end: in place of a last point in
  -- the same bucket, or after a last point in another.
  pub record IsCharted (l l' : List (PriceChartDataPoint D)) : Type 0 where
    pub earlier : List (PriceChartDataPoint D)
    pub newest : PriceChartDataPoint D
    pub points_eq : l' ≡ earlier ++ (newest ∷ [])
    pub date_eq : newest.date ≡ bucket
    pub price_eq : newest.price ≡ price
    pub kept :
        (l ≡ earlier)
        ⊎ ((old : PriceChartDataPoint D) × (l ≡ earlier ++ (old ∷ []))
            × (old.date ≡ bucket)
            × (newest ≡ record old { price = price }))

  with_point-one :
      (p : PriceChartDataPoint D) → IsCharted (p ∷ []) (with_point bucket price (p ∷ []))
  unfolding with_point
  with_point-one p = elim (Bool-cases (eqb_ℤ p.date bucket)) [
    | inl e ↦ rw e (record {
      earlier = [];
      newest = record p { price = price };
      points_eq = refl;
      date_eq = (eqb_ℤ_iff p.date bucket).0 e;
      price_eq = refl;
      kept = inr (p, refl, (eqb_ℤ_iff p.date bucket).0 e, refl);
    })
    | inr e ↦ rw e (record {
      earlier = p ∷ [];
      newest = record { date = bucket; timestamp = bucket; price = price };
      points_eq = refl;
      date_eq = refl;
      price_eq = refl;
      kept = inl refl;
    })
  ]

  later_kept :
      (p : PriceChartDataPoint D) {l e : List (PriceChartDataPoint D)}
      {newest : PriceChartDataPoint D}
      → (l ≡ e)
        ⊎ ((old : PriceChartDataPoint D) × (l ≡ e ++ (old ∷ []))
            × (old.date ≡ bucket)
            × (newest ≡ record old { price = price }))
      → ((p ∷ l) ≡ (p ∷ e))
        ⊎ ((old : PriceChartDataPoint D) × ((p ∷ l) ≡ (p ∷ e) ++ (old ∷ []))
            × (old.date ≡ bucket)
            × (newest ≡ record old { price = price }))
  later_kept p (inl e) = inl (ap (λ t. p ∷ t) e)
  later_kept p (inr (old, e, d, n)) = inr (old, ap (λ t. p ∷ t) e, d, n)

  -- A chart that an update reaches ends with the price in the present bucket; a last point of the same
  -- bucket is replaced, and all other points are kept.
  pub with_point-IsCharted :
      (l : List (PriceChartDataPoint D)) → IsCharted l (with_point bucket price l)
  unfolding with_point
  with_point-IsCharted [] = record {
    earlier = [];
    newest = record { date = bucket; timestamp = bucket; price = price };
    points_eq = refl;
    date_eq = refl;
    price_eq = refl;
    kept = inl refl;
  }
  with_point-IsCharted (p ∷ []) = with_point-one p
  with_point-IsCharted (p ∷ q ∷ ps) =
      let h = with_point-IsCharted (q ∷ ps) in
      record {
        earlier = p ∷ h.earlier;
        newest = h.newest;
        points_eq = ap (λ t. p ∷ t) h.points_eq;
        date_eq = h.date_eq;
        price_eq = h.price_eq;
        kept = later_kept p h.kept;
      }

-- A bucket holds its time: it begins at or before it, less than its length before it, and at a multiple of
-- its length (for times from 1970 on).
pub bucket_date-holds :
    (timeframe : Timeframe) (now : ℕ)
    → (k : ℕ) × (bucket_date timeframe (pos now) ≡ pos (k * bucket_size timeframe))
      × (k * bucket_size timeframe ≤ now)
      × (now < k * bucket_size timeframe + bucket_size timeframe)
bucket_date-holds day now = (now / 300000, refl, omega arith, omega arith)
bucket_date-holds week now = (now / 3600000, refl, omega arith, omega arith)
bucket_date-holds month now = (now / 14400000, refl, omega arith, omega arith)
bucket_date-holds all_time now = (now / 86400000, refl, omega arith, omega arith)

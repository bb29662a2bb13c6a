-- ===== src/Samples.antt =====
-- Concrete arithmetic and a concrete market, at which the theorems are applied: thousandths, with
-- stand-ins for `Math.exp` and `Math.log`, and two outcomes at even odds.
use seer.Common.{ℕ, ◌+◌, ◌-◌, ◌*◌, ◌/◌, true, none, [], ◌∷◌, ltb}
use seer.Common.Int.{pos}
use seer.Definitions.{Outcome, MarketView, active, by_price}
use seer.Numbers.{Numbers}

abbrev pub thousandths : Numbers
thousandths = record {
  F = ℕ;
  zero = 0;
  two = 2000;
  thousandth = 1;
  nan = 0;
  add = λ a b. a + b;
  sub = λ a b. a - b;
  mul = λ a b. a * b / 1000;
  div = λ a b. a * 1000 / b;
  max = λ a b. a;
  neg = λ a. 0;
  exp = λ a. a + 1000;
  log = λ a. (a - 1000) / 2;
  gt = λ a b. ltb b a;
  D = ℕ;
  d_zero = 0;
  d_one = 1000;
  of_number = λ a. a;
  to_number = λ a. a;
  plus = λ a b. a + b;
  minus = λ a b. a - b;
  over = λ a b. a * 1000 / b;
  to_decimal_places = λ a k r. a;
}

abbrev pub outcome : ℕ → ℕ → Outcome ℕ
outcome id quantity = record {
  id = pos id;
  name = "o";
  quantity = quantity;
  position = pos id;
  price_yes = 0;
  price_no = 0;
  price_yes_normalized = 0;
  price_no_normalized = 0;
  price_charts = none;
}

abbrev pub even_market : MarketView ℕ
even_market = record {
  id = "m";
  name = "Market";
  description = "";
  is_binary = true;
  img_key = none;
  slug = "m";
  close_time = none;
  outcome_sort = by_price;
  alpha = 500;
  cap_price = 900;
  total_volume = 0;
  categories = [];
  outcomes = outcome 7 10000 ∷ outcome 8 10000 ∷ [];
  status = active;
  resolution = none;
  version = pos 3;
}

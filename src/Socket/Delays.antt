-- ===== src/Socket/Delays.antt =====
-- `scheduleReconnect` of frontend/seer/src/socket/socket.ts: how long the client waits. A delay is the fraction of
-- milliseconds that it means; the rounding of floating-point numbers is not modelled.
use seer.Common.{
  ℕ, suc, ◌*◌, ◌^◌, ◌≤◌, ◌≡◌, min, ap, sym, ◌∙◌, subst, Bool, true, false, none, some, arith,
}
use mathlib.Core.Option.{some-injective}
use native.Mathlib.Nat.{mul-le-mul_right, mul_assoc, mul_comm, pow-suc}
use seer.Socket.{
  Options, WsClientOptions, WsClient, new_client, handle_open, handle_close, fire, on, on_connect,
  off_connect, schedule_reconnect, give_up_or_wait, is_over, with_defaults,
}
use seer.Socket.Connection.{
  timer_of_socket, Reach-options, Reach-HasOneLife, failures_in_row, Reach, made_new, stepped,
  opens, closes, fires, subscribes, listens, unlistens,
}

-- numerator / denominator milliseconds.
pub record Delay : Type 0 where
  pub numerator : ℕ
  pub denominator : ℕ

-- `Math.min(reconnectInitialDelay * Math.pow(1.5, n), reconnectMaxDelay)`
abbrev pub backoff : Options → ℕ → Delay
backoff o n = record {
  numerator = min (o.reconnect_initial_delay * 3 ^ n) (o.reconnect_max_delay * 2 ^ n);
  denominator = 2 ^ n;
}

-- At most so many milliseconds.
abbrev pub IsAtMost : ℕ → Delay → Type 0
IsAtMost limit d = d.numerator ≤ limit * d.denominator

-- No longer than the next one.
abbrev pub IsShorter : Delay → Delay → Type 0
IsShorter d e = d.numerator * e.denominator ≤ e.numerator * d.denominator

min_grows : (a b : ℕ) → min a b * 2 ≤ min (a * 3) (b * 2)
min_grows a b = omega arith

swapped : (m d : ℕ) → m * 2 * d ≡ m * (d * 2)
swapped m d = mul_assoc m 2 d ∙ ap (λ k. m * k) (mul_comm 2 d)

-- The delays never become shorter.
pub backoff-IsShorter : (o : Options) (n : ℕ) → IsShorter (backoff o n) (backoff o (suc n))
backoff-IsShorter o n =
    let a = o.reconnect_initial_delay * 3 ^ n in
    let b = o.reconnect_max_delay * 2 ^ n in
    let grown = mul-le-mul_right (2 ^ n) (min_grows a b) in
    let more : min a b * (2 ^ n * 2) ≤ min (a * 3) (b * 2) * 2 ^ n =
      subst (λ l. l ≤ min (a * 3) (b * 2) * 2 ^ n) (swapped (min a b) (2 ^ n)) grown in
    let three : o.reconnect_initial_delay * 3 ^ suc n ≡ a * 3 =
      ap (λ p. o.reconnect_initial_delay * p) (pow-suc 3 n) ∙ sym (mul_assoc _ _ _) in
    let two : o.reconnect_max_delay * 2 ^ suc n ≡ b * 2 =
      ap (λ p. o.reconnect_max_delay * p) (pow-suc 2 n) ∙ sym (mul_assoc _ _ _) in
    rw (three, two, pow-suc 2 n) more

backoff-IsAtMost : (o : Options) (n : ℕ) → IsAtMost o.reconnect_max_delay (backoff o n)
backoff-IsAtMost o n = omega arith

-- A waiting client waits at most so long.
abbrev WaitsAtMost : ℕ → WsClient Delay → Type 0
WaitsAtMost limit c = (d : Delay) → c.reconnect_timer ≡ some d → IsAtMost limit d

schedule-WaitsAtMost :
    (over : Bool) (c : WsClient Delay)
    → c.reconnect_timer ≡ none
    → WaitsAtMost c.options.reconnect_max_delay (give_up_or_wait backoff over c)
schedule-WaitsAtMost true c idle d e = cc
schedule-WaitsAtMost false c idle d e =
    subst (IsAtMost c.options.reconnect_max_delay) (some-injective _ _ e)
      (backoff-IsAtMost c.options c.reconnect_attempts)

-- However a client came to wait, it waits no longer than its greatest delay.
pub Reach-WaitsAtMost :
    {opts : WsClientOptions} {c : WsClient Delay}
    → Reach backoff opts c
    → (d : Delay) → c.reconnect_timer ≡ some d
    → IsAtMost (with_defaults opts).reconnect_max_delay d
unfolding new_client handle_open handle_close fire on on_connect off_connect schedule_reconnect
Reach-WaitsAtMost made_new d e = cc
Reach-WaitsAtMost (stepped r (opens c s held)) d e = Reach-WaitsAtMost r d e
Reach-WaitsAtMost (stepped r (closes c s held)) d e =
    let idle =
      timer_of_socket backoff (failures_in_row backoff r) c (Reach-HasOneLife backoff r) held in
    let over = is_over c.options.reconnect_attempts (suc c.reconnect_attempts) in
    subst (λ (o : Options). IsAtMost o.reconnect_max_delay d) (Reach-options backoff r)
      (schedule-WaitsAtMost over (record c { ws = none }) idle d e)
Reach-WaitsAtMost (stepped r (fires c w held)) d e = cc
Reach-WaitsAtMost (stepped r (subscribes t h c)) d e = Reach-WaitsAtMost r d e
Reach-WaitsAtMost (stepped r (listens h c)) d e = Reach-WaitsAtMost r d e
Reach-WaitsAtMost (stepped r (unlistens h c)) d e = Reach-WaitsAtMost r d e

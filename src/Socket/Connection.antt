-- ===== src/Socket/Connection.antt =====
-- frontend/seer/src/socket/socket.ts: the life of the connection, as steps of the browser and of the code
-- that subscribes.
use seer.Common.{
  ℕ, suc, ◌<◌, ◌≤◌, ◌≡◌, ◌⊎◌, inl, inr, refl, ap, sym, ◌∙◌, String, Bool, true, false, none, some,
  arith,
}
use seer.Socket.{
  Options, WsClientOptions, WsClient, new_client, handle_open, handle_close, fire, on, on_connect,
  off_connect, schedule_reconnect, give_up_or_wait, is_over, with_defaults, or_else, connect,
  connect_once,
}

module _ {Delay : Type 0} (backoff : Options → ℕ → Delay) where
  -- One step: the socket opens or closes, the timer fires, or a subscription changes.
  pub data Step : WsClient Delay → WsClient Delay → Type 0 where
    opens : (c : WsClient Delay) (s : ℕ) → c.ws ≡ some s → Step c (handle_open c).1
    closes : (c : WsClient Delay) (s : ℕ) → c.ws ≡ some s → Step c (handle_close backoff c)
    fires : (c : WsClient Delay) (d : Delay) → c.reconnect_timer ≡ some d → Step c (fire c)
    subscribes : (type : String) (h : ℕ) (c : WsClient Delay) → Step c (on type h c)
    listens : (h : ℕ) (c : WsClient Delay) → Step c (on_connect h c)
    unlistens : (h : ℕ) (c : WsClient Delay) → Step c (off_connect h c)

  pub data Reach (opts : WsClientOptions) : WsClient Delay → Type 0 where
    made_new : Reach opts (new_client opts)
    stepped : {c c' : WsClient Delay} → Reach opts c → Step c c' → Reach opts c'

  -- The closings in a row, since the last opening or since the client was made.
  abbrev pub failures_after : {c c' : WsClient Delay} → Step c c' → ℕ → ℕ
  failures_after (opens c s held) failures = 0
  failures_after (closes c s held) failures = suc failures
  failures_after (fires c d waited) failures = failures
  failures_after (subscribes type h c) failures = failures
  failures_after (listens h c) failures = failures
  failures_after (unlistens h c) failures = failures

  abbrev pub failures_in_row : {opts : WsClientOptions} {c : WsClient Delay} → Reach opts c → ℕ
  failures_in_row made_new = 0
  failures_in_row (stepped r s) = failures_after s (failures_in_row r)

  abbrev pub IsUp : WsClient Delay → Type 0
  IsUp c = (s : ℕ) × (c.ws ≡ some s) × (c.reconnect_timer ≡ none)

  abbrev pub IsWaiting : WsClient Delay → Type 0
  IsWaiting c = (d : Delay) × (c.ws ≡ none) × (c.reconnect_timer ≡ some d)

  -- There is no limit, or no more failures than it allows.
  abbrev pub MayTry : ℕ → WsClient Delay → Type 0
  MayTry failures c = 0 < c.options.reconnect_attempts → failures ≤ c.options.reconnect_attempts

  -- There is neither, after one failure more than the limit allows.
  abbrev pub HasGivenUp : ℕ → WsClient Delay → Type 0
  HasGivenUp failures c =
      (c.ws ≡ none)
      × (c.reconnect_timer ≡ none)
      × (0 < c.options.reconnect_attempts)
      × (failures ≡ suc c.options.reconnect_attempts)

  abbrev pub HasOneLife : ℕ → WsClient Delay → Type 0
  HasOneLife failures c =
      (c.reconnect_attempts ≡ failures)
      × (((IsUp c ⊎ IsWaiting c) × MayTry failures c) ⊎ HasGivenUp failures c)

  -- With a socket there is no timer, and a failure may be followed by another attempt.
  held-IsUp :
      (failures : ℕ) (c : WsClient Delay) {s : ℕ}
      → HasOneLife failures c
      → c.ws ≡ some s
      → (c.reconnect_timer ≡ none) × MayTry failures c
  held-IsUp failures c (count, inl (inl (s, w, t), may)) e = (t, may)
  held-IsUp failures c (count, inl (inr (d, w, t), may)) e = cc
  held-IsUp failures c (count, inr (w, t, _, _)) e = cc

  pub timer_of_socket :
      (failures : ℕ) (c : WsClient Delay) {s : ℕ}
      → HasOneLife failures c
      → c.ws ≡ some s
      → c.reconnect_timer ≡ none
  timer_of_socket failures c h e = (held-IsUp failures c h e).0

  waited-MayTry :
      (failures : ℕ) (c : WsClient Delay) {d : Delay}
      → HasOneLife failures c
      → c.reconnect_timer ≡ some d
      → MayTry failures c
  waited-MayTry failures c (count, inl (lives, may)) e = may
  waited-MayTry failures c (count, inr (w, t, _, _)) e = cc

  over-eq :
      (max failures : ℕ)
      → (0 < max → failures ≤ max)
      → is_over max (suc failures) ≡ true
      → (0 < max) × (suc failures ≡ suc max)
  over-eq max failures may h =
      let limited : 0 < max = ground arith in
      let more : max < suc failures = ground arith in (limited, omega (arith, may limited))

  not_over-le :
      (max failures : ℕ) → is_over max (suc failures) ≡ false → 0 < max → suc failures ≤ max
  not_over-le max failures h limited = ground arith

  closed-HasOneLife :
      (over : Bool) (failures : ℕ) (c : WsClient Delay)
      → is_over c.options.reconnect_attempts (suc failures) ≡ over
      → c.reconnect_attempts ≡ failures
      → c.ws ≡ none
      → c.reconnect_timer ≡ none
      → MayTry failures c
      → HasOneLife (suc failures) (give_up_or_wait backoff over c)
  closed-HasOneLife true failures c o count w t may =
      let (limited, last) = over-eq c.options.reconnect_attempts failures may o in
      (ap suc count, inr (w, t, limited, last))
  closed-HasOneLife false failures c o count w t may =
      (ap suc count, inl (inr (_, w, refl), not_over-le c.options.reconnect_attempts failures o))

  schedule_reconnect-HasOneLife :
      (failures : ℕ) (c : WsClient Delay)
      → c.reconnect_attempts ≡ failures
      → c.ws ≡ none
      → c.reconnect_timer ≡ none
      → MayTry failures c
      → HasOneLife (suc failures) (schedule_reconnect backoff c)
  unfolding schedule_reconnect
  schedule_reconnect-HasOneLife failures c count w t may =
      closed-HasOneLife (is_over c.options.reconnect_attempts (suc c.reconnect_attempts)) failures c
        (ap (λ n. is_over c.options.reconnect_attempts (suc n)) (sym count)) count w t may

  Step-HasOneLife :
      (failures : ℕ) {c c' : WsClient Delay}
      → HasOneLife failures c
      → (s : Step c c') → HasOneLife (failures_after s failures) c'
  unfolding handle_open handle_close fire on on_connect off_connect connect_once
  Step-HasOneLife failures h (opens c s e) =
      let (t, may) = held-IsUp failures c h e in (refl, inl (inl (s, e, t), λ limited. omega arith))
  Step-HasOneLife failures h (closes c s e) =
      let (t, may) = held-IsUp failures c h e in
      schedule_reconnect-HasOneLife failures (record c { ws = none }) h.0 refl t may
  Step-HasOneLife failures h (fires c d e) =
      (h.0, inl (inl (_, refl, refl), waited-MayTry failures c h e))
  Step-HasOneLife failures h (subscribes type g c) = h
  Step-HasOneLife failures h (listens g c) = h
  Step-HasOneLife failures h (unlistens g c) = h

  -- A client that has been made, and has taken any steps, counts its failures in a row: the closings since the last
  -- opening. It has a socket and no timer, or a timer and no socket, and then has failed no more often in a row than
  -- it is allowed; or it has neither, after exactly one failure in a row more than it is allowed.
  pub Reach-HasOneLife :
      {opts : WsClientOptions} {c : WsClient Delay}
      → (r : Reach opts c) → HasOneLife (failures_in_row r) c
  unfolding new_client connect connect_once
  Reach-HasOneLife made_new = (refl, inl (inl (0, refl, refl), λ limited. omega arith))
  Reach-HasOneLife (stepped r s) = Step-HasOneLife (failures_in_row r) (Reach-HasOneLife r) s

  Step-options : {c c' : WsClient Delay} → Step c c' → c'.options ≡ c.options
  unfolding handle_open handle_close fire on on_connect off_connect schedule_reconnect
  Step-options (opens c s e) = refl
  Step-options (closes c s e) =
      kept (is_over c.options.reconnect_attempts (suc c.reconnect_attempts))
        (record c { ws = none })
    where
      kept :
          (over : Bool) (b : WsClient Delay) → (give_up_or_wait backoff over b).options ≡ b.options
      kept true b = refl
      kept false b = refl
  Step-options (fires c d e) = refl
  Step-options (subscribes type g c) = refl
  Step-options (listens g c) = refl
  Step-options (unlistens g c) = refl

  pub Reach-options :
      {opts : WsClientOptions} {c : WsClient Delay} → Reach opts c → c.options ≡ with_defaults opts
  unfolding new_client
  Reach-options made_new = refl
  Reach-options (stepped r s) = Step-options s ∙ Reach-options r

  -- A client that is made without a limit of attempts never gives up: it has a socket or waits for one.
  pub Reach-persists :
      {opts : WsClientOptions} {c : WsClient Delay}
      → or_else opts.reconnect_attempts 0 ≡ 0
      → Reach opts c
      → IsUp c ⊎ IsWaiting c
  unfolding with_defaults
  Reach-persists {opts} {c} unlimited r = elim (Reach-HasOneLife r).1 [
    | inl (lives, may) ↦ lives
    | inr (w, t, limited, more) ↦
        let none_allowed : c.options.reconnect_attempts ≡ 0 =
          ap (λ (o : Options). o.reconnect_attempts) (Reach-options r) ∙ unlimited in
        absurd (omega (arith, limited, none_allowed))
  ]

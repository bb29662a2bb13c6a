-- ===== src/Pages/Sessions.antt =====
-- frontend/seer/src/app/settings/security/page.tsx: the list of the user's sessions, at the time `now`.
use Prim.Native.String.{◌++◌}
use mathlib.Core.List.{Perm, perm_middle}
use mathlib.Core.List.Perm
use seer.Common.{
  ◌≡◌, inl, inr, Bool, true, false, not, Option, none, some, List, [], ◌∷◌, if◌then◌else◌, str_eq,
  String, Bool-cases, ◌&&◌,
}
use seer.Common.{◌++◌ as ◌+++◌}
use seer.Common.Int.{ℤ}
use seer.Definitions.Accounts.{Session}
use seer.Clock.{Since, time_since}

-- `data?.filter((sess) => sess.active)`, and with `!sess.active`.
unfoldable pub active_ones : List Session → List Session
active_ones [] = []
active_ones (s ∷ l) = let rest = active_ones l in if s.active then s ∷ rest else rest

unfoldable pub inactive_ones : List Session → List Session
inactive_ones [] = []
inactive_ones (s ∷ l) = let rest = inactive_ones l in if not s.active then s ∷ rest else rest

unfoldable pub sessions_shown : List Session → List Session
sessions_shown data' = active_ones data' +++ inactive_ones data'

-- "Online", or how long ago.
pub data LastUsed : Type 0 where
  online : LastUsed
  last_used : Since → LastUsed

-- `revokes` is the button, which revokes the session of the id.
pub data SessionAction : Type 0 where
  is_this_one : SessionAction
  revokes : String → SessionAction
  logged_out : SessionAction

pub record SessionRow : Type 0 where
  pub device : String
  pub near : String
  pub ip_address : String
  pub used : LastUsed
  pub action : SessionAction

-- A missing or empty text counts as false.
abbrev pub pair_or_dash : (String → String → String) → Option String → Option String → String
pair_or_dash format (some a) (some b) =
    if not (str_eq a "") && not (str_eq b "") then format a b else "-"
pair_or_dash format (some a) none = "-"
pair_or_dash format none b = "-"

abbrev pub in_brackets : String → String → String
in_brackets a b = a ++ (" (" ++ (b ++ ")"))

abbrev pub or_dash : Option String → String
or_dash none = "-"
or_dash (some a) = a

abbrev pub session_action : Session → SessionAction
session_action s = if s.current then is_this_one else if s.active then revokes s.id else logged_out

unfoldable pub session_display : ℤ → Session → SessionRow
session_display now s = record {
  device = pair_or_dash in_brackets s.browser s.os;
  near = pair_or_dash in_brackets s.city s.country;
  ip_address = or_dash s.ip;
  used = if s.current then online else last_used (time_since now s.last_used_at);
  action = session_action s;
}

one_more :
    (is_active : Bool) (s : Session) (on off l : List Session)
    → Perm (on +++ off) l
    → Perm ((if is_active then s ∷ on else on) +++ (if not is_active then s ∷ off else off)) (s ∷ l)
one_more true s on off l p = Perm.cons s p
one_more false s on off l p = Perm.trans (perm_middle on off) (Perm.cons s p)

-- Every session is shown once.
pub sessions_shown-Perm : (l : List Session) → Perm (sessions_shown l) l
unfolding sessions_shown active_ones inactive_ones
sessions_shown-Perm [] = Perm.refl []
sessions_shown-Perm (s ∷ l) = one_more s.active s _ _ l (sessions_shown-Perm l)

-- A session that can be revoked is active and is not the one that the page is shown in.
pub session_display-revokes :
    (now : ℤ) (s : Session) (id : String)
    → (session_display now s).action ≡ revokes id
    → (s.active ≡ true) × (s.current ≡ false) × (id ≡ s.id)
unfolding session_display
session_display-revokes now s id e = elim (Bool-cases s.current) [
  | inl here ↦ let e' = (rw here at e) in cc
  | inr other ↦ elim (Bool-cases s.active) [
    | inl live ↦ let e' = (rw (other, live) at e) in (live, other, cc)
    | inr over ↦ let e' = (rw (other, over) at e) in cc
  ]
]

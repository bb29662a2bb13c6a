-- ===== src/Stores/Panels.antt =====
-- frontend/seer/src/lib/stores/: modal.ts, drawer.ts, online.ts and prefs.ts. A is what the panels
-- are opened with; `data || null` drops a value that is not truthy, undefined among them.
use seer.Common.{Bool, Option, none, some, if◌then◌else◌}
use seer.Common.Int.{ℤ, pos}
use seer.Messages.{OnlineUpdate}
use seer.Odds.Formats.{OddsFormat, decimal}

pub data Modal : Type 0 where
  auth profile_completion change_password set_password user bet bet_success : Modal

pub record ModalStore (A : Type 0) : Type 0 where
  pub current_modal : Option Modal
  pub modal_data : Option A

pub data DrawerContent : Type 0 where
  chat bet bet_success : DrawerContent

pub record DrawerStore (A : Type 0) : Type 0 where
  pub current_drawer : Option DrawerContent
  pub drawer_data : Option A

module _ {A : Type 0} (truthy : A → Bool) where
  abbrev pub or_null : Option A → Option A
  or_null none = none
  or_null (some a) = if truthy a then some a else none

  pub open_modal : Option Modal → Option A → ModalStore A → ModalStore A
  open_modal modal d s = record { current_modal = modal; modal_data = or_null d }

  pub open_drawer : Option DrawerContent → Option A → DrawerStore A → DrawerStore A
  open_drawer drawer d s = record { current_drawer = drawer; drawer_data = or_null d }

module _ {A : Type 0} where
  pub close_modal : ModalStore A → ModalStore A
  close_modal s = record { current_modal = none; modal_data = none }

  pub close_drawer : DrawerStore A → DrawerStore A
  close_drawer s = record { current_drawer = none; drawer_data = none }

pub record OnlineStore : Type 0 where
  pub online_count : ℤ

abbrev pub initial_online : OnlineStore
initial_online = record { online_count = pos 0 }

unfoldable pub update_online_count : OnlineUpdate → OnlineStore → OnlineStore
update_online_count u s = record { online_count = u.users_online_count }

pub record PrefsState : Type 0 where
  pub odds_format : OddsFormat

abbrev pub initial_prefs : PrefsState
initial_prefs = record { odds_format = decimal }

pub set_odds_format : OddsFormat → PrefsState → PrefsState
set_odds_format fmt s = record { odds_format = fmt }

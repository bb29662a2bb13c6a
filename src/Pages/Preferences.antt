-- ===== src/Pages/Preferences.antt =====
-- frontend/seer/src/app/settings/preferences/page.tsx: preferences that are shown before they are saved.
use seer.Common.{◌≡◌, refl, Bool, true, false, Option, none, some}
use seer.Definitions.Accounts.{UserPreferences, UpdateUserPreferences}

-- The cached preferences, and whether they are stale, so that they are fetched again.
pub record PreferencesCache : Type 0 where
  pub preferences : Option UserPreferences
  pub stale : Bool

abbrev pub or_old : Option Bool → Bool → Bool
or_old none old = old
or_old (some b) old = b

-- `{ ...old, ...newPrefs }`; with nothing cached there is nothing to show, and what is left out is not modelled.
abbrev pub merged : UpdateUserPreferences → Option UserPreferences → Option UserPreferences
merged u none = none
merged u (some old) = some (record {
  hidden = or_old u.hidden old.hidden;
  receive_marketing_emails = or_old u.receive_marketing_emails old.receive_marketing_emails;
})

unfoldable pub on_mutate_preferences : UpdateUserPreferences → PreferencesCache → PreferencesCache
on_mutate_preferences u c = record c { preferences = merged u c.preferences }

-- An answer: the error shows a toast only, and both make the preferences stale.
unfoldable pub on_settled_preferences : Bool → PreferencesCache → PreferencesCache
on_settled_preferences success c = record c { stale = true }

-- Fetching again.
unfoldable pub refetched : UserPreferences → PreferencesCache → PreferencesCache
refetched saved c = record { preferences = some saved; stale = false }

-- After a refusal the preferences are shown as they were asked for until they are fetched again, which is due; then they
-- are as the server keeps them.
pub refused_preferences :
    (u : UpdateUserPreferences) (c : PreferencesCache) (saved : UserPreferences)
    → let after = on_settled_preferences false (on_mutate_preferences u c) in
      (after.preferences ≡ merged u c.preferences)
      × (after.stale ≡ true)
      × ((refetched saved after).preferences ≡ some saved)
unfolding on_settled_preferences on_mutate_preferences refetched
refused_preferences u c saved = (refl, refl, refl)

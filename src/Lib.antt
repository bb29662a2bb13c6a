-- ===== src/Lib.antt =====
-- Seer's web client (frontend/seer/src): the parts that compute and decide. The server prices bets with
-- an LS-LMSR market maker; the client computes the same prices and quotes itself, from the quantities
-- that it loads over HTTP (lib/api.ts) and that the server pushes over a WebSocket (socket/socket.ts,
-- app/WsProvider.tsx), and keeps what it shows in a query cache and in small stores.
--
-- The parts, with paths from frontend/seer/src:
--
-- - Definitions and Messages: the types that the schemas of lib/definitions.ts and socket/messages.ts
--   infer. A Date is its time in milliseconds, an integral number an integer, a missing property `none`.
-- - Numbers: IEEE doubles and decimal.js's Decimals, as a parameter. Theorems that need laws of the
--   arithmetic take them as hypotheses (Lslmsr.Bisect.Halving: where halving makes progress), and
--   Samples has a concrete arithmetic for which they hold.
-- - Lslmsr: lib/lslmsr/lslmsr.ts and math_util.ts. `pricesForMarket` changes the market in place; here
--   `prices_for_market` returns the changed market. `bisect` runs on fuel, which is
--   enough if it is more than the halvings that its interval needs. The array that the closure of
--   `payoutForSpend` writes over is passed on as its state.
-- - PriceInput: ui/PriceInput.tsx, the field for a stake: its texts are lists of code units.
-- - Stores: lib/stores/*.ts, zustand's stores as records with functions on them. The record of chat
--   rooms is an association list, so a room named like a property of Object.prototype is not modelled.
--   Stores.BetsLive is the table of live bets, ui/bet/bets_live/BetsLive.tsx and BetsLiveTable.tsx.
-- - Odds: lib/odds.ts and ui/odds/AnimatedOdds.tsx, the formats of odds and the split of a formatted one
--   into parts that are animated. decimal.js is a parameter; `gcd` of lib/lslmsr/math_util.ts runs on fuel.
--   Odds.Arrow is ui/odds/ArrowOdds.tsx.
-- - Api: lib/api.ts. `fetch`, JSON and zod's `safeParse` are a parameter (Backend); a function takes
--   the world before the call to how its promise settles and the world after it.
-- - Live: app/WsProvider.tsx, the updaters of the cached markets and balances, at the time that
--   `new Date()` gives. They use Lslmsr's prices and work on the data of Definitions and Messages.
--   Live.Validated has the transform of MarketViewSchema in lib/definitions.ts, which every market passes first.
-- - Socket: socket/socket.ts, the client that connects, reconnects and dispatches, for delays of any type;
--   Socket.Delays has the delays of the source as fractions.
-- - Clock: `timeSince` of lib/utils/date.ts and lib/markets.ts, at a time that is an argument; Clock.Relative is
--   `formatDateTime`, up to the formats of the language.
-- - SearchParams: lib/hooks/useUpdateSearchParams.ts, the search parameters of the address.
-- - Queries: the keys of the query cache (lib/queries/*SearchKey.ts), the next page of a list
--   (lib/meta.ts), the retries and the client of app/ReactQueryProvider.tsx.
-- - BetForms: ui/bet/BetModal.tsx, ui/bet/BetUser.tsx and the card of ui/markets/details/MarketBetSection.tsx.
--   A press works with what the last rendering computed by Lslmsr's quotes, and gives the effect that it has.
--   BetForms.Session is the life of an open form as a list of user actions and answers, and
--   BetForms.Confirming that of a shown bet, which is cashed out.
-- - Comments: ui/comments/CommentThread.tsx, a displayed comment with its calls and answers as events, and the
--   deletion that is shown early, over a cache with the documented laws of the third-party one, under the
--   keys of Queries.
-- - UrlHandler: app/URLHandler.tsx, on top of SearchParams. The addresses that wait to be rendered are a list, and
--   which of them the router skips is an argument. The runs are on fuel; six are enough, since at most five addresses are
--   ever rendered or skipped.
-- - Forms: the errors that the forms of ui/auth and ui/profile show, from the ApiError of Api.
-- - Scrolling: ui/markets/home/categories/CategoriesMenu.tsx, the row of categories, in whole pixels.
-- - Cards: ui/markets/home/MarketCard.tsx, the card of a market, and app/(main)/market/[id]/page.tsx, its page: what
--   they show and which bet form a press on them opens. A rendering that throws shows nothing to press.
-- - App: the effect of app/WsProvider.tsx, which connects the handlers of Live with the stores, as one state that
--   takes the socket's messages; and, with Socket, what the mounted cards and forms ask for when the socket opens.
--   The page of a market asks for nothing itself.
--   A handler is a number, that of the component it belongs to.
-- - Charts: ui/markets/details/PriceCharts.tsx and ui/markets/home/PriceChartDrawer.tsx, the points of the charts
--   that Live updates, and the tooltips, in whole pixels.
-- - Inputs: ui/chat/ChatDrawer.tsx, ui/SearchBar.tsx, ui/markets/home/Header.tsx,
--   ui/comments/CommentSection.tsx and ui/menu_small_vertical/MenuVertical.tsx: fields as states with the events of
--   the user, and the place of a menu.
-- - Forms.Checks: what the schemas of the account forms in lib/definitions.ts accept; zod's checks of a string are a
--   parameter.
-- - Pages: app/(main)/(markets)/page.tsx and search/page.tsx as functions of the parameters of their address, with the
--   searches of the other lists; the checks of lengths are those of Forms.Checks. Pages.Preferences is
--   app/settings/preferences/page.tsx, and Pages.Sessions the list of app/settings/security/page.tsx.
--
-- Not modelled: the server (Go, PostgreSQL, Redis scripts), the React components' markup and the effects that
-- are not named above, routing, styles, zod's validation itself, the persistence of stores, logging.
pub mod Common
pub mod PriceInput
pub mod Messages
pub mod Stores
pub mod Odds
pub mod Numbers
pub mod Definitions
pub mod Lslmsr
pub mod Api
pub mod Live
pub mod Samples
pub mod Socket
pub mod Clock
pub mod SearchParams
pub mod Queries
pub mod Comments
pub mod BetForms
pub mod UrlHandler
pub mod Forms
pub mod Scrolling
pub mod Cards
pub mod App
pub mod Charts
pub mod Inputs
pub mod Pages

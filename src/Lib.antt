-- ===== src/Lib.antt =====
-- The Copilot usage dashboard: its page, web/app.js, and the sums and accounts of its server, internal.
--
-- The page asks the server for JSON (`api/v1/sync`, `api/v1/dashboard`, `api/v1/events`), keeps the filters
-- in its state, its selectors and the address bar, and draws metrics, tables and errors. Its hard part is
-- that answers come late: `refresh` and `loadEvents` are asynchronous, each aborts those before it, and each
-- must do nothing once it has been overtaken. The other parts are functions of the data.
--
-- The server asks its endpoints for their accounts (`resolve`), loads the recorded days of each from its store,
-- and adds them up to the totals, models and days that the page shows (`persistedDashboard`).
--
-- Parts, files and code (of web/app.js, but for Server):
--   Model      the JSON as the page reads it; `W` is the type of JavaScript's numbers
--   Html       escapeHTML, empty, and template strings as lists of literals and holes
--     Reader     how a browser reads markup; Fragments and Templates: what each part does to that reading
--   Request    request: what `fetch` and `response.json()` give, classified
--   Filters    periods, filterQuery, locationFilters
--   Accounts   updateAccounts, selectAccountOption
--   Errors     the list that renderErrors shows
--   Loading    state and the module's variables; refresh and loadEvents up to an await, resetEvents,
--              renderEvents, renderErrors
--     Tasks      refresh and loadEvents after an await, renderDashboard
--     Handlers   the listeners, selectFilters, readLocation, the script's last statements
--     Invariant, Preserve, Document, Progress   the theorems on all of these
--   Number     numeric, and the operations and laws of numbers; Number/Milli is a type that has them
--   Quota      validMeteredQuota, remainingValue, usedValue, usedPercentValue, costValue, cacheHitRate
--   Sorting    sortableTable: the comparator and the sorted rows; Sorting/Headers: headerCell and the
--              clicks on the headers; Sorting/Redraw: redrawTable, tableViews, and what the reader scrolls and
--              focuses in between
--   Chart      trendIndexAt, the geometry of renderTrend and the place of the tooltip
--     Plot       setupTrendInteraction; Shown and Keys: the theorems on it
--   Names      the names in the accounts table, and the key D
--   Markup     the texts of values, headerCell, table, metric
--     Cells      the quota cells and the rows; Sections: renderQuotas, renderMetrics, trendTooltip,
--                renderModels, renderAccounts, and the markup of renderErrors, renderDashboard, renderEvents
--     Trend      the markup of renderTrend, and the days that its chart labels
--     Keys       the getters and currencies of the three sorted tables, and sortableTable
--     Safe       the theorems on all of this markup
--   Theme      currentTheme, nextTheme, labelTheme, setTheme and the click on the button
--   Server     internal/upstream/types.go, and addTotals, mergeModels, mergeDay of
--              internal/dashboard/aggregate.go; Sums: these in any order; Numbers: the numbers that they add up
--     Keyed      their loops, for any entries with a key; Sorted, Merging and Joined: the lemmas on these
--     Fill       fillDays of the same file; Filled, Firsts and Spans: its loop, the first day of
--                a period, and its result
--     Service    persistedDashboard and summarizeDays of internal/dashboard/service.go; Agreement, Reports,
--                Merged, Orders and Calendars: the theorems on them
--     Resolve    resolve of the same file, Less and Deduplicate of internal/discovery/discovery.go; Logins:
--                the accounts that it gives
--     Tasks      beginSyncTask, finishSyncTask and WaitForSync; Waits: the theorems on them
--   Base       shared names, Boolean tests, lists and texts over the native numbers, the order of texts
--   Tests      runs at concrete inputs
--
-- How the code is modelled:
--   * Names are the code's, in snake_case. A function that reads and writes the page is a function from
--     `App` to `App`, whose fields are the variables of the script and the attributes of the document that
--     it reads or that tell the user what is going on; a rendered part is kept as the data it shows.
--   * An asynchronous function that waits is a `Task`, kept under the number of its `AbortController`. An
--     answer first settles the request (`settle`: `request` runs to its end, with the signal as it is then),
--     and only later the waiting function goes on (`resume`); any event may come between the two, so a
--     history (`run`) is any sequence of events. An answer to no waiting request changes nothing.
--   * A disabled button and a selector's missing option get no event.
--   * What the views of the tables hold and read is in Sorting/Redraw; in `App` there are only the keys of
--     tableViews.
--   * Loops are structural, but for that of fillDays, which is given a round for each time from the first to
--     today and one for the test that ends it: enough where each round makes the time later. `sort` inserts each item before the first that is not before
--     it, as a stable sort must.
--   * Text is a `String` where it is compared, and the list of its characters' codes where the page writes
--     it. A template string is a list of literals and holes, so that a proof can tell the two apart.
--   * The reader of markup knows the tags of web/app.js, each with the names of its attributes, and breaks at
--     any other tag and at a closing tag of another element than the innermost. `IsFragment` says that the
--     reader, between tags with any elements open, comes back to where it was: a text so read opens no
--     element that it leaves open, and adds no element and no attribute but the page's own.
--   * A table's rows are given as `sortableTable` orders them (Sorting has that order).
--   * An int64 is a number below 2^64, by its bits, and addition wraps around. A nil pointer or slice is
--     `none`. A time is a number, the greater the later. That the midnights of a location are never skipped is
--     a hypothesis (`IsDates`), with the order of the texts of days up to a last day, as Go's texts of days
--     have it up to the year 9999; a day is then the number of its midnight.
--   * The calls that the server makes at the same time write to places of their own, so that their results
--     are taken in the order of the endpoints. A sync task is what stands between a successful begin and its
--     one end, and each method runs under its lock.
--
-- Parameters: `lower` is String.prototype.toLowerCase, `Number` JavaScript's arithmetic (`IsNumber` states
-- the laws of IEEE 754 that are used, and Number/Milli meets them), `Collation` localeCompare with base
-- sensitivity and the order of keys of two types (`IsCollation` states that localeCompare is an order),
-- `Query` the pairs that URLSearchParams reads and writes, `Format` the texts of numbers by Intl.NumberFormat,
-- toLocaleString and toFixed (`IsFormat` states that those which the page does not escape hold no markup
-- characters), `Layout` the rectangles that the browser lays out, and `local_time` the text of a Date.
--
-- What the server serves for a query for events is a parameter too, `Served`, and `AllHonest` states that each
-- answer to such a request has a page that is served for its query.
--
-- For the server: `amount_of` is the float64 of an amount in nanos, `Dates` what package time gives for a time,
-- `equal_fold` and `to_lower` are those of strings, `aliases` is the map of display names, `load_daily` what
-- the store loads for an account, `usage_of` what an endpoint answers, and `Q` the quotas of an account.
--
-- Not modelled: the ResizeObserver that draws the chart again, the texts of the counts of events and pages,
-- and exceptions that malformed data raises in a render function. Of the server, in cmd and internal: the
-- dashboard without a store, Sync and Events, the configuration, the handlers, the validation and
-- normalization of endpoints, and the clients of HTTP, Docker and SQLite. The page's part does not rest on
-- the server's: to the page, any answer may come.
pub mod Base
pub mod Accounts
pub mod Chart
pub mod Errors
pub mod Filters
pub mod Html
pub mod Loading
pub mod Markup
pub mod Model
pub mod Names
pub mod Number
pub mod Quota
pub mod Request
pub mod Server
pub mod Sorting
pub mod Tests
pub mod Theme

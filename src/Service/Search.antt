-- ===== src/Service/Search.antt =====
-- Searching the events: packages/openhands-agent-server/src/eventService.ts.
use Prim.Native.String.{◌++◌}
use smolpaws.Base.{
  ℕ, ◌+◌, String, Bool, false, Option, none, some, List, ◌==◌, ltb, leb, not, ◌&&◌, if◌then◌else◌,
  length, select, slice,
}
use mathlib.Core.List.{reverse}
use smolpaws.Text.{ends_with, includes}
use smolpaws.Decimal.{decimal, parse_int}
use smolpaws.Service.{Event}

pub record Filter : Type 0 where
  pub kind : Option String
  pub source : Option String
  pub body : Option String
  pub timestamp_gte : Option ℕ
  pub timestamp_lt : Option ℕ

-- `toLowerCase`, and the body that a search reads of an event.
pub record Bodies : Type 0 where
  pub lower : String → String
  pub body : Event → String

unfoldable pub is_other_kind : Option String → Event → Bool
unfolding ends_with
is_other_kind none e = false
is_other_kind (some kind) e = not (e.kind == kind) && not (ends_with ("." ++ e.kind) kind)

unfoldable pub is_other_source : Option String → Event → Bool
is_other_source none e = false
is_other_source (some source) e = not (e.source == source)

-- A comparison with NaN is false.
unfoldable pub is_before : Option ℕ → Option ℕ → Bool
is_before none bound = false
is_before (some t) none = false
is_before (some t) (some bound) = ltb t bound

unfoldable pub is_from : Option ℕ → Option ℕ → Bool
is_from none bound = false
is_from (some t) none = false
is_from (some t) (some bound) = leb bound t

unfoldable pub lacks_body : Bodies → Option String → Event → Bool
unfolding includes
lacks_body b none e = false
lacks_body b (some needle) e = not (includes (b.lower needle) (b.lower (b.body e)))

unfoldable pub matches : Bodies → Filter → Event → Bool
unfolding is_other_kind is_other_source is_before is_from lacks_body
matches b f e =
    if is_other_kind f.kind e
    then false
    else if is_other_source f.source e
    then false
    else if is_before e.timestamp f.timestamp_gte
    then false
    else if is_from e.timestamp f.timestamp_lt
    then false
    else not (lacks_body b f.body e)

unfoldable pub filtered_events : Bodies → Filter → List Event → List Event
unfolding matches select
filtered_events b f events = select (matches b f) events

-- The position that a page id names: NaN and what is negative name the first.
unfoldable pub page_start : Option String → ℕ
unfolding parse_int
page_start none = 0
page_start (some page_id) = elim (parse_int page_id) [
  | none ↦ 0
  | some (negative, n) ↦ if negative then 0 else n
]

pub record EventPage : Type 0 where
  pub items : List Event
  pub next_page_id : Option String

unfoldable pub in_order : Bool → List Event → List Event
in_order descending events = if descending then reverse events else events

unfoldable pub search_events : Bodies → Filter → Bool → Option String → ℕ → List Event → EventPage
search_events b f descending page_id limit events =
    let ordered = in_order descending (filtered_events b f events) in
    let start = page_start page_id in
    record {
      items = slice start limit ordered;
      next_page_id =
          if ltb (start + limit) (length ordered) then some (decimal (start + limit)) else none;
    }

unfoldable pub count_events : Bodies → Filter → List Event → ℕ
unfolding filtered_events
count_events b f events = length (filtered_events b f events)

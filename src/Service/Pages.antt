-- ===== src/Service/Pages.antt =====
-- Following the pages of a search: packages/openhands-agent-server/src/eventService.ts.
use smolpaws.Base.{
  ℕ, zero, suc, ◌+◌, ◌≤◌, ◌<◌, ◌≡◌, refl, ◌∙◌, ap, sym, String, Bool, Option, none, some, List, [],
  ◌++◌, length, slice, drop, take, take-append-drop, drop-add, drop-all, ltb, ltb→lt, if◌then◌else◌,
  Bool-cases, inl, inr, arith,
}
use mathlib.Core.List.{append-nil}
use smolpaws.Decimal.{decimal, parse_int-decimal}
use smolpaws.Service.{Event}
use smolpaws.Service.Search.{
  Bodies, Filter, EventPage, filtered_events, in_order, page_start, search_events,
}

-- What a client collects that asks for the page it is told to ask for, until there is none; `none`
-- where the number of requests is used up.
pub collect : ℕ → Bodies → Filter → Bool → ℕ → List Event → Option String → Option (List Event)
collect zero b f descending limit events page_id = none
collect (suc n) b f descending limit events page_id =
    let page = search_events b f descending page_id limit events in
    elim page.next_page_id [
      | none ↦ some page.items
      | some next ↦ elim (collect n b f descending limit events (some next)) [
        | none ↦ none
        | some rest ↦ some (page.items ++ rest)
      ]
    ]

page_start-decimal : (n : ℕ) → page_start (some (decimal n)) ≡ n
unfolding page_start
page_start-decimal n = rw (parse_int-decimal n, page_start) refl

module _ (b : Bodies) (f : Filter) (descending : Bool) (limit : ℕ) (events : List Event)
    (positive : 1 ≤ limit) where
  abbrev ordered : List Event
  ordered = in_order descending (filtered_events b f events)

  abbrev page : Option String → EventPage
  page page_id = search_events b f descending page_id limit events

  page_lem :
      (page_id : Option String)
      → ((page page_id).items ≡ slice (page_start page_id) limit ordered)
        × ((page page_id).next_page_id ≡ (
            if ltb (page_start page_id + limit) (length ordered)
            then some (decimal (page_start page_id + limit))
            else none))
  unfolding search_events
  page_lem page_id = (refl, refl)

  collect-from :
      (n : ℕ) (page_id : Option String)
      → length ordered < page_start page_id + n
      → 1 ≤ n
      → collect n b f descending limit events page_id ≡ some (drop (page_start page_id) ordered)
  unfolding collect slice
  collect-from zero page_id h p = absurd (omega arith)
  collect-from (suc n) page_id h p =
      let start = page_start page_id in
      elim (Bool-cases (ltb (start + limit) (length ordered))) [
        | inl q ↦
            let more : start + limit < length ordered = ltb→lt _ _ q in
            let next = page_start-decimal (start + limit) in
            let rest =
              collect-from n (some (decimal (start + limit))) (rw next (omega arith))
                (omega arith) in
            let (items, link) = page_lem page_id in
            rw (link, collect, q, rest, items, next, drop-add start limit ordered)
              (ap some (take-append-drop limit (drop start ordered)))
        | inr q ↦
            let last : length ordered ≤ start + limit = ground arith in
            let (items, link) = page_lem page_id in
            rw (link, collect, q, items) (ap some (last_page start last))
      ]
    where
      last_page :
          (start : ℕ)
          → length ordered ≤ start + limit
          → take limit (drop start ordered) ≡ drop start ordered
      last_page start h =
          let none_left : drop limit (drop start ordered) ≡ [] =
            sym (drop-add start limit ordered) ∙ drop-all (start + limit) ordered h in
          sym (append-nil (take limit (drop start ordered)))
          ∙ ap (λ r. take limit (drop start ordered) ++ r) (sym none_left)
          ∙ take-append-drop limit (drop start ordered)

-- A client that follows the pages of a search to the end, with one request more than there are
-- matching events, gets the matching events: each once, in order, none left out, however large the
-- pages.
pub collect-pages :
    (b : Bodies) (f : Filter) (descending : Bool) (limit : ℕ) (events : List Event)
    → 1 ≤ limit
    → collect
        (suc (length (in_order descending (filtered_events b f events))))
        b
        f
        descending
        limit
        events
        none
      ≡ some (in_order descending (filtered_events b f events))
unfolding page_start in_order drop
collect-pages b f descending limit events positive =
    collect-from b f descending limit events positive
      (suc (length (in_order descending (filtered_events b f events)))) none (omega arith)
      (omega arith)

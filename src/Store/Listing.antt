-- ===== src/Store/Listing.antt =====
-- `listLaneWork` of src/coordinator/store.ts.
use smolpaws.Base.{
  String, Bool, true, false, Option, none, some, List, [], ◌∷◌, select, ◌==◌, ◌&&◌, ◌||◌, leb,
  if◌then◌else◌,
}
use smolpaws.Work.{WorkKind, WorkRow, same_kind}
use smolpaws.Store.{Store, in_lane}

-- 'delivery' comes before 'intake'.
abbrev pub kind_before : WorkKind → WorkKind → Bool
kind_before WorkKind.delivery WorkKind.intake = true
kind_before _ _ = false

-- ORDER BY kind, sequence; of one kind it is the order by the sequence.
abbrev pub listed_before : WorkRow → WorkRow → Bool
listed_before a b =
    kind_before a.kind b.kind || (same_kind a.kind b.kind && leb a.sequence b.sequence)

unfoldable pub insert_listed : WorkRow → List WorkRow → List WorkRow
insert_listed r [] = r ∷ []
insert_listed r (x ∷ xs) =
    let rest = insert_listed r xs in if listed_before r x then r ∷ x ∷ xs else x ∷ rest

unfoldable pub order_listed : List WorkRow → List WorkRow
unfolding insert_listed
order_listed [] = []
order_listed (r ∷ rs) = insert_listed r (order_listed rs)

unfoldable pub list_lane_work : String → Option WorkKind → Store → List WorkRow
unfolding order_listed select
list_lane_work lane (some kind) st = order_listed (select (in_lane lane kind) st.work)
list_lane_work lane none st = order_listed (select (λ r. r.lane_key == lane) st.work)

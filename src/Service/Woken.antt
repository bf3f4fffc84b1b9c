-- ===== src/Service/Woken.antt =====
-- No request to run is lost: packages/openhands-agent-server/src/eventService.ts.
use smolpaws.Base.{Bool, ◌||◌, List, [], ◌∷◌}
use smolpaws.Service.Runs.{Runner, is_unread, Input, act}
use smolpaws.Service.Carried.{is_attended, Carried}

-- At some point along the inputs, the first and the last included.
unfoldable pub attended : List Input → Runner → Bool
unfolding act is_unread
attended [] s = is_attended s
attended (i ∷ is) s = let later = attended is (act i s) in is_attended s || later

-- ===== src/Turns/Name.antt =====
-- The names of turns: apps/agent-server/src/runner/turnState.ts.
use Prim.Native.String.{◌++◌}
use smolpaws.Base.{ℕ, String}
use smolpaws.Decimal.{decimal}

-- `turn-<sequence>-<suffix>`; the suffix is the random text of the source.
unfoldable pub turn_id_of : ℕ → String → String
unfolding decimal
turn_id_of sequence suffix = "turn-" ++ decimal sequence ++ "-" ++ suffix

-- ===== src/Config/Normalize/Twice.antt =====
-- `normalize` of internal/config/config.go a second time.
use mathlib.Core.List.{Perm}
use mathlib.Core.List.Perm
use mathlib.Core.Logic.Or
use revproxy.Prelude.{ℕ, ◌≡◌, List, Bytes, some}
use revproxy.Config.{Route, Config}
use revproxy.Config.Normalize.{normalize_route}

-- The route as of another time.
abbrev pub touched : ℕ → Route → Route
touched now r = record r { updated_at = some now }

-- A route of which a later `normalize` changes the time of the last change alone, whatever digits
-- are drawn.
abbrev IsFixed : ℕ → Route → Type 0
IsFixed now r = (digits : Bytes) → normalize_route digits now r ≡ touched now r

-- ===== src/Shared/Time.antt =====
-- `datetime.fromisoformat` and the two functions that read times with it.
use Prim.Native.Nat.{ℕ}
use Prim.Native.String.{String}
use mathlib.Core.Option.{Option, none, some}
use mathlib.Core.List.{List, [], ◌∷◌, ◌++◌}
use discord_context_bridge.Shared.Tests.{◌==◌, if◌then◌else◌}
use discord_context_bridge.Shared.Text.{codes, is_empty, strip}
use discord_context_bridge.Shared.Payload.{Value, str}

-- `from_iso` reads the code points of a text: nothing if it raises, and otherwise the instant of
-- the time, if it has an offset. `iso_text` is the text of an instant in UTC.
pub record Clock : Type 0 where
  pub from_iso : List ℕ → Option (Option ℕ)
  pub iso_text : ℕ → String

-- `value.replace("Z", "+00:00")`
unfoldable pub replace_z : List ℕ → List ℕ
replace_z [] = []
replace_z (c ∷ cs) =
    let rest = replace_z cs in if c == b'Z' then codes "+00:00" ++ rest else c ∷ rest

abbrev pub instant_of : Option (Option ℕ) → Option ℕ
instant_of none = none
instant_of (some t) = t

-- `_parse_time` of acquisition_gate.py
unfoldable pub parse_time : Clock → Value → Option ℕ
parse_time clock (str s) =
    if is_empty (strip s) then none else instant_of (clock.from_iso (replace_z (codes (strip s))))
parse_time clock _ = none

-- `_normalized_time` of completeness_store.py: nothing if it raises
unfoldable pub normalized_time : Clock → String → Option String
normalized_time clock s = elim (instant_of (clock.from_iso (replace_z (codes (strip s))))) [
  | none ↦ none
  | some t ↦ some (clock.iso_text t)
]

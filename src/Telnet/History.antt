-- ===== src/Telnet/History.antt =====
-- telnet/history.go: the ring of entered lines with the cursor of the arrow keys. Entries stand
-- oldest first. A method returns the history that it leaves; an index out of range is `none`.
pub mod Keys
pub mod Walk
mod Tests
use wheel_mud.Base.{
  ℕ, suc, ◌+◌, ◌-◌, Bool, true, false, ◌&&◌, Option, none, some, List, [], ◌∷◌, ◌++◌, length,
  get_elem?, leb, ltb, ◌==◌, if◌then◌else◌,
}
use wheel_mud.Base.Text.{Bytes, same}

abbrev pub history_cap : ℕ
history_cap = 100

pub record History : Type 0 where
  pub entries : List Bytes
  pub idx : ℕ
  pub draft : Bytes

unfoldable pub reset : History → History
reset h = record h { idx = length h.entries; draft = [] }

-- The last entry is the line.
unfoldable pub ends_with : List Bytes → Bytes → Bool
ends_with [] line = false
ends_with (e ∷ []) line = same e line
ends_with (e ∷ f ∷ es) line = ends_with (f ∷ es) line

abbrev pub tail : List Bytes → List Bytes
tail [] = []
tail (e ∷ es) = es

unfoldable pub add : History → Bytes → History
unfolding reset
add h [] = reset h
add h (c ∷ line) =
    if ends_with h.entries (c ∷ line)
    then reset h
    else (let kept = if length h.entries == history_cap then tail h.entries else h.entries in
        reset (record h { entries = kept ++ (c ∷ line) ∷ [] }))

-- The shown line with `ok`; `h.idx` has been set.
abbrev pub shown : History → Option (History × Bytes × Bool)
shown h = elim (get_elem? h.entries h.idx) [ none ↦ none | some e ↦ some (h, e, true) ]

unfoldable pub prev : History → Bytes → Option (History × Bytes × Bool)
prev h live =
    if length h.entries == 0
    then some (h, [], false)
    else (let h' = if h.idx == length h.entries then record h { draft = live } else h in
        if h.idx == 0 then shown h' else shown (record h' { idx = h.idx - 1 }))

unfoldable pub next : History → Option (History × Bytes × Bool)
next h =
    if leb (length h.entries) h.idx
    then some (h, [], false)
    else if h.idx + 1 == length h.entries
    then some (record h { idx = h.idx + 1; draft = [] }, h.draft, true)
    else shown (record h { idx = h.idx + 1 })

-- ===== src/Telnet/History/Tests.antt =====
-- Runs of telnet/history.go.
use wheel_mud.Base.{◌≡◌, refl, true, false, some, [], ◌∷◌, ◌++◌, arith, length}
use wheel_mud.Base.Text.{Bytes, codes, same}
use wheel_mud.Telnet.History.{History, next}
use wheel_mud.Telnet.History.Keys.{Inv, up}
use wheel_mud.Telnet.History.Walk.{press_all, ups, downs, walk_back}

abbrev typed : History
typed = record { entries = codes "north" ∷ codes "look" ∷ []; idx = 2; draft = [] }

north_look : same (codes "north") (codes "look") ≡ false
unfolding same
north_look = refl

typed-Inv : Inv typed
typed-Inv = record {
  in_range = omega arith;
  bounded = omega arith;
  distinct = (λ e. cc, north_look, λ e. cc);
}

walk_back_example :
    (h' : History) × (press_all typed
        (up (codes "sa") ∷ (ups ([] ∷ []) ++ downs (length {A = Bytes} ([] ∷ []))))
      ≡ some h')
    × (next h' ≡ some (record typed { draft = [] }, codes "sa", true))
walk_back_example = walk_back typed (codes "sa") ([] ∷ []) (omega arith) (omega arith)

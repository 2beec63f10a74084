-- ===== src/Affects/Tests.antt =====
-- Runs of internal/affects/affects.go.
use wheel_mud.Base.{ℕ, ◌≡◌, false, some, List, [], ◌∷◌, arith}
use wheel_mud.Base.Int.{pos, negsuc}
use wheel_mud.Base.Text.{Bytes, codes, same}
use wheel_mud.Affects.{str_current, speed_base, Affect, Core, tick, apply, name_count}
use wheel_mud.Affects.Stacking.{count}
use wheel_mud.Affects.Applying.{Inv, apply-Inv}
use wheel_mud.Affects.Latest.{entry, named, apply_lem}
use wheel_mud.Affects.Ticking.{timed, alive_after, over_after, ticked, ticks_lem}

abbrev poison : ℕ → Affect
poison source = record {
  source = pos source;
  name = codes "poison";
  modifiers =
      record { field = str_current; delta = negsuc 3 }
      ∷ record { field = speed_base; delta = negsuc 40 }
      ∷ [];
  duration_ticks = pos 3;
  tick_effect = [];
  condition_mask = 4;
  tick_damage = negsuc 1;
  expire_message = [];
}

nothing-Inv : Inv []
nothing-Inv = record {
  keys = (λ source name. unfold count in omega arith);
  names = (λ name. unfold name_count in omega arith);
}

apply-Inv_example : Inv (apply [] (poison 7))
apply-Inv_example = apply-Inv [] (poison 7) nothing-Inv

apply_lem_example :
    (entry (apply (poison 7 ∷ []) (poison 8)) (poison 8) ≡ some (poison 8))
    × ((name : Bytes)
        → same (codes "poison") name ≡ false
        → named name (apply (poison 7 ∷ []) (poison 8)) ≡ named name (poison 7 ∷ []))
apply_lem_example = apply_lem (poison 7 ∷ []) (poison 8)

abbrev two_left : List (Affect × ℕ)
two_left = (poison 7, 2) ∷ (poison 8, 1) ∷ []

ticks_lem_example :
    (ticked 1 (timed two_left) ≡ timed (alive_after 1 two_left))
    × ((tick (ticked 1 (timed two_left))).1 ≡ timed (over_after 1 (alive_after 1 two_left)))
ticks_lem_example = ticks_lem 0 two_left (omega arith, (omega arith, tt))

abbrev walker : Core
walker = record {
  str = pos 14;
  dex = pos 12;
  con = pos 10;
  int = pos 10;
  wis = pos 10;
  cha = pos 10;
  defense_bonus = pos 12;
  fort = pos 2;
  reflex = pos 1;
  will = pos 0;
  base_ft = pos 30;
  base_attack = pos 1;
  conditions = 0;
  affects = poison 7 ∷ [];
}

-- ===== src/Quest/Tests.antt =====
-- Runs of internal/quest/engine.go on one quest: talk to an elder, then kill two wolves.
use wheel_mud.Base.{
  ◌≤◌, ◌≡◌, refl, sym, ap, true, none, some, List, [], ◌∷◌, ◌≢◌, arith, length, if◌then◌else◌,
  if-cases,
}
use wheel_mud.Base.Int.{pos, negsuc, ◌+ℤ◌, ◌-ℤ◌, wrap}
use wheel_mud.Base.Text.{Bytes, codes, same}
use wheel_mud.Quest.{
  talk_to, kill_n, panics, get_step, Step, Quest, Catalog, Character, Codec, coin_saved,
  room_missing, Answers, find_active, has_quest, step_init_state, complete_quest, grant_rewards,
}
use wheel_mud.Quest.Engine.{
  Call, accepts, talks, kills, call, handle_kill, kill_loop, advance_talk_to, accept_quest,
  advance_step, count_kill,
}
use wheel_mud.Quest.Changes.{Validated, OnStep, Change}
use wheel_mud.Quest.Events.{call-Sound}
use wheel_mud.Quest.Entries.{completed_count, has_completed}
use wheel_mud.Quest.Log.{Inv, calls, calls-Inv, calls_rewards}

abbrev wolves : Quest
wolves = record {
  id = codes "wolves";
  steps =
      record { kind = talk_to; mob = codes "elder"; room = []; count = pos 0 }
      ∷ record { kind = kill_n; mob = codes "wolf"; room = []; count = pos 2 }
      ∷ [];
  reward_xp = pos 100;
  reward_copper = pos 50;
}

abbrev book : Catalog
book id = if same id (codes "wolves") then some wolves else none

abbrev one_byte : Codec
one_byte = record {
  marshal = (λ n. elim n [ pos k ↦ k ∷ [] | negsuc k ↦ [] ]);
  unmarshal = (λ s. elim s [ [] ↦ pos 0 | b ∷ rest ↦ pos b ]);
}

abbrev all_well : Answers
all_well = record {
  reads = true;
  records = true;
  records_xp = true;
  coin_first = coin_saved;
  reads_again = true;
  fresh_coin = pos 0;
  coin_second = coin_saved;
  room = (λ i. room_missing);
}

abbrev newcomer : Character
newcomer = record { quest_log = []; xp = pos 10; coin = pos 5 }

book-Validated : Validated book
book-Validated id q =
    if-cases
      (λ o.
        o ≡ some q → ((s : Step) × (get_step q.steps (pos 0) ≡ some s)) × (length q.steps ≤ 32768))
      (same id (codes "wolves"))
      (λ h e.
        let here : wolves ≡ q = cc in
        (
          (
            record { kind = talk_to; mob = codes "elder"; room = []; count = pos 0 },
            ap (λ (r : Quest). get_step r.steps (pos 0)) (sym here),
          ),
          omega (arith, ap (λ (r : Quest). length r.steps) here),
        ))
      (λ h e. cc)

newcomer-Inv : Inv book newcomer.quest_log
newcomer-Inv = record { active = (λ i p h on. cc); once = tt }

abbrev adventure : List (Answers × Call)
adventure =
    (all_well, accepts (codes "wolves"))
    ∷ (all_well, talks (codes "wolves") (codes "elder"))
    ∷ (all_well, kills (codes "wolf"))
    ∷ (all_well, kills (codes "wolf"))
    ∷ (all_well, kills (codes "wolf"))
    ∷ []

call-Sound_example :
    Change
      (OnStep book)
      newcomer
      (call book one_byte all_well newcomer (accepts (codes "wolves"))).saved
    × ((call book one_byte all_well newcomer (accepts (codes "wolves"))).outcome ≢ panics)
call-Sound_example =
    call-Sound book one_byte all_well newcomer (accepts (codes "wolves")) book-Validated
      (λ i p h on. cc)

calls-Inv_example : Inv book (calls book one_byte newcomer adventure).quest_log
calls-Inv_example = calls-Inv book one_byte newcomer adventure book-Validated newcomer-Inv

calls_rewards_example :
    ((id : Bytes)
      → has_completed [] id ≡ true
      → has_completed (calls book one_byte newcomer adventure).quest_log id ≡ true)
    × (completed_count [] ≤ completed_count (calls book one_byte newcomer adventure).quest_log)
    × (completed_count [] ≡ completed_count (calls book one_byte newcomer adventure).quest_log
        → ((calls book one_byte newcomer adventure).xp ≡ pos 10)
          × ((calls book one_byte newcomer adventure).coin ≡ pos 5))
calls_rewards_example = calls_rewards book one_byte newcomer adventure

paid : (calls book one_byte newcomer adventure).xp ≡ pos 110
unfolding calls call handle_kill kill_loop advance_talk_to same find_active accept_quest has_quest
    advance_step count_kill step_init_state ◌-ℤ◌ complete_quest grant_rewards wrap ◌+ℤ◌
paid = refl

-- ===== src/Quest.antt =====
-- internal/quest/engine.go: the quest log of a character. What the repositories answer is a parameter
-- of a call; the JSON codec of a step's state is one of the engine. The index of a step is kept as an
-- int16, with its wrap-around. The lines written to the player and the audit are left out.
pub mod Engine
pub mod Changes
pub mod Events
pub mod Entries
pub mod Log
mod Tests
use wheel_mud.Base.{
  ℕ, zero, suc, ◌+◌, Bool, true, false, not, ◌&&◌, Option, none, some, List, [], ◌∷◌, ◌++◌, length,
  get_elem?, take, drop, leb, if◌then◌else◌,
}
use wheel_mud.Base.Int.{ℤ, pos, negsuc, ◌+ℤ◌, ltb_ℤ, leb_ℤ, wrap}
use wheel_mud.Base.Text.{Bytes, codes, same}

pub data StepKind : Type 0 where
  talk_to kill_n reach_room script : StepKind

pub record Step : Type 0 where
  pub kind : StepKind
  pub mob : Bytes
  pub room : Bytes
  pub count : ℤ

pub record Quest : Type 0 where
  pub id : Bytes
  pub steps : List Step
  pub reward_xp : ℤ
  pub reward_copper : ℤ

-- `Get` of the catalog.
abbrev pub Catalog : Type 0
Catalog = Bytes → Option Quest

-- `completed` says that the time of completion is not the zero time.
pub record QuestProgress : Type 0 where
  pub quest_id : Bytes
  pub step_index : ℤ
  pub state_json : Bytes
  pub completed : Bool

-- What the repository keeps of a character.
pub record Character : Type 0 where
  pub quest_log : List QuestProgress
  pub xp : ℤ
  pub coin : ℤ

-- json.Marshal and json.Unmarshal of a `killNState`; a text that is none leaves a 0.
pub record Codec : Type 0 where
  pub marshal : ℤ → Bytes
  pub unmarshal : Bytes → ℤ

pub data CoinAnswer : Type 0 where
  coin_saved coin_conflict coin_failed : CoinAnswer

pub data RoomAnswer : Type 0 where
  room_found : (external_id : Bytes) → RoomAnswer
  room_missing room_failed : RoomAnswer

-- What the repositories answer to GetByID, RecordQuestProgress, RecordXP, RecordCoin, and, behind a
-- conflict, to GetByID and RecordCoin again; and to FindByID of the rooms, for the entry at each place
-- of the log.
pub record Answers : Type 0 where
  pub reads : Bool
  pub records : Bool
  pub records_xp : Bool
  pub coin_first : CoinAnswer
  pub reads_again : Bool
  pub fresh_coin : ℤ
  pub coin_second : CoinAnswer
  pub room : ℕ → RoomAnswer

pub data Outcome : Type 0 where
  done failed panics : Outcome

pub record Run : Type 0 where
  pub saved : Character
  pub outcome : Outcome

-- 2 ^ 63: XP and coin are of type int64.
abbrev pub int64_size : ℕ
int64_size = 9223372036854775808

-- The step indices are of type int16.
abbrev pub int16 : ℤ → ℤ
int16 = wrap 32768

-- `steps[i]`; a negative index is out of range too.
abbrev pub get_step : List Step → ℤ → Option Step
get_step steps (pos n) = get_elem? steps n
get_step steps (negsuc n) = none

abbrev pub set_at : ℕ → QuestProgress → List QuestProgress → List QuestProgress
set_at i p [] = []
set_at zero p (q ∷ log) = p ∷ log
set_at (suc i) p (q ∷ log) = q ∷ set_at i p log

-- The index of the active entry of a quest, counted from `i`.
unfoldable pub find_active : (i : ℕ) → List QuestProgress → Bytes → Option ℕ
find_active i [] quest_id = none
find_active i (p ∷ log) quest_id =
    let rest = find_active (suc i) log quest_id in
    if same p.quest_id quest_id && not p.completed then some i else rest

unfoldable pub has_quest : List QuestProgress → Bytes → Bool
has_quest [] quest_id = false
has_quest (p ∷ log) quest_id =
    let rest = has_quest log quest_id in if same p.quest_id quest_id then true else rest

abbrev pub is_kind : StepKind → StepKind → Bool
is_kind talk_to talk_to = true
is_kind kill_n kill_n = true
is_kind reach_room reach_room = true
is_kind script script = true
is_kind _ _ = false

abbrev pub stepped_init : Codec → StepKind → ℤ → Bytes
stepped_init codec kill_n count = codec.marshal count
stepped_init codec _ count = codes "{}"

unfoldable pub step_init_state : Codec → Step → Bytes
step_init_state codec s = stepped_init codec s.kind s.count

-- The coin that the repository keeps behind `grantCoin`.
abbrev pub second_coin : CoinAnswer → (fresh copper : ℤ) → ℤ
second_coin coin_saved fresh copper = wrap int64_size (fresh +ℤ copper)
second_coin _ fresh copper = fresh

unfoldable pub grant_coin : Answers → CoinAnswer → (coin copper : ℤ) → ℤ
grant_coin ans coin_saved coin copper = wrap int64_size (coin +ℤ copper)
grant_coin ans coin_failed coin copper = coin
grant_coin ans coin_conflict coin copper =
    if ans.reads_again then second_coin ans.coin_second ans.fresh_coin copper else ans.fresh_coin

unfoldable pub grant_rewards : Answers → Character → Quest → Character
grant_rewards ans char q =
    let with_xp =
      if ltb_ℤ (pos 0) q.reward_xp
      then record char { xp = wrap int64_size (char.xp +ℤ q.reward_xp) }
      else char in
    let with_coin =
      if ltb_ℤ (pos 0) q.reward_copper
      then record with_xp { coin = grant_coin ans ans.coin_first char.coin q.reward_copper }
      else with_xp in
    if ltb_ℤ (pos 0) q.reward_xp && not ans.records_xp then char else with_coin

unfoldable pub complete_quest : Answers → Character → Quest → ℕ → QuestProgress → Run
complete_quest ans char q idx p =
    let log = set_at idx (record p { completed = true; state_json = codes "{}" }) char.quest_log in
    if ans.records
    then record { saved = grant_rewards ans (record char { quest_log = log }) q; outcome = done }
    else record { saved = char; outcome = failed }

-- ===== src/Quest/Engine.antt =====
-- internal/quest/engine.go: the entry points of the engine. A run keeps what the repository holds
-- behind the call; a Go panic is the outcome `panics`.
use wheel_mud.Base.{
  ℕ, suc, Bool, false, not, ◌&&◌, Option, none, some, List, [], ◌∷◌, ◌++◌, length, ◌==◌, get_elem?,
  take, drop, if◌then◌else◌,
}
use wheel_mud.Base.Int.{ℤ, pos, ◌+ℤ◌, ◌-ℤ◌, ltb_ℤ, leb_ℤ}
use wheel_mud.Base.Text.{Bytes, same}
use wheel_mud.Quest.{
  talk_to, kill_n, reach_room, script, Step, Quest, Catalog, QuestProgress, Character, Codec,
  RoomAnswer, room_found, room_missing, room_failed, Answers, Outcome, done, failed, panics, Run,
  int16, get_step, set_at, find_active, has_quest, is_kind, step_init_state, complete_quest,
}

abbrev pub unchanged : Character → Outcome → Run
unchanged char outcome = record { saved = char; outcome = outcome }

-- A write of the log.
abbrev pub recorded : Answers → Character → List QuestProgress → Run
recorded ans char log =
    if ans.records
    then record { saved = record char { quest_log = log }; outcome = done }
    else record { saved = char; outcome = failed }

-- What `handleKill` and `handleEnter` find behind an entry: nothing to look at, a step index that is out
-- of range, or the quest with the step.
pub data Current : Type 0 where
  skipped breaks : Current
  stands : Quest → Step → Current

module _ (cat : Catalog) (codec : Codec) (ans : Answers) (char : Character) where
  -- `curStep + 1` is an int; it is stored as an int16.
  abbrev to_step : Quest → ℕ → QuestProgress → ℤ → Option Step → Run
  to_step q idx p next none = unchanged char panics
  to_step q idx p next (some s) = recorded ans char (
      set_at idx (record p { step_index = int16 next; state_json = step_init_state codec s })
        char.quest_log)

  -- The entry at the index; behind the last step there is none to go to.
  abbrev pub advance_entry : Quest → ℕ → Option QuestProgress → Run
  advance_entry q idx none = unchanged char panics
  advance_entry q idx (some p) =
      let next = p.step_index +ℤ pos 1 in
      if leb_ℤ (pos (length q.steps)) next
      then complete_quest ans char q idx p
      else to_step q idx p next (get_step q.steps next)

  unfoldable pub advance_step : Quest → ℕ → Run
  advance_step q idx = advance_entry q idx (get_elem? char.quest_log idx)

  abbrev accept_at : Bytes → Option Step → Run
  accept_at quest_id none = unchanged char panics
  accept_at quest_id (some s) = recorded ans char (
      char.quest_log
      ++ record {
        quest_id = quest_id;
        step_index = pos 0;
        state_json = step_init_state codec s;
        completed = false;
      }
        ∷ [])

  abbrev accept_from : Bytes → Option Quest → Run
  accept_from quest_id none = unchanged char done
  accept_from quest_id (some q) =
      if not ans.reads
      then unchanged char failed
      else if has_quest char.quest_log quest_id
      then unchanged char done
      else accept_at quest_id (get_step q.steps (pos 0))

  unfoldable pub accept_quest : Bytes → Run
  accept_quest quest_id = accept_from quest_id (cat quest_id)

  -- The step of the active entry, if it passes the test; no such step is a Go panic.
  abbrev advance_if : (Step → Bool) → Quest → ℕ → Option Step → Run
  advance_if test q idx none = unchanged char panics
  advance_if test q idx (some s) = if test s then advance_step q idx else unchanged char done

  abbrev step_of : Quest → Option QuestProgress → Option Step
  step_of q none = none
  step_of q (some p) = get_step q.steps p.step_index

  abbrev advance_at : (Step → Bool) → Quest → Option ℕ → Run
  advance_at test q none = unchanged char done
  advance_at test q (some idx) = advance_if test q idx (step_of q (get_elem? char.quest_log idx))

  abbrev pub advance_from : (Step → Bool) → Bytes → Option Quest → Run
  advance_from test quest_id none = unchanged char done
  advance_from test quest_id (some q) =
      if not ans.reads
      then unchanged char failed
      else advance_at test q (find_active 0 char.quest_log quest_id)

  unfoldable pub advance_talk_to : Bytes → Bytes → Run
  advance_talk_to quest_id npc =
      advance_from (λ s. is_kind s.kind talk_to && same s.mob npc) quest_id (cat quest_id)

  unfoldable pub advance : Bytes → Run
  advance quest_id = advance_from (λ s. is_kind s.kind script) quest_id (cat quest_id)

  abbrev abandon_at : Option ℕ → Run
  abandon_at none = unchanged char done
  abandon_at (some idx) =
      recorded ans char (take idx char.quest_log ++ drop (suc idx) char.quest_log)

  unfoldable pub abandon_quest : Bytes → Run
  abandon_quest quest_id =
      if not ans.reads
      then unchanged char failed
      else abandon_at (find_active 0 char.quest_log quest_id)

  -- The index is tested against the number of steps only.
  abbrev pub at_index : Quest → Option Step → Current
  at_index q none = breaks
  at_index q (some s) = stands q s

  abbrev pub quest_step : QuestProgress → Option Quest → Current
  quest_step p none = skipped
  quest_step p (some q) =
      if leb_ℤ (pos (length q.steps)) p.step_index
      then skipped
      else at_index q (get_step q.steps p.step_index)

  abbrev pub active_step : QuestProgress → Current
  active_step p = if p.completed then skipped else quest_step p (cat p.quest_id)

  -- A kill that counts for the entry `p` at `i`.
  unfoldable pub count_kill : Quest → ℕ → QuestProgress → Run
  count_kill q i p =
      let left = codec.unmarshal p.state_json in
      if leb_ℤ left (pos 0)
      then advance_step q i
      else if ltb_ℤ (pos 0) (left -ℤ pos 1)
      then recorded ans char
          (set_at i (record p { state_json = codec.marshal (left -ℤ pos 1) }) char.quest_log)
      else advance_step q i

  abbrev pub kill_or : Bytes → ℕ → QuestProgress → Run → Current → Run
  kill_or mob i p rest skipped = rest
  kill_or mob i p rest breaks = unchanged char panics
  kill_or mob i p rest (stands q s) =
      if is_kind s.kind kill_n && same s.mob mob then count_kill q i p else rest

  unfoldable pub kill_loop : Bytes → ℕ → List QuestProgress → Run
  kill_loop mob i [] = unchanged char done
  kill_loop mob i (p ∷ log) = kill_or mob i p (kill_loop mob (suc i) log) (active_step p)

  unfoldable pub handle_kill : Bytes → Run
  handle_kill mob = if not ans.reads then unchanged char failed else kill_loop mob 0 char.quest_log

  -- `rest` goes on with the room's id, `roomExt`; the room is looked up as long as that is empty.
  abbrev pub at_room : Quest → ℕ → Step → (Bytes → Run) → RoomAnswer → Run
  at_room q i s rest room_missing = unchanged char done
  at_room q i s rest room_failed = unchanged char failed
  at_room q i s rest (room_found external_id) =
      if same s.room external_id then advance_step q i else rest external_id

  abbrev pub asked : ℕ → Bytes → RoomAnswer
  asked i room_ext = if length room_ext == 0 then ans.room i else room_found room_ext

  abbrev pub enter_or : ℕ → Bytes → (Bytes → Run) → Current → Run
  enter_or i room_ext rest skipped = rest room_ext
  enter_or i room_ext rest breaks = unchanged char panics
  enter_or i room_ext rest (stands q s) =
      if is_kind s.kind reach_room then at_room q i s rest (asked i room_ext) else rest room_ext

  unfoldable pub enter_loop : ℕ → Bytes → List QuestProgress → Run
  enter_loop i room_ext [] = unchanged char done
  enter_loop i room_ext (p ∷ log) =
      enter_or i room_ext (λ x. enter_loop (suc i) x log) (active_step p)

  unfoldable pub handle_enter : Run
  handle_enter = if not ans.reads then unchanged char failed else enter_loop 0 [] char.quest_log

-- The calls that reach the engine.
pub data Call : Type 0 where
  accepts : (quest_id : Bytes) → Call
  talks : (quest_id npc : Bytes) → Call
  scripts : (quest_id : Bytes) → Call
  abandons : (quest_id : Bytes) → Call
  kills : (mob : Bytes) → Call
  enters : Call

unfoldable pub call : Catalog → Codec → Answers → Character → Call → Run
call cat codec ans char (accepts quest_id) = accept_quest cat codec ans char quest_id
call cat codec ans char (talks quest_id npc) = advance_talk_to cat codec ans char quest_id npc
call cat codec ans char (scripts quest_id) = advance cat codec ans char quest_id
call cat codec ans char (abandons quest_id) = abandon_quest cat codec ans char quest_id
call cat codec ans char (kills mob) = handle_kill cat codec ans char mob
call cat codec ans char enters = handle_enter cat codec ans char

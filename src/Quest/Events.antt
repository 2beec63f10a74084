-- ===== src/Quest/Events.antt =====
-- The two event handlers of internal/quest/engine.go, and all calls together.
use mathlib.Core.Path.{subst}
use wheel_mud.Base.{
  ℕ, suc, ◌+◌, ◌≡◌, ◌≢◌, length, inl, inr, ◌∙◌, ap, refl, sym, false, not, ◌&&◌, none, some, List,
  [], ◌∷◌, arith, get_elem?, if-cases, Option-cases,
}
use wheel_mud.Base.Int.{pos, ◌-ℤ◌, ltb_ℤ, leb_ℤ}
use wheel_mud.Base.Text.{Bytes, same}
use wheel_mud.Quest.{
  kill_n, reach_room, get_step, panics, Step, Quest, Catalog, QuestProgress, Character, Codec,
  RoomAnswer, room_found, room_missing, room_failed, Answers, done, failed, is_kind,
}
use wheel_mud.Quest.Engine.{
  Current, skipped, breaks, stands, unchanged, asked, active_step, count_kill, kill_loop, kill_or,
  enter_or, at_room, handle_kill, enter_loop, handle_enter, advance_talk_to, advance, Call, accepts,
  talks, scripts, abandons, kills, enters, call,
}
use wheel_mud.Quest.Changes.{
  Validated, OnStep, Active, ActiveAt, Change, Change-map, Good, moves, Sound, active_at,
  unchanged-Sound, recorded-Sound, advance_step-Sound, accept-Sound, abandon-Sound, advance-Sound,
}

module _ (cat : Catalog) (codec : Codec) (ans : Answers) (char : Character) where
  -- An entry that is not skipped.
  abbrev Taken : QuestProgress → Current → Type 0
  Taken p skipped = Unit
  Taken p breaks =
      (q : Quest) × (p.completed ≡ false)
      × (cat p.quest_id ≡ some q)
      × (get_step q.steps p.step_index ≡ none)
  Taken p (stands q s) = (p.completed ≡ false) × (cat p.quest_id ≡ some q)

  active_step-Taken : (p : QuestProgress) → Taken p (active_step cat codec ans char p)
  active_step-Taken p =
      if-cases (Taken p) p.completed (λ over. tt)
        (λ on. elim (Option-cases (cat p.quest_id)) [
          | inl e ↦ rw e tt
          | inr (q, e) ↦ rw e (
              if-cases (Taken p) (leb_ℤ (pos (length q.steps)) p.step_index) (λ behind. tt)
                (λ inside. elim (Option-cases (get_step q.steps p.step_index)) [
                  | inl f ↦ rw f (q, on, e, f)
                  | inr (s, f) ↦ rw f (on, e)
                ]))
        ])

  breaks-Sound :
      (i : ℕ) (p : QuestProgress)
      → get_elem? char.quest_log i ≡ some p
      → Taken p breaks
      → Sound cat char (unchanged char panics)
  breaks-Sound i p at (q, on, e, off) =
      unchanged-Sound cat codec ans char panics
        (λ g k. cc ((active_at cat codec ans char q i p (at, on) e g).1, off))

  count_kill-Sound :
      (q : Quest) (i : ℕ) (p : QuestProgress)
      → ActiveAt char i p
      → cat p.quest_id ≡ some q
      → Sound cat char (count_kill cat codec ans char q i p)
  unfolding count_kill
  count_kill-Sound q i p a known =
      if-cases (Sound cat char) (leb_ℤ (codec.unmarshal p.state_json) (pos 0))
        (λ h. advance_step-Sound cat codec ans char q i p a known)
        (λ h.
          if-cases (Sound cat char) (ltb_ℤ (pos 0) (codec.unmarshal p.state_json -ℤ pos 1))
            (λ g. recorded-Sound cat codec ans char _ (
              moves i p _ a refl
                (λ good.
                  let (s, step) = active_at cat codec ans char q i p a known good in
                  (q, s, known, step))
                a.1))
            (λ g. advance_step-Sound cat codec ans char q i p a known))

  -- The rest of the log from `i` on.
  abbrev From : ℕ → List QuestProgress → Type 0
  From i log = (j : ℕ) → get_elem? log j ≡ get_elem? char.quest_log (i + j)

  here_lem :
      (i : ℕ) (p : QuestProgress) (log : List QuestProgress)
      → From i (p ∷ log)
      → get_elem? char.quest_log i ≡ some p
  here_lem i p log h =
      let at : i + 0 ≡ i = omega arith in
      subst (λ k. get_elem? char.quest_log k ≡ some p) at (sym (h 0))

  later_lem :
      (i : ℕ) (p : QuestProgress) (log : List QuestProgress) → From i (p ∷ log) → From (suc i) log
  later_lem i p log h j =
      let at : i + suc j ≡ suc i + j = omega arith in h (suc j) ∙ ap (get_elem? char.quest_log) at

  kill_loop-Sound :
      (mob : Bytes) (i : ℕ) (log : List QuestProgress)
      → From i log
      → Sound cat char (kill_loop cat codec ans char mob i log)
  unfolding kill_loop
  kill_loop-Sound mob i [] h = unchanged-Sound cat codec ans char done (λ g e. cc)
  kill_loop-Sound mob i (p ∷ log) h =
      let rest = kill_loop-Sound mob (suc i) log (later_lem i p log h) in
      kill_or_lem (active_step cat codec ans char p) (active_step-Taken p) rest
    where
      kill_or_lem :
          (o : Current)
          → Taken p o
          → Sound cat char (kill_loop cat codec ans char mob (suc i) log)
          → Sound cat char
              (kill_or cat codec ans char mob i p (kill_loop cat codec ans char mob (suc i) log) o)
      kill_or_lem skipped t rest = rest
      kill_or_lem breaks t rest = breaks-Sound i p (here_lem i p log h) t
      kill_or_lem (stands q s) (on, known) rest =
          if-cases (Sound cat char) (is_kind s.kind kill_n && same s.mob mob)
            (λ g. count_kill-Sound q i p (here_lem i p log h, on) known) (λ g. rest)

  enter_loop-Sound :
      (i : ℕ) (room_ext : Bytes) (log : List QuestProgress)
      → From i log
      → Sound cat char (enter_loop cat codec ans char i room_ext log)
  unfolding enter_loop
  enter_loop-Sound i room_ext [] h = unchanged-Sound cat codec ans char done (λ g e. cc)
  enter_loop-Sound i room_ext (p ∷ log) h =
      enter_or_lem (active_step cat codec ans char p) (active_step-Taken p)
        (λ x. enter_loop-Sound (suc i) x log (later_lem i p log h))
    where
      at_room_lem :
          (q : Quest) (s : Step) (room : RoomAnswer)
          → Taken p (stands q s)
          → ((x : Bytes) → Sound cat char (enter_loop cat codec ans char (suc i) x log))
          → Sound cat char (
              at_room cat codec ans char q i s
                (λ x. enter_loop cat codec ans char (suc i) x log)
                room)
      at_room_lem q s room_missing t rest = unchanged-Sound cat codec ans char done (λ g e. cc)
      at_room_lem q s room_failed t rest = unchanged-Sound cat codec ans char failed (λ g e. cc)
      at_room_lem q s (room_found external_id) (on, known) rest =
          if-cases (Sound cat char) (same s.room external_id)
            (λ g. advance_step-Sound cat codec ans char q i p (here_lem i p log h, on) known)
            (λ g. rest external_id)

      enter_or_lem :
          (o : Current)
          → Taken p o
          → ((x : Bytes) → Sound cat char (enter_loop cat codec ans char (suc i) x log))
          → Sound cat char (
              enter_or cat codec ans char i room_ext
                (λ x. enter_loop cat codec ans char (suc i) x log)
                o)
      enter_or_lem skipped t rest = rest room_ext
      enter_or_lem breaks t rest = breaks-Sound i p (here_lem i p log h) t
      enter_or_lem (stands q s) t rest =
          if-cases (Sound cat char) (is_kind s.kind reach_room)
            (λ g. at_room_lem q s (asked cat codec ans char i room_ext) t rest) (λ g. rest room_ext)

-- Whatever stands in the catalog and the log, a call leaves one of the characters of `Change`.
pub call-Change :
    (cat : Catalog) (codec : Codec) (ans : Answers) (char : Character) (c : Call)
    → Sound cat char (call cat codec ans char c)
unfolding call advance_talk_to advance handle_kill handle_enter
call-Change cat codec ans char (accepts quest_id) = accept-Sound cat codec ans char quest_id
call-Change cat codec ans char (talks quest_id npc) = advance-Sound cat codec ans char _ quest_id
call-Change cat codec ans char (scripts quest_id) = advance-Sound cat codec ans char _ quest_id
call-Change cat codec ans char (abandons quest_id) = abandon-Sound cat codec ans char quest_id
call-Change cat codec ans char (kills mob) =
    if-cases (Sound cat char) (not ans.reads)
      (λ h. unchanged-Sound cat codec ans char failed (λ g e. cc))
      (λ h.
        kill_loop-Sound cat codec ans char mob 0 char.quest_log
          (λ j. ap (get_elem? char.quest_log) (omega arith)))
call-Change cat codec ans char enters =
    if-cases (Sound cat char) (not ans.reads)
      (λ h. unchanged-Sound cat codec ans char failed (λ g e. cc))
      (λ h.
        enter_loop-Sound cat codec ans char 0 [] char.quest_log
          (λ j. ap (get_elem? char.quest_log) (omega arith)))

-- Where every quest of the catalog has a step and at most 2 ^ 15 of them, and the active entries of a
-- log are at steps of their quests, no call panics, whatever the repositories answer, and it leaves the
-- character as it is, or with a new active entry for a quest that the log does not hold, without an
-- active entry, with an active entry at a step of its quest, or with an active entry completed; and only
-- in the last case with other XP or coin. A new entry is at a step of its quest too.
pub call-Sound :
    (cat : Catalog) (codec : Codec) (ans : Answers) (char : Character) (c : Call)
    → Validated cat
    → Active cat char.quest_log
    → Change (OnStep cat) char (call cat codec ans char c).saved
      × ((call cat codec ans char c).outcome ≢ panics)
call-Sound cat codec ans char c good inv =
    let (change, safe) = call-Change cat codec ans char c in
    (
      Change-map (λ p. Good cat char → OnStep cat p) (OnStep cat) char
          (call cat codec ans char c).saved (λ p on. on (good, inv)) change,
      safe (good, inv),
    )

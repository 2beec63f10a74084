-- ===== src/Quest/Log.antt =====
-- What internal/quest/engine.go keeps over all calls.
use mathlib.Core.Path.{subst}
use wheel_mud.Base.{
  ℕ, suc, ◌≤◌, ◌≡◌, ◌⊎◌, inl, inr, ◌∙◌, ap, refl, sym, true, false, List, [], ◌∷◌, arith, get_elem?,
}
use wheel_mud.Base.Text.{Bytes}
use wheel_mud.Quest.{Catalog, QuestProgress, Character, Codec, Answers, set_at}
use wheel_mud.Quest.Engine.{Call, call}
use wheel_mud.Quest.Changes.{
  Validated, OnStep, Active, Change, stays, joins, leaves, moves, finishes,
}
use wheel_mud.Quest.Events.{call-Change, call-Sound}
use wheel_mud.Quest.Entries.{
  Once, completed_count, has_completed, added_entry, added-Once, added-count, has_completed-added,
  cut_entry, cut-Once, cut-count, has_completed-cut, set_entry, set-Once, set-count,
  has_completed-set,
}

-- No quest stands in the log twice, and an active entry is at a step of its quest.
pub record Inv (cat : Catalog) (log : List QuestProgress) : Type 0 where
  pub active : Active cat log
  pub once : Once log

set-Active :
    (cat : Catalog) (p' : QuestProgress) (v : ℕ) (log after : List QuestProgress)
    (p : QuestProgress)
    → p.completed ≡ false
    → (p'.completed ≡ false → OnStep cat p')
    → after ≡ set_at v p' log
    → Active cat log
    → Active cat after
set-Active cat p' v log after p off step e inv i r h on =
    elim (set_entry p off p' v log i r (ap (λ l. get_elem? l i) (sym e) ∙ h)) [
      | inl (k, at) ↦ inv k r at on
      | inr here ↦
          subst (OnStep cat) here (step (ap (λ (x : QuestProgress). x.completed) here ∙ on))
    ]

Change-Inv :
    (cat : Catalog) (char after : Character)
    → Change (OnStep cat) char after
    → Inv cat char.quest_log
    → Inv cat after.quest_log
Change-Inv cat char after stays inv = inv
Change-Inv cat char after (joins p new step off) inv = record {
  active = (λ i r h on. elim (added_entry p off char.quest_log i r h) [
    | inl old ↦ inv.active i r old on
    | inr here ↦ subst (OnStep cat) here step
  ]);
  once = added-Once p off char.quest_log new inv.once;
}
Change-Inv cat char after (leaves v p (at, off)) inv = record {
  active = (λ i r h on. let (k, e) = cut_entry p off v char.quest_log i r h in inv.active k r e on);
  once = cut-Once p off v char.quest_log inv.once;
}
Change-Inv cat char after (moves v p p' (at, off) id step on') inv = record {
  active =
      set-Active cat p' v char.quest_log (set_at v p' char.quest_log) p off (λ on. step) refl
        inv.active;
  once = set-Once p off p' v char.quest_log id at inv.once;
}
Change-Inv cat char after (finishes v p p' after' (at, off) id over e) inv = record {
  active =
      set-Active cat p' v char.quest_log after.quest_log p off
        (λ on. let impossible : ⊥ = cc (on, over) in elim impossible [ ]) e inv.active;
  once = subst Once (sym e) (set-Once p off p' v char.quest_log id at inv.once);
}

-- What is granted: nothing, with as many completed quests as before, or something, with one more.
abbrev pub Granted : Character → Character → Type 0
Granted char after =
    ((after.xp ≡ char.xp)
      × (after.coin ≡ char.coin)
      × (completed_count after.quest_log ≡ completed_count char.quest_log))
    ⊎ (completed_count after.quest_log ≡ suc (completed_count char.quest_log))

Change-Granted :
    (P : QuestProgress → Type 0) (char after : Character) → Change P char after → Granted char after
Change-Granted P char after stays = inl (refl, refl, refl)
Change-Granted P char after (joins p new step off) =
    inl (refl, refl, added-count p off char.quest_log)
Change-Granted P char after (leaves v p (at, off)) =
    inl (refl, refl, cut-count p off v char.quest_log at)
Change-Granted P char after (moves v p p' (at, off) id step on) =
    inl (refl, refl, set-count p off p' v char.quest_log at ∙ rw on refl)
Change-Granted P char after (finishes v p p' after' (at, off) id over e) =
    inr (ap completed_count e ∙ set-count p off p' v char.quest_log at ∙ rw over refl)

Change-has_completed :
    (P : QuestProgress → Type 0) (char after : Character) (id : Bytes)
    → Change P char after
    → has_completed char.quest_log id ≡ true
    → has_completed after.quest_log id ≡ true
Change-has_completed P char after id stays h = h
Change-has_completed P char after id (joins p new step off) h =
    has_completed-added p off char.quest_log id h
Change-has_completed P char after id (leaves v p (at, off)) h =
    has_completed-cut p off v char.quest_log id at h
Change-has_completed P char after id (moves v p p' (at, off) key step on) h =
    has_completed-set p off p' v char.quest_log id key at h
Change-has_completed P char after id (finishes v p p' after' (at, off) key over e) h =
    subst (λ l. has_completed l id ≡ true) (sym e)
      (has_completed-set p off p' v char.quest_log id key at h)

-- Calls one after the other, each with what the repositories answer.
unfoldable pub calls : Catalog → Codec → Character → List (Answers × Call) → Character
calls cat codec char [] = char
calls cat codec char ((ans, c) ∷ rest) = calls cat codec (call cat codec ans char c).saved rest

-- Whatever is called, and whatever the repositories answer, no quest comes to stand in the log twice,
-- and the active entries stay at steps of their quests. Every quest of the catalog has a step, and at
-- most 2 ^ 15 of them.
pub calls-Inv :
    (cat : Catalog) (codec : Codec) (char : Character) (cs : List (Answers × Call))
    → Validated cat
    → Inv cat char.quest_log
    → Inv cat (calls cat codec char cs).quest_log
unfolding calls
calls-Inv cat codec char [] good inv = inv
calls-Inv cat codec char ((ans, c) ∷ cs) good inv =
    calls-Inv cat codec (call cat codec ans char c).saved cs good
      (Change-Inv cat char _ (call-Sound cat codec ans char c good inv.active).0 inv)

-- A completed quest stays completed over all calls, the number of completed quests does not fall, and
-- where it stays the same, so do XP and coin: a reward is granted with a completion only. This holds for
-- any catalog and any log.
pub calls_rewards :
    (cat : Catalog) (codec : Codec) (char : Character) (cs : List (Answers × Call))
    → ((id : Bytes)
        → has_completed char.quest_log id ≡ true
        → has_completed (calls cat codec char cs).quest_log id ≡ true)
      × (completed_count char.quest_log ≤ completed_count (calls cat codec char cs).quest_log)
      × (completed_count char.quest_log ≡ completed_count (calls cat codec char cs).quest_log
          → ((calls cat codec char cs).xp ≡ char.xp) × ((calls cat codec char cs).coin ≡ char.coin))
unfolding calls
calls_rewards cat codec char [] = ((λ id h. h), omega arith, λ e. (refl, refl))
calls_rewards cat codec char ((ans, c) ∷ cs) =
    let next = (call cat codec ans char c).saved in
    let change = (call-Change cat codec ans char c).0 in
    let (stay, more, same_rest) = calls_rewards cat codec next cs in
    elim (Change-Granted _ char next change) [
      | inl (xp, coin, count) ↦ (
        (λ id h. stay id (Change-has_completed _ char next id change h)),
        omega (arith, more, count),
        λ e. let (x, y) = same_rest (count ∙ e) in (x ∙ xp, y ∙ coin),
      )
      | inr count ↦ (
        (λ id h. stay id (Change-has_completed _ char next id change h)),
        omega (arith, more, count),
        λ e. let impossible : ⊥ = omega (arith, more, count, e) in elim impossible [ ],
      )
    ]

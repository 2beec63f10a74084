-- ===== src/Quest/Changes.antt =====
-- What one call of internal/quest/engine.go can do to a character.
use mathlib.Core.Path.{subst}
use wheel_mud.Base.{
  ℕ, zero, suc, ◌+◌, ◌≤◌, ◌<◌, ◌≡◌, ◌≢◌, inl, inr, ◌∙◌, ap, refl, sym, Bool, true, false, not, ◌&&◌,
  none, some, List, length, [], ◌∷◌, ◌++◌, arith, get_elem?, take, drop, if-cases, Bool-cases,
  Option-cases,
}
use wheel_mud.Base.Int.{ℤ, pos, negsuc, ◌+ℤ◌, ltb_ℤ, leb_ℤ, wrap-eq_of_InRange}
use wheel_mud.Base.Text.{Bytes, same, same_iff}
use wheel_mud.Quest.{
  int16, get_step, Step, Quest, Catalog, QuestProgress, Character, Codec, Answers, Outcome, done,
  failed, panics, Run, set_at, find_active, has_quest, grant_rewards, complete_quest,
}
use wheel_mud.Quest.Engine.{
  unchanged, recorded, advance_step, advance_from, accept_quest, abandon_quest,
}

-- Every quest has a first step, which the catalog's validator asks for, and no more steps than an int16
-- can count from 0.
abbrev pub Validated : Catalog → Type 0
Validated cat =
    (quest_id : Bytes) (q : Quest)
    → cat quest_id ≡ some q
    → ((s : Step) × (get_step q.steps (pos 0) ≡ some s)) × (length q.steps ≤ 32768)

-- An entry at a step of its quest.
abbrev pub OnStep : Catalog → QuestProgress → Type 0
OnStep cat p =
    (q : Quest) × (s : Step) × (cat p.quest_id ≡ some q) × (get_step q.steps p.step_index ≡ some s)

abbrev pub Active : Catalog → List QuestProgress → Type 0
Active cat log =
    (i : ℕ) (p : QuestProgress) → get_elem? log i ≡ some p → p.completed ≡ false → OnStep cat p

-- The entry at `i` is `p`, and active.
abbrev pub ActiveAt : Character → ℕ → QuestProgress → Type 0
ActiveAt char i p = (get_elem? char.quest_log i ≡ some p) × (p.completed ≡ false)

-- The characters that a call can leave: the same one, or one with a new entry behind the log, without
-- an active entry, with an active entry changed, or with an active entry completed; XP and coin are
-- other ones in the last case only. The new and the changed entry pass `P`.
pub data Change (P : QuestProgress → Type 0) (char : Character) : Character → Type 0 where
  stays : Change P char char
  joins :
      (p : QuestProgress)
      → has_quest char.quest_log p.quest_id ≡ false
      → P p
      → p.completed ≡ false
      → Change P char (record char { quest_log = char.quest_log ++ p ∷ [] })
  leaves :
      (i : ℕ) (p : QuestProgress)
      → ActiveAt char i p
      → Change P char
          (record char { quest_log = take i char.quest_log ++ drop (suc i) char.quest_log })
  moves :
      (i : ℕ) (p p' : QuestProgress)
      → ActiveAt char i p
      → p'.quest_id ≡ p.quest_id
      → P p'
      → p'.completed ≡ false
      → Change P char (record char { quest_log = set_at i p' char.quest_log })
  finishes :
      (i : ℕ) (p p' : QuestProgress) (after : Character)
      → ActiveAt char i p
      → p'.quest_id ≡ p.quest_id
      → p'.completed ≡ true
      → after.quest_log ≡ set_at i p' char.quest_log
      → Change P char after

pub Change-map :
    (P Q : QuestProgress → Type 0) (char after : Character)
    → ((p : QuestProgress) → P p → Q p)
    → Change P char after
    → Change Q char after
Change-map P Q char after f stays = stays
Change-map P Q char after f (joins p new ok off) = joins p new (f p ok) off
Change-map P Q char after f (leaves i p a) = leaves i p a
Change-map P Q char after f (moves i p p' a id ok off) = moves i p p' a id (f p' ok) off
Change-map P Q char _ f (finishes i p p' after a id over e) = finishes i p p' after a id over e

-- The catalog and the log are in order.
abbrev pub Good : Catalog → Character → Type 0
Good cat char = Validated cat × Active cat char.quest_log

-- What a call does in any case, and what more where catalog and log are in order.
abbrev pub Sound : Catalog → Character → Run → Type 0
Sound cat char r =
    Change (λ p. Good cat char → OnStep cat p) char r.saved × (Good cat char → r.outcome ≢ panics)

get_elem?-bound : {A : Type 0} (l : List A) (n : ℕ) (s : A) → get_elem? l n ≡ some s → n < length l
get_elem?-bound [] n s h = cc
get_elem?-bound (x ∷ l) zero s h = omega arith
get_elem?-bound (x ∷ l) (suc n) s h = omega (arith, get_elem?-bound l n s h)

get_elem?-none : {A : Type 0} (l : List A) (n : ℕ) → get_elem? l n ≡ none → length l ≤ n
get_elem?-none [] n h = omega arith
get_elem?-none (x ∷ l) zero h = cc
get_elem?-none (x ∷ l) (suc n) h = omega (arith, get_elem?-none l n h)

get_step-bound :
    (l : List Step) (z : ℤ) (s : Step)
    → get_step l z ≡ some s
    → (n : ℕ) × (z ≡ pos n) × (n < length l)
get_step-bound l (pos n) s h = (n, refl, get_elem?-bound l n s h)
get_step-bound l (negsuc n) s h = cc

-- Behind a step that is not the last one there is a next one, and an int16 holds its index.
next_step :
    (l : List Step) (z : ℤ) (s : Step)
    → length l ≤ 32768
    → get_step l z ≡ some s
    → leb_ℤ (pos (length l)) (z +ℤ pos 1) ≡ false
    → (get_step l (z +ℤ pos 1) ≢ none) × (int16 (z +ℤ pos 1) ≡ z +ℤ pos 1)
unfolding ◌+ℤ◌
next_step l z s small here more =
    let (n, at, lt) = get_step-bound l z s here in
    let plus : z +ℤ pos 1 ≡ pos (n + 1) = rw at (ground arith) in
    let next_lt : n + 1 < length l = ground (arith, rw plus at more) in
    rw plus (
      (λ e. let le = get_elem?-none l (n + 1) e in omega (arith, le, next_lt)),
      wrap-eq_of_InRange 32768 (pos (n + 1)) (omega arith)
          (omega (arith, next_lt, small), omega arith),
    )

grant_rewards-quest_log :
    (ans : Answers) (char : Character) (q : Quest)
    → (grant_rewards ans char q).quest_log ≡ char.quest_log
unfolding grant_rewards
grant_rewards-quest_log ans char q =
    if-cases (λ (c : Character). c.quest_log ≡ char.quest_log)
      (ltb_ℤ (pos 0) q.reward_xp && not ans.records_xp) (λ h. refl)
      (λ h.
        if-cases (λ (c : Character). c.quest_log ≡ char.quest_log) (ltb_ℤ (pos 0) q.reward_copper)
          (λ g.
            if-cases (λ (c : Character). c.quest_log ≡ char.quest_log) (ltb_ℤ (pos 0) q.reward_xp)
              (λ k. refl) (λ k. refl))
          (λ g.
            if-cases (λ (c : Character). c.quest_log ≡ char.quest_log) (ltb_ℤ (pos 0) q.reward_xp)
              (λ k. refl) (λ k. refl)))

find_active_lem :
    (i : ℕ) (log : List QuestProgress) (quest_id : Bytes) (idx : ℕ)
    → find_active i log quest_id ≡ some idx
    → (j : ℕ) × (p : QuestProgress) × (idx ≡ i + j)
      × (get_elem? log j ≡ some p)
      × (p.quest_id ≡ quest_id)
      × (p.completed ≡ false)
unfolding find_active
find_active_lem i [] quest_id idx h = cc
find_active_lem i (p ∷ log) quest_id idx h =
    elim (Bool-cases (same p.quest_id quest_id && not p.completed)) [
      | inl e ↦
          let is : same p.quest_id quest_id ≡ true = grind (arith, e) in
          let on : p.completed ≡ false = grind (arith, e) in
          let first : find_active i (p ∷ log) quest_id ≡ some i = rw e refl in
          let at : i ≡ idx = cc (first, h) in
          (0, p, omega (arith, at), refl, (same_iff p.quest_id quest_id).0 is, on)
      | inr e ↦
          let later : find_active i (p ∷ log) quest_id ≡ find_active (suc i) log quest_id =
            rw e refl in
          let (j, r, at, get, id, on) = find_active_lem (suc i) log quest_id idx (sym later ∙ h) in
          (suc j, r, omega (arith, at), get, id, on)
    ]

module _ (cat : Catalog) (codec : Codec) (ans : Answers) (char : Character) where
  pub unchanged-Sound :
      (o : Outcome) → (Good cat char → o ≢ panics) → Sound cat char (unchanged char o)
  unchanged-Sound o h = (stays, h)

  pub recorded-Sound :
      (log : List QuestProgress)
      → Change (λ p. Good cat char → OnStep cat p) char (record char { quest_log = log })
      → Sound cat char (recorded ans char log)
  recorded-Sound log c =
      if-cases (Sound cat char) ans.records (λ h. (c, λ g e. cc)) (λ h. (stays, λ g e. cc))

  complete-Sound :
      (q : Quest) (i : ℕ) (p : QuestProgress)
      → ActiveAt char i p
      → Sound cat char (complete_quest ans char q i p)
  unfolding complete_quest
  complete-Sound q i p a =
      if-cases (Sound cat char) ans.records
        (λ h. (finishes i p _ _ a refl refl (grant_rewards-quest_log ans _ q), λ g e. cc))
        (λ h. (stays, λ g e. cc))

  -- An active entry of the quest is at a step of it, where catalog and log are in order.
  pub active_at :
      (q : Quest) (i : ℕ) (p : QuestProgress)
      → ActiveAt char i p
      → cat p.quest_id ≡ some q
      → Good cat char
      → (s : Step) × (get_step q.steps p.step_index ≡ some s)
  active_at q i p a c (good, inv) =
      let (q', s, known, step) = inv i p a.0 a.1 in
      let same_quest : q' ≡ q = cc (known, c) in
      (s, subst (λ r. get_step r.steps p.step_index ≡ some s) same_quest step)

  pub advance_step-Sound :
      (q : Quest) (i : ℕ) (p : QuestProgress)
      → ActiveAt char i p
      → cat p.quest_id ≡ some q
      → Sound cat char (advance_step cat codec ans char q i)
  unfolding advance_step
  advance_step-Sound q i p a c =
      let next = p.step_index +ℤ pos 1 in
      let after : leb_ℤ (pos (length q.steps)) next ≡ false
          → Good cat char
          → (get_step q.steps next ≢ none) × (int16 next ≡ next) =
        (λ more g.
          let (s, here) = active_at q i p a c g in
          next_step q.steps p.step_index s (g.0 p.quest_id q c).1 here more) in
      rw (a.0) (
        if-cases (Sound cat char) (leb_ℤ (pos (length q.steps)) next)
          (λ last. complete-Sound q i p a)
          (λ more. elim (Option-cases (get_step q.steps next)) [
            | inl e ↦ rw e (unchanged-Sound panics (λ g. absurd ((after more g).0 e)))
            | inr (s, e) ↦ rw e (
                recorded-Sound _ (
                  moves i p _ a refl (λ g. (q, s, c, ap (get_step q.steps) (after more g).1 ∙ e))
                    a.1))
          ]))

  pub accept-Sound : (quest_id : Bytes) → Sound cat char (accept_quest cat codec ans char quest_id)
  unfolding accept_quest
  accept-Sound quest_id = elim (Option-cases (cat quest_id)) [
    | inl e ↦ rw e (unchanged-Sound done (λ g h. cc))
    | inr (q, e) ↦ rw e (
        if-cases (Sound cat char) (not ans.reads) (λ h. unchanged-Sound failed (λ g k. cc))
          (λ h.
            if-cases (Sound cat char) (has_quest char.quest_log quest_id)
              (λ g. unchanged-Sound done (λ k m. cc))
              (λ new. elim (Option-cases (get_step q.steps (pos 0))) [
                | inl f ↦ rw f (unchanged-Sound panics (λ g k. cc ((g.0 quest_id q e).0.1, f)))
                | inr (s, f) ↦ rw f (recorded-Sound _ (joins _ new (λ g. (q, s, e, f)) refl))
              ])))
  ]

  pub abandon-Sound :
      (quest_id : Bytes) → Sound cat char (abandon_quest cat codec ans char quest_id)
  unfolding abandon_quest
  abandon-Sound quest_id =
      if-cases (Sound cat char) (not ans.reads) (λ h. unchanged-Sound failed (λ g k. cc))
        (λ h. elim (Option-cases (find_active 0 char.quest_log quest_id)) [
          | inl e ↦ rw e (unchanged-Sound done (λ g k. cc))
          | inr (idx, e) ↦
              let (j, p, at, get, id, on) = find_active_lem 0 char.quest_log quest_id idx e in
              let here : j ≡ idx = omega (arith, at) in
              rw e (recorded-Sound _ (leaves idx p (subst (λ k. ActiveAt char k p) here (get, on))))
        ])

  pub advance-Sound :
      (test : Step → Bool) (quest_id : Bytes)
      → Sound cat char (advance_from cat codec ans char test quest_id (cat quest_id))
  advance-Sound test quest_id = elim (Option-cases (cat quest_id)) [
    | inl e ↦ rw e (unchanged-Sound done (λ g h. cc))
    | inr (q, e) ↦ rw e (
        if-cases (Sound cat char) (not ans.reads) (λ h. unchanged-Sound failed (λ g k. cc))
          (λ h. elim (Option-cases (find_active 0 char.quest_log quest_id)) [
            | inl f ↦ rw f (unchanged-Sound done (λ g k. cc))
            | inr (idx, f) ↦
                let (j, p, at, get, id, on) = find_active_lem 0 char.quest_log quest_id idx f in
                let here : j ≡ idx = omega (arith, at) in
                let a : ActiveAt char idx p = subst (λ k. ActiveAt char k p) here (get, on) in
                let known : cat p.quest_id ≡ some q = ap cat id ∙ e in
                elim (Option-cases (get_step q.steps p.step_index)) [
                  | inl off ↦
                      rw (f, a.0, off)
                        (unchanged-Sound panics (λ g k. cc ((active_at q idx p a known g).1, off)))
                  | inr (s, step) ↦
                      rw (f, a.0, step)
                        (if-cases (Sound cat char) (test s)
                          (λ t. advance_step-Sound q idx p a known)
                          (λ t. unchanged-Sound done (λ g k. cc)))
                ]
          ]))
  ]

-- ===== src/Quest/Entries.antt =====
-- A quest log of internal/quest/engine.go with an entry added, taken out or set.
use mathlib.Core.Path.{subst}
use wheel_mud.Base.{
  ℕ, zero, suc, ◌≡◌, ◌⊎◌, inl, inr, ◌∙◌, ap, refl, sym, Bool, true, false, ◌||◌, some, List, [],
  ◌∷◌, ◌++◌, arith, get_elem?, take, drop, if◌then◌else◌, if-cases, Bool-cases,
}
use wheel_mud.Base.Text.{Bytes, same, same_iff}
use wheel_mud.Quest.{QuestProgress, set_at, has_quest}

-- No quest stands in the log twice.
abbrev pub Once : List QuestProgress → Type 0
Once [] = Unit
Once (p ∷ log) = (has_quest log p.quest_id ≡ false) × Once log

unfoldable pub completed_count : List QuestProgress → ℕ
completed_count [] = 0
completed_count (p ∷ log) = let rest = completed_count log in if p.completed then suc rest else rest

unfoldable pub has_completed : List QuestProgress → Bytes → Bool
has_completed [] quest_id = false
has_completed (p ∷ log) quest_id =
    let rest = has_completed log quest_id in
    if same p.quest_id quest_id then p.completed || rest else rest

module _ (p : QuestProgress) (off : p.completed ≡ false) where
  pub added_entry :
      (log : List QuestProgress) (i : ℕ) (r : QuestProgress)
      → get_elem? (log ++ p ∷ []) i ≡ some r
      → (get_elem? log i ≡ some r) ⊎ (p ≡ r)
  added_entry [] zero r h = inr cc
  added_entry [] (suc i) r h = inl h
  added_entry (q ∷ log) zero r h = inl h
  added_entry (q ∷ log) (suc i) r h = added_entry log i r h

  has_quest-added :
      (log : List QuestProgress) (id : Bytes)
      → has_quest (log ++ p ∷ []) id ≡ (has_quest log id || same p.quest_id id)
  unfolding has_quest
  has_quest-added [] id =
      if-cases (λ x. x ≡ same p.quest_id id) (same p.quest_id id) (λ h. sym h) (λ h. sym h)
  has_quest-added (q ∷ log) id = grind (arith, has_quest-added log id)

  same_swap : (a b : Bytes) → same a b ≡ same b a
  same_swap a b = elim (Bool-cases (same a b)) [
    | inl e ↦ e ∙ sym ((same_iff b a).1 (sym ((same_iff a b).0 e)))
    | inr e ↦ elim (Bool-cases (same b a)) [
      | inl f ↦ (same_iff a b).1 (sym ((same_iff b a).0 f)) ∙ sym f
      | inr f ↦ e ∙ sym f
    ]
  ]

  pub added-Once :
      (log : List QuestProgress)
      → has_quest log p.quest_id ≡ false
      → Once log
      → Once (log ++ p ∷ [])
  unfolding has_quest
  added-Once [] h o = (refl, tt)
  added-Once (q ∷ log) h (new, o) =
      let apart : same q.quest_id p.quest_id ≡ false = grind (arith, h) in
      let rest : has_quest log p.quest_id ≡ false = grind (arith, h) in
      (
        grind (arith, has_quest-added log q.quest_id, new, apart, same_swap p.quest_id q.quest_id),
        added-Once log rest o,
      )

  pub added-count :
      (log : List QuestProgress) → completed_count (log ++ p ∷ []) ≡ completed_count log
  unfolding completed_count
  added-count [] = rw off refl
  added-count (q ∷ log) = rw (added-count log) refl

  pub has_completed-added :
      (log : List QuestProgress) (id : Bytes)
      → has_completed log id ≡ true
      → has_completed (log ++ p ∷ []) id ≡ true
  unfolding has_completed
  has_completed-added [] id h = cc
  has_completed-added (q ∷ log) id h = elim (Bool-cases (has_completed log id)) [
    | inl k ↦ let more = has_completed-added log id k in grind (arith, h, more)
    | inr k ↦ grind (arith, h, k)
  ]

  -- The log without an entry.
  pub cut_entry :
      (v : ℕ) (log : List QuestProgress) (i : ℕ) (r : QuestProgress)
      → get_elem? (take v log ++ drop (suc v) log) i ≡ some r
      → (k : ℕ) × (get_elem? log k ≡ some r)
  cut_entry zero [] i r h = (i, h)
  cut_entry (suc v) [] i r h = (i, h)
  cut_entry zero (q ∷ log) i r h = (suc i, h)
  cut_entry (suc v) (q ∷ log) zero r h = (0, h)
  cut_entry (suc v) (q ∷ log) (suc i) r h = let (k, e) = cut_entry v log i r h in (suc k, e)

  cut_has :
      (v : ℕ) (log : List QuestProgress) (id : Bytes)
      → has_quest log id ≡ false
      → has_quest (take v log ++ drop (suc v) log) id ≡ false
  unfolding has_quest
  cut_has zero [] id h = refl
  cut_has (suc v) [] id h = refl
  cut_has zero (q ∷ log) id h = grind (arith, h)
  cut_has (suc v) (q ∷ log) id h =
      let rest : has_quest log id ≡ false = grind (arith, h) in
      let cut = cut_has v log id rest in grind (arith, h, cut)

  pub cut-Once :
      (v : ℕ) (log : List QuestProgress) → Once log → Once (take v log ++ drop (suc v) log)
  cut-Once zero [] o = tt
  cut-Once (suc v) [] o = tt
  cut-Once zero (q ∷ log) (new, o) = o
  cut-Once (suc v) (q ∷ log) (new, o) = (cut_has v log q.quest_id new, cut-Once v log o)

  pub cut-count :
      (v : ℕ) (log : List QuestProgress)
      → get_elem? log v ≡ some p
      → completed_count (take v log ++ drop (suc v) log) ≡ completed_count log
  unfolding completed_count
  cut-count v [] h = cc
  cut-count zero (q ∷ log) h =
      let here : p ≡ q = cc in
      let over : q.completed ≡ false =
        subst (λ (r : QuestProgress). r.completed ≡ false) here off in
      sym (
        if-cases (λ x. x ≡ completed_count log) q.completed
          (λ g. let impossible : ⊥ = cc (g, over) in elim impossible [ ]) (λ g. refl))
  cut-count (suc v) (q ∷ log) h = ap (λ n. if q.completed then suc n else n) (cut-count v log h)

  pub has_completed-cut :
      (v : ℕ) (log : List QuestProgress) (id : Bytes)
      → get_elem? log v ≡ some p
      → has_completed log id ≡ true
      → has_completed (take v log ++ drop (suc v) log) id ≡ true
  unfolding has_completed
  has_completed-cut v [] id h c = cc
  has_completed-cut zero (q ∷ log) id h c =
      let here : p ≡ q = cc in
      let over : q.completed ≡ false =
        subst (λ (r : QuestProgress). r.completed ≡ false) here off in
      grind (arith, c, over)
  has_completed-cut (suc v) (q ∷ log) id h c = elim (Bool-cases (has_completed log id)) [
    | inl k ↦ let more = has_completed-cut v log id h k in grind (arith, c, more)
    | inr k ↦ grind (arith, c, k)
  ]

  -- The log with another entry of the same quest at `v`.
  pub set_entry :
      (p' : QuestProgress) (v : ℕ) (log : List QuestProgress) (i : ℕ) (r : QuestProgress)
      → get_elem? (set_at v p' log) i ≡ some r
      → ((k : ℕ) × (get_elem? log k ≡ some r)) ⊎ (p' ≡ r)
  set_entry p' v [] i r h = inl (i, h)
  set_entry p' zero (q ∷ log) zero r h = inr cc
  set_entry p' zero (q ∷ log) (suc i) r h = inl (suc i, h)
  set_entry p' (suc v) (q ∷ log) zero r h = inl (0, h)
  set_entry p' (suc v) (q ∷ log) (suc i) r h = elim (set_entry p' v log i r h) [
    | inl (k, e) ↦ inl (suc k, e)
    | inr e ↦ inr e
  ]

  set_has :
      (p' : QuestProgress) (v : ℕ) (log : List QuestProgress) (id : Bytes)
      → p'.quest_id ≡ p.quest_id
      → get_elem? log v ≡ some p
      → has_quest (set_at v p' log) id ≡ has_quest log id
  unfolding has_quest
  set_has p' v [] id e h = cc
  set_has p' zero (q ∷ log) id e h =
      let here : p ≡ q = cc in
      let key : p'.quest_id ≡ q.quest_id = e ∙ ap (λ (r : QuestProgress). r.quest_id) here in
      ap (λ k. if same k id then true else has_quest log id) key
  set_has p' (suc v) (q ∷ log) id e h =
      ap (λ b. if same q.quest_id id then true else b) (set_has p' v log id e h)

  pub set-Once :
      (p' : QuestProgress) (v : ℕ) (log : List QuestProgress)
      → p'.quest_id ≡ p.quest_id
      → get_elem? log v ≡ some p
      → Once log
      → Once (set_at v p' log)
  set-Once p' v [] e h o = tt
  set-Once p' zero (q ∷ log) e h (new, o) =
      let here : p ≡ q = cc in
      let key : q.quest_id ≡ p'.quest_id = sym (e ∙ ap (λ (r : QuestProgress). r.quest_id) here) in
      (ap (has_quest log) (sym key) ∙ new, o)
  set-Once p' (suc v) (q ∷ log) e h (new, o) =
      (set_has p' v log q.quest_id e h ∙ new, set-Once p' v log e h o)

  pub set-count :
      (p' : QuestProgress) (v : ℕ) (log : List QuestProgress)
      → get_elem? log v ≡ some p
      → completed_count (set_at v p' log)
        ≡ (if p'.completed then suc (completed_count log) else completed_count log)
  unfolding completed_count
  set-count p' v [] h = cc
  set-count p' zero (q ∷ log) h =
      let here : p ≡ q = cc in
      let over : q.completed ≡ false =
        subst (λ (r : QuestProgress). r.completed ≡ false) here off in
      grind (arith, over)
  set-count p' (suc v) (q ∷ log) h = let rest = set-count p' v log h in ground (arith, rest)

  pub has_completed-set :
      (p' : QuestProgress) (v : ℕ) (log : List QuestProgress) (id : Bytes)
      → p'.quest_id ≡ p.quest_id
      → get_elem? log v ≡ some p
      → has_completed log id ≡ true
      → has_completed (set_at v p' log) id ≡ true
  unfolding has_completed
  has_completed-set p' v [] id e h c = cc
  has_completed-set p' zero (q ∷ log) id e h c =
      let here : p ≡ q = cc in
      let over : q.completed ≡ false =
        subst (λ (r : QuestProgress). r.completed ≡ false) here off in
      let rest : has_completed log id ≡ true = grind (arith, c, over) in grind (arith, rest)
  has_completed-set p' (suc v) (q ∷ log) id e h c = elim (Bool-cases (has_completed log id)) [
    | inl k ↦ let more = has_completed-set p' v log id e h k in grind (arith, c, more)
    | inr k ↦ grind (arith, c, k)
  ]

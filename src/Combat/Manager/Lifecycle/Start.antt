-- ===== src/Combat/Manager/Lifecycle/Start.antt =====
-- A fight that `Start` of internal/combat/manager.go has opened.
use mathlib.Core.Path.{subst}
use mathlib.Core.List
use mathlib.Core.List.{Perm, append_assoc, append-nil}
use mathlib.Core.List.Perm
use wheel_mud.Base.{
  ℕ, ◌≡◌, inl, inr, refl, ◌∙◌, sym, ap, Bool, true, false, ◌&&◌, none, some, List, [], ◌∷◌, ◌++◌,
  arith, ◌==◌, leb, Option-cases, is_some,
}
use wheel_mud.Base.Dict
use wheel_mud.Base.Dict.{Dict}
use wheel_mud.Combat.Refs.{ActorRef}
use wheel_mud.Combat.Fight.{ActorEntry, Fight, acts_before, sort_initiative}
use wheel_mud.Combat.Fight.Prune.{refs}
use wheel_mud.Combat.Fight.Turns.{NoneBefore, InOrder, sort_initiative_lem}
use wheel_mud.Combat.Manager.{State, Engine, with_world}
use wheel_mud.Combat.Manager.Pulse.Stamps.{due_refs}
use wheel_mud.Combat.Manager.Lifecycle.{
  Outcome, done, all_at, open_fight, roll_initiative, roll_all, open_room, start,
}

refs-append : (a b : List ActorEntry) → refs (a ++ b) ≡ refs a ++ refs b
refs-append [] b = refl
refs-append (x ∷ a) b = ap (λ l. x.ref ∷ l) (refs-append a b)

refs-map : (l : List ActorEntry) → refs l ≡ List.map (λ x. x.ref) l
refs-map [] = refl
refs-map (x ∷ l) = ap (λ r. x.ref ∷ r) (refs-map l)

refs-Perm : (a b : List ActorEntry) → Perm a b → Perm (refs a) (refs b)
refs-Perm a b p =
    subst (λ l. Perm l (refs b)) (sym (refs-map a))
      (subst (Perm (List.map (λ x. x.ref) a)) (sym (refs-map b)) (Perm.map (λ x. x.ref) p))

refs-all_at : (t : ℕ) (l : List ActorEntry) → refs (all_at t l) ≡ refs l
unfolding all_at
refs-all_at t [] = refl
refs-all_at t (x ∷ l) = ap (λ r. x.ref ∷ r) (refs-all_at t l)

-- At the time that all entries have, or later, all are due.
due_refs-all_at :
    (t now : ℕ) (l : List ActorEntry) → leb t now ≡ true → due_refs now (all_at t l) ≡ refs l
unfolding all_at
due_refs-all_at t now [] h = refl
due_refs-all_at t now (x ∷ l) h = rw (h) (ap (λ r. x.ref ∷ r) (due_refs-all_at t now l h))

module _ {W : Type 0} (e : Engine W) where
  -- All participants can be found.
  abbrev pub all_found : W → List ActorRef → Bool
  all_found w [] = true
  all_found w (p ∷ ps) = is_some (e.core_of w p) && all_found w ps

  -- The dice change nobody.
  abbrev pub DiceKeep : Type 0
  DiceKeep = (k : ℕ) (w : W) (ref : ActorRef) → e.core_of (e.intn k w).1 ref ≡ e.core_of w ref

  all_found-intn :
      DiceKeep
      → (k : ℕ) (w : W) (ps : List ActorRef) → all_found w ps ≡ true
      → all_found (e.intn k w).1 ps ≡ true
  all_found-intn keep k w [] h = refl
  all_found-intn keep k w (p ∷ ps) h = ground (arith, h, keep k w p, all_found-intn keep k w ps)

  roll_all_lem :
      DiceKeep
      → (ps : List ActorRef) (entries : List ActorEntry) (w : W) → all_found w ps ≡ true
      → ((roll_all e ps entries w).0 ≡ none)
        × (refs (roll_all e ps entries w).1 ≡ refs entries ++ ps)
  unfolding roll_all roll_initiative
  roll_all_lem keep [] entries w h = (refl, sym (append-nil (refs entries)))
  roll_all_lem keep (p ∷ ps) entries w h = elim (Option-cases (e.core_of w p)) [
    | inl gone ↦ ground (arith, h, gone)
    | inr (core, here) ↦
        let entry = (roll_initiative e p core w).0 in
        let w' = (roll_initiative e p core w).1 in
        let later : all_found w ps ≡ true = ground (arith, h) in
        let (missing, rolled) =
          roll_all_lem keep ps (entries ++ entry ∷ []) w' (all_found-intn keep 20 w ps later) in
        rw (roll_all, here)
          (
            missing,
            rolled
                ∙ ap (λ l. l ++ ps) (refs-append entries (entry ∷ []))
                ∙ append_assoc (refs entries) (p ∷ []) ps,
          )
  ]

NoneBefore-all_at :
    (t : ℕ) (a : ActorEntry) (l : List ActorEntry)
    → NoneBefore a l
    → NoneBefore (record a { next_act_at = t }) (all_at t l)
unfolding all_at acts_before
NoneBefore-all_at t a [] h = tt
NoneBefore-all_at t a (x ∷ l) (h, hs) = (h, NoneBefore-all_at t a l hs)

InOrder-all_at : (t : ℕ) (l : List ActorEntry) → InOrder l → InOrder (all_at t l)
unfolding all_at
InOrder-all_at t [] h = tt
InOrder-all_at t (x ∷ l) (h, hs) = (NoneBefore-all_at t x l h, InOrder-all_at t l hs)

-- What `Start` has done in a room for the participants `ps`.
pub record Started {W : Type 0} (e : Engine W) (room : ℕ) (ps : List ActorRef) (before : Dict Fight)
    (r : Outcome × State W) : Type 0 where
  pub fight : Fight
  pub ended : r.0 ≡ done
  pub there : Dict.lookup room r.1.fights ≡ some fight
  pub round : fight.round ≡ 0
  pub sorted : InOrder fight.order
  pub everyone : Perm (refs fight.order) ps
  pub ready :
      (now : ℕ) → leb (e.now r.1.world) now ≡ true → due_refs now fight.order ≡ refs fight.order
  pub elsewhere :
      (at : ℕ) → (room == at) ≡ false → Dict.lookup at r.1.fights ≡ Dict.lookup at before

module _ {W : Type 0} (e : Engine W) where
  open_room-Started :
      (room : ℕ) (ps : List ActorRef) (entries : List ActorEntry) (s : State W)
      → refs entries ≡ ps
      → Dict.lookup room s.fights ≡ none
      → Started e room ps s.fights (open_room e room entries s)
  unfolding open_room
  open_room-Started room ps entries s same free =
      let t = e.now s.world in
      let order = all_at t (sort_initiative entries) in
      let (sorted, perm) = sort_initiative_lem entries in
      rw (open_room, free)
        record {
          fight = open_fight room t order;
          ended = refl;
          there = ground (arith, Dict.lookup-insert room room (open_fight room t order) s.fights);
          round = refl;
          sorted = InOrder-all_at t (sort_initiative entries) sorted;
          everyone = subst (Perm (refs order)) same (
              subst (λ l. Perm l (refs entries)) (sym (refs-all_at t (sort_initiative entries)))
                (refs-Perm (sort_initiative entries) entries perm));
          ready = (λ now h.
              due_refs-all_at t now (sort_initiative entries) h
              ∙ sym (refs-all_at t (sort_initiative entries)));
          elsewhere = (λ at apart.
              Dict.lookup-insert room at (open_fight room t order) s.fights ∙ rw (apart) refl);
        }

  -- Where rolling dice changes no combatant, every participant can be found, there is one at least, and
  -- the room has no fight, `Start` ends without an error. Then the room has a fight in round 0 with
  -- exactly these participants, in the order in which they act, and from its start on all of them are
  -- due; the fights of other rooms are as they were.
  pub start-Started :
      DiceKeep e
      → (room : ℕ) (p : ActorRef) (ps : List ActorRef) (s : State W)
      → all_found e s.world (p ∷ ps) ≡ true
      → Dict.lookup room s.fights ≡ none
      → Started e room (p ∷ ps) s.fights (start e room (p ∷ ps) s)
  unfolding start
  start-Started keep room p ps s found free =
      let (missing, rolled) = roll_all_lem e keep (p ∷ ps) [] s.world found in
      let entries = (roll_all e (p ∷ ps) [] s.world).1 in
      let w = (roll_all e (p ∷ ps) [] s.world).2 in
      rw (start, missing) (open_room-Started room (p ∷ ps) entries (with_world w s) rolled free)

-- ===== src/Combat/Fight/Prune.antt =====
-- `pruneDead` of internal/combat/fight.go.
use mathlib.Core.List.{append-nil, append_assoc}
use wheel_mud.Base.{
  ◌≡◌, inl, inr, ◌∙◌, refl, sym, ap, Bool, true, false, ◌&&◌, ◌||◌, Option, none, some, List, [],
  ◌∷◌, ◌++◌, arith, ◌==◌, if◌then◌else◌, Bool-cases, Option-cases, length, eq_nil_of_length,
}
use wheel_mud.Base.Int.{ℤ}
use wheel_mud.Combat.Refs.{
  ActorRef, same_ref, same_ref_iff, member, lookup, erase, lookup-erase, lookup-each,
}
use wheel_mud.Combat.Fight.{ActorEntry, Fight, removed, forget, prune_loop, prune_dead}

-- The threat that `attacker` has made against `defender`.
abbrev pub threat_between : Fight → ActorRef → ActorRef → Option ℤ
threat_between f defender attacker = elim (lookup defender f.threat) [
  | none ↦ none
  | some row ↦ lookup attacker row
]

abbrev pub refs : List ActorEntry → List ActorRef
refs [] = []
refs (e ∷ es) = e.ref ∷ refs es

abbrev pub kept_of : (ActorRef → Bool) → List ActorEntry → List ActorEntry
kept_of gone [] = []
kept_of gone (e ∷ es) = if gone e.ref then kept_of gone es else e ∷ kept_of gone es

-- What the prune takes away of a map keyed by combatants.
abbrev pub unless_gone {ℓ} : {V : Type ℓ} → Bool → Option V → Option V
unless_gone gone o = if gone then none else o

forget-threat :
    (ref d a : ActorRef) (f : Fight)
    → threat_between (forget ref f) d a
      ≡ unless_gone (same_ref ref d || same_ref ref a) (threat_between f d a)
unfolding forget
forget-threat ref d a f = elim (Option-cases (lookup d f.threat)) [
  | inl e ↦
      ground (arith, lookup-each (erase ref) d (erase ref f.threat), lookup-erase ref d f.threat, e)
  | inr (row, e) ↦ ground (
    arith,
    lookup-each (erase ref) d (erase ref f.threat),
    lookup-erase ref d f.threat,
    e,
    lookup-erase ref a row,
  )
]

-- Whether a combatant is taken away: it is to go, and it stands in the order.
abbrev pub leaves : (ActorRef → Bool) → List ActorEntry → ActorRef → Bool
leaves gone es r = gone r && member r (refs es)

-- What the loop makes of the fight `f`.
pub record Pruned (gone : ActorRef → Bool) (es : List ActorEntry) (f g : Fight) : Type 0 where
  pub parrying :
      (r : ActorRef)
      → lookup r g.parrying_until ≡ unless_gone (leaves gone es r) (lookup r f.parrying_until)
  pub flat_footed :
      (r : ActorRef)
      → lookup r g.flat_footed_until ≡ unless_gone (leaves gone es r) (lookup r f.flat_footed_until)
  pub dodging :
      (r : ActorRef)
      → lookup r g.dodge_until ≡ unless_gone (leaves gone es r) (lookup r f.dodge_until)
  pub threats :
      (d a : ActorRef)
      → threat_between g d a
        ≡ unless_gone (leaves gone es d || leaves gone es a) (threat_between f d a)

module _ {ℓ} {V : Type ℓ} where
  -- One entry that goes, and then the rest.
  leaves-head :
      (gone : ActorRef → Bool) (e : ActorEntry) (es : List ActorEntry) (r : ActorRef)
      (o o' : Option V)
      → gone e.ref ≡ true
      → o ≡ unless_gone (same_ref e.ref r) o'
      → unless_gone (leaves gone es r) o ≡ unless_gone (leaves gone (e ∷ es) r) o'
  leaves-head gone e es r o o' g h = elim (Bool-cases (same_ref e.ref r)) [
    | inl same ↦
        let gone_r : gone r ≡ true = sym (ap gone ((same_ref_iff e.ref r).0 same)) ∙ g in
        ground (arith, h, same, gone_r)
    | inr apart ↦ ground (arith, h, apart)
  ]

leaves-stay :
    (gone : ActorRef → Bool) (e : ActorEntry) (es : List ActorEntry) (r : ActorRef)
    → gone e.ref ≡ false
    → leaves gone (e ∷ es) r ≡ leaves gone es r
leaves-stay gone e es r g = elim (Bool-cases (same_ref e.ref r)) [
  | inl same ↦
      let gone_r : gone r ≡ false = sym (ap gone ((same_ref_iff e.ref r).0 same)) ∙ g in
      ground (arith, gone_r)
  | inr apart ↦ ground (arith, apart)
]

leaves-forget :
    (gone : ActorRef → Bool) (e : ActorEntry) (es : List ActorEntry) (d a : ActorRef)
    (o o' : Option ℤ)
    → gone e.ref ≡ true
    → o ≡ unless_gone (same_ref e.ref d || same_ref e.ref a) o'
    → unless_gone (leaves gone es d || leaves gone es a) o
      ≡ unless_gone (leaves gone (e ∷ es) d || leaves gone (e ∷ es) a) o'
leaves-forget gone e es d a o o' g h = elim (Bool-cases (same_ref e.ref d)) [
  | inl same ↦
      let gone_d : gone d ≡ true = sym (ap gone ((same_ref_iff e.ref d).0 same)) ∙ g in
      ground (arith, h, same, gone_d)
  | inr apart ↦ elim (Bool-cases (same_ref e.ref a)) [
    | inl same ↦
        let gone_a : gone a ≡ true = sym (ap gone ((same_ref_iff e.ref a).0 same)) ∙ g in
        ground (arith, h, same, apart, gone_a)
    | inr apart' ↦ ground (arith, h, apart, apart')
  ]
]

forget-Pruned :
    (gone : ActorRef → Bool) (e : ActorEntry) (es : List ActorEntry) (f g : Fight)
    → gone e.ref ≡ true
    → Pruned gone es (forget e.ref f) g
    → Pruned gone (e ∷ es) f g
unfolding forget
forget-Pruned gone e es f g goes rest = record {
  parrying = (λ r.
      rest.parrying r ∙ leaves-head gone e es r _ _ goes (lookup-erase e.ref r f.parrying_until));
  flat_footed = (λ r.
      rest.flat_footed r
      ∙ leaves-head gone e es r _ _ goes (lookup-erase e.ref r f.flat_footed_until));
  dodging =
      (λ r. rest.dodging r ∙ leaves-head gone e es r _ _ goes (lookup-erase e.ref r f.dodge_until));
  threats =
      (λ d a. rest.threats d a ∙ leaves-forget gone e es d a _ _ goes (forget-threat e.ref d a f));
}

stay-Pruned :
    (gone : ActorRef → Bool) (e : ActorEntry) (es : List ActorEntry) (f g : Fight)
    → gone e.ref ≡ false
    → Pruned gone es f g
    → Pruned gone (e ∷ es) f g
stay-Pruned gone e es f g stays rest = record {
  parrying = (λ r. rest.parrying r ∙ rw (leaves-stay gone e es r stays) refl);
  flat_footed = (λ r. rest.flat_footed r ∙ rw (leaves-stay gone e es r stays) refl);
  dodging = (λ r. rest.dodging r ∙ rw (leaves-stay gone e es r stays) refl);
  threats = (λ d a.
      rest.threats d a ∙ rw (leaves-stay gone e es d stays, leaves-stay gone e es a stays) refl);
}

-- The fields that the loop sets, and those that it leaves alone.
abbrev pub Ordered : (ActorRef → Bool) → List ActorEntry → List ActorEntry → Fight → Fight → Type 0
Ordered gone es out f g =
    (g.order ≡ out ++ kept_of gone es)
    × (g.dead ≡ [])
    × (g.fled ≡ [])
    × (g.actions ≡ f.actions)
    × (g.damage_tally ≡ f.damage_tally)
    × (g.round ≡ f.round)

prune_loop-Pruned :
    (gone : ActorRef → Bool) (es out : List ActorEntry) (f : Fight)
    → Pruned gone es f (prune_loop gone es out f) × Ordered gone es out f (prune_loop gone es out f)
unfolding prune_loop forget
prune_loop-Pruned gone [] out f = (
  record {
    parrying = (λ r. ground arith);
    flat_footed = (λ r. ground arith);
    dodging = (λ r. ground arith);
    threats = (λ d a. ground arith);
  },
  (sym (append-nil out), refl, refl, refl, refl, refl),
)
prune_loop-Pruned gone (e ∷ es) out f = elim (Bool-cases (gone e.ref)) [
  | inl g ↦
      let (rest, ordered) = prune_loop-Pruned gone es out (forget e.ref f) in
      rw (g, prune_loop) (forget-Pruned gone e es f _ g rest, ordered)
  | inr g ↦
      let (rest, ordered) = prune_loop-Pruned gone es (out ++ e ∷ []) f in
      let (order, dead, fled, actions, tally, round) = ordered in
      rw (g, prune_loop)
        (
          stay-Pruned gone e es f _ g rest,
          (order ∙ append_assoc out (e ∷ []) (kept_of gone es), dead, fled, actions, tally, round),
        )
]

no_one : (f : Fight) → length f.dead ≡ 0 → length f.fled ≡ 0 → (r : ActorRef) → removed f r ≡ false
no_one f d e r =
    let none_dead : f.dead ≡ [] = eq_nil_of_length f.dead d in
    let none_fled : f.fled ≡ [] = eq_nil_of_length f.fled e in ground (arith, none_dead, none_fled)

kept_of-all :
    (gone : ActorRef → Bool) (es : List ActorEntry)
    → ((r : ActorRef) → gone r ≡ false)
    → kept_of gone es ≡ es
kept_of-all gone [] h = refl
kept_of-all gone (e ∷ es) h = rw (h e.ref, kept_of-all gone es h) refl

-- What `pruneDead` leaves: the order without the dead and the fled, in the same sequence; no stance and
-- no threat of or against those that stood in it, and all stances and threats of the others as they
-- were; nobody dead or fled; the queued actions, the tally and the round as they were.
pub prune_dead_lem :
    (f : Fight)
    → Pruned (removed f) f.order f (prune_dead f).0
      × Ordered (removed f) f.order [] f (prune_dead f).0
unfolding prune_dead
prune_dead_lem f = elim (Bool-cases ((length f.dead == 0) && (length f.fled == 0))) [
  | inl e ↦
      let no_dead : length f.dead ≡ 0 = ground (arith, e) in
      let no_fled : length f.fled ≡ 0 = ground (arith, e) in
      let nobody = no_one f no_dead no_fled in
      rw (e, prune_dead)
        (
          record {
            parrying = (λ r. ground (arith, nobody r));
            flat_footed = (λ r. ground (arith, nobody r));
            dodging = (λ r. ground (arith, nobody r));
            threats = (λ d a. ground (arith, nobody d, nobody a));
          },
          (
            sym (kept_of-all (removed f) f.order nobody),
            eq_nil_of_length f.dead no_dead,
            eq_nil_of_length f.fled no_fled,
            refl,
            refl,
            refl,
          ),
        )
  | inr e ↦ rw (e, prune_dead) (prune_loop-Pruned (removed f) f.order [] f)
]

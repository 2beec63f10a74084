-- ===== src/Affects/Applying.antt =====
-- The promises of `Apply` of internal/affects/affects.go.
use mathlib.Core.Path.{subst}
use wheel_mud.Base.{
  ℕ, suc, ◌+◌, ◌≤◌, ◌<◌, ◌≡◌, ◌⊎◌, inl, inr, ◌∙◌, ap₂, refl, sym, Bool, true, none, some, List, [],
  ◌∷◌, ◌++◌, arith, get_elem?, take, drop, ltb, if◌then◌else◌, Bool-cases, Option-cases,
}
use wheel_mud.Base.Int.{ℤ, ◌==ℤ◌, ==ℤ_iff}
use wheel_mud.Base.Text.{Bytes, same, same_iff}
use wheel_mud.Affects.{Affect, max_affects_per_name, refresh, name_count, evict_for_name, apply}
use wheel_mud.Affects.Stacking.{
  count, is_key, is_name, name_count_lem, count-append, count-cut, Refreshed, refresh-Refreshed,
  find_first, Least,
}

-- What the eviction leaves: the list itself, with room, or the list without a shortest entry.
abbrev pub Evicted : List Affect → Bytes → Type 0
Evicted affects name =
    ((evict_for_name affects name ≡ affects) × (name_count affects name < max_affects_per_name))
    ⊎ ((v : ℕ) × (x : Affect) × (evict_for_name affects name
          ≡ take v affects ++ drop (suc v) affects)
        × (get_elem? affects v ≡ some x)
        × (x.name ≡ name)
        × Least name affects x.duration_ticks)

pub evict_lem : (affects : List Affect) (name : Bytes) → Evicted affects name
unfolding evict_for_name
evict_lem affects name = elim (Bool-cases (ltb (name_count affects name) max_affects_per_name)) [
  | inl few ↦ inl (rw few refl, ground (arith, few))
  | inr many ↦
      let some_there : 0 < name_count affects name = ground (arith, many) in
      let (v, d, f, (j, x, at, get, is, dur), least) = find_first name 0 affects some_there in
      let here : j ≡ v = omega (arith, at) in
      inr (
        v,
        x,
        rw (many, f) refl,
        subst (λ k. get_elem? affects k ≡ some x) here get,
        (same_iff x.name name).0 is,
        subst (Least name affects) (sym dur) least,
      )
]

-- No key stands in the list twice, and no name more than four times.
pub record Inv (affects : List Affect) : Type 0 where
  pub keys : (source : ℤ) (name : Bytes) → count (is_key source name) affects ≤ 1
  pub names : (name : Bytes) → name_count affects name ≤ max_affects_per_name

pub evict-count :
    (p : ℤ → Bytes → Bool) (affects : List Affect) (name : Bytes)
    → count p (evict_for_name affects name) ≤ count p affects
evict-count p affects name = elim (evict_lem affects name) [
  | inl (e, few) ↦ rw e (omega arith)
  | inr (v, x, e, get, is, least) ↦ rw e (omega (arith, count-cut p v x affects get))
]

-- There is room for one more entry of the name behind the eviction.
evict-room :
    (affects : List Affect) (name : Bytes)
    → name_count affects name ≤ max_affects_per_name
    → name_count (evict_for_name affects name) name < max_affects_per_name
evict-room affects name h = elim (evict_lem affects name) [
  | inl (e, few) ↦ rw e few
  | inr (v, x, e, get, is, least) ↦
      let one : same x.name name ≡ true = (same_iff x.name name).1 is in
      let cut = count-cut (is_name name) v x affects get in
      rw (e, name_count_lem name (take v affects ++ drop (suc v) affects))
        (let full = name_count_lem name affects in ground (arith, h, full, cut, one))
]

appended :
    (p : ℤ → Bytes → Bool) (affects : List Affect) (a : Affect)
    → count p (affects ++ a ∷ []) ≡ count p affects + (if p a.source a.name then 1 else 0)
appended p affects a = count-append p affects (a ∷ []) ∙ (unfold count in ground arith)

refreshed_some :
    (p : ℤ → Bytes → Bool) (affects out : List Affect) (a : Affect)
    → refresh affects a ≡ some out
    → count p out ≡ count p affects
refreshed_some p affects out a e = subst (Refreshed p a affects) e (refresh-Refreshed p affects a)

pub refreshed_none :
    (affects : List Affect) (a : Affect)
    → refresh affects a ≡ none
    → count (is_key a.source a.name) affects ≡ 0
refreshed_none affects a e =
    subst (Refreshed (is_key a.source a.name) a affects) e (refresh-Refreshed _ affects a)

new-keys :
    (affects : List Affect) (a : Affect) (source : ℤ) (name : Bytes)
    → Inv affects
    → refresh affects a ≡ none
    → count (is_key source name) (evict_for_name affects a.name ++ a ∷ []) ≤ 1
new-keys affects a source name inv e =
    let sum = appended (is_key source name) (evict_for_name affects a.name) a in
    let fewer = evict-count (is_key source name) affects a.name in
    elim (Bool-cases (is_key source name a.source a.name)) [
      | inl mine ↦
          let s : (a.source ==ℤ source) ≡ true = grind (arith, mine) in
          let n : same a.name name ≡ true = grind (arith, mine) in
          let zero_now : count (is_key source name) affects ≡ 0 =
            subst (λ k. count k affects ≡ 0)
              (ap₂ is_key ((==ℤ_iff a.source source).0 s) ((same_iff a.name name).0 n))
              (refreshed_none affects a e) in
          rw sum (rw mine (omega (arith, fewer, zero_now)))
      | inr other ↦ rw sum (rw other (omega (arith, fewer, inv.keys source name)))
    ]

new-names :
    (affects : List Affect) (a : Affect) (name : Bytes)
    → Inv affects
    → name_count (evict_for_name affects a.name ++ a ∷ []) name ≤ max_affects_per_name
new-names affects a name inv =
    let sum = appended (is_name name) (evict_for_name affects a.name) a in
    let fewer = evict-count (is_name name) affects a.name in
    let whole = name_count_lem name affects in
    rw (name_count_lem name (evict_for_name affects a.name ++ a ∷ []), sum)
      (elim (Bool-cases (same a.name name)) [
        | inl mine ↦
            let left : name_count (evict_for_name affects a.name) name < max_affects_per_name =
              subst (λ n. name_count (evict_for_name affects a.name) n < max_affects_per_name)
                ((same_iff a.name name).0 mine) (evict-room affects a.name (inv.names a.name)) in
            rw mine (omega (arith, left, name_count_lem name (evict_for_name affects a.name)))
        | inr other ↦ rw other (omega (arith, fewer, whole, inv.names name))
      ])

-- `Apply` keeps the invariant: no source and name stand in the list twice, and no name more than four
-- times.
pub apply-Inv : (affects : List Affect) (a : Affect) → Inv affects → Inv (apply affects a)
unfolding apply
apply-Inv affects a inv = elim (Option-cases (refresh affects a)) [
  | inl e ↦ rw e (record {
    keys = (λ source name. new-keys affects a source name inv e);
    names = (λ name. new-names affects a name inv);
  })
  | inr (out, e) ↦ rw e (record {
    keys = (λ source name.
        rw (refreshed_some (is_key source name) affects out a e) (inv.keys source name));
    names = (λ name. omega (
      arith,
      inv.names name,
      name_count_lem name out,
      name_count_lem name affects,
      refreshed_some (is_name name) affects out a e,
    ));
  })
]

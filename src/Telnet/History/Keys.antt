-- ===== src/Telnet/History/Keys.antt =====
-- What holds of the history whatever is typed (telnet/history.go).
use wheel_mud.Base.{
  ℕ, zero, suc, ◌+◌, ◌-◌, ◌≤◌, ◌<◌, ◌≡◌, ◌≢◌, refl, Bool, true, false, Option, none, some, List, [],
  ◌∷◌, ◌++◌, arith, length, length-append, get_elem?, leb, ◌==◌, Bool-cases, inl, inr, if-cases,
}
use wheel_mud.Base.Text.{Bytes, same}
use wheel_mud.Telnet.History.{History, history_cap, reset, ends_with, tail, add, shown, prev, next}

-- No line is empty, and none is the same as the one before it.
abbrev pub Distinct : List Bytes → Type 0
Distinct [] = Unit
Distinct (e ∷ []) = e ≢ []
Distinct (e ∷ f ∷ es) = (e ≢ []) × (same e f ≡ false) × Distinct (f ∷ es)

pub record Inv (h : History) : Type 0 where
  pub in_range : h.idx ≤ length h.entries
  pub bounded : length h.entries ≤ history_cap
  pub distinct : Distinct h.entries

Distinct-tail : (es : List Bytes) → Distinct es → Distinct (tail es)
Distinct-tail [] d = tt
Distinct-tail (e ∷ []) d = tt
Distinct-tail (e ∷ f ∷ es) d = d.2

Distinct-append :
    (es : List Bytes) (line : Bytes)
    → Distinct es
    → line ≢ []
    → ends_with es line ≡ false
    → Distinct (es ++ line ∷ [])
unfolding ends_with
Distinct-append [] line d ne h = ne
Distinct-append (e ∷ []) line d ne h = (d, h, ne)
Distinct-append (e ∷ f ∷ es) line d ne h = (d.0, d.1, Distinct-append (f ∷ es) line d.2 ne h)

ends_with-tail :
    (es : List Bytes) (line : Bytes) → ends_with es line ≡ false → ends_with (tail es) line ≡ false
unfolding ends_with
ends_with-tail [] line h = h
ends_with-tail (e ∷ []) line h = refl
ends_with-tail (e ∷ f ∷ es) line h = h

length-tail : (es : List Bytes) → length (tail es) ≡ length es - 1
length-tail [] = omega arith
length-tail (e ∷ es) = omega arith

grown :
    (h : History) (es : List Bytes) (line : Bytes)
    → Distinct es
    → line ≢ []
    → ends_with es line ≡ false
    → length es < history_cap
    → Inv (reset (record h { entries = es ++ line ∷ [] }))
unfolding reset
grown h es line d ne new fits = record {
  in_range = omega arith;
  bounded = omega (arith, length-append es (line ∷ []));
  distinct = Distinct-append es line d ne new;
}

add-Inv : (h : History) (line : Bytes) → Inv h → Inv (add h line)
unfolding add
add-Inv h [] v =
    unfold reset in record { in_range = omega arith; bounded = v.bounded; distinct = v.distinct }
add-Inv h (c ∷ line) v =
    if-cases Inv (ends_with h.entries (c ∷ line))
      (λ _. record { in_range = omega arith; bounded = v.bounded; distinct = v.distinct })
      λ new. elim (Bool-cases (length h.entries == history_cap)) [
        | inl full ↦ rw full (
            grown h (tail h.entries) (c ∷ line) (Distinct-tail h.entries v.distinct) (λ e. cc)
              (ends_with-tail h.entries (c ∷ line) new)
              (ground (arith, length-tail h.entries, v.bounded)))
        | inr room ↦
            rw room
              (grown h h.entries (c ∷ line) v.distinct (λ e. cc) new (ground (arith, v.bounded)))
      ]

pub get_elem?-some :
    (xs : List Bytes) (i : ℕ) → i < length xs → (x : Bytes) × (get_elem? xs i ≡ some x)
get_elem?-some [] i h = elim h [ ]
get_elem?-some (x ∷ xs) zero h = (x, refl)
get_elem?-some (x ∷ xs) (suc i) h = get_elem?-some xs i (omega arith)

-- What is typed: a line, and the two arrow keys, the first with the buffer as it stands.
pub data Key : Type 0 where
  enters up : Bytes → Key
  down : Key

abbrev after : Option (History × Bytes × Bool) → Option History
after none = none
after (some (h, _, _)) = some h

unfoldable pub press : History → Key → Option History
press h (enters line) = some (add h line)
press h (up live) = after (prev h live)
press h down = after (next h)

abbrev pub Safe : Option History → Type 0
Safe none = ⊥
Safe (some h) = Inv h

shown-Safe : (h : History) → Inv h → h.idx < length h.entries → Safe (after (shown h))
shown-Safe h v lt =
    let (x, e) = get_elem?-some h.entries h.idx lt in
    let p : shown h ≡ some (h, x, true) = ground (arith, e) in rw p v

prev-Safe : (h : History) (live : Bytes) → Inv h → Safe (after (prev h live))
unfolding prev
prev-Safe h live v =
    if-cases (λ r. Safe (after r)) (length h.entries == 0) (λ _. v)
      λ some_entry.
        if-cases (λ r. Safe (after r)) (h.idx == 0)
          (λ first. elim (Bool-cases (h.idx == length h.entries)) [
            | inl b ↦ absurd (ground arith)
            | inr b ↦ rw b (shown-Safe h v (ground arith))
          ])
          λ later. elim (Bool-cases (h.idx == length h.entries)) [
            | inl b ↦ rw b (
                shown-Safe (record h { idx = h.idx - 1; draft = live }) (moved live)
                  (ground (arith, v.in_range)))
            | inr b ↦ rw b (
                shown-Safe (record h { idx = h.idx - 1 }) (moved h.draft)
                  (ground (arith, v.in_range)))
          ]
  where
    moved : (d : Bytes) → Inv (record h { idx = h.idx - 1; draft = d })
    moved d = record {
      in_range = omega (arith, v.in_range);
      bounded = v.bounded;
      distinct = v.distinct;
    }

next-Safe : (h : History) → Inv h → Safe (after (next h))
unfolding next
next-Safe h v =
    if-cases (λ r. Safe (after r)) (leb (length h.entries) h.idx) (λ _. v)
      λ inside.
        if-cases (λ r. Safe (after r)) (h.idx + 1 == length h.entries)
          (λ last. record { in_range = ground arith; bounded = v.bounded; distinct = v.distinct })
          λ more.
            shown-Safe (record h { idx = h.idx + 1 })
              (record { in_range = ground arith; bounded = v.bounded; distinct = v.distinct })
              (ground arith)

-- No key reads outside the entries, and every key keeps the cursor in range, at most 100 entries,
-- none of them empty, and no two neighbours the same.
pub press-Inv : (h : History) (k : Key) → Inv h → Safe (press h k)
unfolding press
press-Inv h (enters line) v = add-Inv h line v
press-Inv h (up live) v = prev-Safe h live v
press-Inv h down v = next-Safe h v

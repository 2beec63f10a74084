-- ===== src/Telnet/History/Walk.antt =====
-- Walking up the history and down again (telnet/history.go).
use wheel_mud.Base.{
  ℕ, zero, suc, ◌+◌, ◌-◌, ◌≤◌, ◌<◌, ◌≡◌, ◌∙◌, true, Option, none, some, List, [], ◌∷◌, ◌++◌, arith,
  length, get_elem?,
}
use wheel_mud.Base.Text.{Bytes}
use wheel_mud.Telnet.History.{History, prev, next}
use wheel_mud.Telnet.History.Keys.{Key, up, down, press, get_elem?-some}

pub press_all : History → List Key → Option History
press_all h [] = some h
press_all h (k ∷ ks) = elim (press h k) [ none ↦ none | some h' ↦ press_all h' ks ]

press_all-cons :
    (h h' : History) (k : Key) (ks : List Key)
    → press h k ≡ some h'
    → press_all h (k ∷ ks) ≡ press_all h' ks
unfolding press_all
press_all-cons h h' k ks e = ground arith

abbrev pub ups : List Bytes → List Key
ups [] = []
ups (live ∷ more) = up live ∷ ups more

abbrev pub downs : ℕ → List Key
downs zero = []
downs (suc k) = down ∷ downs k

-- One step up from the live line, and one from an entry.
prev_bottom :
    (h : History) (live : Bytes) (x : Bytes)
    → h.idx ≡ length h.entries
    → get_elem? h.entries (h.idx - 1) ≡ some x
    → 0 < h.idx
    → prev h live ≡ some (record h { idx = h.idx - 1; draft = live }, x, true)
unfolding prev
prev_bottom h live x b e pos = ground arith

prev_inside :
    (h : History) (live : Bytes) (x : Bytes)
    → h.idx < length h.entries
    → get_elem? h.entries (h.idx - 1) ≡ some x
    → 0 < h.idx
    → prev h live ≡ some (record h { idx = h.idx - 1 }, x, true)
unfolding prev
prev_inside h live x b e pos = ground arith

climb :
    (lives : List Bytes) (h : History) (rest : List Key)
    → h.idx < length h.entries
    → length lives ≤ h.idx
    → press_all h (ups lives ++ rest) ≡ press_all (record h { idx = h.idx - length lives }) rest
unfolding press_all press
climb [] h rest b room = let e : h.idx - 0 ≡ h.idx = omega arith in rw e
climb (live ∷ more) h rest b room =
    let (x, e) = get_elem?-some h.entries (h.idx - 1) (omega arith) in
    let h' : History = record h { idx = h.idx - 1 } in
    let same : h.idx - 1 - length more ≡ h.idx - suc (length more) = omega arith in
    let p : press h (up live) ≡ some h' = ground (arith, prev_inside h live x b e) in
    press_all-cons h h' (up live) (ups more ++ rest) p
    ∙ climb more h' rest (omega arith) (omega arith)
    ∙ rw same

next_inside :
    (h : History) (x : Bytes)
    → h.idx + 1 < length h.entries
    → get_elem? h.entries (h.idx + 1) ≡ some x
    → next h ≡ some (record h { idx = h.idx + 1 }, x, true)
unfolding next
next_inside h x b e = ground arith

descend :
    (k : ℕ) (h : History)
    → h.idx + k < length h.entries
    → press_all h (downs k) ≡ some (record h { idx = h.idx + k })
unfolding press_all press
descend zero h b = let e : h.idx + 0 ≡ h.idx = omega arith in rw e
descend (suc k) h b =
    let (x, e) = get_elem?-some h.entries (h.idx + 1) (omega arith) in
    let h' : History = record h { idx = h.idx + 1 } in
    let same : h.idx + 1 + k ≡ h.idx + suc k = omega arith in
    let p : press h down ≡ some h' = ground (arith, next_inside h x) in
    press_all-cons h h' down (downs k) p ∙ descend k h' (omega arith) ∙ rw same

-- From the live line any number of steps up that the entries allow, and as many down less one, come
-- to an entry from which one more step down shows the line that was live before the first step, and
-- leaves the history as it was with no draft kept.
pub walk_back :
    (h : History) (live : Bytes) (lives : List Bytes)
    → h.idx ≡ length h.entries
    → suc (length lives) ≤ length h.entries
    → (h' : History) × (press_all h (up live ∷ (ups lives ++ downs (length lives))) ≡ some h')
      × (next h' ≡ some (record h { draft = [] }, live, true))
unfolding press_all press next
walk_back h live lives bottom room =
    let (x, e) = get_elem?-some h.entries (h.idx - 1) (omega arith) in
    let h' : History = record h { idx = h.idx - 1; draft = live } in
    let p : press h (up live) ≡ some h' = ground (arith, prev_bottom h live x bottom e) in
    let back : h.idx - 1 - length lives + length lives ≡ h.idx - 1 = omega arith in
    (
      h',
      press_all-cons h h' (up live) (ups lives ++ downs (length lives)) p
          ∙ climb lives h' (downs (length lives)) (omega arith) (omega arith)
          ∙ descend (length lives) (record h' { idx = h.idx - 1 - length lives }) (omega arith)
          ∙ rw back,
      ground arith,
    )

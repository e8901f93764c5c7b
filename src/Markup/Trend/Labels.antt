-- ===== src/Markup/Trend/Labels.antt =====
-- web/app.js: the days that the chart labels (`labelIndexes`).
use copilot_api_dashboard.Base.{
  ℕ, ◌-◌, ◌/◌, ◌<◌, ◌≤◌, ◌||◌, Bool, true, false, List, [], ◌∷◌, ◌==◌, any, All, ◌≡◌, refl, arith,
  if_elim, All_mono, if◌then◌else◌,
}
use copilot_api_dashboard.Markup.Trend.{distinct_indexes, label_indexes}

-- Every index is above the one before it.
abbrev pub IsRising : List ℕ → Type 0
IsRising [] = Unit
IsRising (i ∷ []) = Unit
IsRising (i ∷ j ∷ is) = (i < j) × IsRising (j ∷ is)

-- The labels of days up to `last`, when the list starts with the first day.
abbrev IsLabelling : ℕ → List ℕ → Type 0
IsLabelling last is =
    All (◌≤ last) (0 ∷ is)
    × IsRising (0 ∷ is)
    × (any (0 ==◌) (0 ∷ is) ≡ true)
    × (any (last ==◌) (0 ∷ is) ≡ true)

first_alone : (last : ℕ) → last ≡ 0 → IsLabelling last []
first_alone last h = ((ground arith, tt), tt, refl, ground arith)

first_and_last : (last : ℕ) → 0 < last → IsLabelling last (last ∷ [])
first_and_last last h = ((ground arith, (ground arith, tt)), (h, tt), refl, ground arith)

with_middle : (last m : ℕ) → 0 < m → m < last → IsLabelling last (m ∷ last ∷ [])
with_middle last m h k =
    ((ground arith, (ground arith, (ground arith, tt))), (h, (k, tt)), refl, ground arith)

-- The last day behind the first one, unless it is the first one.
two_labels : (last : ℕ) → IsLabelling last (if (last == 0) || false then [] else last ∷ [])
two_labels last =
    if_elim (IsLabelling last) ((last == 0) || false) (λ h. first_alone last (ground arith))
      (λ h. first_and_last last (ground arith))

three_labels :
    (last m : ℕ)
    → m ≤ last
    → IsLabelling last (
        if (m == 0) || false
        then (if (last == 0) || false then [] else last ∷ [])
        else m ∷ (if (last == m) || ((last == 0) || false) then [] else last ∷ []))
three_labels last m h =
    if_elim (IsLabelling last) ((m == 0) || false) (λ k. two_labels last)
      (λ k.
        if_elim (λ is. IsLabelling last (m ∷ is)) ((last == m) || ((last == 0) || false))
          (λ l. ((ground arith, (h, tt)), (ground arith, tt), refl, ground arith))
          (λ l. with_middle last m (ground arith) (ground arith)))

shown :
    (narrow : Bool) (count : ℕ)
    → All (◌≤ (count - 1)) (label_indexes narrow count)
      × IsRising (label_indexes narrow count)
      × (any (0 ==◌) (label_indexes narrow count) ≡ true)
      × (any ((count - 1) ==◌) (label_indexes narrow count) ≡ true)
unfolding label_indexes distinct_indexes
shown true count = two_labels (count - 1)
shown false count = three_labels (count - 1) ((count - 1) / 2) (ground arith)

-- For at least one day, the labels stand at days of the list, every one to the right of the one before it, and
-- the first day and the last are among them.
pub label_indexes_lem :
    (narrow : Bool) (count : ℕ)
    → 0 < count
    → All (◌< count) (label_indexes narrow count)
      × IsRising (label_indexes narrow count)
      × (any (0 ==◌) (label_indexes narrow count) ≡ true)
      × (any ((count - 1) ==◌) (label_indexes narrow count) ≡ true)
label_indexes_lem narrow count h = (
  All_mono (λ i k. omega arith) (label_indexes narrow count) (shown narrow count).0,
  (shown narrow count).1,
  (shown narrow count).2,
  (shown narrow count).3,
)

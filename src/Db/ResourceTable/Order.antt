-- ===== src/Db/ResourceTable/Order.antt =====
-- ORDER BY SvrTime DESC, Id DESC, where SQLite's order of REAL values is total.
use collector_service.Models.{Double}
use collector_service.Prelude.{
  All, Bool-cases, List, [], arith, false, inl, inr, true, ◌∷◌, ◌≡◌, ◌≤◌, ◌⊎◌,
}
use collector_service.Db.{ResourceRow}
use collector_service.Db.ResourceTable.{TimeOrder, insert_newest, is_newer, newest_first}

pub record IsTimeOrder (newest : TimeOrder) : Type 0 where
  pub total : (a b : Double) → (newest a b ≡ true) ⊎ (newest b a ≡ true)
  pub chain : (a b c : Double) → newest a b ≡ true → newest b c ≡ true → newest a c ≡ true

-- A later time, or the same time and an Id that is not smaller.
abbrev pub Before : TimeOrder → ResourceRow → ResourceRow → Type 0
Before newest a b =
    (newest a.entry.svr_time b.entry.svr_time ≡ true)
    × ((newest b.entry.svr_time a.entry.svr_time ≡ false) ⊎ (b.row_id ≤ a.row_id))

abbrev pub InOrder : TimeOrder → List ResourceRow → Type 0
InOrder newest [] = Unit {0}
InOrder newest (r ∷ rs) = All (Before newest r) rs × InOrder newest rs

pub All-weaker :
    {P Q : ResourceRow → Type 0} (rs : List ResourceRow)
    → ((r : ResourceRow) → P r → Q r)
    → All P rs
    → All Q rs
All-weaker [] f h = tt
All-weaker (r ∷ rs) f h = (f r h.0, All-weaker rs f h.1)

All-insert_newest :
    (P : ResourceRow → Type 0) (newest : TimeOrder) (r : ResourceRow) (rs : List ResourceRow)
    → P r
    → All P rs
    → All P (insert_newest newest r rs)
unfolding insert_newest
All-insert_newest P newest r [] p h = (p, tt)
All-insert_newest P newest r (x ∷ rs) p h = elim (Bool-cases (is_newer newest r x)) [
  | inl front ↦ rw front (p, h)
  | inr later ↦ rw later (h.0, All-insert_newest P newest r rs p h.1)
]

All-inserted :
    (P : ResourceRow → Type 0) (newest : TimeOrder) (r : ResourceRow) (rs : List ResourceRow)
    → All P (insert_newest newest r rs)
    → P r × All P rs
unfolding insert_newest
All-inserted P newest r [] h = h
All-inserted P newest r (x ∷ rs) h = elim (Bool-cases (is_newer newest r x)) [
  | inl front ↦ rw front at h
  | inr later ↦
      let h' = rw later at h in
      let (here, rest) = All-inserted P newest r rs h'.1 in (here, (h'.0, rest))
]

-- What holds of the rows in order holds of them as they are.
pub All-newest_first :
    (P : ResourceRow → Type 0) (newest : TimeOrder) (rs : List ResourceRow)
    → All P (newest_first newest rs)
    → All P rs
unfolding newest_first
All-newest_first P newest [] h = tt
All-newest_first P newest (r ∷ rs) h =
    let (here, rest) = All-inserted P newest r (newest_first newest rs) h in
    (here, All-newest_first P newest rs rest)

module _ (newest : TimeOrder) (order : IsTimeOrder newest) where
  is_newer-Before : (a b : ResourceRow) → is_newer newest a b ≡ true → Before newest a b
  unfolding is_newer
  is_newer-Before a b e = elim (Bool-cases (newest b.entry.svr_time a.entry.svr_time)) [
    | inl level ↦ (ground arith, inr (ground arith))
    | inr later ↦ (ground arith, inl later)
  ]

  not_newer-Before : (a b : ResourceRow) → is_newer newest a b ≡ false → Before newest b a
  unfolding is_newer
  not_newer-Before a b e = elim (Bool-cases (newest a.entry.svr_time b.entry.svr_time)) [
    | inr no_it_is ↦ elim (order.total a.entry.svr_time b.entry.svr_time) [
      | inl yes_it_is ↦ cc (yes_it_is, no_it_is)
      | inr back ↦ (back, inl no_it_is)
    ]
    | inl yes_it_is ↦ (ground arith, inr (ground arith))
  ]

  Before-chain : (a b c : ResourceRow) → Before newest a b → Before newest b c → Before newest a c
  Before-chain a b c h k =
      let x = a.entry.svr_time in
      let y = b.entry.svr_time in
      let z = c.entry.svr_time in
      elim (Bool-cases (newest z x)) [
        | inr later ↦ (order.chain x y z h.0 k.0, inl later)
        | inl level ↦
            let zy = order.chain z x y level h.0 in
            let yx = order.chain y z x k.0 level in (order.chain x y z h.0 k.0, inr (ground arith))
      ]

  insert_newest-InOrder :
      (r : ResourceRow) (rs : List ResourceRow)
      → InOrder newest rs
      → InOrder newest (insert_newest newest r rs)
  unfolding insert_newest
  insert_newest-InOrder r [] h = (tt, tt)
  insert_newest-InOrder r (x ∷ rs) h = elim (Bool-cases (is_newer newest r x)) [
    | inl front ↦
        let first = is_newer-Before r x front in
        rw front ((first, All-weaker rs (λ y k. Before-chain r x y first k) h.0), h)
    | inr later ↦ rw later (
      All-insert_newest (Before newest x) newest r rs (not_newer-Before r x later) h.0,
      insert_newest-InOrder r rs h.1,
    )
  ]

  pub newest_first-InOrder : (rs : List ResourceRow) → InOrder newest (newest_first newest rs)
  unfolding newest_first
  newest_first-InOrder [] = tt
  newest_first-InOrder (r ∷ rs) =
      insert_newest-InOrder r (newest_first newest rs) (newest_first-InOrder rs)

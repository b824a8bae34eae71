-- ===== src/Board/Ranking.antt =====
-- internal/task_workflow_layer/task_board/board.go: the ranking of the bids in `Interview`.
use mathlib.Core.List.{Memᴰ}
use lucinda.Base.{
  ◌≡◌, refl, sym, subst, ◌≤ℤ◌, inl, inr, ℤ, pos, ltb_ℤ, leb_ℤ, List, [], ◌∷◌, All, true, Bool-cases,
  arith,
}
use lucinda.Task.{TaskSpec}
use lucinda.Messages.{CapabilityCv}
use lucinda.Capability.{match}
use lucinda.Board.Defs.{Entry, rank, insert_entry, sort_entries}

-- Sorted by falling score.
abbrev Falling : List Entry → Type 0
Falling [] = Unit {0}
Falling (e ∷ rest) = All (λ f. f.1 ≤ℤ e.1) rest × Falling rest

module _ (P : Entry → Type 0) where
  insert_entry-All : (e : Entry) (l : List Entry) → P e → All P l → All P (insert_entry e l)
  unfolding insert_entry
  insert_entry-All e [] h a = (h, tt)
  insert_entry-All e (f ∷ l) h a = elim (Bool-cases (ltb_ℤ e.1 f.1)) [
    | inl lt ↦ rw lt (a.0, insert_entry-All e l h a.1)
    | inr ge ↦ rw ge (h, a)
  ]

  All-insert_entry : (e : Entry) (l : List Entry) → All P (insert_entry e l) → P e × All P l
  unfolding insert_entry
  All-insert_entry e [] a = a
  All-insert_entry e (f ∷ l) a = elim (Bool-cases (ltb_ℤ e.1 f.1)) [
    | inl lt ↦
        let a' : P f × All P (insert_entry e l) = rw lt at a in
        let (h, rest) = All-insert_entry e l a'.1 in (h, (a'.0, rest))
    | inr ge ↦ rw ge at a
  ]

  sort_entries-All : (l : List Entry) → All P l → All P (sort_entries l)
  unfolding sort_entries
  sort_entries-All [] a = tt
  sort_entries-All (e ∷ l) a = insert_entry-All e (sort_entries l) a.0 (sort_entries-All l a.1)

  All-sort_entries : (l : List Entry) → All P (sort_entries l) → All P l
  unfolding sort_entries
  All-sort_entries [] a = tt
  All-sort_entries (e ∷ l) a =
      let (h, rest) = All-insert_entry e (sort_entries l) a in (h, All-sort_entries l rest)

at_most_mono : (b c : ℤ) (l : List Entry) → b ≤ℤ c → All (λ f. f.1 ≤ℤ b) l → All (λ f. f.1 ≤ℤ c) l
at_most_mono b c [] h a = tt
at_most_mono b c (e ∷ l) h a = (omega arith, at_most_mono b c l h a.1)

insert_entry-Falling : (e : Entry) (l : List Entry) → Falling l → Falling (insert_entry e l)
unfolding insert_entry
insert_entry-Falling e [] s = (tt, tt)
insert_entry-Falling e (f ∷ l) s = elim (Bool-cases (ltb_ℤ e.1 f.1)) [
  | inl lt ↦
      rw lt
        (insert_entry-All (λ g. g.1 ≤ℤ f.1) e l (ground arith) s.0, insert_entry-Falling e l s.1)
  | inr ge ↦ let h : f.1 ≤ℤ e.1 = ground arith in rw ge ((h, at_most_mono f.1 e.1 l h s.0), s)
]

sort_entries-Falling : (l : List Entry) → Falling (sort_entries l)
unfolding sort_entries
sort_entries-Falling [] = tt
sort_entries-Falling (e ∷ l) = insert_entry-Falling e (sort_entries l) (sort_entries-Falling l)

-- What the loop over the candidates collects.
abbrev IsEntry : TaskSpec → List CapabilityCv → Entry → Type 0
IsEntry spec bids e = Memᴰ e.0 bids × (e.1 ≡ match e.0 spec) × (pos 0 ≤ℤ e.1)

IsEntry-tail :
    (spec : TaskSpec) (cv : CapabilityCv) (bids : List CapabilityCv) (l : List Entry)
    → All (IsEntry spec bids) l
    → All (IsEntry spec (cv ∷ bids)) l
IsEntry-tail spec cv bids [] a = tt
IsEntry-tail spec cv bids (e ∷ l) a =
    ((Memᴰ.tail a.0.0, a.0.1, a.0.2), IsEntry-tail spec cv bids l a.1)

rank-All : (spec : TaskSpec) (bids : List CapabilityCv) → All (IsEntry spec bids) (rank spec bids)
unfolding rank
rank-All spec [] = tt
rank-All spec (cv ∷ bids) =
    let rest = IsEntry-tail spec cv bids (rank spec bids) (rank-All spec bids) in
    elim (Bool-cases (leb_ℤ (pos 0) (match cv spec))) [
      | inl e ↦ rw e ((Memᴰ.head refl, refl, ground arith), rest)
      | inr e ↦ rw e rest
    ]

-- A bound on the entries bounds every bid, the dropped ones too.
bids_at_most :
    (spec : TaskSpec) (bids : List CapabilityCv) (b : ℤ)
    → pos 0 ≤ℤ b
    → All (λ f. f.1 ≤ℤ b) (rank spec bids)
    → All (λ cv. match cv spec ≤ℤ b) bids
unfolding rank
bids_at_most spec [] b h a = tt
bids_at_most spec (cv ∷ bids) b h a = elim (Bool-cases (leb_ℤ (pos 0) (match cv spec))) [
  | inl e ↦
      let a' : (match cv spec ≤ℤ b) × All (λ f. f.1 ≤ℤ b) (rank spec bids) = rw e at a in
      (a'.0, bids_at_most spec bids b h a'.1)
  | inr e ↦
      let a' : All (λ f. f.1 ≤ℤ b) (rank spec bids) = rw e at a in
      (ground arith, bids_at_most spec bids b h a')
]

-- The bid is one of the bids, qualifies, and no bid scores higher.
abbrev pub IsBest : TaskSpec → List CapabilityCv → CapabilityCv → Type 0
IsBest spec bids winner =
    Memᴰ winner bids
    × (pos 0 ≤ℤ match winner spec)
    × All (λ cv. match cv spec ≤ℤ match winner spec) bids

pub first-IsBest :
    (spec : TaskSpec) (bids : List CapabilityCv) (winner : CapabilityCv) (score : ℤ)
    (rest : List Entry)
    → sort_entries (rank spec bids) ≡ (winner, score) ∷ rest
    → IsBest spec bids winner
first-IsBest spec bids winner score rest e =
    let entries : All (IsEntry spec bids) ((winner, score) ∷ rest) =
      subst (All (IsEntry spec bids)) e
        (sort_entries-All (IsEntry spec bids) (rank spec bids) (rank-All spec bids)) in
    let falling : Falling ((winner, score) ∷ rest) =
      subst Falling e (sort_entries-Falling (rank spec bids)) in
    let first : IsEntry spec bids (winner, score) = entries.0 in
    let below : All (λ f. f.1 ≤ℤ score) (rank spec bids) =
      All-sort_entries (λ f. f.1 ≤ℤ score) (rank spec bids)
        (subst (All (λ f. f.1 ≤ℤ score)) (sym e) ((omega arith), falling.0)) in
    let same : match winner spec ≡ score = sym first.1 in
    (first.0, rw same first.2, rw same (bids_at_most spec bids score first.2 below))

no_entry : (l : List Entry) (e : Entry) → Memᴰ e l → All (λ _. ⊥) l → ⊥
no_entry [] e m a = elim m [ ]
no_entry (f ∷ l) e m a = a.0

pub first_of_sort :
    (l : List Entry) (e : Entry)
    → Memᴰ e l
    → (f : Entry) × (rest : List Entry) × (sort_entries l ≡ f ∷ rest)
first_of_sort l e m = go (sort_entries l) refl
  where
    go :
        (r : List Entry)
        → sort_entries l ≡ r
        → (f : Entry) × (rest : List Entry) × (sort_entries l ≡ f ∷ rest)
    go [] q =
        absurd (no_entry l e m (All-sort_entries (λ _. ⊥) l (subst (All (λ _. ⊥)) (sym q) tt)))
    go (f ∷ rest) q = (f, rest, q)

pub mem-rank :
    (spec : TaskSpec) (bids : List CapabilityCv) (cv : CapabilityCv)
    → Memᴰ cv bids
    → pos 0 ≤ℤ match cv spec
    → (e : Entry) × Memᴰ e (rank spec bids)
unfolding rank
mem-rank spec [] cv m q = elim m [ ]
mem-rank spec (c ∷ bids) cv (Memᴰ.head h) q =
    let pass : leb_ℤ (pos 0) (match c spec) ≡ true = rw (← h) (ground arith) in
    ((c, match c spec), rw pass (Memᴰ.head refl))
mem-rank spec (c ∷ bids) cv (Memᴰ.tail m) q =
    let (e, n) = mem-rank spec bids cv m q in
    elim (Bool-cases (leb_ℤ (pos 0) (match c spec))) [
      | inl p ↦ (e, rw p (Memᴰ.tail n))
      | inr p ↦ (e, rw p n)
    ]

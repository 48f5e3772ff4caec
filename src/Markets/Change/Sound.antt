-- ===== src/Markets/Change/Sound.antt =====
-- The invariant of the market store, and that every change keeps it.
use predict_iq.Markets.{set_index}
use predict_iq.Markets.Index.{updated}
use predict_iq.Markets.Change.{
  IsBalanced, Edge, Change, dropped, keep, created, update, create, prune,
}
use predict_iq.Types.{Market, MarketStatus, eqb_status, resolved, active}
use predict_iq.Env.{MarketStore}
use predict_iq.Prelude.{
  ◌≡◌, arith, ℕ, some, ◌≤◌, get_or, none, false, Bool, ap, if◌then◌else◌, ◌∙◌, ◌==◌, true, ◌+◌, ◌⊎◌,
  Option-cases, inl, inr, subst, sym, refl, ℕ_discrete,
}

-- A record stands under its own id, which the counter has reached; its stakes add up; it has no
-- snapshot ledger; and the status index has exactly the entry of its status.
pub record IsSound (s : MarketStore) : Type 0 where
  pub keyed : (i : ℕ) (m : Market) → s.market i ≡ some m → m.id ≡ i
  pub counted : (i : ℕ) (m : Market) → s.market i ≡ some m → i ≤ get_or s.market_count 0
  pub balanced : (i : ℕ) (m : Market) → s.market i ≡ some m → IsBalanced m
  pub unvoted : (i : ℕ) (m : Market) → s.market i ≡ some m → m.dispute_snapshot_ledger ≡ none
  pub indexed :
      (i : ℕ) (m : Market) (t : MarketStatus)
      → s.market i ≡ some m
      → s.status_index i t ≡ eqb_status t m.status
  pub unindexed : (i : ℕ) (t : MarketStatus) → s.market i ≡ none → s.status_index i t ≡ false

module _ {s s' : MarketStore} (v : IsSound s) where
  keep-IsSound :
      s'.market ≡ s.market
      → s'.status_index ≡ s.status_index
      → s'.market_count ≡ s.market_count
      → IsSound s'
  keep-IsSound a b c = record {
    keyed = λ i m p. v.keyed i m (ground arith);
    counted = λ i m p. rw c (v.counted i m (ground arith));
    balanced = λ i m p. v.balanced i m (ground arith);
    unvoted = λ i m p. v.unvoted i m (ground arith);
    indexed = λ i m t p. ground (arith, v.indexed i m t);
    unindexed = λ i t p. ground (arith, v.unindexed i t);
  }

-- The index after a status has been replaced.
reindex_at :
    (id i : ℕ) (a b t : MarketStatus) (index : ℕ → MarketStatus → Bool)
    → index id t ≡ eqb_status t a
    → set_index (if eqb_status a b then index else set_index index id a false) id b true i t
      ≡ (if i == id then eqb_status t b else index i t)
reindex_at id i a b t index h = ground (arith, h)

module _ {s : MarketStore} (v : IsSound s) (id : ℕ) (m m' : Market) (found : s.market id ≡ some m)
    (edge : Edge m m') where
  same_id : m'.id ≡ id
  same_id = ap (λ (x : Market). x.id) edge.frame ∙ v.keyed id m found

  same_snapshot : m'.dispute_snapshot_ledger ≡ none
  same_snapshot = ap (λ (x : Market). x.dispute_snapshot_ledger) edge.frame ∙ v.unvoted id m found

  updated_index :
      (i : ℕ) (t : MarketStatus)
      → (updated s m').status_index i t
        ≡ (if i == id then eqb_status t m'.status else s.status_index i t)
  updated_index i t =
      rw (same_id, found)
        (reindex_at id i m.status m'.status t s.status_index (v.indexed id m t found))

  updated-IsSound : IsSound (updated s m')
  updated-IsSound = record {
    keyed = λ i x p. ground (arith, v.keyed i x, same_id);
    counted = λ i x p. ground (arith, v.counted i x, v.counted id m found, same_id);
    balanced =
        λ i x p. ground (arith, v.balanced i x, edge.balance (v.balanced id m found), same_id);
    unvoted = λ i x p. ground (arith, v.unvoted i x, same_snapshot);
    indexed = λ i x t p. ground (arith, v.indexed i x t, updated_index i t, same_id);
    unindexed = λ i t p. ground (arith, v.unindexed i t, updated_index i t, same_id);
  }

module _ {s : MarketStore} (v : IsSound s) (m : Market) (window : ℕ)
    (fresh : m.id ≡ get_or s.market_count 0 + 1) (opened : m.status ≡ active)
    (unvoted : m.dispute_snapshot_ledger ≡ none) (balanced : IsBalanced m) where
  vacant : s.market m.id ≡ none
  vacant = elim (Option-cases (s.market m.id)) [
    | inl missing ↦ missing
    | inr (x, found) ↦ absurd (omega (arith, fresh, v.counted m.id x found))
  ]

  created-IsSound : IsSound (created s m window)
  created-IsSound = record {
    keyed = λ i x p. ground (arith, v.keyed i x);
    counted = λ i x p. ground (arith, v.counted i x, fresh);
    balanced = λ i x p. ground (arith, v.balanced i x, balanced);
    unvoted = λ i x p. ground (arith, v.unvoted i x, unvoted);
    indexed = λ i x t p. ground (arith, v.indexed i x t, v.unindexed m.id t vacant, opened);
    unindexed = λ i t p. ground (arith, v.unindexed i t);
  }

module _ {s : MarketStore} (v : IsSound s) (id : ℕ) (m : Market) (found : s.market id ≡ some m)
    (done : m.status ≡ resolved) where
  dropped-IsSound : IsSound (dropped s id)
  dropped-IsSound = record {
    keyed = λ i x p. ground (arith, v.keyed i x);
    counted = λ i x p. ground (arith, v.counted i x);
    balanced = λ i x p. ground (arith, v.balanced i x);
    unvoted = λ i x p. ground (arith, v.unvoted i x);
    indexed = λ i x t p. ground (arith, v.indexed i x t);
    unindexed = λ i t p. ground (arith, v.unindexed i t, v.indexed id m t found, done);
  }

pub Change-IsSound : {s s' : MarketStore} → Change s s' → IsSound s → IsSound s'
Change-IsSound (keep a b c) v = keep-IsSound v a b c
Change-IsSound (update id m m' found edge e) v =
    subst IsSound (sym e) (updated-IsSound v id m m' found edge)
Change-IsSound (create m window fresh opened unvoted balanced e) v =
    subst IsSound (sym e) (created-IsSound v m window fresh opened unvoted balanced)
Change-IsSound (prune id m found done e) v =
    subst IsSound (sym e) (dropped-IsSound v id m found done)

-- What a change does to one market that stands in the store: it is left alone, replaced along an
-- edge, or, if it is resolved, pruned.
pub Change-at :
    {s s' : MarketStore} (i : ℕ) (m : Market)
    → Change s s'
    → IsSound s
    → s.market i ≡ some m
    → ((m' : Market) × (s'.market i ≡ some m') × (Edge m m' ⊎ (m' ≡ m)))
      ⊎ ((s'.market i ≡ none) × (m.status ≡ resolved))
Change-at i m (keep a b c) v found = inl (m, ground arith, inr refl)
Change-at i m (update id x x' at edge e) v found = elim (ℕ_discrete i id) [
  | yes same ↦
      let x_eq_m : x ≡ m = ground arith in
      inl (x', ground (arith, same_id v id x x' at edge), inl (subst (λ y. Edge y x') x_eq_m edge))
  | no other ↦ inl (m, ground (arith, same_id v id x x' at edge), inr refl)
]
Change-at i m (create x window fresh opened unvoted balanced e) v found =
    inl (m, ground (arith, fresh, v.counted i m found), inr refl)
Change-at i m (prune id x at done e) v found = elim (ℕ_discrete i id) [
  | yes same ↦ inr (ground arith, ground arith)
  | no other ↦ inl (m, ground arith, inr refl)
]

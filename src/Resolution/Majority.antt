-- ===== src/Resolution/Majority.antt =====
-- What the count of the votes finds (calculate_voting_outcome).
use native.Mathlib.Nat.{zero-div}
use predict_iq.Env.{Host, Env, ok}
use mathlib.Core.List.{[]}
use predict_iq.Types.{Vote}
use predict_iq.Resolution.{
  Tallies, add_vote, tally_votes, find_max, calculate_voting_outcome, majority_threshold_bps,
  decide,
}
use predict_iq.Prelude.{
  ℕ, List, ℤ, checked, pos, ◌≡◌, ◌∷◌, some, ◌⊎◌, if◌then◌else◌, ◌+ℤ◌, ◌==◌, Option-cases,
  Bool-cases, checked_add, inl, arith, inr, Bool, false, int_laws, ◌||◌, subst, checked-eq_some,
  true, sym, ltb_ℤ, refl, checked_div, ◌*ℤ◌, ◌≤ℤ◌, quot, ◌-ℤ◌, negsuc, suc,
}

-- All that votes give to an outcome, and all that they give.
pub weight_of : ℕ → List Vote → ℤ
weight_of o [] = pos 0
weight_of o (v ∷ vs) = (if v.outcome == o then v.weight else pos 0) +ℤ weight_of o vs

pub weight_of_all : List Vote → ℤ
weight_of_all [] = pos 0
weight_of_all (v ∷ vs) = v.weight +ℤ weight_of_all vs

-- What tallies give to an outcome: one entry for each.
tally_of : ℕ → Tallies → ℤ
tally_of o [] = pos 0
tally_of o ((k, w) ∷ ts) = if k == o then w else tally_of o ts

has_key : ℕ → Tallies → Bool
has_key o [] = false
has_key o ((k, w) ∷ ts) = k == o || has_key o ts

abbrev IsKeyed : Tallies → Type 0
IsKeyed [] = Unit {0}
IsKeyed ((k, w) ∷ ts) = (has_key k ts ≡ false) × IsKeyed ts

zero_add : (a : ℤ) → pos 0 +ℤ a ≡ a
zero_add a = omega int_laws

add_zero : (a : ℤ) → a +ℤ pos 0 ≡ a
add_zero a = omega int_laws

add_assoc_ℤ : (a b c : ℤ) → (a +ℤ b) +ℤ c ≡ a +ℤ (b +ℤ c)
add_assoc_ℤ a b c = omega int_laws

add_vote-has_key :
    (ts ts' : Tallies) (o k : ℕ) (w : ℤ)
    → add_vote ts o w ≡ some ts'
    → has_key k ts' ≡ (has_key k ts || o == k)
unfolding add_vote has_key
add_vote-has_key [] ts' o k w h = ground arith
add_vote-has_key ((j, x) ∷ ts) ts' o k w h = elim (Bool-cases (j == o)) [
  | inl same ↦ elim (Option-cases (checked_add x w)) [
    | inl overflow' ↦ ground arith
    | inr (new, added) ↦ ground arith
  ]
  | inr other ↦ elim (Option-cases (add_vote ts o w)) [
    | inl overflow' ↦ ground arith
    | inr (rest, added) ↦ ground (arith, add_vote-has_key ts rest o k w added)
  ]
]

add_vote-IsKeyed :
    (ts ts' : Tallies) (o : ℕ) (w : ℤ) → add_vote ts o w ≡ some ts' → IsKeyed ts → IsKeyed ts'
unfolding add_vote has_key
add_vote-IsKeyed [] ts' o w h v =
    let shape : ts' ≡ (o, w) ∷ [] = ground arith in subst IsKeyed (sym shape) (refl, tt)
add_vote-IsKeyed ((j, x) ∷ ts) ts' o w h v = elim (Bool-cases (j == o)) [
  | inl same ↦ elim (Option-cases (checked_add x w)) [
    | inl overflow' ↦ ground arith
    | inr (new, added) ↦
        let shape : ts' ≡ (j, new) ∷ ts = ground arith in subst IsKeyed (sym shape) v
  ]
  | inr other ↦ elim (Option-cases (add_vote ts o w)) [
    | inl overflow' ↦ ground arith
    | inr (rest, added) ↦
        let shape : ts' ≡ (j, x) ∷ rest = ground arith in
        subst IsKeyed (sym shape) (
          ground (arith, add_vote-has_key ts rest o j w added),
          add_vote-IsKeyed ts rest o w added v.1,
        )
  ]
]

-- A tally is raised, and no other.
add_vote_lem :
    (ts ts' : Tallies) (o o' : ℕ) (w : ℤ)
    → add_vote ts o w ≡ some ts'
    → tally_of o' ts' ≡ (if o == o' then tally_of o' ts +ℤ w else tally_of o' ts)
unfolding add_vote tally_of checked
add_vote_lem [] ts' o o' w h = ground (arith, zero_add w)
add_vote_lem ((k, x) ∷ ts) ts' o o' w h = elim (Bool-cases (k == o)) [
  | inl same ↦ ground arith
  | inr other ↦ elim (Option-cases (add_vote ts o w)) [
    | inl overflow' ↦ ground arith
    | inr (rest, added) ↦ ground (arith, add_vote_lem ts rest o o' w added)
  ]
]

tally_votes_lem :
    (vs : List Vote) (total total' : ℤ) (ts ts' : Tallies) (o : ℕ)
    → tally_votes vs total ts ≡ some (total', ts')
    → (total' ≡ total +ℤ weight_of_all vs) × (tally_of o ts' ≡ tally_of o ts +ℤ weight_of o vs)
unfolding tally_votes weight_of weight_of_all
tally_votes_lem [] total total' ts ts' o h =
    (ground (arith, add_zero total), ground (arith, add_zero (tally_of o ts)))
tally_votes_lem (v ∷ vs) total total' ts ts' o h =
    elim (Option-cases (checked_add total v.weight)) [
      | inl overflow' ↦ ground arith
      | inr (t, added) ↦ elim (Option-cases (add_vote ts v.outcome v.weight)) [
        | inl overflow' ↦ ground arith
        | inr (us, raised) ↦
            let rest = tally_votes_lem vs t total' us ts' o (ground arith) in
            let one = add_vote_lem ts us v.outcome o v.weight raised in
            let exact = (checked-eq_some (total +ℤ v.weight) added).1 in
            (
              ground (arith, rest, exact, add_assoc_ℤ total v.weight (weight_of_all vs)),
              ground (
                arith,
                rest,
                one,
                add_assoc_ℤ (tally_of o ts) v.weight (weight_of o vs),
                zero_add (weight_of o vs),
              ),
            )
      ]
    ]

tally_votes-IsKeyed :
    (vs : List Vote) (total total' : ℤ) (ts ts' : Tallies)
    → tally_votes vs total ts ≡ some (total', ts')
    → IsKeyed ts
    → IsKeyed ts'
unfolding tally_votes
tally_votes-IsKeyed [] total total' ts ts' h v =
    let same : ts' ≡ ts = ground arith in subst IsKeyed (sym same) v
tally_votes-IsKeyed (x ∷ vs) total total' ts ts' h v =
    elim (Option-cases (checked_add total x.weight)) [
      | inl overflow' ↦ ground arith
      | inr (t, added) ↦ elim (Option-cases (add_vote ts x.outcome x.weight)) [
        | inl overflow' ↦ ground arith
        | inr (us, raised) ↦
            tally_votes-IsKeyed vs t total' us ts' (ground arith)
              (add_vote-IsKeyed ts us x.outcome x.weight raised v)
      ]
    ]

-- The largest tally is the one of its outcome, or the start where none is larger.
find_max_lem :
    (ts : Tallies) (best : ℤ) (winner : ℕ)
    → IsKeyed ts
    → let found = find_max ts best winner in
      (found ≡ (best, winner)) ⊎ ((found.0 ≡ tally_of found.1 ts) × (has_key found.1 ts ≡ true))
unfolding find_max tally_of has_key
find_max_lem [] best winner v = inl refl
find_max_lem ((k, x) ∷ ts) best winner v = elim (Bool-cases (ltb_ℤ best x)) [
  | inl larger ↦ elim (find_max_lem ts x k v.1) [
    | inl same ↦ inr (ground (arith, same), ground (arith, same))
    | inr (value', there) ↦ inr (ground (arith, value', there), ground (arith, value', there))
  ]
  | inr smaller ↦ elim (find_max_lem ts best winner v.1) [
    | inl same ↦ inl (ground (arith, same))
    | inr (value', there) ↦ inr (ground (arith, value', there), ground (arith, value', there))
  ]
]

no_votes : (total pct : ℤ) → checked_div (pos 0 *ℤ pos 10000) total ≡ some pct → pct ≡ pos 0
unfolding checked_div ◌*ℤ◌ quot ◌-ℤ◌ checked
no_votes (pos n) pct h = ground (arith, zero-div n)
no_votes (negsuc n) pct h = ground (arith, zero-div (suc n))

module _ {host : Host} where
  decide_ok :
      (total : ℤ) (ts : Tallies) (winner : ℕ) (e e' : Env host)
      → decide total ts e ≡ (ok winner, e')
      → let best = find_max ts (pos 0) 0 in
        (winner ≡ best.1)
        × ((pct : ℤ) × (checked_div (best.0 *ℤ pos 10000) total ≡ some pct)
            × (majority_threshold_bps ≤ℤ pct))
  unfolding decide checked
  decide_ok total ts winner e e' h =
      let best = find_max ts (pos 0) 0 in
      elim (Option-cases (checked_div (best.0 *ℤ pos 10000) total)) [
        | inl overflow' ↦ ground arith
        | inr (pct, divided) ↦ (ground arith, (pct, divided, ground arith))
      ]

  largest_is_majority :
      (total : ℤ) (ts : Tallies) (winner : ℕ) (e e' : Env host)
      → IsKeyed ts
      → decide total ts e ≡ (ok winner, e')
      → (pct : ℤ) × (checked_div (tally_of winner ts *ℤ pos 10000) total ≡ some pct)
        × (majority_threshold_bps ≤ℤ pct)
  largest_is_majority total ts winner e e' v h =
      let (won, (pct, divided, large)) = decide_ok total ts winner e e' h in
      elim (find_max_lem ts (pos 0) 0 v) [
        | inl start' ↦
            let zero_div' : checked_div (pos 0 *ℤ pos 10000) total ≡ some pct =
              ground (arith, divided, start') in
            let none' = no_votes total pct zero_div' in absurd (ground (arith, large, none'))
        | inr (value', there) ↦ (pct, ground (arith, divided, value', won), large)
      ]

  -- An outcome that the count of the votes returns has at least 6000 of 10000 parts of the weight
  -- of all votes, each summed over the votes themselves.
  pub calculate_voting_outcome_ok :
      (votes : List Vote) (winner : ℕ) (e e' : Env host)
      → calculate_voting_outcome votes e ≡ (ok winner, e')
      → (pct : ℤ) × (checked_div (weight_of winner votes *ℤ pos 10000) (weight_of_all votes)
          ≡ some pct)
        × (majority_threshold_bps ≤ℤ pct)
  unfolding calculate_voting_outcome tally_of
  calculate_voting_outcome_ok votes winner e e' h =
      elim (Option-cases (tally_votes votes (pos 0) [])) [
        | inl overflow' ↦ ground arith
        | inr ((total, ts), counted) ↦
            let v = tally_votes-IsKeyed votes (pos 0) total [] ts counted tt in
            let (all, one) = tally_votes_lem votes (pos 0) total [] ts winner counted in
            let decided : decide total ts e ≡ (ok winner, e') = ground arith in
            let (pct, divided, large) = largest_is_majority total ts winner e e' v decided in
            (
              pct,
              ground (
                arith,
                divided,
                all,
                one,
                zero_add (weight_of_all votes),
                zero_add (weight_of winner votes),
              ),
              large,
            )
      ]

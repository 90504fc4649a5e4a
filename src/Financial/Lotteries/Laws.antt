-- ===== src/Financial/Lotteries/Laws.antt =====
-- Theorems on `executeLottery`: candidates, winners and payouts.
use mahber_connect_backend.Prelude.{
  ℕ, zero, suc, ◌%◌, ◌<◌, ◌≡◌, refl, ◌≢◌, Bool, true, false, ◌&&◌, none, some, List, [], ◌∷◌, map,
  arith, ◌==◌, ==-refl, sum_where, ℤ, ◌+ℤ◌, neg, length, select, update_where, any, all, includes,
}
use mahber_connect_backend.Db.{Membership, Lottery, Db}
use mahber_connect_backend.Db.Decimals.{parts, rounded, sub_from, is_positive}
use mahber_connect_backend.Db.Decimals.Laws.{rounded-negated}
use mahber_connect_backend.Exec.{Error, Result, ok, err}
use mahber_connect_backend.Financial.Ledger.{create_ledger_entry, current_balance}
use mahber_connect_backend.Financial.Lotteries.{
  is_active_in, has_paid, since_date, is_eligible, eligible_members, get_elem?, pick_winner, NewIds,
  wins, payout_of, execute_lottery,
}

get_elem?-total : (xs : List ℕ) (i : ℕ) → i < length xs → (x : ℕ) × (get_elem? xs i ≡ some x)
get_elem?-total [] i h = elim h [ ]
get_elem?-total (x ∷ xs) zero h = (x, refl)
get_elem?-total (x ∷ xs) (suc i) h = get_elem?-total xs i (omega arith)

-- Every seed picks a winner from a list of candidates that is not empty.
pub pick_winner-total :
    (seed : ℕ) (eligible : List ℕ)
    → length eligible ≢ 0
    → (winner : ℕ) × (pick_winner seed eligible ≡ some winner)
unfolding pick_winner
pick_winner-total seed eligible h = get_elem?-total eligible (seed % length eligible) (grind arith)

get_elem?-includes : (xs : List ℕ) (i x : ℕ) → get_elem? xs i ≡ some x → includes x xs ≡ true
unfolding includes
get_elem?-includes [] i x h = cc
get_elem?-includes (y ∷ xs) zero x h = ground arith
get_elem?-includes (y ∷ xs) (suc i) x h = ground (arith, get_elem?-includes xs i x h)

abbrev member_ids : List Membership → List ℕ
member_ids = map (λ m. m.member_id)

select-includes :
    (q : Membership → Bool) (xs : List Membership) (k : ℕ)
    → includes k (member_ids (select q xs)) ≡ true
    → any (λ m. (m.member_id == k) && q m) xs ≡ true
unfolding includes select any
select-includes q [] k h = cc
select-includes q (x ∷ xs) k h = ground (arith, select-includes q xs k)

module _ (percent : ℤ → ℤ → ℤ) (now : ℕ) (ids : NewIds) (seed mahber : ℕ) (cost_rate threshold : ℤ)
    (executed_by : ℕ) (s : Db) where
  abbrev drawn : Result Lottery × Db
  drawn = execute_lottery percent now ids seed mahber cost_rate threshold executed_by s

  -- A draw that throws has changed nothing.
  pub execute_lottery-err : (e : Error) → drawn.0 ≡ err e → drawn.1 ≡ s
  unfolding execute_lottery create_ledger_entry
  execute_lottery-err e h = ground arith

  draw_facts :
      (draw : Lottery)
      → drawn.0 ≡ ok draw
      → (pick_winner seed (eligible_members mahber threshold s) ≡ some draw.winner_id)
        × (draw.payout_amount ≡ rounded (payout_of percent (current_balance mahber s) cost_rate))
        × (is_positive (payout_of percent (current_balance mahber s) cost_rate) ≡ true)
        × (drawn.1.memberships
            ≡ update_where
                (λ m. (m.mahber_id == mahber) && (m.member_id == draw.winner_id))
                wins
                s.memberships)
  unfolding execute_lottery create_ledger_entry
  draw_facts draw h = ground arith

  -- If a draw returns, its winner is an Active member of the organization who is not marked as a
  -- winner of this cycle and whose fines, as `hasUnpaidFinesExceedingThreshold` counts them, are
  -- within the limit; and every Active member has a completed contribution payment created since
  -- the draw before, or since the organization began.
  pub execute_lottery-winner :
      (draw : Lottery)
      → drawn.0 ≡ ok draw
      → (any
            (λ m.
              (m.member_id == draw.winner_id)
              && (is_active_in mahber m && is_eligible mahber threshold s m))
            s.memberships
          ≡ true)
        × (elim (since_date mahber s) as (λ d. Bool) [
          | none ↦ false
          | some since ↦ all (has_paid mahber since s) (select (is_active_in mahber) s.memberships)
        ]
            ≡ true)
  unfolding execute_lottery create_ledger_entry eligible_members pick_winner
  execute_lottery-winner draw h =
      let eligible =
        λ (m : Membership). is_active_in mahber m && is_eligible mahber threshold s m in
      let candidates = member_ids (select eligible s.memberships) in
      (
        select-includes eligible s.memberships draw.winner_id (
            get_elem?-includes candidates (seed % length candidates) draw.winner_id
              (draw_facts draw h).0),
        ground arith,
      )

  -- A draw that returns pays out the balance less the operational cost, a positive amount that is
  -- stored rounded to cents, and takes just what is stored off what the organization holds.
  pub execute_lottery-pays :
      (draw : Lottery)
      → drawn.0 ≡ ok draw
      → let left =
          sub_from
            (current_balance mahber s)
            (parts (percent (current_balance mahber s) cost_rate)) in
        (is_positive left ≡ true)
        × (draw.payout_amount ≡ rounded left)
        × (current_balance mahber drawn.1 ≡ neg draw.payout_amount +ℤ current_balance mahber s)
  unfolding execute_lottery create_ledger_entry current_balance sum_where
  execute_lottery-pays draw h = ground (
    arith,
    ==-refl mahber,
    rounded-negated (payout_of percent (current_balance mahber s) cost_rate),
  )

no_second_win :
    (mahber winner : ℕ) (threshold : ℤ) (s t : Db) (xs : List Membership)
    → any
        (λ m.
          (m.member_id == winner) && (is_active_in mahber m && is_eligible mahber threshold t m))
        (update_where (λ m. (m.mahber_id == mahber) && (m.member_id == winner)) wins xs)
      ≡ false
unfolding any update_where
no_second_win mahber winner threshold s t [] = refl
no_second_win mahber winner threshold s t (x ∷ xs) =
    ground (arith, no_second_win mahber winner threshold s t xs)

-- Of two draws of an organization that both return, the second from the database that the first
-- one left, the second has another winner, whatever its seed, cost and limit.
pub execute_lottery-no_repeat :
    (percent : ℤ → ℤ → ℤ) (now now' : ℕ) (ids ids' : NewIds) (seed seed' mahber : ℕ)
    (cost cost' threshold threshold' : ℤ) (by by' : ℕ) (s : Db) (first second : Lottery)
    → (execute_lottery percent now ids seed mahber cost threshold by s).0 ≡ ok first
    → (execute_lottery percent now' ids' seed' mahber cost' threshold' by'
        (execute_lottery percent now ids seed mahber cost threshold by s).1).0
      ≡ ok second
    → second.winner_id ≢ first.winner_id
execute_lottery-no_repeat percent now now' ids ids' seed seed' mahber cost cost' threshold
      threshold' by by' s first second h k same =
    let t = (execute_lottery percent now ids seed mahber cost threshold by s).1 in
    let marked = (draw_facts percent now ids seed mahber cost threshold by s first h).3 in
    let won =
      (execute_lottery-winner percent now' ids' seed' mahber cost' threshold' by' t second k).0 in
    let again = rw (marked, same) at won in
    cc (again, no_second_win mahber first.winner_id threshold' s t s.memberships)

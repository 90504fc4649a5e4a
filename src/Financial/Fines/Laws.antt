-- ===== src/Financial/Fines/Laws.antt =====
-- What a fine does to the books, what a waiver does to a member's fines, and which fines count
-- against a threshold.
use mathlib.Core.Option
use mathlib.Core.List.{head?}
use mahber_connect_backend.Prelude.{
  ℕ, String, ◌≡◌, refl, inl, inr, Bool, true, some, List, [], ◌∷◌, arith, Option-cases, ==-refl,
  sum_where, ℤ, ◌+ℤ◌, neg, find, update_where, find_sound, find-update_where,
}
use mahber_connect_backend.Db.{ViolationType, Fine, Db}
use mahber_connect_backend.Db.Decimals.{rounded}
use mahber_connect_backend.Db.Decimals.Laws.{rounded-negated}
use mahber_connect_backend.Exec.{forbidden, ok, err}
use mahber_connect_backend.Financial.Ledger.{create_ledger_entry, get_member_balance}
use mahber_connect_backend.Financial.Ledger.Balance.{IsBalanced, write-IsBalanced}
use mahber_connect_backend.Financial.Fines.{
  fine_entry, calculate_fine, apply_fine, fine_in, fine_has_id, waived, waive_fine, is_counted,
  fine_amount, has_unpaid_fines_exceeding_threshold,
}

module _ (percent : ℤ → ℤ → ℤ) (now id entry mahber member : ℕ) (violation : ViolationType)
    (rate contribution : ℤ) (mode description : String) (s : Db) where
  -- A fine always goes through. It stands in the table with the calculated amount, rounded to
  -- cents, and takes that off the member's balance.
  pub apply_fine_lem :
      let amount = calculate_fine percent rate contribution mode in
      let (r, t) =
        apply_fine percent now id entry mahber member violation rate contribution mode description
          s in
      (Option.map (λ f. f.amount) (head? t.fines) ≡ some (rounded amount))
      × (get_member_balance mahber member t
          ≡ neg (rounded amount) +ℤ get_member_balance mahber member s)
  unfolding apply_fine create_ledger_entry get_member_balance sum_where
  apply_fine_lem = ground (
    arith,
    ==-refl mahber,
    ==-refl member,
    rounded-negated (calculate_fine percent rate contribution mode),
  )

  -- A fine keeps the ledger balanced.
  pub apply_fine-IsBalanced :
      IsBalanced s.ledger
      → IsBalanced
          (apply_fine percent now id entry mahber member violation rate contribution mode
            description s).1.ledger
  unfolding apply_fine create_ledger_entry
  apply_fine-IsBalanced =
      write-IsBalanced now entry
        (fine_entry id mahber member (calculate_fine percent rate contribution mode) description) s
        _ (inl refl) (inr refl)

-- Waiving a fine that is there and not yet waived returns, and a second waiver of it is refused.
pub waive_fine_twice :
    (now id mahber actor now' actor' : ℕ) (reason reason' : String) (s : Db) (f : Fine)
    → (waive_fine now id mahber actor reason s).0 ≡ ok f
    → (f.is_waived ≡ true)
      × ((waive_fine now' id mahber actor' reason' (waive_fine now id mahber actor reason s).1).0
          ≡ err (forbidden "Fine is already waived"))
unfolding waive_fine
waive_fine_twice now id mahber actor now' actor' reason reason' s f h =
    elim (Option-cases (find (fine_in mahber id) s.fines)) [
      | inl missing ↦ ground arith
      | inr (g, found) ↦ ground (
        arith,
        find-update_where (fine_in mahber id) (fine_has_id id) (waived now actor reason) s.fines
            (λ a. refl),
        find_sound (fine_in mahber id) s.fines g found,
      )
    ]

sum-update_where-same :
    (p q : Fine → Bool) (f : Fine → Fine) (xs : List Fine)
    → ((a : Fine) → p (f a) ≡ p a)
    → ((a : Fine) → (f a).amount ≡ a.amount)
    → sum_where p fine_amount (update_where q f xs) ≡ sum_where p fine_amount xs
unfolding sum_where update_where
sum-update_where-same p q f [] hp ha = refl
sum-update_where-same p q f (x ∷ xs) hp ha =
    ground (arith, hp x, ha x, sum-update_where-same p q f xs hp ha)

-- Recording the payment of any fines leaves the outcome of `hasUnpaidFinesExceedingThreshold` as
-- it was.
pub paid_fines_still_count :
    (paid : Fine → Bool) (now payment mahber member : ℕ) (threshold : ℤ) (s : Db)
    → has_unpaid_fines_exceeding_threshold mahber member threshold (record s {
      fines =
          update_where paid
            (λ f. record f { paid_at = some now; payment_id = some payment })
            s.fines;
    })
      ≡ has_unpaid_fines_exceeding_threshold mahber member threshold s
unfolding has_unpaid_fines_exceeding_threshold
paid_fines_still_count paid now payment mahber member threshold s = rw (
    sum-update_where-same (is_counted mahber member) paid
      (λ f. record f { paid_at = some now; payment_id = some payment }) s.fines (λ a. refl)
      (λ a. refl))

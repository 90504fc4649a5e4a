-- ===== src/Financial/Ledger/Balance.antt =====
-- Theorems on `createLedgerEntry`: running balances and sums.
use mathlib.Core.Path.{subst}
use mahber_connect_backend.Prelude.{
  ◌+◌, ◌≤◌, zero-+ℤ, Bool, true, false, ◌&&◌, count, int_laws, +ℤ_comm, ℕ, ◌≡◌, refl, sym, ap, ◌∙◌,
  ◌⊎◌, inl, inr, List, [], ◌∷◌, arith, ◌==◌, if◌then◌else◌, Bool-cases, ==-refl, sum_where, ◌+ℤ◌,
  pos, find,
}
use mahber_connect_backend.Db.{TransactionType, LedgerEntry, Db}
use mahber_connect_backend.Db.Decimals.{cents, is_whole, rounded}
use mahber_connect_backend.Db.Decimals.Laws.{Within, add_to-Within, add_to-rounded}
use mahber_connect_backend.Exec.{ok}
use mahber_connect_backend.Financial.Ledger.{
  new_entry, ℤ, LedgerData, entry_of, entry_amount, previous_balance, create_ledger_entry,
  get_member_balance, current_balance,
}

-- Every entry carries the sum of its member's amounts up to and including itself.
abbrev pub IsExact : List LedgerEntry → Type 0
IsExact [] = Unit
IsExact (e ∷ older) =
    (e.running_balance
      ≡ sum_where (entry_of e.mahber_id e.member_id) entry_amount older +ℤ e.amount)
    × IsExact older

-- The entries whose amounts need not be whole cents before they are stored: fines and draws, which
-- are shares, and payouts, whose amount is entered.
abbrev pub may_round : TransactionType → Bool
may_round TransactionType.fine = true
may_round TransactionType.equb_payout = true
may_round TransactionType.payout = true
may_round TransactionType.iddir_payout = true
may_round _ = false

abbrev pub rounding_of : ℕ → ℕ → LedgerEntry → Bool
rounding_of mahber member e = entry_of mahber member e && may_round e.transaction_type

-- The balance of the entry is the sum of the amounts, but for a cent for each of these.
abbrev pub IsNear : ℕ → ℕ → LedgerEntry → List LedgerEntry → Type 0
IsNear mahber member e older =
    Within (count (rounding_of mahber member) (e ∷ older)) e.running_balance
      (sum_where (entry_of mahber member) entry_amount older +ℤ e.amount)

-- Every entry carries the sum of its member's amounts up to and including itself, but for at most
-- one cent for each of them that is rounded.
abbrev pub IsBalanced : List LedgerEntry → Type 0
IsBalanced [] = Unit
IsBalanced (e ∷ older) =
    Within (count (rounding_of e.mahber_id e.member_id) (e ∷ older)) e.running_balance
      (sum_where (entry_of e.mahber_id e.member_id) entry_amount older +ℤ e.amount)
    × IsBalanced older

carried : (k l : ℕ) (p s a t : ℤ) → Within k p s → Within l t (p +ℤ a) → Within (l + k) t (s +ℤ a)
carried k l p s a t h g = (omega (int_laws, h, g), omega (int_laws, h, g))

carried_more : (k l : ℕ) (p s a : ℤ) → k ≤ l → Within k p s → Within l (p +ℤ a) (s +ℤ a)
carried_more k l p s a le h = (omega (int_laws, h, le), omega (int_laws, h, le))

sum-same :
    (xs : List LedgerEntry) (m u mahber member : ℕ)
    → m ≡ mahber
    → u ≡ member
    → sum_where (entry_of m u) entry_amount xs ≡ sum_where (entry_of mahber member) entry_amount xs
sum-same xs m u mahber member p q = rw (p, q)

-- The balance that the next entry starts from is the sum so far.
previous-eq-sum :
    (mahber member : ℕ) (xs : List LedgerEntry)
    → IsExact xs
    → previous_balance (find (entry_of mahber member) xs)
      ≡ sum_where (entry_of mahber member) entry_amount xs
unfolding find sum_where
previous-eq-sum mahber member [] b = refl
previous-eq-sum mahber member (e ∷ xs) b = elim (Bool-cases (entry_of mahber member e)) [
  | inl own ↦
      let eq_m : e.mahber_id ≡ mahber = ground arith in
      let eq_u : e.member_id ≡ member = ground arith in
      rw own (
        b.0
        ∙ +ℤ_comm _ e.amount
        ∙ ap (λ n. e.amount +ℤ n) (sum-same xs e.mahber_id e.member_id mahber member eq_m eq_u))
  | inr other ↦ rw other (previous-eq-sum mahber member xs b.1 ∙ sym (zero-+ℤ _))
]

moved_in :
    (mahber member : ℕ) (e : LedgerEntry) (xs : List LedgerEntry)
    → entry_of mahber member e ≡ true
    → IsNear mahber member e xs
    → Within
        ((if may_round e.transaction_type then 1 else 0) + count (rounding_of mahber member) xs)
        e.running_balance
        (sum_where (entry_of mahber member) entry_amount xs +ℤ e.amount)
unfolding count
moved_in mahber member e xs own h =
    subst
      (λ b.
        Within
          ((if b && may_round e.transaction_type then 1 else 0)
            + count (rounding_of mahber member) xs)
          e.running_balance (sum_where (entry_of mahber member) entry_amount xs +ℤ e.amount))
      own h

-- The same for a ledger with rounded amounts.
previous-Within :
    (mahber member : ℕ) (xs : List LedgerEntry)
    → IsBalanced xs
    → Within
        (count (rounding_of mahber member) xs)
        (previous_balance (find (entry_of mahber member) xs))
        (sum_where (entry_of mahber member) entry_amount xs)
unfolding find sum_where count
previous-Within mahber member [] b = (omega arith, omega arith)
previous-Within mahber member (e ∷ xs) b = elim (Bool-cases (entry_of mahber member e)) [
  | inl own ↦
      let eq_m : e.mahber_id ≡ mahber = ground arith in
      let eq_u : e.member_id ≡ member = ground arith in
      let moved : IsNear mahber member e xs =
        subst (λ k. IsNear k member e xs) eq_m (subst (λ k. IsNear e.mahber_id k e xs) eq_u b.0) in
      let turned = +ℤ_comm e.amount (sum_where (entry_of mahber member) entry_amount xs) in
      rw (own, turned) (moved_in mahber member e xs own moved)
  | inr other ↦
      let rest = previous-Within mahber member xs b.1 in
      let none_added = zero-+ℤ (sum_where (entry_of mahber member) entry_amount xs) in
      rw (other, none_added) (omega (arith, rest), omega (arith, rest))
]

-- Writing a fine, a draw or a payout, or an amount in whole cents, keeps the ledger balanced.
pub create_ledger_entry-IsBalanced :
    (now id : ℕ) (d : LedgerData) (s : Db)
    → (may_round d.transaction_type ≡ true) ⊎ (is_whole d.amount ≡ true)
    → IsBalanced s.ledger
    → IsBalanced (create_ledger_entry now id d s).1.ledger
unfolding create_ledger_entry count
create_ledger_entry-IsBalanced now id d s kind b =
    let before = previous-Within d.mahber_id d.member_id s.ledger b in
    let previous = previous_balance (find (entry_of d.mahber_id d.member_id) s.ledger) in
    (
      elim kind [
        | inl rounding ↦
            let step = add_to-Within previous d.amount in
            rw (==-refl d.mahber_id, ==-refl d.member_id, rounding)
              (carried _ 1 _ _ _ _ before step)
        | inr whole ↦
            let step = add_to-rounded previous d.amount whole in
            let grown = new_entry now id d previous ∷ s.ledger in
            rw step (
              carried_more (count (rounding_of d.mahber_id d.member_id) s.ledger)
                (count (rounding_of d.mahber_id d.member_id) grown) previous _ _ (ground arith)
                before)
      ],
      b,
    )

-- If every entry of the ledger carries the sum of its member's amounts up to itself, an entry of
-- whole cents that is written carries the balance that `getMemberBalance` then reports, which is
-- the balance before plus the amount of the entry.
pub create_ledger_entry-balance :
    (now id : ℕ) (d : LedgerData) (n : ℤ) (s : Db) (e : LedgerEntry)
    → d.amount ≡ cents n
    → IsExact s.ledger
    → (create_ledger_entry now id d s).0 ≡ ok e
    → (e.running_balance
        ≡ get_member_balance d.mahber_id d.member_id (create_ledger_entry now id d s).1)
      × (get_member_balance d.mahber_id d.member_id (create_ledger_entry now id d s).1
          ≡ get_member_balance d.mahber_id d.member_id s +ℤ n)
unfolding create_ledger_entry get_member_balance sum_where
create_ledger_entry-balance now id d n s e whole b h =
    let sum = sum_where (entry_of d.mahber_id d.member_id) entry_amount s.ledger in
    ground (
      arith,
      whole,
      ==-refl d.mahber_id,
      ==-refl d.member_id,
      previous-eq-sum d.mahber_id d.member_id s.ledger b,
      +ℤ_comm sum n,
    )

-- Writing an entry changes what its organization holds by the amount of the entry, and no other.
pub create_ledger_entry-current :
    (now id mahber : ℕ) (d : LedgerData) (s : Db)
    → current_balance mahber (create_ledger_entry now id d s).1
      ≡ (if d.mahber_id == mahber then rounded d.amount else pos 0) +ℤ current_balance mahber s
unfolding create_ledger_entry current_balance sum_where
create_ledger_entry-current now id mahber d s = refl

-- An operation that leaves the ledger alone or writes one entry keeps it balanced.
pub write-IsBalanced :
    (now id : ℕ) (d : LedgerData) (s : Db) (after : List LedgerEntry)
    → (may_round d.transaction_type ≡ true) ⊎ (is_whole d.amount ≡ true)
    → (after ≡ s.ledger) ⊎ (after ≡ (create_ledger_entry now id d s).1.ledger)
    → IsBalanced s.ledger
    → IsBalanced after
write-IsBalanced now id d s after kind (inl same) b = rw same b
write-IsBalanced now id d s after kind (inr new) b =
    rw new (create_ledger_entry-IsBalanced now id d s kind b)

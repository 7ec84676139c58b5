-- ===== src/Transfers/Plan.antt =====
-- What a transfer plan of `get_transfers` in transfers.rs is, and when there is one.
use mpp_rs.Prelude.{
  ℕ, ◌+◌, ◌-◌, ◌≤◌, ◌<◌, ◌≡◌, Option, none, some, true, false, List, [], ◌∷◌, length, drop, All, ap,
  sym, Bool, checked_add, ltb, leb, arith,
}
use mpp_rs.Prelude.Results.{bind-ok, ok-injective}
use mpp_rs.Transfers.Defs.{
  Result, ok, err, ok_or, err_if, ◌>>=◌, TransferError, invalid_challenge, Split, Transfer, Parsers,
  max_splits, u256_mod, read_split, collect_splits, get_transfers,
}

abbrev pub sum : List Transfer → ℕ
sum [] = 0
sum (t ∷ ts) = t.amount + sum ts

bind_step :
    {A B : Type 0} (first : Result TransferError A) (next : A → Result TransferError B) {end : B}
    → (first >>= next) ≡ ok end
    → (a : A) × (first ≡ ok a) × (next a ≡ ok end)
bind_step first next {end} e = bind-ok first next end e

err_if-ok : (b : Bool) (e : TransferError) {u : Unit {0}} → err_if b e ≡ ok u → b ≡ false
err_if-ok b e h = ground arith

under : (total split_sum n : ℕ) → split_sum ≡ n → leb total split_sum ≡ false → n < total
under total split_sum n e h = ground arith

not_ltb : (a b : ℕ) → ltb a b ≡ false → b ≤ a
not_ltb a b h = ground arith

pair_total : Result TransferError (ℕ × List Transfer) → ℕ
pair_total (ok (total, ts)) = total
pair_total (err e) = 0

pair_transfers : Result TransferError (ℕ × List Transfer) → List Transfer
pair_transfers (ok (total, ts)) = ts
pair_transfers (err e) = []

module _ (x : Parsers) where
  -- Each split has its transfer, in order.
  abbrev pub Reads : List Split → List Transfer → Type 0
  Reads [] [] = Unit
  Reads (s ∷ ss) (t ∷ ts) = (read_split x s ≡ ok t) × Reads ss ts
  Reads _ _ = ⊥

  read_split-pos : (s : Split) (t : Transfer) → read_split x s ≡ ok t → 0 < t.amount
  unfolding read_split
  read_split-pos s t e = ground arith

  collect_splits-ok :
      (acc : ℕ) (ss : List Split) (total : ℕ) (ts : List Transfer)
      → collect_splits x acc ss ≡ ok (total, ts)
      → (total ≡ acc + sum ts) × Reads ss ts × All (λ (t : Transfer). 0 < t.amount) ts
  unfolding collect_splits pair_total pair_transfers
  collect_splits-ok acc [] total ts e =
      let sums : acc ≡ total = cc (ap pair_total e) in
      let empty : [] ≡ ts = cc (ap pair_transfers e) in rw (← empty) (omega arith, tt, tt)
  collect_splits-ok acc (s ∷ ss) total ts e =
      let (t, read, e₁) = bind_step (read_split x s) _ e in
      let (acc', added, e₂) =
        bind_step (ok_or (checked_add u256_mod acc t.amount) invalid_challenge) _ e₁ in
      let ((total', ts'), rest, e₃) = bind_step (collect_splits x acc' ss) _ e₂ in
      let (sums, reads, pos) = collect_splits-ok acc' ss total' ts' rest in
      let is_acc : acc' ≡ acc + t.amount = ground arith in
      let same_total : total' ≡ total = cc (ap pair_total e₃) in
      let same_ts : t ∷ ts' ≡ ts = cc (ap pair_transfers e₃) in
      rw (← same_ts) (omega arith, (read, reads), (read_split-pos s t read, pos))

  -- The other way: what reads, and does not overflow, is collected.
  collect_splits-of :
      (acc : ℕ) (ss : List Split) (ts : List Transfer)
      → Reads ss ts
      → acc + sum ts < u256_mod
      → collect_splits x acc ss ≡ ok (acc + sum ts, ts)
  unfolding collect_splits
  collect_splits-of acc [] [] r h = ap (λ (n : ℕ). ok (n, [])) (omega arith)
  collect_splits-of acc [] (t ∷ ts) r h = absurd r
  collect_splits-of acc (s ∷ ss) [] r h = absurd r
  collect_splits-of acc (s ∷ ss) (t ∷ ts) r h =
      let fits : ltb (acc + t.amount) u256_mod ≡ true = ground arith in
      let sums : acc + t.amount + sum ts ≡ acc + (t.amount + sum ts) = omega arith in
      rw (r.0, fits, collect_splits-of (acc + t.amount) ss ts r.1 (omega arith))
        (ap (λ (n : ℕ). ok (n, t ∷ ts)) sums)

-- The plan of a charge: the primary transfer and, if there are splits, theirs.
abbrev pub IsPlan : Parsers → ℕ → ℕ → Option (List ℕ) → Option (List Split) → List Transfer → Type 0
IsPlan x total recipient memo none ts =
    ts ≡ record { amount = total; recipient = recipient; memo = memo } ∷ []
IsPlan x total recipient memo (some ss) ts =
    (rest : List Transfer) × (ts
      ≡ record { amount = total - sum rest; recipient = recipient; memo = memo } ∷ rest)
    × (sum rest < total)
    × Reads x ss rest
    × (0 < length ss)
    × (length ss ≤ max_splits)

module _ (x : Parsers) (total recipient : ℕ) (memo : Option (List ℕ)) where
  -- `get_transfers` returns the plan of its charge, with or without splits, and no split of it
  -- transfers nothing.
  pub get_transfers-IsPlan :
      (splits : Option (List Split)) (ts : List Transfer)
      → get_transfers x total recipient memo splits ≡ ok ts
      → IsPlan x total recipient memo splits ts × All (λ (t : Transfer). 0 < t.amount) (drop 1 ts)
  unfolding get_transfers
  get_transfers-IsPlan none ts e =
      let same : record { amount = total; recipient = recipient; memo = memo } ∷ [] ≡ ts =
        ok-injective _ _ e in
      (sym same, rw (← same) tt)
  get_transfers-IsPlan (some []) ts e = cc
  get_transfers-IsPlan (some (s ∷ ss)) ts e =
      let (u, few, e₁) =
        bind_step (err_if (ltb max_splits (length (s ∷ ss))) invalid_challenge) _ e in
      let ((split_sum, rest), collected, e₂) = bind_step (collect_splits x 0 (s ∷ ss)) _ e₁ in
      let (v, below, e₃) = bind_step (err_if (leb total split_sum) invalid_challenge) _ e₂ in
      let (sums, reads, pos) = collect_splits-ok x 0 (s ∷ ss) split_sum rest collected in
      let is_sum : split_sum ≡ sum rest = omega (arith, sums) in
      let left : sum rest < total =
        under total split_sum (sum rest) is_sum
          (err_if-ok (leb total split_sum) invalid_challenge below) in
      let same : record { amount = total - split_sum; recipient = recipient; memo = memo } ∷ rest
          ≡ ts =
        ok-injective _ _ e₃ in
      (
        (
          rest,
          rw (← is_sum) (sym same),
          left,
          reads,
          omega arith,
          not_ltb max_splits (length (s ∷ ss))
              (err_if-ok (ltb max_splits (length (s ∷ ss))) invalid_challenge few),
        ),
        rw (← same) pos,
      )

  -- Every plan that the chain's 256 bits can hold is returned.
  pub get_transfers-of_plan :
      (splits : Option (List Split)) (ts : List Transfer)
      → total < u256_mod
      → IsPlan x total recipient memo splits ts
      → get_transfers x total recipient memo splits ≡ ok ts
  unfolding get_transfers
  get_transfers-of_plan none ts h plan = rw plan
  get_transfers-of_plan (some []) ts h plan = absurd (omega (arith, plan.4))
  get_transfers-of_plan (some (s ∷ ss)) ts h plan =
      let few : ltb max_splits (length (s ∷ ss)) ≡ false = ground (arith, plan.5) in
      let below : leb total (0 + sum plan.0) ≡ false = ground (arith, plan.2) in
      let same : 0 + sum plan.0 ≡ sum plan.0 = omega arith in
      rw (
        few,
        collect_splits-of x 0 (s ∷ ss) plan.0 plan.3 (omega (arith, plan.2)),
        below,
        same,
        plan.1,
      )

  -- The transfers of a charge move its total, no more and no less.
  pub sum-get_transfers :
      (splits : Option (List Split)) (ts : List Transfer)
      → get_transfers x total recipient memo splits ≡ ok ts
      → sum ts ≡ total
  sum-get_transfers none ts e = rw ((get_transfers-IsPlan none ts e).0) (omega arith)
  sum-get_transfers (some ss) ts e =
      let plan = (get_transfers-IsPlan (some ss) ts e).0 in rw plan.1 (omega (arith, plan.2))

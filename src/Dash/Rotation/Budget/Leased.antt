-- ===== src/Dash/Rotation/Budget/Leased.antt =====
-- A step of a draw on the daily quota of a key keeps what was leased above what is used or held.
use waterfall.Prelude.{
  ℕ, zero, suc, ◌+◌, ◌-◌, ◌*◌, ◌≤◌, ◌<◌, arith, ◌≡◌, inl, inr, Bool-cases, ltb, leb, ltb→lt, Option,
  none, some, List, [], ◌∷◌, if◌then◌else◌,
}
use mathlib.Core.Path.{subst}
use native.Mathlib.Nat.{mul-le-mul_left}
use waterfall.Dash.Rotation.Budget.{
  batch_size, Budget, Phase, idle, ensuring, rolling, taking, reading, resting, Instance, Turn,
  moves, ensure, roll, lease, remainder, with_row, statement, spend_token, advance,
}

abbrev pub total : List Instance → ℕ
total [] = 0
total (i ∷ is) = i.tokens + total is

-- A draw asks for a remainder only where there is one.
abbrev pub Asks : Phase → Type 0
Asks (resting n) = 0 < n
Asks _ = Unit

-- The tokens that were ever leased cover those that were used or are held.
abbrev pub Covers : ℕ → ℕ → ℕ → Option Budget → Type 0
Covers limit today used none = used ≡ 0
Covers limit today used (some b) =
    (b.day ≤ today) × (b.day_leased ≤ limit) × (used ≤ limit * b.day + b.day_leased)

module _ (limit today other : ℕ) where
  -- A step keeps the cover.
  abbrev pub Kept : Turn → Type 0
  Kept t = Covers limit today (t.leases + t.inst.tokens + other) t.row × Asks t.inst.phase

  abbrev Held : Option Budget → Type 0
  Held row = Covers limit today other row

  pub Covers-at :
      (row : Option Budget) (m n : ℕ) → m ≡ n → Covers limit today m row → Covers limit today n row
  Covers-at row m n e h = subst (λ k. Covers limit today k row) e h

  moves-Kept : (row : Option Budget) (p : Phase) → Asks p → Held row → Kept (moves row p)
  moves-Kept row p asks h = (Covers-at row other (0 + 0 + other) (omega arith) h, asks)

  lease-Kept :
      (n : ℕ) (next : Phase) (b : Budget)
      → 0 < n
      → Asks next
      → Held (some b)
      → Kept (lease limit n next b)
  unfolding lease
  lease-Kept n next b some_tokens asks (d, l, u) =
      elim (Bool-cases (leb (b.day_leased + n) limit)) [
        | inl fits ↦ rw fits ((d, ground arith, ground arith), tt)
        | inr full ↦ rw full (moves-Kept (some b) next asks (d, l, u))
      ]

  remainder-Kept : (b : Budget) → Held (some b) → Kept (remainder limit b)
  unfolding remainder
  remainder-Kept b (d, l, u) = elim (Bool-cases (leb limit b.day_leased)) [
    | inl full ↦ rw full (moves-Kept (some b) idle tt (d, l, u))
    | inr room ↦ rw room (
        moves-Kept (some b)
          (resting
            (if ltb batch_size (limit - b.day_leased) then batch_size else limit - b.day_leased))
          (ground arith) (d, l, u))
  ]

  roll-Held : (b : Budget) → Held (some b) → Held (some (roll today b))
  unfolding roll
  roll-Held b (d, l, u) = elim (Bool-cases (ltb b.day today)) [
    | inl late ↦
        let step = mul-le-mul_left limit (ltb→lt b.day today late) in
        rw late (omega arith, omega arith, omega (arith, step, u, l))
    | inr now ↦ rw now (d, l, u)
  ]

  with_row-Kept :
      (p : Phase) (b : Budget) → Asks p → Held (some b) → Kept (with_row today limit p b)
  unfolding with_row
  with_row-Kept idle b asks h = moves-Kept (some b) idle tt h
  with_row-Kept ensuring b asks h = moves-Kept (some b) idle tt h
  with_row-Kept rolling b asks h = moves-Kept (some (roll today b)) taking tt (roll-Held b h)
  with_row-Kept taking b asks h = lease-Kept batch_size reading b (omega arith) tt h
  with_row-Kept reading b asks h = remainder-Kept b h
  with_row-Kept (resting n) b asks h = lease-Kept n idle b asks tt h

  statement-Kept :
      (p : Phase) (row : Option Budget) → Asks p → Held row → Kept (statement today limit p row)
  unfolding statement ensure
  statement-Kept ensuring none asks h =
      moves-Kept (some _) rolling tt (omega arith, omega arith, omega (arith, h))
  statement-Kept ensuring (some b) asks h = moves-Kept (some b) rolling tt h
  statement-Kept idle none asks h = moves-Kept none idle tt h
  statement-Kept rolling none asks h = moves-Kept none idle tt h
  statement-Kept taking none asks h = moves-Kept none idle tt h
  statement-Kept reading none asks h = moves-Kept none idle tt h
  statement-Kept (resting n) none asks h = moves-Kept none idle tt h
  statement-Kept idle (some b) asks h = with_row-Kept idle b asks h
  statement-Kept rolling (some b) asks h = with_row-Kept rolling b asks h
  statement-Kept taking (some b) asks h = with_row-Kept taking b asks h
  statement-Kept reading (some b) asks h = with_row-Kept reading b asks h
  statement-Kept (resting n) (some b) asks h = with_row-Kept (resting n) b asks h

  spend_token-Kept :
      (n : ℕ) (row : Option Budget)
      → Covers limit today (n + other) row
      → Kept (spend_token today limit n row)
  unfolding spend_token
  spend_token-Kept zero row h =
      moves-Kept row ensuring tt (Covers-at row (0 + other) other (omega arith) h)
  spend_token-Kept (suc n) row h =
      (Covers-at row (suc n + other) (1 + n + other) (omega arith) h, tt)

  -- Fewer tokens in use are covered too.
  pub Covers-mono : (row : Option Budget) (m : ℕ) → m ≤ other → Held row → Covers limit today m row
  Covers-mono none m le h = omega (arith, h, le)
  Covers-mono (some b) m le (d, l, u) = (d, l, omega (arith, u, le))

  pub Covers-later : (row : Option Budget) → Held row → Covers limit (suc today) other row
  Covers-later none h = h
  Covers-later (some b) (d, l, u) = (omega arith, l, u)

module _ (limit today other : ℕ) (i : Instance) (row : Option Budget) (asks : Asks i.phase)
    (h : Covers limit today (i.tokens + other) row) where
  held : Covers limit today other row
  held = Covers-mono limit today (i.tokens + other) row other (omega arith) h

  pub advance-Kept : Kept limit today other (advance today limit i row)
  unfolding advance
  advance-Kept =
      elim i.phase
          as (λ (p : Phase).
            Asks p
            → Kept limit today other (elim p [
              | idle ↦ spend_token today limit i.tokens row
              | ensuring ↦ statement today limit ensuring row
              | rolling ↦ statement today limit rolling row
              | taking ↦ statement today limit taking row
              | reading ↦ statement today limit reading row
              | resting n ↦ statement today limit (resting n) row
            ])) [
              | idle ↦ λ a. spend_token-Kept limit today other i.tokens row h
              | ensuring ↦ λ a. statement-Kept limit today other ensuring row a held
              | rolling ↦ λ a. statement-Kept limit today other rolling row a held
              | taking ↦ λ a. statement-Kept limit today other taking row a held
              | reading ↦ λ a. statement-Kept limit today other reading row a held
              | resting n ↦ λ a. statement-Kept limit today other (resting n) row a held
            ]
        asks

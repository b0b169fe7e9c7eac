-- ===== src/Process/Health.antt =====
-- `WaitForRunning` of pkg/process/healthchecker.go: the service of a process is probed in up to 600
-- rounds, until the process ends.
use longhorn_instance_manage.Base.{
  ℕ, zero, suc, ap, ◌==◌, ◌≢◌, Bool-cases, ◌+◌, ◌≤◌, ◌<◌, ◌≡◌, refl, Bool, true, false,
  if◌then◌else◌, arith, ◌⊎◌, inl, inr, sym, ◌∙◌,
}
use longhorn_instance_manage.Process.{wait_count}

-- What a round meets: `stopCh` is closed, or the ticker ticks and the probe answers.
pub data Round : Type 0 where
  stop_closed : Round
  tick : Bool → Round

-- With the number of rounds left, from the `i`-th round on.
unfoldable pub wait_from : (ℕ → Round) → ℕ → ℕ → Bool
wait_from rounds zero i = false
wait_from rounds (suc n) i =
    let rest = wait_from rounds n (suc i) in
    elim (rounds i) [ stop_closed ↦ false | tick healthy ↦ if healthy then true else rest ]

unfoldable pub wait_for_running : (ℕ → Round) → Bool
unfolding wait_from
wait_for_running rounds = wait_from rounds wait_count 0

-- The first round of `n` that is not a tick with a failed probe is one with a probe that succeeds.
pub record Started (rounds : ℕ → Round) (i n : ℕ) : Type 0 where
  pub round : ℕ
  pub from : i ≤ round
  pub before_end : round < i + n
  pub healthy : rounds round ≡ tick true
  pub waited : (j : ℕ) → i ≤ j → j < round → rounds j ≡ tick false

Round-cases : (r : Round) → (r ≡ stop_closed) ⊎ ((r ≡ tick true) ⊎ (r ≡ tick false))
Round-cases stop_closed = inl refl
Round-cases (tick true) = inr (inl refl)
Round-cases (tick false) = inr (inr refl)

one_more :
    (rounds : ℕ → Round) (i n : ℕ)
    → rounds i ≡ tick false
    → Started rounds (suc i) n
    → Started rounds i (suc n)
one_more rounds i n e s = record {
  round = s.round;
  from = omega (arith, s.from);
  before_end = omega (arith, s.before_end);
  healthy = s.healthy;
  waited = λ j from before. grind (arith, s.waited j, e);
}

wait_from-Started :
    (rounds : ℕ → Round) (n i : ℕ) → wait_from rounds n i ≡ true → Started rounds i n
unfolding wait_from
wait_from-Started rounds zero i h = cc
wait_from-Started rounds (suc n) i h = elim (Round-cases (rounds i)) [
  | inl e ↦ ground (arith, e)
  | inr (inl e) ↦ record {
    round = i;
    from = omega arith;
    before_end = omega arith;
    healthy = e;
    waited = λ j from before. absurd (omega arith);
  }
  | inr (inr e) ↦ one_more rounds i n e (wait_from-Started rounds n (suc i) (ground arith))
]

-- If `WaitForRunning` returns true, then the probe of one of its 600 rounds succeeded, and in every
-- round before it the probe failed and the process had not ended.
pub wait_for_running-Started :
    (rounds : ℕ → Round) → wait_for_running rounds ≡ true → Started rounds 0 wait_count
unfolding wait_for_running
wait_for_running-Started rounds h = wait_from-Started rounds wait_count 0 h

later : (rounds : ℕ → Round) (i n : ℕ) (s : Started rounds i n) → rounds i ≢ tick true → i < s.round
later rounds i n s ne = elim (Bool-cases (i == s.round)) [
  | inl same ↦ let equal : i ≡ s.round = ground arith in absurd (ne (ap rounds equal ∙ s.healthy))
  | inr other ↦ ground (arith, s.from)
]

Started-wait_from :
    (rounds : ℕ → Round) (n i : ℕ) → Started rounds i n → wait_from rounds n i ≡ true
unfolding wait_from
Started-wait_from rounds zero i s = absurd (omega (arith, s.from, s.before_end))
Started-wait_from rounds (suc n) i s = elim (Round-cases (rounds i)) [
  | inl e ↦
      let stopped : stop_closed ≡ tick false =
        sym e ∙ s.waited i (omega arith) (later rounds i (suc n) s (λ h. differ (sym e ∙ h))) in
      absurd (differ_false stopped)
  | inr (inl e) ↦ ground arith
  | inr (inr e) ↦
      let after = later rounds i (suc n) s (λ h. failed (sym e ∙ h)) in
      let rest = Started-wait_from rounds n (suc i) (record {
        round = s.round;
        from = omega (arith, after);
        before_end = omega (arith, s.before_end);
        healthy = s.healthy;
        waited = λ j from before. s.waited j (omega arith) before;
      }) in
      ground (arith, rest)
]
  where
    differ : stop_closed ≡ tick true → ⊥
    differ h = cc

    differ_false : stop_closed ≡ tick false → ⊥
    differ_false h = cc

    failed : tick false ≡ tick true → ⊥
    failed h = cc

-- If the probe of one of the 600 rounds succeeds, and in every round before it the probe fails and the
-- process has not ended, then `WaitForRunning` returns true.
pub Started-wait_for_running :
    (rounds : ℕ → Round) → Started rounds 0 wait_count → wait_for_running rounds ≡ true
unfolding wait_for_running
Started-wait_for_running rounds s = Started-wait_from rounds wait_count 0 s

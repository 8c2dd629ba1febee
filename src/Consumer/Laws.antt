-- ===== src/Consumer/Laws.antt =====
-- What the loops promise of an offset, and what they do not.
use fintech_data_platform.Prelude.{
  ℕ, suc, ◌≤◌, ◌<◌, ◌≡◌, refl, ap, Bool, true, Option, none, some, List, [], ◌∷◌, any, count, eqb,
  arith, ◌∙◌,
}
use fintech_data_platform.Consumer.{
  Outcome, handled, dropped, failed, crashed, Turn, poll, restart, message_at, Session,
  after_commit, after_poll, take_message, turn, run,
}

abbrev pub is_at : ℕ → ℕ × Outcome → Bool
is_at k (n, o) = eqb n k

module _ {S : Type 0} where
  -- The position is not behind the committed offset, and every offset below it was polled.
  pub record IsSound (s : Session S) : Type 0 where
    pub ahead : s.committed ≤ s.position
    pub reached : (k : ℕ) → k < s.position → any (is_at k) s.attempts ≡ true

module _ {M S : Type 0} (process : M → S → Outcome × S) (log : List M) where
  committed_le :
      (o : Outcome) (p c : ℕ)
      → c ≤ p
      → (c ≤ after_commit o p c)
        × (after_commit o p c ≤ after_poll o p c)
        × (after_poll o p c ≤ suc p)
  committed_le handled p c h = omega arith
  committed_le dropped p c h = omega arith
  committed_le failed p c h = omega arith
  committed_le crashed p c h = omega arith

  take-IsSound : (s : Session S) (o : Option M) → IsSound s → IsSound (take_message process s o)
  take-IsSound s none h = h
  take-IsSound s (some m) h = record {
    ahead = (committed_le (process m s.state).0 s.position s.committed h.ahead).1;
    reached = λ k lt.
        ground
          (arith, h.reached k, committed_le (process m s.state).0 s.position s.committed h.ahead);
  }

  turn-IsSound : (t : Turn) (s : Session S) → IsSound s → IsSound (turn process log t s)
  unfolding turn
  turn-IsSound restart s h = record {
    ahead = omega arith;
    reached = λ k lt. h.reached k (omega (arith, h.ahead));
  }
  turn-IsSound poll s h = take-IsSound s (message_at log s.position) h

  -- From a session where this holds, whatever polls and restarts follow, an offset that is committed has been polled: the loop
  -- never commits past a message that it has not taken.
  pub run-IsSound : (ts : List Turn) (s : Session S) → IsSound s → IsSound (run process log ts s)
  unfolding run
  run-IsSound [] s h = h
  run-IsSound (t ∷ ts) s h = run-IsSound ts (turn process log t s) (turn-IsSound t s h)

  -- What every message's processing keeps the whole run keeps.
  pub run_keeps :
      (P : S → Type 0)
      → ((m : M) (x : S) → P x → P (process m x).1)
      → (ts : List Turn) (s : Session S) → P s.state
      → P (run process log ts s).state
  unfolding run turn
  run_keeps P k [] s h = h
  run_keeps P k (restart ∷ ts) s h = run_keeps P k ts (record s { position = s.committed }) h
  run_keeps P k (poll ∷ ts) s h =
      run_keeps P k ts (take_message process s (message_at log s.position))
        (taken (message_at log s.position))
    where
      taken : (o : Option M) → P (take_message process s o).state
      taken none = h
      taken (some m) = k m s.state h

  take-past :
      (k : ℕ) (s : Session S) (o : Option M)
      → k < s.committed
      → s.committed ≤ s.position
      → (count (is_at k) (take_message process s o).attempts ≡ count (is_at k) s.attempts)
        × (k < (take_message process s o).committed)
        × ((take_message process s o).committed ≤ (take_message process s o).position)
  take-past k s none h a = (refl, h, a)
  take-past k s (some m) h a =
      let (lo, hi, _) = committed_le (process m s.state).0 s.position s.committed a in
      (ground arith, omega (arith, lo), hi)

  -- A committed offset is not polled again, whatever polls and restarts follow, where the position
  -- is not behind the committed offset: the number of its attempts stays as it is.
  pub past_committed :
      (k : ℕ) (ts : List Turn) (s : Session S)
      → k < s.committed
      → s.committed ≤ s.position
      → count (is_at k) (run process log ts s).attempts ≡ count (is_at k) s.attempts
  unfolding run turn
  past_committed k [] s h a = refl
  past_committed k (restart ∷ ts) s h a =
      past_committed k ts (record s { position = s.committed }) h (omega arith)
  past_committed k (poll ∷ ts) s h a =
      let (same, h', a') = take-past k s (message_at log s.position) h a in
      past_committed k ts (take_message process s (message_at log s.position)) h' a' ∙ same

  module _ (s : Session S) (m n : M) (fm : (process m s.state).0 ≡ failed)
      (hn : (process n (process m s.state).1).0 ≡ handled) where
    both : Session S
    both = take_message process (take_message process s (some m)) (some n)

    both_committed : both.committed ≡ suc (suc s.position)
    unfolding both
    both_committed = rw (fm, hn)

    both_position : both.position ≡ suc (suc s.position)
    unfolding both
    both_position = rw (fm, hn)

    both_attempts :
        count (is_at s.position) both.attempts ≡ suc (count (is_at s.position) s.attempts)
    unfolding both
    both_attempts = ground arith

    one_position : (take_message process s (some m)).position ≡ suc s.position
    one_position = rw fm

    run-both :
        (ts : List Turn)
        → message_at log s.position ≡ some m
        → message_at log (suc s.position) ≡ some n
        → run process log (poll ∷ poll ∷ ts) s ≡ run process log ts both
    unfolding run turn both
    run-both ts em en =
        ap (λ o. run process log (poll ∷ ts) (take_message process s o)) em
        ∙ ap (λ o. run process log ts (take_message process (take_message process s (some m)) o))
            (ap (message_at log) one_position ∙ en)

    -- A message whose handling failed is not handled again once the next message has been
    -- committed: whatever polls and restarts follow, it has had one attempt more than before.
    pub failure_is_skipped :
        (ts : List Turn)
        → message_at log s.position ≡ some m
        → message_at log (suc s.position) ≡ some n
        → count (is_at s.position) (run process log (poll ∷ poll ∷ ts) s).attempts
          ≡ suc (count (is_at s.position) s.attempts)
    failure_is_skipped ts em en =
        ap (λ (r : Session S). count (is_at s.position) r.attempts) (run-both ts em en)
        ∙ past_committed s.position ts both (omega (arith, both_committed))
            (omega (arith, both_committed, both_position))
        ∙ both_attempts

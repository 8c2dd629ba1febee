-- ===== src/Consumer.antt =====
-- The consumer loop of the workers that handle one message at a time: `run` of
-- services/workers/fraud_worker/main.py and services/workers/excel_scanner/main.py.
-- The broker's client (confluent_kafka) keeps two numbers for a partition: the position of the next
-- `poll`, which every poll moves on, and the committed offset, from which a new session starts.
-- `commit(message=m)` commits the offset after m.
pub mod Laws
use fintech_data_platform.Prelude.{ℕ, zero, suc, String, Option, none, some, List, [], ◌∷◌}
use fintech_data_platform.Exec.{Result, ok, err}

-- How the body of the loop ends for one message: committed after the handler has returned,
-- committed and dropped without it (a tombstone, or what is no JSON), left uncommitted after a
-- logged failure, or left uncommitted by an error that ends the session.
pub data Outcome : Type 0 where
  handled dropped failed crashed : Outcome

-- What happens next: a poll that returns a message if there is one, or the end of the session (a
-- crash, a signal, a rebalance) and the start of the next.
pub data Turn : Type 0 where
  poll restart : Turn

-- A message as `poll` returns it. An error that `poll` reports ends the session: that is `restart`.
pub record Delivered : Type 0 where
  pub topic : String
  pub partition : ℕ
  pub offset : ℕ
  -- what the decoding of the key gives
  pub key : Result (Option String)
  -- the bytes, which stand here as a text; `none` is a tombstone
  pub value : Option String

-- A handler that raises is logged, and the offset is left as it is.
abbrev pub logged : {A S : Type 0} → Result A × S → Outcome × S
logged (ok a, s) = (Outcome.handled, s)
logged (err e, s) = (Outcome.failed, s)

abbrev pub message_at : {M : Type 0} → List M → ℕ → Option M
message_at [] n = none
message_at (m ∷ ms) zero = some m
message_at (m ∷ ms) (suc n) = message_at ms n

pub record Session (S : Type 0) : Type 0 where
  pub position : ℕ
  pub committed : ℕ
  -- the offsets that were polled, newest first, with how each ended
  pub attempts : List (ℕ × Outcome)
  pub state : S

abbrev pub after_commit : Outcome → ℕ → ℕ → ℕ
after_commit Outcome.handled offset committed = suc offset
after_commit Outcome.dropped offset committed = suc offset
after_commit Outcome.failed offset committed = committed
after_commit Outcome.crashed offset committed = committed

-- After a crash the next session starts from the committed offset.
abbrev pub after_poll : Outcome → ℕ → ℕ → ℕ
after_poll Outcome.crashed offset committed = committed
after_poll _ offset committed = suc offset

module _ {M S : Type 0} (process : M → S → Outcome × S) where
  abbrev pub take_message : Session S → Option M → Session S
  take_message s none = s
  take_message s (some m) =
      let (o, state) = process m s.state in
      record {
        position = after_poll o s.position s.committed;
        committed = after_commit o s.position s.committed;
        attempts = (s.position, o) ∷ s.attempts;
        state = state;
      }

  -- One turn of the loop over the log of a partition.
  unfoldable pub turn : List M → Turn → Session S → Session S
  turn log Turn.poll s = take_message s (message_at log s.position)
  turn log Turn.restart s = record s { position = s.committed }

  unfoldable pub run : List M → List Turn → Session S → Session S
  run log [] s = s
  run log (t ∷ ts) s = run log ts (turn log t s)

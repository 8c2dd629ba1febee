-- ===== src/Bronze/Passed.antt =====
-- The messages that the loop of the bronze writer has passed.
use fintech_data_platform.Prelude.{
  ℕ, suc, ◌<◌, String, ◌≡◌, refl, true, false, Bool, Option, none, some, List, [], ◌∷◌, ◌++◌, All,
  All-imp, arith, if◌then◌else◌,
}
use fintech_data_platform.Json.{Value}
use fintech_data_platform.Exec.{ErrorKind, Result, ok, err}
use fintech_data_platform.World.{World, Env}
use fintech_data_platform.Consumer.{Delivered, message_at}
use fintech_data_platform.Bronze.Row.{AssessedRecord}
use fintech_data_platform.Bronze.Batches.{Writer}
use fintech_data_platform.Bronze.Publish.{flush_records}
use fintech_data_platform.Bronze.Loop.{
  Turn, poll, timeout, restart, BatchSession, batch_run, batch_turn, commit_polled, committed_after,
  flush_if_due, flushed, is_due, on_undecoded, receive, receive_loaded, receive_value, restarted,
}

-- Every gathered record is behind the offset.
abbrev pub AllBehind : ℕ → List AssessedRecord → Type 0
AllBehind k = All (λ (r : AssessedRecord). k < r.kafka_offset)

-- Neither this session nor one that is started from its committed offset has the message of the
-- offset before it, and it is not among the gathered records.
pub record IsPassed (k : ℕ) (s : BatchSession) : Type 0 where
  pub position : k < s.position
  pub committed : k < s.committed
  pub pending : AllBehind k s.pending

pub AllBehind-append :
    (k : ℕ) (rs : List AssessedRecord) (r : AssessedRecord)
    → AllBehind k rs
    → k < r.kafka_offset
    → AllBehind k (rs ++ (r ∷ []))
AllBehind-append k [] r h p = (p, tt)
AllBehind-append k (x ∷ rs) r h p = (h.0, AllBehind-append k rs r h.1 p)

pub committed_after-passed :
    (k c : ℕ) (rs : List AssessedRecord) → k < c → AllBehind k rs → k < committed_after c rs
committed_after-passed k c [] p h = p
committed_after-passed k c (r ∷ rs) p h =
    committed_after-passed k (suc r.kafka_offset) rs (omega (arith, h.0)) h.1

module _ (env : Env) (writer : Writer) (max_records : ℕ) (k : ℕ) where
  restarted-IsPassed : (s : BatchSession) → IsPassed k s → IsPassed k (restarted s)
  restarted-IsPassed s h = record { position = h.committed; committed = h.committed; pending = tt }

  commit_polled-IsPassed : (s : BatchSession) → IsPassed k s → IsPassed k (commit_polled s)
  commit_polled-IsPassed s h = record {
    position = omega (arith, h.position);
    committed = omega (arith, h.position);
    pending = h.pending;
  }

  on_undecoded-IsPassed :
      (e : ErrorKind) (s : BatchSession) → IsPassed k s → IsPassed k (on_undecoded e s)
  on_undecoded-IsPassed ErrorKind.json_decode_error s h = commit_polled-IsPassed s h
  on_undecoded-IsPassed _ s h = restarted-IsPassed s h

  loaded-IsPassed :
      (s : BatchSession) (m : Delivered) (r : Result Value)
      → IsPassed k s
      → IsPassed k (receive_loaded env writer max_records s m r)
  loaded-IsPassed s m (ok v) h = record {
    position = omega (arith, h.position);
    committed = h.committed;
    pending = AllBehind-append k s.pending _ h.pending h.position;
  }
  loaded-IsPassed s m (err e) h = on_undecoded-IsPassed e.kind s h

  receive-IsPassed :
      (s : BatchSession) (o : Option Delivered)
      → IsPassed k s
      → IsPassed k (receive env writer max_records s o)
  receive-IsPassed s none h = h
  receive-IsPassed s (some m) h = of_value m.value
    where
      of_value : (o : Option String) → IsPassed k (receive_value env writer max_records s m o)
      of_value none = commit_polled-IsPassed s h
      of_value (some text) = loaded-IsPassed s m (env.library.loads text) h

  flushed-IsPassed :
      (s : BatchSession) (r : Result (Unit {0}) × World)
      → IsPassed k s
      → IsPassed k (flushed env writer max_records s r)
  flushed-IsPassed s (ok done, w) h = record {
    position = h.position;
    committed = committed_after-passed k s.committed s.pending h.committed h.pending;
    pending = tt;
  }
  flushed-IsPassed s (err e, w) h = record {
    position = h.position;
    committed = h.committed;
    pending = tt;
  }

  flush_if_due-IsPassed :
      (old : Bool) (s : BatchSession)
      → IsPassed k s
      → IsPassed k (flush_if_due env writer max_records old s)
  flush_if_due-IsPassed old s h = either (is_due env writer max_records old s.pending)
    where
      either :
          (b : Bool)
          → IsPassed k (
              if b
              then flushed env writer max_records s (flush_records env writer s.pending s.world)
              else s)
      either true = flushed-IsPassed s (flush_records env writer s.pending s.world) h
      either false = h

  pub run-IsPassed :
      (log : List Delivered) (ts : List Turn) (s : BatchSession)
      → IsPassed k s
      → IsPassed k (batch_run env writer max_records log ts s)
  unfolding batch_run batch_turn
  run-IsPassed log [] s h = h
  run-IsPassed log (poll old ∷ ts) s h =
      run-IsPassed log ts _
        (flush_if_due-IsPassed old _ (receive-IsPassed s (message_at log s.position) h))
  run-IsPassed log (timeout old ∷ ts) s h = run-IsPassed log ts _ (flush_if_due-IsPassed old s h)
  run-IsPassed log (restart ∷ ts) s h = run-IsPassed log ts _ (restarted-IsPassed s h)

-- The gathered records are of messages before the position.
abbrev pub IsGathered : BatchSession → Type 0
IsGathered s = All (λ (r : AssessedRecord). r.kafka_offset < s.position) s.pending

AllBefore-append :
    (p : ℕ) (rs : List AssessedRecord) (r : AssessedRecord)
    → All (λ (x : AssessedRecord). x.kafka_offset < p) rs
    → r.kafka_offset ≡ p
    → All (λ (x : AssessedRecord). x.kafka_offset < suc p) (rs ++ (r ∷ []))
AllBefore-append p [] r h q = (omega (arith, q), tt)
AllBefore-append p (x ∷ rs) r h q = (omega (arith, h.0), AllBefore-append p rs r h.1 q)

module _ (env : Env) (writer : Writer) (max_records : ℕ) where
  commit_polled-IsGathered : (s : BatchSession) → IsGathered s → IsGathered (commit_polled s)
  commit_polled-IsGathered s h = All-imp s.pending (λ r before. omega (arith, before)) h

  on_undecoded-IsGathered :
      (e : ErrorKind) (s : BatchSession) → IsGathered s → IsGathered (on_undecoded e s)
  on_undecoded-IsGathered ErrorKind.json_decode_error s h = commit_polled-IsGathered s h
  on_undecoded-IsGathered _ s h = tt

  receive-IsGathered :
      (s : BatchSession) (o : Option Delivered)
      → IsGathered s
      → IsGathered (receive env writer max_records s o)
  receive-IsGathered s none h = h
  receive-IsGathered s (some m) h = of_value m.value
    where
      of_loaded : (r : Result Value) → IsGathered (receive_loaded env writer max_records s m r)
      of_loaded (ok v) = AllBefore-append s.position s.pending _ h refl
      of_loaded (err e) = on_undecoded-IsGathered e.kind s h

      of_value : (o : Option String) → IsGathered (receive_value env writer max_records s m o)
      of_value none = commit_polled-IsGathered s h
      of_value (some text) = of_loaded (env.library.loads text)

  flush_if_due-IsGathered :
      (old : Bool) (s : BatchSession)
      → IsGathered s
      → IsGathered (flush_if_due env writer max_records old s)
  flush_if_due-IsGathered old s h = either (is_due env writer max_records old s.pending)
    where
      of_flush : (r : Result (Unit {0}) × World) → IsGathered (flushed env writer max_records s r)
      of_flush (ok done, w) = tt
      of_flush (err e, w) = tt

      either :
          (b : Bool)
          → IsGathered (
              if b
              then flushed env writer max_records s (flush_records env writer s.pending s.world)
              else s)
      either true = of_flush (flush_records env writer s.pending s.world)
      either false = h

  -- Every session that the loop reaches has gathered its records before its position.
  pub run-IsGathered :
      (log : List Delivered) (ts : List Turn) (s : BatchSession)
      → IsGathered s
      → IsGathered (batch_run env writer max_records log ts s)
  unfolding batch_run batch_turn
  run-IsGathered log [] s h = h
  run-IsGathered log (poll old ∷ ts) s h =
      run-IsGathered log ts _
        (flush_if_due-IsGathered old _ (receive-IsGathered s (message_at log s.position) h))
  run-IsGathered log (timeout old ∷ ts) s h =
      run-IsGathered log ts _ (flush_if_due-IsGathered old s h)
  run-IsGathered log (restart ∷ ts) s h = run-IsGathered log ts _ tt

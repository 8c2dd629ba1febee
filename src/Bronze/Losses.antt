-- ===== src/Bronze/Losses.antt =====
-- The gathered records that the loop of the bronze writer loses.
use fintech_data_platform.Prelude.{
  ℕ, suc, ◌<◌, String, ◌≡◌, ◌≢◌, refl, ap, subst, sym, ◌∙◌, ◌⊎◌, inl, inr, true, false, Bool,
  Option, none, some, List, [], ◌∷◌, All, All-imp, leb, length, arith, if◌then◌else◌,
}
use fintech_data_platform.Json.{Value}
use fintech_data_platform.Exec.{Error, ErrorKind, Result, ok, err}
use fintech_data_platform.World.{World, Env}
use fintech_data_platform.Consumer.{Delivered, message_at}
use fintech_data_platform.Bronze.Row.{AssessedRecord}
use fintech_data_platform.Bronze.Batches.{Writer}
use fintech_data_platform.Bronze.Publish.{flush_records}
use fintech_data_platform.Bronze.Loop.{
  Turn, poll, timeout, restart, BatchSession, batch_run, batch_turn, commit_polled, committed_after,
  flush_if_due, flushed, is_due, on_undecoded, receive, receive_loaded, receive_value,
}
use fintech_data_platform.Bronze.Passed.{
  AllBehind, AllBehind-append, IsGathered, IsPassed, committed_after-passed, run-IsPassed,
}

-- No session ends among the turns.
abbrev pub IsUnbroken : List Turn → Type 0
IsUnbroken [] = Unit
IsUnbroken (restart ∷ ts) = ⊥
IsUnbroken (t ∷ ts) = IsUnbroken ts

-- Since the committed offset was `c` the message of the offset has not been gathered again, and
-- what was committed since then is behind it.
record IsPassing (k c : ℕ) (s : BatchSession) : Type 0 where
  position : k < s.position
  pending : AllBehind k s.pending
  committed : (s.committed ≡ c) ⊎ (k < s.committed)

module _ (env : Env) (writer : Writer) (max_records : ℕ) where
  is_due_young :
      (pending : List AssessedRecord)
      → leb max_records (length pending) ≡ false
      → is_due env writer max_records false pending ≡ false
  is_due_young [] h = refl
  is_due_young (r ∷ rs) h = rw h

  is_due_old :
      (r : AssessedRecord) (rs : List AssessedRecord)
      → is_due env writer max_records true (r ∷ rs) ≡ true
  is_due_old r rs = ground arith

  -- A tombstone that comes while a batch is gathered that is neither full nor old commits past the
  -- batch: if the session ends before the flush, nothing has been written for it, and none of its
  -- records is gathered again, whatever the turns of that session and of all later ones.
  pub tombstone_loses_batch :
      (log : List Delivered) (s : BatchSession) (m : Delivered)
      → IsGathered s
      → message_at log s.position ≡ some m
      → m.value ≡ none
      → leb max_records (length s.pending) ≡ false
      → (ts : List Turn)
      → let left = batch_run env writer max_records log (poll false ∷ restart ∷ []) s in
        (left.world ≡ s.world)
        × All
            (λ (r : AssessedRecord).
              IsPassed r.kafka_offset (batch_run env writer max_records log ts left))
            s.pending
  unfolding batch_run batch_turn
  tombstone_loses_batch log s m gathered em ev young ts =
      let left : batch_run env writer max_records log (poll false ∷ restart ∷ []) s
          ≡ record s { position = suc s.position; committed = suc s.position; pending = [] } =
        rw (em, ev, is_due_young s.pending young) in
      subst
        (λ (t : BatchSession).
          (t.world ≡ s.world)
          × All
              (λ (r : AssessedRecord).
                IsPassed r.kafka_offset (batch_run env writer max_records log ts t))
              s.pending)
        (sym left)
        (
          refl,
          All-imp s.pending
              (λ r before.
                run-IsPassed env writer max_records r.kafka_offset log ts
                  (record s { position = suc s.position; committed = suc s.position; pending = [] })
                  (record {
                    position = omega (arith, before);
                    committed = omega (arith, before);
                    pending = tt;
                  }))
              gathered,
        )

  module _ (k c : ℕ) where
    commit_polled-IsPassing : (s : BatchSession) → IsPassing k c s → IsPassing k c (commit_polled s)
    commit_polled-IsPassing s h = record {
      position = omega (arith, h.position);
      pending = h.pending;
      committed = inr (omega (arith, h.position));
    }

    undecoded-IsPassing :
        (e : ErrorKind) (s : BatchSession)
        → e ≡ ErrorKind.json_decode_error
        → IsPassing k c s
        → IsPassing k c (on_undecoded e s)
    undecoded-IsPassing e s q h = rw q (commit_polled-IsPassing s h)

    loaded-IsPassing :
        (s : BatchSession) (m : Delivered) (r : Result Value)
        → ((e : Error) → r ≡ err e → e.kind ≡ ErrorKind.json_decode_error)
        → IsPassing k c s
        → IsPassing k c (receive_loaded env writer max_records s m r)
    loaded-IsPassing s m (ok v) only h = record {
      position = omega (arith, h.position);
      pending = AllBehind-append k s.pending _ h.pending h.position;
      committed = h.committed;
    }
    loaded-IsPassing s m (err e) only h = undecoded-IsPassing e.kind s (only e refl) h

    receive-IsPassing :
        (s : BatchSession) (o : Option Delivered)
        → ((text : String) (e : Error)
            → env.library.loads text ≡ err e
            → e.kind ≡ ErrorKind.json_decode_error)
        → IsPassing k c s
        → IsPassing k c (receive env writer max_records s o)
    receive-IsPassing s none only h = h
    receive-IsPassing s (some m) only h = of_value m.value
      where
        of_value : (o : Option String) → IsPassing k c (receive_value env writer max_records s m o)
        of_value none = commit_polled-IsPassing s h
        of_value (some text) = loaded-IsPassing s m (env.library.loads text) (only text) h

    passing_after :
        (committed : ℕ) (rs : List AssessedRecord)
        → (committed ≡ c) ⊎ (k < committed)
        → AllBehind k rs
        → (committed_after committed rs ≡ c) ⊎ (k < committed_after committed rs)
    passing_after committed [] h behind = h
    passing_after committed (r ∷ rs) h behind =
        inr (committed_after-passed k (suc r.kafka_offset) rs (omega (arith, behind.0)) behind.1)

    flushed-IsPassing :
        (s : BatchSession) (r : Result (Unit {0}) × World)
        → IsPassing k c s
        → IsPassing k c (flushed env writer max_records s r)
    flushed-IsPassing s (ok done, w) h = record {
      position = h.position;
      pending = tt;
      committed = passing_after s.committed s.pending h.committed h.pending;
    }
    flushed-IsPassing s (err e, w) h = record {
      position = h.position;
      pending = tt;
      committed = h.committed;
    }

    flush_if_due-IsPassing :
        (old : Bool) (s : BatchSession)
        → IsPassing k c s
        → IsPassing k c (flush_if_due env writer max_records old s)
    flush_if_due-IsPassing old s h = either (is_due env writer max_records old s.pending)
      where
        either :
            (b : Bool)
            → IsPassing k c (
                if b
                then flushed env writer max_records s (flush_records env writer s.pending s.world)
                else s)
        either true = flushed-IsPassing s (flush_records env writer s.pending s.world) h
        either false = h

    run-IsPassing :
        (log : List Delivered) (ts : List Turn) (s : BatchSession)
        → ((text : String) (e : Error)
            → env.library.loads text ≡ err e
            → e.kind ≡ ErrorKind.json_decode_error)
        → IsUnbroken ts
        → IsPassing k c s
        → IsPassing k c (batch_run env writer max_records log ts s)
    unfolding batch_run batch_turn
    run-IsPassing log [] s only unbroken h = h
    run-IsPassing log (poll old ∷ ts) s only unbroken h =
        run-IsPassing log ts _ only unbroken
          (flush_if_due-IsPassing old _ (receive-IsPassing s (message_at log s.position) only h))
    run-IsPassing log (timeout old ∷ ts) s only unbroken h =
        run-IsPassing log ts _ only unbroken (flush_if_due-IsPassing old s h)
    run-IsPassing log (restart ∷ ts) s only unbroken h = absurd unbroken

    passed : (s : BatchSession) → IsPassing k c s → s.committed ≢ c → IsPassed k s
    passed s h moved = record {
      position = h.position;
      committed = behind h.committed;
      pending = h.pending;
    }
      where
        behind : (s.committed ≡ c) ⊎ (k < s.committed) → k < s.committed
        behind (inl same) = absurd (moved same)
        behind (inr lt) = lt

  failed-IsPassing :
      (k : ℕ) (s : BatchSession) (r : AssessedRecord) (rs : List AssessedRecord) (e : Error)
      (w : World)
      → k < s.position
      → s.pending ≡ r ∷ rs
      → flush_records env writer s.pending s.world ≡ (err e, w)
      → IsPassing k s.committed (flush_if_due env writer max_records true s)
  failed-IsPassing k s r rs e w before ep ef =
      rw (ap (is_due env writer max_records true) ep ∙ is_due_old r rs, ef)
        (record { position = before; pending = tt; committed = inl refl })

  -- After a flush that fails at a timeout, as soon as anything is committed in the same session, be
  -- it by another flush or by a message that is no record, none of the records of the failed batch is
  -- gathered again, whatever the turns of that session and of all later ones; `json.loads` is taken
  -- to raise nothing but its decode error.
  pub failed_batch_is_lost :
      (log : List Delivered) (s : BatchSession) (r : AssessedRecord) (rs : List AssessedRecord)
      (e : Error) (w : World) (ts us : List Turn)
      → ((text : String) (e : Error)
          → env.library.loads text ≡ err e
          → e.kind ≡ ErrorKind.json_decode_error)
      → IsGathered s
      → s.pending ≡ r ∷ rs
      → flush_records env writer s.pending s.world ≡ (err e, w)
      → IsUnbroken ts
      → (batch_run env writer max_records log (timeout true ∷ ts) s).committed ≢ s.committed
      → All
          (λ (x : AssessedRecord). IsPassed x.kafka_offset (
            batch_run env writer max_records log us
              (batch_run env writer max_records log (timeout true ∷ ts) s)))
          s.pending
  unfolding batch_run batch_turn
  failed_batch_is_lost log s r rs e w ts us only gathered ep ef unbroken moved =
      All-imp s.pending
        (λ x before. run-IsPassed env writer max_records x.kafka_offset log us _ (
          passed x.kafka_offset s.committed _
            (run-IsPassing x.kafka_offset s.committed log ts _ only unbroken
              (failed-IsPassing x.kafka_offset s r rs e w before ep ef))
            moved))
        gathered

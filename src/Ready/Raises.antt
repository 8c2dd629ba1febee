-- ===== src/Ready/Raises.antt =====
-- How the handlers of the two bronze writers end: what a dropped event leaves behind.
use fintech_data_platform.Prelude.{
  ℕ, String, ◌≡◌, refl, ap, sym, ◌∙◌, ◌||◌, Bool, true, false, if◌then◌else◌, arith,
}
use fintech_data_platform.Prelude.Int.{pos, eqb_ℤ}
use fintech_data_platform.Json.{Value, Fields, get}
use fintech_data_platform.Exec.{Error, Exec, Result, catch, continue, err, handled, ok, pure, raise}
use fintech_data_platform.World.{Env, Fault, World, transact}
use fintech_data_platform.Consumer.{Outcome}
use fintech_data_platform.Ready.Excel.{
  Converter, Header, excel_failed, excel_report, first_uri, handle_excel_ready, is_retryable,
  read_header, report_failure, write_excel_bronze,
}
use fintech_data_platform.Ready.Salesforce.{
  RawReady, Tables, close_empty, handle_salesforce_ready, is_empty, read_raw_ready, salesforce_body,
  salesforce_failed, salesforce_report, write_salesforce_bronze,
}
use fintech_data_platform.Ready.Loop.{ended}

-- A dropped end leaves the world as it was.
abbrev IsHarmless : World → Outcome × World → Type 0
IsHarmless w r = r.0 ≡ Outcome.dropped → r.1 ≡ w

module _ (w : World) where
  -- a handler that returns is not dropped
  returned : (r : Result Bool × World) → (b : Bool) × (r.0 ≡ ok b) → IsHarmless w (ended r)
  returned (ok b, x) h d = cc
  returned (err e, x) (b, q) d = cc

  unchanged : (r : Result Bool) → IsHarmless w (ended (r, w))
  unchanged (ok b) d = refl
  unchanged (err e) d = refl

  retried : (e : Error) (x : World) → is_retryable e ≡ true → IsHarmless w (ended (err e, x))
  retried e x h d = ground arith

  guarded :
      (x : World) (e : Error) (n : Exec World Bool)
      → IsHarmless w (ended (n x))
      → IsHarmless w (ended ((if is_retryable e then raise e else n) x))
  guarded x e n harmless = split (is_retryable e) refl
    where
      split : (b : Bool) → is_retryable e ≡ b → IsHarmless w (ended ((if b then raise e else n) x))
      split true q = retried e x q
      split false q = harmless

recovered : (r : Result Bool × World) → (b : Bool) × ((handled r (λ e. pure false)).0 ≡ ok b)
recovered (ok b, x) = (b, refl)
recovered (err e, x) = (false, refl)

report_failure_returns :
    (env : Env) (h : Header) (category summary : String) (details : Fields) (x : World)
    → (b : Bool) × ((report_failure env h category summary details x).0 ≡ ok b)
unfolding report_failure
report_failure_returns env h category summary details x = recovered _

module _ (env : Env) (h : Header) (w x : World) where
  reported :
      (e : Error) (r : Result Value)
      → ((e' : Error) → r ≡ err e' → x ≡ w)
      → IsHarmless w (ended (continue r (excel_report env h e) x))
  reported e (ok uri) same =
      returned w (excel_report env h e uri x)
        (report_failure_returns env h "excel_bronze_write_failed" "Excel bronze write failed" _ x)
  reported e (err e') same = λ d. same e' refl

  -- the `except` of the handler, for an error of the body
  excel_failed-IsHarmless :
      (e : Error)
      → ((e' : Error) → first_uri (get "output_uris" h.payload) ≡ err e' → x ≡ w)
      → IsHarmless w (ended (excel_failed env h e x))
  excel_failed-IsHarmless e same =
      guarded w x e _ (reported e (first_uri (get "output_uris" h.payload)) same)

module _ (env : Env) (converter : Converter) (w : World) where
  -- Where the first URI cannot be read, the body has done nothing.
  body_without_uri :
      (h : Header) (e : Error)
      → first_uri (get "output_uris" h.payload) ≡ err e
      → write_excel_bronze env converter h w ≡ (err e, w)
  unfolding write_excel_bronze
  body_without_uri h e q = rw q refl

  caught-IsHarmless :
      (h : Header) (r : Result Bool × World)
      → write_excel_bronze env converter h w ≡ r
      → IsHarmless w (ended (handled r (excel_failed env h)))
  caught-IsHarmless h (ok b, x) q = λ d. cc
  caught-IsHarmless h (err e, x) q =
      excel_failed-IsHarmless env h w x e
        (λ e' no_uri. ap (λ (p : Result Bool × World). p.1) (sym q ∙ body_without_uri h e' no_uri))

  headed :
      (fields : Fields) (r : Result Header)
      → IsHarmless w (
          ended
            (continue r (λ h. catch (write_excel_bronze env converter h) (excel_failed env h)) w))
  headed fields (ok h) = caught-IsHarmless h (write_excel_bronze env converter h w) refl
  headed fields (err e) = unchanged w (err e)

  -- Whatever the event, the objects and the failures of the services, an event that the Excel
  -- writer's loop drops after an error of the handler has changed nothing: no run, alert, object
  -- or message, and no draw of a time or an id.
  pub dropped_excel_event :
      (fields : Fields)
      → (ended (handle_excel_ready env converter fields w)).0 ≡ Outcome.dropped
      → (ended (handle_excel_ready env converter fields w)).1 ≡ w
  unfolding handle_excel_ready
  dropped_excel_event fields = headed fields (read_header env.library fields)

module _ (env : Env) (tables : Tables) (w : World) (m : RawReady) (partition offset : ℕ) where
  caught_salesforce :
      (r : Result Bool × World)
      → IsHarmless w (ended (handled r (salesforce_failed env tables m partition offset)))
  caught_salesforce (ok b, x) = λ d. cc
  caught_salesforce (err e, x) = guarded w x e (salesforce_report env tables m partition offset e) (
      returned w (salesforce_report env tables m partition offset e x) (
        report_failure_returns env m.header "salesforce_bronze_write_failed"
          "Salesforce bronze write failed" _ x))

  not_empty :
      (b : Bool)
      → b ≡ false
      → IsHarmless w (
          ended (
            (if b
                then close_empty env m
                else catch
                    (write_salesforce_bronze env tables m partition offset)
                    (salesforce_failed env tables m partition offset))
              w))
  not_empty true q = λ d. cc
  not_empty false q = caught_salesforce (write_salesforce_bronze env tables m partition offset w)

module _ (env : Env) (tables : Tables) (w : World) where
  opened :
      (r : Result RawReady) (partition offset : ℕ)
      → ((m : RawReady) → r ≡ ok m → (eqb_ℤ m.row_count (pos 0) || is_empty m.raw_uris) ≡ false)
      → IsHarmless w (ended (continue r (λ m. salesforce_body env tables m partition offset) w))
  opened (ok m) partition offset some_row =
      not_empty env tables w m partition offset _ (some_row m refl)
  opened (err e) partition offset some_row = unchanged w (err e)

  -- An event that the Salesforce writer's loop drops after an error of the handler has changed
  -- nothing, where the event, if it can be read, counts a row and names a page.
  pub dropped_salesforce_event :
      (fields : Fields) (partition offset : ℕ)
      → ((m : RawReady)
          → read_raw_ready env.library fields ≡ ok m
          → (eqb_ℤ m.row_count (pos 0) || is_empty m.raw_uris) ≡ false)
      → (ended (handle_salesforce_ready env tables fields partition offset w)).0 ≡ Outcome.dropped
      → (ended (handle_salesforce_ready env tables fields partition offset w)).1 ≡ w
  unfolding handle_salesforce_ready
  dropped_salesforce_event fields partition offset some_row =
      opened (read_raw_ready env.library fields) partition offset some_row

  -- An event that counts no row, or names no page, whose run cannot be closed because the database
  -- does not answer, is dropped, and the event store is as it was: the run stays open, and the
  -- event is not taken again.
  pub unclosed_empty_run :
      (fields : Fields) (partition offset : ℕ) (m : RawReady)
      → read_raw_ready env.library fields ≡ ok m
      → (eqb_ℤ m.row_count (pos 0) || is_empty m.raw_uris) ≡ true
      → env.fault w.ticks ≡ Fault.lost
      → ((ended (handle_salesforce_ready env tables fields partition offset w)).0 ≡ Outcome.dropped)
        × ((ended (handle_salesforce_ready env tables fields partition offset w)).1.store ≡ w.store)
  unfolding handle_salesforce_ready close_empty transact
  unclosed_empty_run fields partition offset m read no_row lost =
      rw (read, no_row, lost) (refl, refl)

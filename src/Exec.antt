-- ===== src/Exec.antt =====
-- Python methods that change shared state and may raise. What was written before a raise stays
-- written, so the state comes back beside the error too; a database transaction is what undoes it.
use fintech_data_platform.Prelude.{
  String, ◌≡◌, refl, ap, ◌⊎◌, inl, inr, Bool, true, false, if◌then◌else◌,
}

-- The exception classes that the source tells apart, or that its calls raise.
pub data ErrorKind : Type 0 where
  value_error json_decode_error key_error type_error runtime_error : ErrorKind
  integrity_error external_error retryable_error workflow_error : ErrorKind

pub record Error : Type 0 where
  pub kind : ErrorKind
  -- `str(exc)`
  pub message : String

pub data Result {ℓ} (A : Type ℓ) : Type ℓ where
  ok : A → Result A
  err : Error → Result A

pub Result-cases {ℓ} :
    {A : Type ℓ} (r : Result A) → ((a : A) × (r ≡ ok a)) ⊎ ((e : Error) × (r ≡ err e))
Result-cases (ok a) = inl (a, refl)
Result-cases (err e) = inr (e, refl)

-- What comes next, of calls that change nothing.
infixl 10 ◌>>>◌
abbrev pub ◌>>>◌ {ℓ} : {A B : Type ℓ} → Result A → (A → Result B) → Result B
ok a >>> f = f a
err e >>> f = err e

-- A chain that has a value has one at every link.
pub chain_ok {ℓ} :
    {A B : Type ℓ} (r : Result A) (f : A → Result B) {b : B}
    → (r >>> f) ≡ ok b
    → (a : A) × ((r ≡ ok a) × (f a ≡ ok b))
chain_ok (ok a) f h = (a, (refl, h))
chain_ok (err e) f h = cc

pub ok_inj {ℓ} : {A : Type ℓ} {a b : A} → ok a ≡ ok b → a ≡ b
ok_inj {A = A} {a = a} h = ap value h
  where
    value : Result A → A
    value (ok x) = x
    value (err e) = a

abbrev pub failure : ErrorKind → String → Error
failure k m = record { kind = k; message = m }

abbrev pub Exec {ℓ} : Type ℓ → Type ℓ → Type ℓ
Exec W A = W → Result A × W

module _ {ℓ} {W A : Type ℓ} where
  abbrev pub pure : A → Exec W A
  pure a w = (ok a, w)

  abbrev pub raise : Error → Exec W A
  raise e w = (err e, w)

  abbrev pub lift : Result A → Exec W A
  lift r w = (r, w)

  abbrev pub gets : (W → A) → Exec W A
  gets f w = (ok (f w), w)

abbrev pub modify {ℓ} : {W : Type ℓ} → (W → W) → Exec W (Unit {ℓ})
modify f w = (ok tt, f w)

abbrev pub raise_if {ℓ} : {W : Type ℓ} → Bool → Error → Exec W (Unit {ℓ})
raise_if b e w = (if b then err e else ok tt, w)

module _ {ℓ} {W A B : Type ℓ} where
  abbrev pub continue : Result A → (A → Exec W B) → Exec W B
  continue (ok a) f w = f a w
  continue (err e) f w = (err e, w)

  infixl 10 ◌>>=◌ ◌>>◌
  abbrev pub ◌>>=◌ : Exec W A → (A → Exec W B) → Exec W B
  ◌>>=◌ m f w = let (r, w') = m w in continue r f w'

  abbrev pub ◌>>◌ : Exec W A → Exec W B → Exec W B
  m >> n = m >>= λ _. n

  -- A chain that returns has returned at every link.
  pub bind_ok :
      (m : Exec W A) (f : A → Exec W B) (w : W) {b : B} {v : W}
      → (m >>= f) w ≡ (ok b, v)
      → (a : A) × (u : W) × (m w ≡ (ok a, u)) × (f a u ≡ (ok b, v))
  bind_ok m f w {b = b} {v = v} h = of_first (m w).0 (m w).1 refl h
    where
      of_first :
          (r : Result A) (u : W)
          → m w ≡ (r, u)
          → continue r f u ≡ (ok b, v)
          → (a : A) × (u' : W) × (m w ≡ (ok a, u')) × (f a u' ≡ (ok b, v))
      of_first (ok a) u q h = (a, u, q, h)
      of_first (err e) u q h = cc

abbrev pub handled {ℓ} : {W A : Type ℓ} → Result A × W → (Error → Exec W A) → Result A × W
handled (ok a, w) handler = (ok a, w)
handled (err e, w) handler = handler e w

-- `try: m  except Exception as exc: handler(exc)`, where the handler ends the call.
abbrev pub catch {ℓ} : {W A : Type ℓ} → Exec W A → (Error → Exec W A) → Exec W A
catch m handler w = handled (m w) handler

-- What each branch leaves the conditional leaves, under its test.
pub if_leaves {ℓ κ} :
    {W A : Type ℓ} (P : W → Type κ) (b : Bool) (x y : Result A × W)
    → (b ≡ true → P x.1)
    → (b ≡ false → P y.1)
    → P (if b then x else y).1
if_leaves P true x y hx hy = hx refl
if_leaves P false x y hx hy = hy refl

-- `m` keeps `P`, whether it returns or raises.
pub record Keeps {ℓ} {W A : Type ℓ} (P : W → Type ℓ) (m : Exec W A) : Type ℓ where
  pub at : (w : W) → P w → P (m w).1

module _ {ℓ} {W A : Type ℓ} {P : W → Type ℓ} where
  pub Keeps-pure : (a : A) → Keeps P (pure {W = W} a)
  Keeps-pure a = record { at = λ w h. h }

  pub Keeps-raise : (e : Error) → Keeps P (raise {W = W} {A = A} e)
  Keeps-raise e = record { at = λ w h. h }

  pub Keeps-lift : (r : Result A) → Keeps P (lift {W = W} r)
  Keeps-lift r = record { at = λ w h. h }

  pub Keeps-gets : (f : W → A) → Keeps P (gets f)
  Keeps-gets f = record { at = λ w h. h }

  pub Keeps-if : (b : Bool) (m n : Exec W A) → Keeps P m → Keeps P n → Keeps P (if b then m else n)
  Keeps-if true m n km kn = km
  Keeps-if false m n km kn = kn

  pub Keeps-catch :
      (m : Exec W A) (handler : Error → Exec W A)
      → Keeps P m
      → ((e : Error) → Keeps P (handler e))
      → Keeps P (catch m handler)
  Keeps-catch m handler km kh = record { at = λ w h. after (m w).0 (m w).1 (km.at w h) }
    where
      after : (r : Result A) (w' : W) → P w' → P (handled (r, w') handler).1
      after (ok a) w' h = h
      after (err e) w' h = (kh e).at w' h

module _ {ℓ} {W A B : Type ℓ} {P : W → Type ℓ} where
  pub Keeps-continue :
      (r : Result A) (f : A → Exec W B) → ((a : A) → Keeps P (f a)) → Keeps P (continue r f)
  Keeps-continue (ok a) f kf = kf a
  Keeps-continue (err e) f kf = record { at = λ w h. h }

  pub Keeps-bind :
      (m : Exec W A) (f : A → Exec W B) → Keeps P m → ((a : A) → Keeps P (f a)) → Keeps P (m >>= f)
  Keeps-bind m f km kf = record { at = λ w h. (Keeps-continue (m w).0 f kf).at (m w).1 (km.at w h) }

-- `m` raises wherever `P` holds.
pub record Raises {ℓ} {W A : Type ℓ} (P : W → Type ℓ) (m : Exec W A) : Type ℓ where
  pub at : (w : W) → P w → (e : Error) × ((m w).0 ≡ err e)

-- What keeps `P` up to a call that raises under it raises.
pub Raises-bind {ℓ} :
    {W A B : Type ℓ} {P : W → Type ℓ} (m : Exec W A) (f : A → Exec W B)
    → Keeps P m
    → ((a : A) → Raises P (f a))
    → Raises P (m >>= f)
Raises-bind {W = W} {A = A} {B = B} {P = P} m f km rf = record {
  at = λ w h. after (m w).0 (m w).1 (km.at w h);
}
  where
    after : (r : Result A) (u : W) → P u → (e : Error) × ((continue r f u).0 ≡ err e)
    after (ok a) u h = (rf a).at u h
    after (err e) u h = (e, refl)

pub ruleset keeps_rules =
    (Keeps-pure, Keeps-raise, Keeps-lift, Keeps-gets, Keeps-if, Keeps-bind, Keeps-catch)

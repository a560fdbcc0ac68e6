-- ===== src/Relay/Steps.antt =====
-- Rules for the steps of the gate: what they send, and what holds where they end.
use ai_studio.Prelude.{◌≡◌, refl, ◌∙◌, Result, ok, err}
use ai_studio.Trust.{TrustError, Ledger}
use ai_studio.Relay.{Studio, Step, pure, continue, ◌>>=◌, ◌>>◌, on_ledger}

-- The step sends nothing.
pub record IsQuiet {ℓ} {A : Type ℓ} (m : Step A) : Type ℓ where
  pub silent : (s : Studio) → (m s).1.sent ≡ s.sent

pub IsQuiet-pure {ℓ} : {A : Type ℓ} (a : A) → IsQuiet (pure a)
IsQuiet-pure a = record { silent = λ s. refl }

pub IsQuiet-on_ledger {ℓ} :
    {A : Type ℓ} (f : Ledger → Result TrustError A × Ledger) → IsQuiet (on_ledger f)
IsQuiet-on_ledger f = record { silent = λ s. refl }

continue-silent {ℓ κ} :
    {A : Type ℓ} {B : Type κ} (r : Result TrustError A) (k : A → Step B) (s : Studio)
    → ((a : A) → IsQuiet (k a))
    → (continue r k s).1.sent ≡ s.sent
continue-silent (ok a) k s q = (q a).silent s
continue-silent (err e) k s q = refl

pub IsQuiet-bind {ℓ κ} :
    {A : Type ℓ} {B : Type κ} (m : Step A) (k : A → Step B)
    → IsQuiet m
    → ((a : A) → IsQuiet (k a))
    → IsQuiet (m >>= k)
IsQuiet-bind m k p q = record { silent = λ s. continue-silent (m s).0 k (m s).1 q ∙ p.silent s }

pub IsQuiet-then {ℓ κ} :
    {A : Type ℓ} {B : Type κ} (m : Step A) (k : Step B) → IsQuiet m → IsQuiet k → IsQuiet (m >> k)
IsQuiet-then m k p q = IsQuiet-bind m (λ _. k) p (λ _. q)

-- Where the step returns, its value and its state satisfy `Q`.
abbrev pub Ends {ℓ κ} : {A : Type ℓ} → (A → Studio → Type κ) → Result TrustError A × Studio → Type κ
Ends Q (ok a, s) = Q a s
Ends Q (err e, s) = Unit

continue-Ends {ℓ κ ι μ} :
    {A : Type ℓ} {B : Type κ} (P : A → Studio → Type μ) (Q : B → Studio → Type ι)
    (r : Result TrustError A) (k : A → Step B) (s : Studio)
    → Ends P (r, s)
    → ((a : A) (s' : Studio) → P a s' → Ends Q (k a s'))
    → Ends Q (continue r k s)
continue-Ends P Q (ok a) k s h q = q a s h
continue-Ends P Q (err e) k s h q = tt

pub Ends-bind {ℓ κ ι μ} :
    {A : Type ℓ} {B : Type κ} (P : A → Studio → Type μ) (Q : B → Studio → Type ι) (m : Step A)
    (k : A → Step B) (s : Studio)
    → Ends P (m s)
    → ((a : A) (s' : Studio) → P a s' → Ends Q (k a s'))
    → Ends Q ((m >>= k) s)
Ends-bind P Q m k s h q = continue-Ends P Q (m s).0 k (m s).1 h q

-- What holds at the end, with the run itself.
pub Ends-reached {ℓ κ} :
    {A : Type ℓ} (Q : A → Studio → Type κ) (r : Result TrustError A × Studio)
    → Ends Q r
    → Ends (λ a s'. Q a s' × (r ≡ (ok a, s'))) r
Ends-reached Q (ok a, s) h = (h, refl)
Ends-reached Q (err e, s) h = tt

-- With nothing asked of the first step.
abbrev pub Any {ℓ} : {A : Type ℓ} → A → Studio → Type 0
Any a s = Unit {0}

pub Ends-Any {ℓ} : {A : Type ℓ} (r : Result TrustError A × Studio) → Ends Any r
Ends-Any (ok a, s) = tt
Ends-Any (err e, s) = tt

pub Ends-then {ℓ κ ι} :
    {A : Type ℓ} {B : Type κ} (Q : B → Studio → Type ι) (m : Step A) (k : A → Step B) (s : Studio)
    → ((a : A) (s' : Studio) → Ends Q (k a s'))
    → Ends Q ((m >>= k) s)
Ends-then Q m k s q = Ends-bind Any Q m k s (Ends-Any (m s)) (λ a s' _. q a s')

-- ===== src/Store/Claiming/Verdicts.antt =====
-- Claiming.antt: the ways in which a part of the transaction can have ended well, and which errors
-- come after a commit.
use ai_engineer_workflow.Prelude.{
  Bool, true, false, Option, none, some, ◌≡◌, ◌≢◌, refl, if◌then◌else◌,
}
use ai_engineer_workflow.Store.Errors.{
  Result, ok, err, out_of_fuel, Answers, answers_ok, answers_err, StoreError, err_not_ready,
  session_authentication_terminalized,
}
use ai_engineer_workflow.Store.Ledger.{Ledger}
use ai_engineer_workflow.Store.Claiming.{
  Verdict, go, refuse, commit_and_refuse, stuck, proceed, found, unless, lifted, ending,
}

module _ {ℓ κ} {A : Type ℓ} {B : Type κ} where
  pub proceed-go :
      (m : Verdict A) (f : A → Verdict B) (b : B)
      → proceed m f ≡ go b
      → (a : A) × (m ≡ go a) × (f a ≡ go b)
  proceed-go (go a) f b h = (a, refl, h)
  proceed-go (refuse e) f b h = cc
  proceed-go (commit_and_refuse l e) f b h = cc
  proceed-go stuck f b h = cc

  pub found-go :
      (o : Option A) (e : StoreError) (f : A → Verdict B) (b : B)
      → found o e f ≡ go b
      → (a : A) × (o ≡ some a) × (f a ≡ go b)
  found-go (some a) e f b h = (a, refl, h)
  found-go none e f b h = cc

module _ {ℓ} {A : Type ℓ} where
  pub unless-go :
      (bad : Bool) (e : StoreError) (m : Verdict A) (a : A)
      → unless bad e m ≡ go a
      → (bad ≡ false) × (m ≡ go a)
  unless-go true e m a h = cc
  unless-go false e m a h = (refl, h)

  pub lifted-go : (m : Result A) (a : A) → lifted m ≡ go a → m ≡ ok a
  lifted-go (ok x) a h = cc
  lifted-go (err e) a h = cc
  lifted-go out_of_fuel a h = cc

  pub ending-go : (e : StoreError) (m : Result Ledger) (a : A) → ending e m ≢ go a
  ending-go e (ok l) a h = cc
  ending-go e (err f) a h = cc
  ending-go e out_of_fuel a h = cc

-- It comes to an end, and an error after a commit is one of two.
pub data Ends {ℓ} {A : Type ℓ} : Verdict A → Type ℓ where
  ends_go : (a : A) → Ends (go a)
  ends_refuse : (e : StoreError) → Ends (refuse e)
  ends_not_ready : (l : Ledger) → Ends (commit_and_refuse l err_not_ready)
  ends_authentication :
      (l : Ledger) → Ends (commit_and_refuse l session_authentication_terminalized)

module _ {ℓ} {A : Type ℓ} where
  pub unless-Ends : (bad : Bool) (e : StoreError) (m : Verdict A) → Ends m → Ends (unless bad e m)
  unless-Ends true e m h = ends_refuse e
  unless-Ends false e m h = h

  pub if-Ends : (b : Bool) (m n : Verdict A) → Ends m → Ends n → Ends (if b then m else n)
  if-Ends true m n h k = h
  if-Ends false m n h k = k

  pub lifted-Ends : (m : Result A) → Answers m → Ends (lifted m)
  lifted-Ends m (answers_ok a) = ends_go a
  lifted-Ends m (answers_err e) = ends_refuse e

pub ending-Ends {ℓ} :
    {A : Type ℓ} (m : Result Ledger) → Answers m → Ends (ending {A = A} err_not_ready m)
ending-Ends m (answers_ok l) = ends_not_ready l
ending-Ends m (answers_err e) = ends_refuse e

module _ {ℓ κ} {A : Type ℓ} {B : Type κ} where
  pub proceed-Ends :
      (m : Verdict A) (f : A → Verdict B) → Ends m → ((a : A) → Ends (f a)) → Ends (proceed m f)
  proceed-Ends m f (ends_go a) k = k a
  proceed-Ends m f (ends_refuse e) k = ends_refuse e
  proceed-Ends m f (ends_not_ready l) k = ends_not_ready l
  proceed-Ends m f (ends_authentication l) k = ends_authentication l

  pub found-Ends :
      (o : Option A) (e : StoreError) (f : A → Verdict B)
      → ((a : A) → Ends (f a))
      → Ends (found o e f)
  found-Ends (some a) e f k = k a
  found-Ends none e f k = ends_refuse e

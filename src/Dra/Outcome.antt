-- ===== src/Dra/Outcome.antt =====
use diam_gw.Prelude.{◌≡◌, ◌⊎◌, refl, inl, inr}

-- What a function of the agent does: it returns, with or without an error, or it panics. `stuck` is
-- no behaviour of the code: a loop of the model ran out of fuel.

pub data Error : Type 0 where
  short_header message_too_short truncated_avp_header bad_avp_length truncated_vendor_avp
        bad_avp_data_length :
      Error

pub data Outcome {ℓ} (A : Type ℓ) : Type ℓ where
  ok : A → Outcome A
  err : Error → Outcome A
  panic : Outcome A
  stuck : Outcome A

infixl 5 ◌>>=◌
abbrev pub ◌>>=◌ {ℓ κ} : {A : Type ℓ} {B : Type κ} → Outcome A → (A → Outcome B) → Outcome B
ok a >>= f = f a
err e >>= f = err e
panic >>= f = panic
stuck >>= f = stuck

pub Outcome-cases {ℓ} :
    {A : Type ℓ} (o : Outcome A)
    → ((a : A) × (o ≡ ok a)) ⊎ (((e : Error) × (o ≡ err e)) ⊎ ((o ≡ panic) ⊎ (o ≡ stuck)))
Outcome-cases (ok a) = inl (a, refl)
Outcome-cases (err e) = inr (inl (e, refl))
Outcome-cases panic = inr (inr (inl refl))
Outcome-cases stuck = inr (inr (inr refl))

pub ok_inj {ℓ} : {A : Type ℓ} {a b : A} → Outcome.ok a ≡ Outcome.ok b → a ≡ b
ok_inj h = cc

-- ===== src/Client/Ensures.antt =====
-- Postconditions of the client's methods: of the result, of the failure, and that the fuel was enough.
use mailpeek.Prelude.{◌≡◌}
use mailpeek.Client.Platform.{Failure, M, Outcome, done, raised, out_of_fuel, ◌>>=◌, catch}

abbrev pub Ensures {ℓ} :
    {W : Type 0} {A : Type ℓ} → (A → W → Type 0) → (Failure → W → Type 0) → Outcome W A → Type 0
Ensures Q R (done a w) = Q a w
Ensures Q R (raised e w) = R e w
Ensures Q R out_of_fuel = ⊥

module _ {ℓ} {W : Type 0} {A : Type ℓ} where
  -- A step, and what follows from wherever it leads.
  pub bind_rule {κ} :
      {B : Type κ} (Q : A → W → Type 0) (Q' : B → W → Type 0) (R : Failure → W → Type 0) (m : M W A)
      (k : A → M W B) (w : W)
      → Ensures Q R (m w)
      → ((a : A) (w' : W) → Q a w' → Ensures Q' R (k a w'))
      → Ensures Q' R ((m >>= k) w)
  bind_rule Q Q' R m k w h next = go (m w) h
    where
      go :
          (o : Outcome W A)
          → Ensures Q R o
          → Ensures Q' R (elim o [
            | done a w' ↦ k a w'
            | raised e w' ↦ raised e w'
            | out_of_fuel ↦ out_of_fuel
          ])
      go (done a w') h = next a w' h
      go (raised e w') h = h
      go out_of_fuel h = absurd h

  pub catch_rule :
      (Q : A → W → Type 0) (R R' : Failure → W → Type 0) (m : M W A) (handler : Failure → M W A)
      (w : W)
      → Ensures Q R (m w)
      → ((e : Failure) (w' : W) → R e w' → Ensures Q R' (handler e w'))
      → Ensures Q R' (catch m handler w)
  catch_rule Q R R' m handler w h next = go (m w) h
    where
      go :
          (o : Outcome W A)
          → Ensures Q R o
          → Ensures Q R' (elim o [
            | done a w' ↦ done a w'
            | raised e w' ↦ handler e w'
            | out_of_fuel ↦ out_of_fuel
          ])
      go (done a w') h = h
      go (raised e w') h = next e w' h
      go out_of_fuel h = absurd h

  pub weaken :
      {Q Q' : A → W → Type 0} {R R' : Failure → W → Type 0} (o : Outcome W A)
      → ((a : A) (w : W) → Q a w → Q' a w)
      → ((e : Failure) (w : W) → R e w → R' e w)
      → Ensures Q R o
      → Ensures Q' R' o
  weaken (done a w) f g h = f a w h
  weaken (raised e w) f g h = g e w h
  weaken out_of_fuel f g h = h

-- A step that returns hands on its result.
pub bind_done {ℓ κ} :
    {W : Type 0} {A : Type ℓ} {B : Type κ} (m : M W A) (k : A → M W B) (w : W) {a : A} {w' : W}
    → m w ≡ done a w'
    → (m >>= k) w ≡ k a w'
bind_done m k w e = rw (e, ◌>>=◌)

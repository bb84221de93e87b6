-- ===== src/World/Laws.antt =====
-- What a successful bind went through.
use service_json_keys.Prelude.{◌≡◌, refl, sym, ap}
use service_json_keys.Fault.{Error, Result, ok, err, panic, map_error, map_error-eq-ok}
use service_json_keys.World.{World, Exec, lift, on_error, continue, ◌>>=◌}

module _ {ℓ κ} {A : Type ℓ} {B : Type κ} where
  continue-eq-ok :
      (r : Result A) (f : A → Exec B) (w : World) {b : B} {v : World}
      → continue r f w ≡ (ok b, v)
      → (a : A) × (r ≡ ok a) × (f a w ≡ (ok b, v))
  continue-eq-ok (ok a) f w h = (a, refl, h)
  continue-eq-ok (err e) f w h = cc
  continue-eq-ok panic f w h = cc

  pub >>=-eq-ok :
      (m : Exec A) (f : A → Exec B) (w : World) {b : B} {v : World}
      → (m >>= f) w ≡ (ok b, v)
      → (a : A) × (u : World) × (m w ≡ (ok a, u)) × (f a u ≡ (ok b, v))
  unfolding ◌>>=◌
  >>=-eq-ok m f w h =
      let (r, u) = m w in let (a, e, rest) = continue-eq-ok r f u h in (a, u, λ i. (e i, u), rest)

module _ {ℓ} {A : Type ℓ} (f : Error → Error) where
  pub on_error-eq-ok :
      (m : Exec A) (w : World) {a : A} {v : World} → on_error f m w ≡ (ok a, v) → m w ≡ (ok a, v)
  on_error-eq-ok m w h = λ i. (map_error-eq-ok f (m w).0 (ap (λ p. p.0) h) i, (h i).1)

  pub lift-eq-ok :
      (r : Result A) (w : World) {a : A} {v : World}
      → lift (map_error f r) w ≡ (ok a, v)
      → (r ≡ ok a) × (v ≡ w)
  lift-eq-ok r w h = (map_error-eq-ok f r (ap (λ p. p.0) h), sym (ap (λ p. p.1) h))

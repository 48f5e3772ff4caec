-- ===== src/Env/Rules.antt =====
-- Inversion of calls that return `Ok`, for proofs where the parts stay shut.
use predict_iq.Prelude.{◌≡◌, refl}
use predict_iq.Env.External.{Host}
use predict_iq.Env.Stores.{Env}
use predict_iq.Env.Monad.{Outcome, ok, err, panic, M, continue, ◌>>=◌}

module _ {host : Host} {A B : Type 0} where
  -- Both parts of a chain have returned `Ok`.
  abbrev pub Chain : M host A → (A → M host B) → Env host → B → Env host → Type 0
  Chain m f e b e'' = (a : A) × (e' : Env host) × (m e ≡ (ok a, e')) × (f a e' ≡ (ok b, e''))

  continue_ok :
      (r : Outcome A) (f : A → M host B) (e' : Env host) {b : B} {e'' : Env host}
      → continue r f e' ≡ (ok b, e'')
      → (a : A) × (r ≡ ok a) × (f a e' ≡ (ok b, e''))
  continue_ok (ok a) f e' h = (a, refl, h)
  continue_ok (err c) f e' h = cc
  continue_ok panic f e' h = cc

  pub >>=-eq-ok :
      (m : M host A) (f : A → M host B) (e : Env host) {b : B} {e'' : Env host}
      → ◌>>=◌ m f e ≡ (ok b, e'')
      → Chain m f e b e''
  >>=-eq-ok m f e h =
      let (a, p, q) = continue_ok (m e).0 f (m e).1 h in (a, (m e).1, (λ i. (p i, (m e).1)), q)

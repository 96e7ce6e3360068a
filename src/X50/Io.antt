-- ===== src/X50/Io.antt =====
-- Methods over the outside world: they return a result, and the world afterwards, which stays
-- changed beside an error too.
pub mod Returns
use sony_prs.Base.{Bool, true, false, Result, ok, err}
use sony_prs.X50.{Error}

abbrev pub M : Type 0 → Type 0 → Type 0
M W A = W → Result Error A × W

module _ {W A : Type 0} where
  abbrev pub pure : A → M W A
  pure a w = (ok a, w)

  abbrev pub throw : Error → M W A
  throw e w = (err e, w)

  abbrev pub lift : Result Error A → M W A
  lift r w = (r, w)

module _ {W A B : Type 0} where
  abbrev pub continue : (A → M W B) → Result Error A → M W B
  continue f (ok a) w = f a w
  continue f (err e) w = (err e, w)

  infixl 5 ◌>>=◌ ◌>>◌
  unfoldable pub ◌>>=◌ : M W A → (A → M W B) → M W B
  ◌>>=◌ m f w = let (r, w') = m w in continue f r w'

  abbrev pub ◌>>◌ : M W A → M W B → M W B
  m >> n = m >>= λ _. n

module _ {W : Type 0} where
  -- `if !test { return Err(e) }`.
  abbrev pub check : Bool → Error → M W (Unit {0})
  check true e = pure tt
  check false e = throw e

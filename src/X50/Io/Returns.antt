-- ===== src/X50/Io/Returns.antt =====
-- What a method returns when it succeeds, one rule for each way to build a method.
use sony_prs.Base.{◌≡◌, refl, Bool, true, false, Result, ok, err, ok_inj, subst}
use sony_prs.X50.{Error}
use sony_prs.X50.Io.{M, pure, continue, ◌>>=◌, ◌>>◌, check}

-- Whenever `m` succeeds, its value satisfies `P`.
pub record Returns {W A : Type 0} (P : A → Type 0) (m : M W A) : Type 0 where
  pub at : (w : W) (a : A) → (m w).0 ≡ ok a → P a

module _ {W A B : Type 0} {P : B → Type 0} where
  continue-Returns :
      (f : A → M W B) (r : Result Error A) (w : W) (b : B)
      → ((a : A) → r ≡ ok a → Returns P (f a))
      → (continue f r w).0 ≡ ok b
      → P b
  continue-Returns f (ok a) w b h e = (h a refl).at w b e
  continue-Returns f (err x) w b h e = cc

  -- The rest of the method may use what is known of the first value.
  pub Returns-bind_with :
      (Q : A → Type 0) (m : M W A) (f : A → M W B)
      → Returns Q m
      → ((a : A) → Q a → Returns P (f a))
      → Returns P (m >>= f)
  unfolding ◌>>=◌
  Returns-bind_with Q m f hm hf = record {
    at = λ w b e. continue-Returns f (m w).0 (m w).1 b (λ a r. hf a (hm.at w a r)) e;
  }

  pub Returns-bind : (m : M W A) (f : A → M W B) → ((a : A) → Returns P (f a)) → Returns P (m >>= f)
  unfolding ◌>>=◌
  Returns-bind m f hf = record {
    at = λ w b e. continue-Returns f (m w).0 (m w).1 b (λ a r. hf a) e;
  }

module _ {W A : Type 0} {P : A → Type 0} where
  pub Returns-pure : (a : A) → P a → Returns {W = W} P (pure a)
  Returns-pure a h = record { at = λ w b e. subst P (ok_inj e) h }

  pub Returns-check :
      (b : Bool) (x : Error) (m : M W A) → (b ≡ true → Returns P m) → Returns P (check b x >> m)
  unfolding ◌>>=◌
  Returns-check true x m h = h refl
  Returns-check false x m h = record { at = λ w a e. cc }

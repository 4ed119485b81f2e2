-- ===== src/Base/Exec.antt =====
-- A Go method that writes to its receiver and may return an error. What was written before an
-- error stays written, so the state comes back beside the error too.
use mathlib.Core.Path.{◌≡◌, ap, ◌∙◌}
use community.Base.Result.{Result, ok, err}

abbrev pub Exec : Type 0 → Type 0 → Type 0 → Type 0
Exec E S A = S → Result E A × S

module _ {E S A : Type 0} where
  abbrev pub pure : A → Exec E S A
  pure a s = (ok a, s)

  abbrev pub lift : Result E A → Exec E S A
  lift r s = (r, s)

  abbrev pub gets : (S → A) → Exec E S A
  gets f s = (ok (f s), s)

  -- a function of the state that may fail, and changes nothing
  abbrev pub reads : (S → Result E A) → Exec E S A
  reads f s = (f s, s)

module _ {E S A B : Type 0} where
  infixl 5 ◌>>=◌ ◌>>◌
  abbrev pub ◌>>=◌ : Exec E S A → (A → Exec E S B) → Exec E S B
  ◌>>=◌ m f s = let (r, s') = m s in elim r [ ok a ↦ f a s' | err e ↦ (err e, s') ]

  abbrev pub ◌>>◌ : Exec E S A → Exec E S B → Exec E S B
  m >> k = m >>= λ _. k

module _ {E S : Type 0} where
  abbrev pub modify : (S → S) → Exec E S (Unit {0})
  modify f s = (ok tt, f s)

-- A step that succeeds is followed by the rest, from the state that it leaves.
pub >>-ok :
    {E S A B : Type 0} (m : Exec E S A) (k : Exec E S B) (s s' : S) (a : A) {r : Result E B × S}
    → m s ≡ (ok a, s')
    → k s' ≡ r
    → (m >> k) s ≡ r
>>-ok {E = E} {S = S} {A = A} {B = B} m k s s' a h rest =
    let continue : Result E A × S → Result E B × S =
      λ p. elim p.0 [ ok a ↦ k p.1 | err e ↦ (err e, p.1) ] in
    ap continue h ∙ rest
